-- ===== src/Upstream.antt =====
-- internal/upstream/client.go: discovery of endpoints, choice of an endpoint, and the retries of
-- `Do` and `DoStream`. What the network answers and what `rand.Intn` draws are arguments.
pub mod Discover
pub mod Pick
pub mod Request
pub mod Models
pub mod Retry
pub mod Signed
pub mod Streaming
use opengnk.Prelude.{
  ℕ, zero, suc, ◌+◌, ◌%◌, Bool, true, false, not, ◌&&◌, ◌||◌, List, [], ◌∷◌, ◌++◌, Option, none,
  some, leb, ltb, ◌==◌, if◌then◌else◌, length, get_elem?,
}
use opengnk.Text.{Bytes, codes, equal}
use opengnk.Wallet.{Wallet, Pool, next}

pub record Endpoint : Type 0 where
  pub url : Bytes
  pub address : Bytes

-- `m[k]` of a `map[string]bool` whose values are all true, as the list of its keys.
unfoldable pub member : Bytes → List Bytes → Bool
member k [] = false
member k (j ∷ js) = equal j k || member k js

abbrev pub allowed_transfer_agents : List Bytes
allowed_transfer_agents =
    codes "gonka1y2a9p56kv044327uycmqdexl7zs82fs5ryv5le"
    ∷ codes "gonka1dkl4mah5erqggvhqkpc8j3qs5tyuetgdy552cp"
    ∷ codes "gonka1kx9mca3xm8u8ypzfuhmxey66u0ufxhs7nm6wc5"
    ∷ codes "gonka1ddswmmmn38esxegjf6qw36mt4aqyw6etvysy5x"
    ∷ codes "gonka10fynmy2npvdvew0vj2288gz8ljfvmjs35lat8n"
    ∷ codes "gonka1v8gk5z7gcv72447yfcd2y8g78qk05yc4f3nk4w"
    ∷ codes "gonka1gndhek2h2y5849wf6tmw6gnw9qn4vysgljed0u"
    ∷ []

-- The mutex and the HTTP client are left out; `endpoints` is read and written under the mutex.
pub record Client : Type 0 where
  pub source_url : Bytes
  pub pool : Pool
  pub endpoints : List Endpoint

-- `strings.TrimRight(s, "/")`: the slashes are dropped where nothing else follows.
unfoldable pub trim_right_slash : Bytes → Bytes
trim_right_slash [] = []
trim_right_slash (c ∷ s) =
    let rest = trim_right_slash s in if c == b'/' && leb (length rest) 0 then [] else c ∷ rest

unfoldable pub new : Bytes → Pool → Client
new source_url pool = record {
  source_url = trim_right_slash source_url;
  pool = pool;
  endpoints = [];
}

pub record Participant : Type 0 where
  pub index : Bytes
  pub inference_url : Bytes

-- What comes back when the participant list is fetched.
pub data Fetched : Type 0 where
  unreachable : Fetched
  status : ℕ → Fetched
  undecodable : Fetched
  listed : List Participant → Fetched

-- The loop of `DiscoverEndpoints` over the participants.
unfoldable pub gather : List Participant → List Endpoint
gather [] = []
gather (p ∷ ps) =
    if leb (length p.inference_url) 0 || leb (length p.index) 0
    then gather ps
    else if not (member p.index allowed_transfer_agents)
    then gather ps
    else record { url = trim_right_slash p.inference_url ++ codes "/v1"; address = p.index }
      ∷ gather ps

-- `DiscoverEndpoints`, with `true` where it returns no error. `listed` is a decoded reply with
-- status 200.
unfoldable pub adopt : List Endpoint → Client → Client × Bool
adopt [] c = (c, false)
adopt (e ∷ es) c = (record c { endpoints = e ∷ es }, true)

unfoldable pub discover_endpoints : Fetched → Client → Client × Bool
unfolding adopt
discover_endpoints unreachable c = (c, false)
discover_endpoints (status n) c = (c, false)
discover_endpoints undecodable c = (c, false)
discover_endpoints (listed ps) c = adopt (gather ps) c

-- The loop of `pickEndpointExcluding`.
unfoldable pub candidates : List Bytes → List Endpoint → List Endpoint
candidates exclude [] = []
candidates exclude (e ∷ es) =
    if not (member e.address exclude) then e ∷ candidates exclude es else candidates exclude es

-- `xs[rand.Intn(len(xs))]`: the draw is any number, reduced to the length.
unfoldable pub draw_from : List Endpoint → ℕ → Option Endpoint
draw_from xs draw = get_elem? xs (draw % length xs)

-- `pickEndpointExcluding`; `none` is the error that there is no endpoint.
unfoldable pub fall_back : List Endpoint → List Endpoint → ℕ → Option Endpoint
unfolding draw_from
fall_back eps [] draw = draw_from eps draw
fall_back eps (e ∷ es) draw = draw_from (e ∷ es) draw

unfoldable pub pick_endpoint_excluding : List Endpoint → List Bytes → ℕ → Option Endpoint
unfolding fall_back
pick_endpoint_excluding [] exclude draw = none
pick_endpoint_excluding (e ∷ es) exclude draw =
    fall_back (e ∷ es) (candidates exclude (e ∷ es)) draw
