-- ===== src/Tests/Network.antt =====
-- The wallets and the upstream client on small inputs.
use opengnk.Prelude.{
  zero, suc, ◌+◌, ◌/◌, ◌%◌, List, [], ◌∷◌, none, some, ◌≡◌, refl, arith, true, false, length, ltb,
  if◌then◌else◌, get_elem?,
}
use opengnk.Text.{codes, equal}
use opengnk.Wallet.{Wallet, Pool, new_pool, next, next_index, handed_out}
use opengnk.Wallet.Fairness.{IsValid, count, count-new_pool, next_total}
use opengnk.Upstream.{
  Endpoint, Client, member, candidates, Participant, listed, gather, adopt, trim_right_slash,
  discover_endpoints, pick_endpoint_excluding, draw_from, fall_back,
}
use opengnk.Upstream.Discover.{IsAdopted, discover_endpoints_lem}
use opengnk.Upstream.Pick.{IsChoice, pick_endpoint_excluding-IsChoice}
use opengnk.Upstream.Request.{
  World, no_reply, response, stop, answered, failed, upstream, do_request, do_stream, do_from,
  do_stream_from, on_reply, on_stream_reply,
}
use opengnk.Upstream.Retry.{do_request-IsGood}
use opengnk.Upstream.Retry
use opengnk.Upstream.Streaming
use opengnk.Upstream.Streaming.Loop.{do_stream-IsGood}

abbrev wallets : List Wallet
wallets =
    record { signer = 11; address = codes "gonka1a" }
    ∷ record { signer = 12; address = codes "gonka1b" }
    ∷ record { signer = 13; address = codes "gonka1c" }
    ∷ []

abbrev pool : Pool
pool = record { wallets = wallets; counter = 0 }

pool_is_new : new_pool wallets ≡ some pool
unfolding new_pool
pool_is_new = refl

pool-IsValid : IsValid pool
pool-IsValid = record { nonempty = omega arith; in_range = omega arith }

-- Eight calls on three wallets: the second wallet serves three times.
count-new_pool_example : count 1 (handed_out 8 pool) ≡ 8 / 3 + (if ltb 1 (8 % 3) then 1 else 0)
count-new_pool_example = count-new_pool wallets pool 8 1 pool_is_new (omega arith) (omega arith)

next_total_example :
    (w : Wallet) × ((next pool).0 ≡ some w)
    × (get_elem? wallets (0 % 3) ≡ some w)
    × IsValid (next pool).1
next_total_example = next_total pool pool-IsValid

abbrev here : Endpoint
here = record { url = codes "http://a/v1"; address = codes "a" }

abbrev there : Endpoint
there = record { url = codes "http://b/v1"; address = codes "b" }

abbrev client : Client
client = record { source_url = codes "http://node"; pool = pool; endpoints = here ∷ there ∷ [] }

abbrev fresh : Client
fresh = record { source_url = codes "http://node"; pool = pool; endpoints = [] }

abbrev node : Participant
node = record {
  index = codes "gonka1kx9mca3xm8u8ypzfuhmxey66u0ufxhs7nm6wc5";
  inference_url = codes "http://n//";
}

abbrev stranger : Participant
stranger = record { index = codes "gonka1zz"; inference_url = codes "http://z" }

abbrev found : Client
found = record fresh { endpoints = record { url = codes "http://n/v1"; address = node.index } ∷ [] }

discovers : discover_endpoints (listed (stranger ∷ node ∷ [])) fresh ≡ (found, true)
unfolding discover_endpoints gather adopt trim_right_slash member equal
discovers = refl

discover_endpoints_lem_example :
    (ps : List Participant) × (listed (stranger ∷ node ∷ []) ≡ listed ps) × IsAdopted ps fresh found
discover_endpoints_lem_example =
    discover_endpoints_lem (listed (stranger ∷ node ∷ [])) fresh found discovers

refuses : discover_endpoints (listed (stranger ∷ [])) client ≡ (client, false)
unfolding discover_endpoints gather adopt trim_right_slash member equal
refuses = refl

pick_endpoint_excluding-IsChoice_example :
    (ep : Endpoint) × (pick_endpoint_excluding (here ∷ there ∷ []) (codes "a" ∷ []) 7 ≡ some ep)
    × IsChoice (here ∷ there ∷ []) (codes "a" ∷ []) ep
pick_endpoint_excluding-IsChoice_example =
    pick_endpoint_excluding-IsChoice (here ∷ there ∷ []) (codes "a" ∷ []) 7 (omega arith)

-- The first request is lost, and the others are answered.
abbrev flaky : World
flaky zero = record { draw = 4; reply = λ ep w. no_reply (codes "EOF") }
flaky (suc n) = record { draw = 4; reply = λ ep w. response 200 ep.address none }

do_request-IsGood_example :
    Retry.IsGood flaky (here ∷ there ∷ []) 3 0 pool [] none (do_request flaky client)
do_request-IsGood_example = do_request-IsGood flaky client (omega arith) pool-IsValid

-- The second request goes to the other endpoint, and its response is returned.
asks_elsewhere : (do_request flaky client).outcome ≡ answered 200 (codes "b") none
unfolding do_from on_reply pick_endpoint_excluding candidates draw_from fall_back member equal next
    next_index
asks_elsewhere = refl

-- With no endpoint nothing is sent, and there is neither a response nor an error.
silent : do_request flaky fresh ≡ stop (failed none) pool
unfolding do_from pick_endpoint_excluding
silent = refl

-- A request is lost, and the next one is rejected with an empty body.
abbrev rejecting : World
rejecting zero = record { draw = 0; reply = λ ep w. no_reply (codes "EOF") }
rejecting (suc n) = record { draw = 0; reply = λ ep w. response 503 [] none }

do_stream-IsGood_example :
    Streaming.IsGood rejecting
      (here ∷ there ∷ [])
      3
      0
      pool
      []
      (record { error = none; body = [] })
      (do_stream rejecting client)
do_stream-IsGood_example = do_stream-IsGood rejecting client (omega arith) pool-IsValid

-- The first rejection counts as the second one, and the third request is not sent.
gives_up_early :
    ((do_stream rejecting client).outcome ≡ failed (some (upstream 503 [])))
    × (length (do_stream rejecting client).sent ≡ 2)
unfolding do_stream_from on_stream_reply pick_endpoint_excluding candidates draw_from fall_back
    member equal next next_index
gives_up_early = (refl, refl)
