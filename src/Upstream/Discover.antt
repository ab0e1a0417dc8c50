-- ===== src/Upstream/Discover.antt =====
-- Discovery takes whitelisted endpoints only.
use opengnk.Prelude.{
  ◌<◌, true, false, ◌||◌, List, [], ◌∷◌, ◌++◌, ◌≡◌, refl, sym, ap, inl, inr, All, Any, arith, leb,
  Bool-cases, length,
}
use mathlib.Core.Path.{subst}
use opengnk.Text.{codes}
use opengnk.Upstream.{
  Endpoint, member, allowed_transfer_agents, Client, Participant, Fetched, unreachable, status,
  undecodable, listed, gather, adopt, discover_endpoints, trim_right_slash,
}

-- The endpoint of a participant that is on the whitelist and gives an address to call.
pub record IsFrom (p : Participant) (e : Endpoint) : Type 0 where
  pub address_is : e.address ≡ p.index
  pub url_is : e.url ≡ trim_right_slash p.inference_url ++ codes "/v1"
  pub listed_url : 0 < length p.inference_url
  pub whitelisted : member p.index allowed_transfer_agents ≡ true

abbrev pub IsDiscovered : List Participant → Endpoint → Type 0
IsDiscovered ps e = Any (λ p. IsFrom p e) ps

IsDiscovered-tail :
    (p : Participant) (ps : List Participant) (es : List Endpoint)
    → All (IsDiscovered ps) es
    → All (IsDiscovered (p ∷ ps)) es
IsDiscovered-tail p ps [] h = tt
IsDiscovered-tail p ps (e ∷ es) h = (inr h.0, IsDiscovered-tail p ps es h.1)

gather_skip :
    (p : Participant) (ps : List Participant)
    → leb (length p.inference_url) 0 || leb (length p.index) 0 ≡ true
    → gather (p ∷ ps) ≡ gather ps
unfolding gather
gather_skip p ps e = rw e refl

gather_drop :
    (p : Participant) (ps : List Participant)
    → leb (length p.inference_url) 0 || leb (length p.index) 0 ≡ false
    → member p.index allowed_transfer_agents ≡ false
    → gather (p ∷ ps) ≡ gather ps
unfolding gather
gather_drop p ps e m = rw (e, m) refl

gather_keep :
    (p : Participant) (ps : List Participant)
    → leb (length p.inference_url) 0 || leb (length p.index) 0 ≡ false
    → member p.index allowed_transfer_agents ≡ true
    → gather (p ∷ ps)
      ≡ record { url = trim_right_slash p.inference_url ++ codes "/v1"; address = p.index }
        ∷ gather ps
unfolding gather
gather_keep p ps e m = rw (e, m) refl

gather-IsDiscovered : (ps : List Participant) → All (IsDiscovered ps) (gather ps)
gather-IsDiscovered [] = unfold gather in tt
gather-IsDiscovered (p ∷ ps) =
    let rest = IsDiscovered-tail p ps (gather ps) (gather-IsDiscovered ps) in
    elim (Bool-cases (leb (length p.inference_url) 0 || leb (length p.index) 0)) [
      | inl e ↦ subst (λ es. All (IsDiscovered (p ∷ ps)) es) (sym (gather_skip p ps e)) rest
      | inr e ↦ elim (Bool-cases (member p.index allowed_transfer_agents)) [
        | inr m ↦ subst (λ es. All (IsDiscovered (p ∷ ps)) es) (sym (gather_drop p ps e m)) rest
        | inl m ↦
            subst (λ es. All (IsDiscovered (p ∷ ps)) es) (sym (gather_keep p ps e m))
              (
                inl (record {
                  address_is = refl;
                  url_is = refl;
                  listed_url = ground arith;
                  whitelisted = m;
                }),
                rest,
              )
      ]
    ]

-- What `DiscoverEndpoints` leaves behind when it succeeds on the list `ps`.
pub record IsAdopted (ps : List Participant) (c d : Client) : Type 0 where
  pub nonempty : 0 < length d.endpoints
  pub discovered : All (IsDiscovered ps) d.endpoints
  pub same_pool : d.pool ≡ c.pool

adopt_lem :
    (ps : List Participant) (es : List Endpoint) (c d : Client)
    → All (IsDiscovered ps) es
    → adopt es c ≡ (d, true)
    → IsAdopted ps c d
unfolding adopt
adopt_lem ps [] c d h e = absurd (ground arith)
adopt_lem ps (x ∷ es) c d h e =
    subst (λ d. IsAdopted ps c d) (ap (λ r. r.0) e)
      (record { nonempty = omega arith; discovered = h; same_pool = refl })

adopt_fails : (es : List Endpoint) (c d : Client) → adopt es c ≡ (d, false) → d ≡ c
unfolding adopt
adopt_fails [] c d e = sym (ap (λ r. r.0) e)
adopt_fails (x ∷ es) c d e = absurd (ground arith)

-- When `DiscoverEndpoints` succeeds, the network listed participants, the client has at least one
-- endpoint, and each is that of a listed participant on the whitelist; the wallets are untouched.
pub discover_endpoints_lem :
    (r : Fetched) (c d : Client)
    → discover_endpoints r c ≡ (d, true)
    → (ps : List Participant) × (r ≡ listed ps) × IsAdopted ps c d
unfolding discover_endpoints
discover_endpoints_lem unreachable c d e = absurd (ground arith)
discover_endpoints_lem (status n) c d e = absurd (ground arith)
discover_endpoints_lem undecodable c d e = absurd (ground arith)
discover_endpoints_lem (listed ps) c d e =
    (ps, refl, adopt_lem ps (gather ps) c d (gather-IsDiscovered ps) e)

-- When `DiscoverEndpoints` fails, for whatever reason, the client keeps the endpoints it had.
pub discover_endpoints_fails :
    (r : Fetched) (c d : Client) → discover_endpoints r c ≡ (d, false) → d ≡ c
unfolding discover_endpoints
discover_endpoints_fails unreachable c d e = sym (ap (λ r. r.0) e)
discover_endpoints_fails (status n) c d e = sym (ap (λ r. r.0) e)
discover_endpoints_fails undecodable c d e = sym (ap (λ r. r.0) e)
discover_endpoints_fails (listed ps) c d e = adopt_fails (gather ps) c d e
