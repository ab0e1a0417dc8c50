-- ===== src/Upstream/Retry.antt =====
-- `Do` asks again until a reply comes, three times at most, and elsewhere each time.
use mathlib.Core.Path.{subst}
use opengnk.Prelude.{
  ℕ, zero, suc, ◌+◌, ◌<◌, ◌%◌, ◌^◌, List, [], ◌∷◌, ◌++◌, Option, none, some, ◌≡◌, refl, sym, ◌∙◌,
  ap, arith, length,
}
use opengnk.Text.{Bytes}
use opengnk.Wallet.{Wallet, Pool, next}
use opengnk.Wallet.Fairness.{IsValid, next_total}
use opengnk.Upstream.{Endpoint, Client, pick_endpoint_excluding}
use opengnk.Upstream.Pick.{IsChoice, pick_endpoint_excluding-IsChoice}
use opengnk.Upstream.Request.{
  Reply, no_reply, response, World, Sent, Failure, transport, Outcome, answered, failed, panicked,
  Run, sending, on_reply, do_from, do_request,
}

-- From round `n` on the requests `sent` are without reply; `last` is the error before them and
-- `new` the one behind them.
pub data IsFruitless (world : World)
    : ℕ → List Sent → Option Failure → Option Failure → Type 0 where
  none_sent : {n : ℕ} {last : Option Failure} → IsFruitless world n [] last last
  one_more :
      {n : ℕ} {x : Sent} {xs : List Sent} {last new : Option Failure} (e : Bytes)
      → (world n).reply x.endpoint x.wallet ≡ no_reply e
      → IsFruitless world (n + 1) xs (some (transport e)) new
      → IsFruitless world n (x ∷ xs) last new

-- The last of the requests `sent` has the response, and the ones before it are without reply.
pub record IsAnswer (world : World) (n : ℕ) (sent : List Sent) (last : Option Failure) (r : Reply)
    : Type 0 where
  pub earlier : List Sent
  pub final : Sent
  pub all_sent : sent ≡ earlier ++ final ∷ []
  pub error : Option Failure
  pub fruitless : IsFruitless world n earlier last error
  pub replied : (world (n + length earlier)).reply final.endpoint final.wallet ≡ r

-- What a call that may send `left` requests comes to.
abbrev pub Ends : World → ℕ → ℕ → Option Failure → Outcome → List Sent → Type 0
Ends world left n last (answered status body err) sent =
    IsAnswer world n sent last (response status body err) × (length sent < left + 1)
Ends world left n last (failed e) sent = IsFruitless world n sent last e × (length sent ≡ left)
Ends world left n last panicked sent = ⊥

-- Each endpoint is one that has not been asked, unless all have been asked.
abbrev pub IsSpread : List Endpoint → List Bytes → List Sent → Type 0
IsSpread eps tried [] = Unit
IsSpread eps tried (x ∷ xs) =
    IsChoice eps tried x.endpoint × IsSpread eps (x.endpoint.address ∷ tried) xs

pub record IsGood (world : World) (eps : List Endpoint) (left n : ℕ) (pool : Pool)
    (tried : List Bytes) (last : Option Failure) (r : Run) : Type 0 where
  pub ends : Ends world left n last r.outcome r.sent
  pub spread : IsSpread eps tried r.sent
  pub turned : r.pool.counter ≡ (pool.counter + length r.sent) % 2 ^ 64
  pub valid : IsValid r.pool

Ends-one_more :
    (world : World) (left n : ℕ) (last : Option Failure) (x : Sent) (e : Bytes) (o : Outcome)
    (sent : List Sent)
    → (world n).reply x.endpoint x.wallet ≡ no_reply e
    → Ends world left (n + 1) (some (transport e)) o sent
    → Ends world (suc left) n last o (x ∷ sent)
Ends-one_more world left n last x e (answered s b err) sent eq (a, few) =
    let back : n + length (x ∷ a.earlier) ≡ n + 1 + length a.earlier = omega arith in
    (
      record {
        earlier = x ∷ a.earlier;
        final = a.final;
        all_sent = ap (◌∷◌ x) a.all_sent;
        error = a.error;
        fruitless = one_more e eq a.fruitless;
        replied = ap (λ k. (world k).reply a.final.endpoint a.final.wallet) back ∙ a.replied;
      },
      omega arith,
    )
Ends-one_more world left n last x e (failed f) sent eq (h, count) = (one_more e eq h, omega arith)
Ends-one_more world left n last x e panicked sent eq h = absurd h

pub next_counter : (p : Pool) → (next p).1.counter ≡ (p.counter + 1) % 2 ^ 64
unfolding next
next_counter p = refl

on_reply-IsGood :
    (world : World) (eps : List Endpoint) (left n : ℕ) (pool : Pool) (tried : List Bytes)
    (last : Option Failure) (ep : Endpoint) (w : Wallet) (again : Option Failure → Run) (r : Reply)
    → IsChoice eps tried ep
    → IsValid (next pool).1
    → ((e : Option Failure)
        → IsGood world eps left (n + 1) (next pool).1 (ep.address ∷ tried) e (again e))
    → (world n).reply ep w ≡ r
    → IsGood world eps (suc left) n pool tried last (sending ep w (on_reply again (next pool).1 r))
unfolding on_reply
on_reply-IsGood world eps left n pool tried last ep w again (no_reply e) choice v good eq =
    let rest = good (some (transport e)) in
    record {
      ends =
          Ends-one_more world left n last (record { endpoint = ep; wallet = w }) e
            (again (some (transport e))).outcome (again (some (transport e))).sent eq rest.ends;
      spread = (choice, rest.spread);
      turned = omega (arith, rest.turned, next_counter pool);
      valid = rest.valid;
    }
on_reply-IsGood world eps left n pool tried last ep w again (response s b err) choice v good eq =
    let back : n + 0 ≡ n = omega arith in
    record {
      ends = (
        record {
          earlier = [];
          final = record { endpoint = ep; wallet = w };
          all_sent = refl;
          error = last;
          fruitless = none_sent;
          replied = ap (λ k. (world k).reply ep w) back ∙ eq;
        },
        omega arith,
      );
      spread = (choice, tt);
      turned = omega (arith, next_counter pool);
      valid = v;
    }

do_from-suc :
    (world : World) (eps : List Endpoint) (left n : ℕ) (pool : Pool) (tried : List Bytes)
    (last : Option Failure) (ep : Endpoint) (w : Wallet)
    → pick_endpoint_excluding eps tried (world n).draw ≡ some ep
    → (next pool).0 ≡ some w
    → do_from world eps (suc left) n pool tried last
      ≡ sending ep w (
          on_reply
            (λ e. do_from world eps left (n + 1) (next pool).1 (ep.address ∷ tried) e)
            (next pool).1
            ((world n).reply ep w))
unfolding do_from
do_from-suc world eps left n pool tried last ep w picked got = rw (do_from, picked, got) refl

do_from-IsGood :
    (world : World) (eps : List Endpoint) (left n : ℕ) (pool : Pool) (tried : List Bytes)
    (last : Option Failure)
    → 0 < length eps
    → IsValid pool
    → IsGood world eps left n pool tried last (do_from world eps left n pool tried last)
unfolding do_from
do_from-IsGood world eps zero n pool tried last some_eps v = record {
  ends = (none_sent, refl);
  spread = tt;
  turned = omega (arith, v.in_range);
  valid = v;
}
do_from-IsGood world eps (suc left) n pool tried last some_eps v =
    let (ep, picked, choice) = pick_endpoint_excluding-IsChoice eps tried (world n).draw some_eps in
    let (w, got, _, v1) = next_total pool v in
    subst (IsGood world eps (suc left) n pool tried last)
      (sym (do_from-suc world eps left n pool tried last ep w picked got))
      (on_reply-IsGood world eps left n pool tried last ep w
        (λ e. do_from world eps left (n + 1) (next pool).1 (ep.address ∷ tried) e)
        ((world n).reply ep w) choice v1
        (λ e.
          do_from-IsGood world eps left (n + 1) (next pool).1 (ep.address ∷ tried) e some_eps v1)
        refl)

-- With an endpoint and a wallet at hand, `Do` returns the response to the last request it sent, all
-- requests before it being without reply, or, after three requests without reply, the error of the
-- last one. It sends three requests at most, never panics, asks no endpoint twice while there is
-- one that it has not asked, and takes one wallet in turn for each request.
pub do_request-IsGood :
    (world : World) (c : Client)
    → 0 < length c.endpoints
    → IsValid c.pool
    → IsGood world c.endpoints 3 0 c.pool [] none (do_request world c)
do_request-IsGood world c some_eps v =
    do_from-IsGood world c.endpoints 3 0 c.pool [] none some_eps v
