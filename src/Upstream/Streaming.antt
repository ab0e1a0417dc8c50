-- ===== src/Upstream/Streaming.antt =====
-- `DoStream` asks again until a response below 500 comes, three times at most, and gives up early
-- where the same rejection comes twice: what a run comes to.
pub mod Steps
pub mod Loop
use mathlib.Core.Path.{subst}
use opengnk.Prelude.{
  ℕ, zero, suc, ◌+◌, ◌≤◌, ◌<◌, ◌%◌, ◌^◌, Bool, true, false, ◌&&◌, List, [], ◌∷◌, ◌++◌, Option, none,
  some, ◌≡◌, ◌≢◌, refl, sym, ◌∙◌, ap, ◌⊎◌, inl, inr, All, arith, length, leb, ltb, if◌then◌else◌,
  Bool-cases,
}
use opengnk.Text.{Bytes, equal}
use opengnk.Wallet.{Wallet, Pool, next, len}
use opengnk.Wallet.Fairness.{IsValid, next_total}
use opengnk.Upstream.{Endpoint, Client, pick_endpoint_excluding}
use opengnk.Upstream.Pick.{IsChoice, pick_endpoint_excluding-IsChoice}
use opengnk.Upstream.Retry.{IsSpread, next_counter}
use opengnk.Upstream.Request.{
  Reply, no_reply, response, Round, World, Sent, Failure, transport, upstream, Outcome, answered,
  failed, panicked, Run, stop, sending, on_stream_reply, or_exhausted, do_stream_from, do_stream,
}

-- What the loop carries along: `lastErr` and `lastErrBody`.
pub record Memory : Type 0 where
  pub error : Option Failure
  pub body : Bytes

-- From round `n` on the requests `sent` are without reply or rejected, and no rejection behind
-- round 0 has the body of the rejection before it, or the empty one where there is none.
pub data IsRejected (world : World) : ℕ → List Sent → Memory → Memory → Type 0 where
  none_sent : {n : ℕ} {m : Memory} → IsRejected world n [] m m
  lost :
      {n : ℕ} {x : Sent} {xs : List Sent} {m new : Memory} (e : Bytes)
      → (world n).reply x.endpoint x.wallet ≡ no_reply e
      → IsRejected world (n + 1) xs (record { error = some (transport e); body = m.body }) new
      → IsRejected world n (x ∷ xs) m new
  rejected :
      {n : ℕ} {x : Sent} {xs : List Sent} {m new : Memory} (status : ℕ) (body : Bytes)
      (err : Option Bytes)
      → (world n).reply x.endpoint x.wallet ≡ response status body err
      → 500 ≤ status
      → (n ≡ 0) ⊎ (body ≢ m.body)
      → IsRejected world
          (n + 1)
          xs
          (record { error = some (upstream status body); body = body })
          new
      → IsRejected world n (x ∷ xs) m new

-- The last of the requests `sent` has the response, and the ones before it are in vain.
pub record IsLast (world : World) (n : ℕ) (sent : List Sent) (m : Memory) (r : Reply) : Type 0 where
  pub earlier : List Sent
  pub final : Sent
  pub all_sent : sent ≡ earlier ++ final ∷ []
  pub memory : Memory
  pub in_vain : IsRejected world n earlier m memory
  pub replied : (world (n + length earlier)).reply final.endpoint final.wallet ≡ r

-- All the requests were in vain, and the last error is returned.
pub record IsUsedUp (world : World) (left n : ℕ) (m : Memory) (f : Failure) (sent : List Sent)
    : Type 0 where
  pub memory : Memory
  pub in_vain : IsRejected world n sent m memory
  pub all_sent : length sent ≡ left
  pub last_error : f ≡ or_exhausted memory.error

-- The last request was rejected with the body of the rejection before it.
pub record IsRepeated (world : World) (left n : ℕ) (m : Memory) (f : Failure) (sent : List Sent)
    : Type 0 where
  pub status : ℕ
  pub body : Bytes
  pub err : Option Bytes
  pub last : IsLast world n sent m (response status body err)
  pub server_error : 500 ≤ status
  pub same_body : body ≡ last.memory.body
  pub not_first : 0 < n + length last.earlier
  pub returned : f ≡ upstream status body
  pub few : length sent < left + 1

abbrev pub Ends : World → ℕ → ℕ → Memory → Outcome → List Sent → Type 0
Ends world left n m (answered status body err) sent =
    IsLast world n sent m (response status body err) × (status < 500) × (length sent < left + 1)
Ends world left n m (failed none) sent = ⊥
Ends world left n m (failed (some f)) sent =
    IsUsedUp world left n m f sent ⊎ IsRepeated world left n m f sent
Ends world left n m panicked sent = ⊥

pub record IsGood (world : World) (eps : List Endpoint) (left n : ℕ) (pool : Pool)
    (tried : List Bytes) (m : Memory) (r : Run) : Type 0 where
  pub ends : Ends world left n m r.outcome r.sent
  pub spread : IsSpread eps tried r.sent
  pub turned : r.pool.counter ≡ (pool.counter + length r.sent) % 2 ^ 64
  pub valid : IsValid r.pool
