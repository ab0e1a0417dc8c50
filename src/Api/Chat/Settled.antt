-- ===== src/Api/Chat/Settled.antt =====
-- What the calls of the nodes come to.
use opengnk.Prelude.{ℕ, ◌+◌, ◌≤◌, ◌<◌, List, Option, none, some, ◌≡◌, refl, arith, length}
use opengnk.Text.{Bytes}
use opengnk.Text.Runs.{Runs}
use opengnk.Wallet.{Wallet}
use opengnk.Wallet.Fairness.{IsValid}
use opengnk.Upstream.{Endpoint, Client}
use opengnk.Upstream.Request.{
  response, World, Sent, Failure, Outcome, answered, failed, panicked, do_request, do_stream,
}
use opengnk.Upstream.Retry.{IsFruitless, none_sent, one_more, Ends, do_request-IsGood}
use opengnk.Upstream.Streaming.{Memory}
use opengnk.Upstream.Streaming.Loop.{do_stream-IsGood}

-- The nodes answer with a status of three digits, as HTTP has it.
abbrev pub IsHttp : World → Type 0
IsHttp world =
    (n : ℕ) (ep : Endpoint) (w : Wallet) (status : ℕ) (body : Bytes) (err : Option Bytes)
    → (world n).reply ep w ≡ response status body err
    → (100 ≤ status) × (status ≤ 999)

-- What a call of a node comes to when nothing panics and an error has a text.
abbrev pub IsSettled : Outcome → Type 0
IsSettled (answered status body err) = (100 ≤ status) × (status ≤ 999)
IsSettled (failed none) = ⊥
IsSettled (failed (some e)) = Unit
IsSettled panicked = ⊥

IsFruitless-some :
    {world : World} {n : ℕ} {sent : List Sent} {last new : Option Failure}
    → IsFruitless world n sent last new
    → Runs last
    → Runs new
IsFruitless-some none_sent h = h
IsFruitless-some (one_more e eq rest) h = IsFruitless-some rest (_, refl)

IsFruitless-Runs :
    {world : World} {n : ℕ} {sent : List Sent} {new : Option Failure}
    → IsFruitless world n sent none new
    → 0 < length sent
    → Runs new
IsFruitless-Runs none_sent h = absurd (omega arith)
IsFruitless-Runs (one_more e eq rest) h = IsFruitless-some rest (_, refl)

failed-IsSettled : (e : Option Failure) → Runs e → IsSettled (failed e)
failed-IsSettled none h = absurd (ground (arith, h.1))
failed-IsSettled (some f) h = tt

Ends-IsSettled :
    (world : World) (o : Outcome) (sent : List Sent)
    → IsHttp world
    → Ends world 3 0 none o sent
    → IsSettled o
Ends-IsSettled world (answered status body err) sent http (a, few) =
    http (0 + length a.earlier) a.final.endpoint a.final.wallet status body err a.replied
Ends-IsSettled world (failed e) sent http (h, count) =
    failed-IsSettled e (IsFruitless-Runs h (omega (arith, count)))
Ends-IsSettled world panicked sent http h = h

pub do_request-IsSettled :
    (world : World) (c : Client)
    → IsHttp world
    → 0 < length c.endpoints
    → IsValid c.pool
    → IsSettled (do_request world c).outcome
do_request-IsSettled world c http some_eps v =
    Ends-IsSettled world (do_request world c).outcome (do_request world c).sent http
      (do_request-IsGood world c some_eps v).ends

stream-IsSettled :
    (world : World) (m : Memory) (o : Outcome) (sent : List Sent)
    → IsHttp world
    → opengnk.Upstream.Streaming.Ends world 3 0 m o sent
    → IsSettled o
stream-IsSettled world m (answered status body err) sent http (a, below, few) =
    http (0 + length a.earlier) a.final.endpoint a.final.wallet status body err a.replied
stream-IsSettled world m (failed none) sent http h = h
stream-IsSettled world m (failed (some e)) sent http h = tt
stream-IsSettled world m panicked sent http h = h

pub do_stream-IsSettled :
    (world : World) (c : Client)
    → IsHttp world
    → 0 < length c.endpoints
    → IsValid c.pool
    → IsSettled (do_stream world c).outcome
do_stream-IsSettled world c http some_eps v =
    stream-IsSettled world _ (do_stream world c).outcome (do_stream world c).sent http
      (do_stream-IsGood world c some_eps v).ends
