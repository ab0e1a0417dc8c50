-- ===== src/Upstream/Request.antt =====
-- `Do` and `DoStream` of internal/upstream/client.go.
use opengnk.Prelude.{
  ℕ, zero, suc, ◌+◌, ◌&&◌, List, [], ◌∷◌, Option, none, some, leb, ltb, if◌then◌else◌,
}
use opengnk.Text.{Bytes, equal}
use opengnk.Wallet.{Wallet, Pool, next}
use opengnk.Upstream.{Endpoint, Client, pick_endpoint_excluding}

-- What a request comes to: an error of the transport, or a status with the body as far as it can
-- be read and the error that ended the reading.
pub data Reply : Type 0 where
  no_reply : Bytes → Reply
  response : ℕ → Bytes → Option Bytes → Reply

-- What the world does in one round of the loop: the number that `rand.Intn` draws, and the reply
-- to a request to an endpoint, signed by a wallet.
pub record Round : Type 0 where
  pub draw : ℕ
  pub reply : Endpoint → Wallet → Reply

abbrev pub World : Type 0
World = ℕ → Round

pub record Sent : Type 0 where
  pub endpoint : Endpoint
  pub wallet : Wallet

-- The errors: of the transport, `upstream %d: %s`, and `upstream: all endpoints exhausted`.
pub data Failure : Type 0 where
  transport : Bytes → Failure
  upstream : ℕ → Bytes → Failure
  exhausted : Failure

-- What is returned: a response, or the error, which is none for `nil`; or a panic.
pub data Outcome : Type 0 where
  answered : ℕ → Bytes → Option Bytes → Outcome
  failed : Option Failure → Outcome
  panicked : Outcome

-- A call: its outcome, the pool behind it, and the requests it has sent, the first one first.
pub record Run : Type 0 where
  pub outcome : Outcome
  pub pool : Pool
  pub sent : List Sent

abbrev pub stop : Outcome → Pool → Run
stop o pool = record { outcome = o; pool = pool; sent = [] }

abbrev pub sending : Endpoint → Wallet → Run → Run
sending ep w r = record r { sent = record { endpoint = ep; wallet = w } ∷ r.sent }

-- The body of the loop of `Do` behind the request; `again` is the rest of the loop.
unfoldable pub on_reply : (Option Failure → Run) → Pool → Reply → Run
on_reply again pool (no_reply e) = again (some (transport e))
on_reply again pool (response status body err) = stop (answered status body err) pool

-- The loop of `Do`, with `left` rounds to go.
unfoldable pub do_from : World → List Endpoint → ℕ → ℕ → Pool → List Bytes → Option Failure → Run
do_from world eps zero attempt pool tried last = stop (failed last) pool
do_from world eps (suc left) attempt pool tried last =
    elim (pick_endpoint_excluding eps tried (world attempt).draw) [
      | none ↦ stop (failed last) pool
      | some ep ↦ elim (next pool).0 [
        | none ↦ stop panicked (next pool).1
        | some w ↦ sending ep w (
            on_reply
              (λ e. do_from world eps left (attempt + 1) (next pool).1 (ep.address ∷ tried) e)
              (next pool).1 ((world attempt).reply ep w))
      ]
    ]

abbrev pub do_request : World → Client → Run
do_request world c = do_from world c.endpoints 3 0 c.pool [] none

-- The body of the loop of `DoStream` behind the request; `again` takes `lastErr` and `lastErrBody`.
unfoldable pub on_stream_reply : (Option Failure → Bytes → Run) → ℕ → Bytes → Pool → Reply → Run
on_stream_reply again attempt last_body pool (no_reply e) = again (some (transport e)) last_body
on_stream_reply again attempt last_body pool (response status body err) =
    if leb 500 status
    then (if ltb 0 attempt && equal body last_body
        then stop (failed (some (upstream status body))) pool
        else again (some (upstream status body)) body)
    else stop (answered status body err) pool

-- What `DoStream` returns behind its loop.
unfoldable pub or_exhausted : Option Failure → Failure
or_exhausted none = exhausted
or_exhausted (some e) = e

unfoldable pub do_stream_from :
    World → List Endpoint → ℕ → ℕ → Pool → List Bytes → Option Failure → Bytes → Run
do_stream_from world eps zero attempt pool tried last last_body =
    stop (failed (some (or_exhausted last))) pool
do_stream_from world eps (suc left) attempt pool tried last last_body =
    elim (pick_endpoint_excluding eps tried (world attempt).draw) [
      | none ↦ stop (failed (some (or_exhausted last))) pool
      | some ep ↦ elim (next pool).0 [
        | none ↦ stop panicked (next pool).1
        | some w ↦ sending ep w (
            on_stream_reply
              (do_stream_from world eps left (attempt + 1) (next pool).1 (ep.address ∷ tried))
              attempt last_body (next pool).1 ((world attempt).reply ep w))
      ]
    ]

abbrev pub do_stream : World → Client → Run
do_stream world c = do_stream_from world c.endpoints 3 0 c.pool [] none []
