-- ===== src/Api/Chat/Replies.antt =====
-- Every chat request is answered.
use opengnk.Prelude.{
  ℕ, ◌+◌, ◌<◌, ◌^◌, ◌&&◌, true, false, List, [], Option, none, some, ◌≡◌, refl, sym, ◌⊎◌, inl, inr,
  arith, Bool-cases, ◌>>=◌, length,
}
use mathlib.Core.Path.{subst}
use opengnk.Text.{Bytes, codes}
use opengnk.Text.Runs.{Runs}
use opengnk.Json.Decode.{peek_flag}
use opengnk.Sanitize.Span.{Classifier}
use opengnk.Sanitize.TokenMap.{TokenMap}
use opengnk.Sanitize.Messages.Request.{IsBounded, cost_of_body, redact_messages-IsSent}
use opengnk.Wallet.Fairness.{IsValid}
use opengnk.Upstream.Request.{Run}
use opengnk.ToolSim.{needs_simulation}
use opengnk.ToolSim.Request.{Rewrite, failed, unchanged, rewritten, rewrite_request}
use opengnk.ToolSim.Request.Forwarded.{rewrite_request-IsRewrite}
use opengnk.Api.Normalize.Flat.{normalize_message_content-IsFlat}
use opengnk.Api.Chat.Settled.{IsHttp, do_request-IsSettled, do_stream-IsSettled}
use opengnk.Api.Chat.Answers.{
  IsFatal, write_err-Runs, plain_reply-Runs, stream_reply-Runs, simulated_reply-Runs,
}
use opengnk.Api.Chat.{
  Handler, Received, readable, unreadable, Env, Served, Prepared, of_state, prepare, Route,
  simulated, streamed, plain, peeked, route, serve_plain, serve_stream, serve_rewrite, serve_route,
  serve_prepared, chat_completions,
}

-- The counter has room for the tokens of the request; no text has more than `bound` spans.
abbrev pub HasRoom : Option (List Classifier) → Env → ℕ → Received → Type 0
HasRoom none env bound received = Unit
HasRoom (some classifiers) env bound (unreadable err) = Unit
HasRoom (some classifiers) env bound (readable body) =
    IsBounded classifiers env.arrivals bound × (env.counter + cost_of_body bound body < 2 ^ 64)

-- There are an endpoint and a wallet, and the nodes speak HTTP.
pub record IsReady (h : Handler) (env : Env) : Type 0 where
  pub some_eps : 0 < length h.client.endpoints
  pub valid : IsValid h.client.pool
  pub http : (payload : Bytes) → IsHttp (env.world payload)

abbrev pub IsFatalCall : Option (Bytes × Run) → Type 0
IsFatalCall none = ⊥
IsFatalCall (some (payload, run)) = IsFatal run.outcome

-- There is a reply, or tool calls are simulated and the response has no choices.
abbrev pub IsServed : Handler → Served → Type 0
IsServed h served =
    Runs served.reply
    ⊎ ((h.native_tool_calls ≡ false)
        × (h.simulate_tool_calls ≡ true)
        × (served.reply ≡ none)
        × IsFatalCall served.upstream)

module _ (h : Handler) (env : Env) (ready : IsReady h env) where
  serve_rewrite-IsServed :
      (tm : Option TokenMap) (counter : ℕ) (body : Bytes) (o : Option Rewrite)
      → h.native_tool_calls ≡ false
      → h.simulate_tool_calls ≡ true
      → Runs o
      → IsServed h (serve_rewrite h env tm counter body o)
  unfolding serve_rewrite
  serve_rewrite-IsServed tm counter body none native on r = absurd (ground (arith, r.1))
  serve_rewrite-IsServed tm counter body (some failed) native on r =
      inl (write_err-Runs 400 _ (omega arith) (omega arith))
  serve_rewrite-IsServed tm counter body (some unchanged) native on r =
      elim (simulated_reply-Runs env tm [] _ (
        do_request-IsSettled (env.world body) h.client (ready.http body) ready.some_eps
          ready.valid)) [ inl e ↦ inl e | inr (e, f) ↦ inr (native, on, e, f) ]
  serve_rewrite-IsServed tm counter body (some (rewritten out tools stream)) native on r =
      elim (simulated_reply-Runs env tm tools _ (
        do_request-IsSettled (env.world out) h.client (ready.http out) ready.some_eps
          ready.valid)) [ inl e ↦ inl e | inr (e, f) ↦ inr (native, on, e, f) ]

  serve_plain-Runs :
      (tm : Option TokenMap) (counter : ℕ) (body : Bytes)
      → Runs (serve_plain h env tm counter body).reply
  unfolding serve_plain
  serve_plain-Runs tm counter body =
      plain_reply-Runs env tm _ (
        do_request-IsSettled (env.world body) h.client (ready.http body) ready.some_eps ready.valid)

  serve_stream-Runs :
      (tm : Option TokenMap) (counter : ℕ) (body : Bytes)
      → Runs (serve_stream h env tm counter body).reply
  unfolding serve_stream
  serve_stream-Runs tm counter body =
      stream_reply-Runs env tm _
        (do_stream-IsSettled (env.world body) h.client (ready.http body) ready.some_eps ready.valid)

  -- A route that may be taken.
  abbrev IsRoute : Route → Type 0
  IsRoute (simulated body) = (h.native_tool_calls ≡ false) × (h.simulate_tool_calls ≡ true)
  IsRoute (streamed body) = Unit
  IsRoute (plain body) = Unit

  serve_route-IsServed :
      (tm : Option TokenMap) (counter : ℕ) (r : Route)
      → IsRoute r
      → IsServed h (serve_route h env tm counter (some r))
  unfolding serve_route
  serve_route-IsServed tm counter (simulated body) (native, on) =
      let (r, e, _) = rewrite_request-IsRewrite body in
      serve_rewrite-IsServed tm counter body (rewrite_request body) native on (r, e)
  serve_route-IsServed tm counter (streamed body) _ = inl (serve_stream-Runs tm counter body)
  serve_route-IsServed tm counter (plain body) _ = inl (serve_plain-Runs tm counter body)

  peeked-IsRoute : (body : Bytes) → IsRoute (peeked body)
  unfolding peeked
  peeked-IsRoute body = elim (Bool-cases (peek_flag (codes "stream") body)) [
    | inl e ↦ rw e tt
    | inr e ↦ rw e tt
  ]

  routes : (body : Bytes) → (r : Route) × (route h body ≡ some r) × IsRoute r
  unfolding route
  routes body = elim (Bool-cases h.native_tool_calls) [
    | inl native ↦
        let (out, e, _) = normalize_message_content-IsFlat body in
        (peeked out, rw (native, e, ◌>>=◌) refl, peeked-IsRoute out)
    | inr native ↦ elim (Bool-cases (h.simulate_tool_calls && needs_simulation body)) [
      | inl on ↦ (simulated body, rw (native, on) refl, (native, ground (arith, on)))
      | inr off ↦ (peeked body, rw (native, off) refl, peeked-IsRoute body)
    ]
  ]

  serve_prepared-IsServed : (o : Option Prepared) → Runs o → IsServed h (serve_prepared h env o)
  unfolding serve_prepared
  serve_prepared-IsServed none r = absurd (ground (arith, r.1))
  serve_prepared-IsServed (some p) r =
      let (c, e, ok) = routes p.body in
      subst (λ o. IsServed h (serve_route h env p.tokens p.counter o)) (sym e)
        (serve_route-IsServed p.tokens p.counter c ok)

prepare-Runs :
    (sanitizer : Option (List Classifier)) (env : Env) (bound : ℕ) (body : Bytes)
    → HasRoom sanitizer env bound (readable body)
    → Runs (prepare sanitizer env body)
unfolding prepare of_state
prepare-Runs none env bound body room = (_, refl)
prepare-Runs (some classifiers) env bound body (bounded, room) =
    let (out, s, e, _, _) =
      redact_messages-IsSent classifiers env.arrivals bound body env.counter bounded room in
    (of_state (out, s), rw (e, ◌>>=◌) refl)

-- With an endpoint and a wallet at hand, nodes that answer with statuses of three digits, and room
-- for the tokens, every request to `/v1/chat/completions` gets a reply, whatever its body, what the
-- classifiers report and what the nodes answer, errors included; except where tool calls are
-- simulated and the node's response is an object without `choices`, on which the handler panics.
pub chat_completions-IsServed :
    (h : Handler) (env : Env) (bound : ℕ) (received : Received)
    → IsReady h env
    → HasRoom h.sanitizer env bound received
    → IsServed h (chat_completions h env received)
unfolding chat_completions
chat_completions-IsServed h env bound (unreadable err) ready room =
    inl (write_err-Runs 400 _ (omega arith) (omega arith))
chat_completions-IsServed h env bound (readable body) ready room =
    serve_prepared-IsServed h env ready (prepare h.sanitizer env body)
      (prepare-Runs h.sanitizer env bound body room)
