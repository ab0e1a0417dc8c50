-- ===== src/Api/Chat/Answers.antt =====
-- Every chat request is answered.
use opengnk.Prelude.{
  ℕ, ◌≤◌, ◌<◌, ◌&&◌, false, List, [], Option, none, some, ◌≡◌, refl, ◌⊎◌, inl, inr, arith,
  Bool-cases, ◌>>=◌, leb,
}
use opengnk.Text.{Bytes}
use opengnk.Text.Dict.{Dict}
use opengnk.Text.Runs.{Runs, Runs-bind, Runs-if}
use opengnk.Sanitize.TokenMap.{TokenMap, is_empty}
use opengnk.Sanitize.Stream.{Event, Reader, new_restoring_reader, pump}
use opengnk.Sanitize.Stream.Pending.{pending}
use opengnk.Sanitize.Stream.Pump.{rounds, pump-pending}
use opengnk.Upstream.Request.{Outcome, answered, failed, panicked}
use opengnk.Api.Chat.Settled.{IsSettled}
use opengnk.ToolSim.{Tool}
use opengnk.ToolSim.Response.Parsed.{IsWithoutChoices, parse_response-panics}
use opengnk.Api.Response.{write, write_err, upstream_error}
use opengnk.Api.Chat.{
  Env, restored, plain_reply, simulated_answer, simulated_reply, passed, text_of_pump, copied,
  stream_reply,
}

pub write-Runs :
    (headers : Dict) (status : ℕ) (body : Bytes)
    → 100 ≤ status
    → status ≤ 999
    → Runs (write headers status body)
unfolding write
write-Runs headers status body h k =
    Runs-if (leb 100 status && leb status 999) _ none (λ _. (_, refl)) (λ e. absurd (ground arith))

pub write_err-Runs :
    (status : ℕ) (msg : Bytes) → 100 ≤ status → status ≤ 999 → Runs (write_err status msg)
unfolding write_err
write_err-Runs status msg h k = write-Runs _ status _ h k

pub upstream_error-Runs : (text : Bytes) → Runs (upstream_error text)
unfolding upstream_error
upstream_error-Runs text = write_err-Runs 502 _ (omega arith) (omega arith)

pub plain_reply-Runs :
    (env : Env) (tm : Option TokenMap) (o : Outcome) → IsSettled o → Runs (plain_reply env tm o)
unfolding plain_reply
plain_reply-Runs env tm (answered status body none) (h, k) = write-Runs _ status _ h k
plain_reply-Runs env tm (answered status body (some err)) h = upstream_error-Runs err
plain_reply-Runs env tm (failed none) h = absurd h
plain_reply-Runs env tm (failed (some e)) h = upstream_error-Runs _
plain_reply-Runs env tm panicked h = absurd h

text_of_pump-Runs :
    (fuel p : ℕ) (r : Reader) → 0 < p → rounds r ≤ fuel → Runs (text_of_pump (pump fuel p r []))
unfolding text_of_pump
text_of_pump-Runs fuel p r h enough =
    let (ending, e) = pump-pending fuel p r [] h enough in (pending r, rw (e, text_of_pump) refl)

copied-Runs : (env : Env) (tm : Option TokenMap) (src : List Event) → Runs (copied env tm src)
unfolding copied
copied-Runs env none src = (_, refl)
copied-Runs env (some tm) src =
    let r = new_restoring_reader src (λ n. env.read_order n tm.from_token) in
    Runs-if (is_empty tm) (some (passed src)) _ (λ _. (_, refl))
      (λ _. text_of_pump-Runs (rounds r) 4096 r (omega arith) (omega arith))

pub stream_reply-Runs :
    (env : Env) (tm : Option TokenMap) (o : Outcome) → IsSettled o → Runs (stream_reply env tm o)
unfolding stream_reply
stream_reply-Runs env tm (answered status body err) (h, k) =
    Runs-if (leb 400 status) _ _ (λ _. write-Runs _ status _ h k)
      (λ _.
        Runs-bind (copied env tm (env.events body err)) _ (copied-Runs env tm (env.events body err))
          (λ text. write-Runs _ 200 text (omega arith) (omega arith)))
stream_reply-Runs env tm (failed none) h = absurd h
stream_reply-Runs env tm (failed (some e)) h = upstream_error-Runs _
stream_reply-Runs env tm panicked h = absurd h

-- A response that `ParseResponse` panics on.
abbrev pub IsFatal : Outcome → Type 0
IsFatal (answered status body none) = (status < 400) × IsWithoutChoices body
IsFatal (answered status body (some err)) = ⊥
IsFatal (failed e) = ⊥
IsFatal panicked = ⊥

simulated_answer-Runs :
    (env : Env) (tm : Option TokenMap) (tools : List Tool) (status : ℕ) (body : Bytes)
    → 100 ≤ status
    → status ≤ 999
    → Runs (simulated_answer env tm tools status body)
      ⊎ ((simulated_answer env tm tools status body ≡ none)
          × (status < 400)
          × IsWithoutChoices body)
unfolding simulated_answer
simulated_answer-Runs env tm tools status body h k = elim (Bool-cases (leb 400 status)) [
  | inl e ↦ rw e (inl (write-Runs _ status body h k))
  | inr e ↦ elim (parse_response-panics body env.random tools) [
    | inl (fatal, f) ↦ rw (e, f, ◌>>=◌) (inr (refl, omega (arith, below e), fatal))
    | inr (_, (out, f)) ↦
        rw (e, f, ◌>>=◌) (inl (write-Runs _ 200 (restored env tm out) (omega arith) (omega arith)))
  ]
]
  where
    below : leb 400 status ≡ false → status < 400
    below e = ground arith

pub simulated_reply-Runs :
    (env : Env) (tm : Option TokenMap) (tools : List Tool) (o : Outcome)
    → IsSettled o
    → Runs (simulated_reply env tm tools o) ⊎ ((simulated_reply env tm tools o ≡ none) × IsFatal o)
unfolding simulated_reply
simulated_reply-Runs env tm tools (answered status body none) (h, k) =
    elim (simulated_answer-Runs env tm tools status body h k) [
      | inl r ↦ inl r
      | inr (e, below, fatal) ↦ inr (e, (below, fatal))
    ]
simulated_reply-Runs env tm tools (answered status body (some err)) h =
    inl (upstream_error-Runs err)
simulated_reply-Runs env tm tools (failed none) h = absurd h
simulated_reply-Runs env tm tools (failed (some e)) h = inl (upstream_error-Runs _)
simulated_reply-Runs env tm tools panicked h = absurd h
