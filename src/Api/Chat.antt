-- ===== src/Api/Chat.antt =====
-- `chatCompletions` and the three ways in which it answers.
pub mod Settled
pub mod Answers
pub mod Replies
pub mod Restored
use opengnk.Prelude.{
  ℕ, Bool, true, false, ◌&&◌, List, [], ◌∷◌, ◌++◌, Option, none, some, leb, if◌then◌else◌, ◌>>=◌,
}
use opengnk.Text.{Bytes, codes}
use opengnk.Text.Dict.{Dict, insert}
use opengnk.Json.Decode.{peek_flag}
use opengnk.Sanitize.Span.{Classifier}
use opengnk.Sanitize.TokenMap.{TokenMap, State, is_empty}
use opengnk.Sanitize.Redact.{Arrival, restore_bytes}
use opengnk.Sanitize.Messages.{redact_messages}
use opengnk.Sanitize.Stream.{Event, chunk, last, broken, Ending, new_restoring_reader, pump}
use opengnk.Sanitize.Stream.Pump.{rounds}
use opengnk.Upstream.{Client}
use opengnk.Upstream.Request.{
  World, Outcome, answered, failed, panicked, Run, do_request, do_stream,
}
use opengnk.ToolSim.{Tool, needs_simulation}
use opengnk.ToolSim.Request.{Rewrite, failed, unchanged, rewritten, rewrite_request}
use opengnk.ToolSim.Response.{parse_response}
use opengnk.Api.Response.{
  Reply, write, json_header, write_err, error_text, upstream_error, set_sanitize_header,
}
use opengnk.Api.Normalize.{normalize_message_content}

-- The sanitizer is its classifiers, and none where it is nil.
pub record Handler : Type 0 where
  pub client : Client
  pub simulate_tool_calls : Bool
  pub native_tool_calls : Bool
  pub sanitizer : Option (List Classifier)

-- The body of the client's request, or the text of the error that ends its reading.
pub data Received : Type 0 where
  readable unreadable : Bytes → Received

-- What surrounds a request: the value of `globalCounter`, the orders in which the classifiers
-- finish, what the nodes answer to a payload, how the body of a streamed answer arrives, in which
-- orders the entries of the token map are met (when a whole text is restored, on each `Read` of a
-- stream, and when the header is written), the random bytes for the calls' ids, and the text of an error of the decoder.
pub record Env : Type 0 where
  pub counter : ℕ
  pub arrivals : ℕ → ℕ → List Arrival
  pub world : Bytes → World
  pub events : Bytes → Option Bytes → List Event
  pub restore_order : Dict → Dict
  pub read_order : ℕ → Dict → Dict
  pub header_order : Dict → Dict
  pub random : ℕ → Bytes
  pub rewrite_error : Bytes

-- What a request comes to: the reply to the client, which is none after a panic; the payload and
-- the calls of the nodes, if there are any; and `globalCounter`.
pub record Served : Type 0 where
  pub reply : Option Reply
  pub upstream : Option (Bytes × Run)
  pub counter : ℕ

-- The body behind the sanitizer, with the token map.
pub record Prepared : Type 0 where
  pub body : Bytes
  pub tokens : Option TokenMap
  pub counter : ℕ

of_state : Bytes × State → Prepared
of_state (body, s) = record { body = body; tokens = some s.map; counter = s.counter }

unfoldable pub prepare : Option (List Classifier) → Env → Bytes → Option Prepared
unfolding of_state
prepare none env body = some (record { body = body; tokens = none; counter = env.counter })
prepare (some classifiers) env body = do
  r ← redact_messages classifiers env.arrivals body env.counter
  some (of_state r)

-- Which of the three ways is taken, and with what body.
pub data Route : Type 0 where
  simulated streamed plain : Bytes → Route

peeked : Bytes → Route
peeked body = if peek_flag (codes "stream") body then streamed body else plain body

unfoldable pub route : Handler → Bytes → Option Route
unfolding peeked
route h body =
    if h.native_tool_calls
    then (do flat ← normalize_message_content body; some (peeked flat))
    else some
        (if h.simulate_tool_calls && needs_simulation body then simulated body else peeked body)

-- `RestoreBytes`, which is not called where there is no token map.
abbrev pub restored : Env → Option TokenMap → Bytes → Bytes
restored env none text = text
restored env (some tm) text = restore_bytes (env.restore_order tm.from_token) text (some tm)

-- The header with the redactions, in an empty list of headers.
unfoldable pub tokens_header : Env → Option TokenMap → Dict
tokens_header env none = set_sanitize_header [] none []
tokens_header env (some tm) = set_sanitize_header (env.header_order tm.from_token) (some tm) []

-- The headers of a JSON reply whose text is restored.
unfoldable pub restored_headers : Env → Option TokenMap → Dict
restored_headers env tm =
    insert (codes "Content-Type") (codes "application/json") (tokens_header env tm)

-- `nonStreamResponse` behind `Do`; without an error and without a response the status is 0.
unfoldable pub plain_reply : Env → Option TokenMap → Outcome → Option Reply
plain_reply env tm (answered status body none) =
    write (restored_headers env tm) status (restored env tm body)
plain_reply env tm (answered status body (some err)) = upstream_error err
plain_reply env tm (failed (some e)) = upstream_error (error_text e)
plain_reply env tm (failed none) = write (restored_headers env tm) 0 []
plain_reply env tm panicked = none

-- `toolSimResponse` behind `Do`, with a response.
unfoldable pub simulated_answer : Env → Option TokenMap → List Tool → ℕ → Bytes → Option Reply
simulated_answer env tm tools status body =
    if leb 400 status then write json_header status body else (do
      result ← parse_response body env.random tools
      write (restored_headers env tm) 200 (restored env tm result))

unfoldable pub simulated_reply : Env → Option TokenMap → List Tool → Outcome → Option Reply
unfolding simulated_answer
simulated_reply env tm tools (answered status body none) = simulated_answer env tm tools status body
simulated_reply env tm tools (answered status body (some err)) = upstream_error err
simulated_reply env tm tools (failed (some e)) = upstream_error (error_text e)
simulated_reply env tm tools (failed none) = simulated_answer env tm tools 0 []
simulated_reply env tm tools panicked = none

-- What is copied to the client where no reader restores the text.
unfoldable pub passed : List Event → Bytes
passed [] = []
passed (chunk c ∷ src) = c ++ passed src
passed (last c ∷ src) = c
passed (broken c ∷ src) = c

text_of_pump : Option (Bytes × Ending) → Option Bytes
text_of_pump none = none
text_of_pump (some (text, ending)) = some text

-- The copy loop of `streamResponse`, with its buffer of 4096 bytes; `NewRestoringReader` gives the
-- source itself where the token map is nil or empty.
unfoldable pub copied : Env → Option TokenMap → List Event → Option Bytes
unfolding text_of_pump
copied env none src = some (passed src)
copied env (some tm) src =
    let r = new_restoring_reader src (λ n. env.read_order n tm.from_token) in
    if is_empty tm then some (passed src) else text_of_pump (pump (rounds r) 4096 r [])

unfoldable pub stream_headers : Env → Option TokenMap → Dict
stream_headers env tm = insert (codes "X-Accel-Buffering") (codes "no") (
    insert (codes "Connection") (codes "keep-alive") (
      insert (codes "Cache-Control") (codes "no-cache")
        (insert (codes "Content-Type") (codes "text/event-stream") (tokens_header env tm))))

-- `streamResponse` behind `DoStream`, whose error is never nil without a response.
unfoldable pub stream_reply : Env → Option TokenMap → Outcome → Option Reply
stream_reply env tm (answered status body err) =
    if leb 400 status
    then write json_header status body
    else (do text ← copied env tm (env.events body err); write (stream_headers env tm) 200 text)
stream_reply env tm (failed (some e)) = upstream_error (error_text e)
stream_reply env tm (failed none) = none
stream_reply env tm panicked = none

-- A request whose payload goes to the nodes.
abbrev serve : Bytes → Run → (Outcome → Option Reply) → ℕ → Served
serve payload run reply counter = record {
  reply = reply run.outcome;
  upstream = some (payload, run);
  counter = counter;
}

unfoldable pub serve_plain : Handler → Env → Option TokenMap → ℕ → Bytes → Served
serve_plain h env tm counter body =
    serve body (do_request (env.world body) h.client) (plain_reply env tm) counter

unfoldable pub serve_stream : Handler → Env → Option TokenMap → ℕ → Bytes → Served
serve_stream h env tm counter body =
    serve body (do_stream (env.world body) h.client) (stream_reply env tm) counter

abbrev pub alone : Option Reply → ℕ → Served
alone reply counter = record { reply = reply; upstream = none; counter = counter }

-- `toolSimResponse` behind `RewriteRequest`.
unfoldable pub serve_rewrite : Handler → Env → Option TokenMap → ℕ → Bytes → Option Rewrite → Served
serve_rewrite h env tm counter body none = alone none counter
serve_rewrite h env tm counter body (some failed) =
    alone (write_err 400 (codes "tool simulation rewrite failed: " ++ env.rewrite_error)) counter
serve_rewrite h env tm counter body (some unchanged) =
    serve body (do_request (env.world body) h.client) (simulated_reply env tm []) counter
serve_rewrite h env tm counter body (some (rewritten out tools stream)) =
    serve out (do_request (env.world out) h.client) (simulated_reply env tm tools) counter

unfoldable pub serve_route : Handler → Env → Option TokenMap → ℕ → Option Route → Served
unfolding serve_rewrite
serve_route h env tm counter none = alone none counter
serve_route h env tm counter (some (simulated body)) =
    serve_rewrite h env tm counter body (rewrite_request body)
serve_route h env tm counter (some (streamed body)) = serve_stream h env tm counter body
serve_route h env tm counter (some (plain body)) = serve_plain h env tm counter body

unfoldable pub serve_prepared : Handler → Env → Option Prepared → Served
serve_prepared h env none = alone none env.counter
serve_prepared h env (some p) = serve_route h env p.tokens p.counter (route h p.body)

-- `chatCompletions`.
unfoldable pub chat_completions : Handler → Env → Received → Served
chat_completions h env (unreadable err) =
    alone (write_err 400 (codes "failed to read body: " ++ err)) env.counter
chat_completions h env (readable body) = serve_prepared h env (prepare h.sanitizer env body)
