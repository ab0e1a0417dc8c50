-- ===== src/Api/Chat/Restored.antt =====
-- A chat request whose texts are redacted on the way up and restored on the way back.
use mathlib.Core.List.{Perm}
use mathlib.Core.Path.{subst}
use opengnk.Prelude.{
  ℕ, ◌+◌, ◌≤◌, ◌<◌, ◌^◌, false, List, Option, none, some, ◌≡◌, refl, sym, ◌∙◌, ap, ◌>>=◌, le→leb,
}
use opengnk.Text.{Bytes, contains}
use opengnk.Sanitize.Span.{Classifier}
use opengnk.Sanitize.Token.{token_prefix}
use opengnk.Sanitize.TokenMap.{State, is_empty}
use opengnk.Sanitize.TokenMap.Invariant.{IsValid}
use opengnk.Sanitize.TokenMap.Pieces.{Piece, render, expand, AllMarks}
use opengnk.Sanitize.Redact.{Arrival, restore_bytes}
use opengnk.Sanitize.Redact.Loop.{Stands}
use opengnk.Sanitize.Redact.RoundTrip.{restore-Stands}
use opengnk.Sanitize.Messages.{redact_messages}
use opengnk.Sanitize.Messages.Sent.{IsSent}
use opengnk.Sanitize.Messages.Request.{IsBounded, cost_of_body, redact_messages-IsSent}
use opengnk.Upstream.Request.{answered, do_request}
use opengnk.Api.Response.{Reply, write}
use opengnk.Api.Chat.{
  Handler, readable, Env, of_state, prepare, plain, route, restored, restored_headers, plain_reply,
  serve_plain, serve_route, serve_prepared, chat_completions,
}

-- The reply to a client whose answer came with this status, with the pieces' originals in place.
abbrev pub restored_reply : Env → State → ℕ → List Piece → Reply
restored_reply env s status pieces = record {
  status = status;
  headers = restored_headers env (some s.map);
  body = expand pieces;
}

restored-Stands :
    (env : Env) (s : State) (pieces : List Piece)
    → IsValid s
    → Perm (env.restore_order s.map.from_token) s.map.from_token
    → AllMarks (Stands s) pieces
    → is_empty s.map ≡ false
    → contains token_prefix (expand pieces) ≡ false
    → restored env (some s.map) (render pieces) ≡ expand pieces
restored-Stands env s pieces v perm stand nonempty clean =
    unfold restore_bytes in
    rw nonempty (restore-Stands s pieces (env.restore_order s.map.from_token) v perm stand clean)

plain_reply-restored :
    (env : Env) (s : State) (status : ℕ) (pieces : List Piece)
    → restored env (some s.map) (render pieces) ≡ expand pieces
    → 100 ≤ status
    → status ≤ 999
    → plain_reply env (some s.map) (answered status (render pieces) none)
      ≡ some (restored_reply env s status pieces)
unfolding plain_reply write
plain_reply-restored env s status pieces e h k =
    rw (e, le→leb 100 status h, le→leb status 999 k) refl

chat_completions-plain :
    (h : Handler) (env : Env) (classifiers : List Classifier) (body out sent : Bytes) (s : State)
    → h.sanitizer ≡ some classifiers
    → redact_messages classifiers env.arrivals body env.counter ≡ some (out, s)
    → route h out ≡ some (plain sent)
    → chat_completions h env (readable body) ≡ serve_plain h env (some s.map) s.counter sent
unfolding chat_completions serve_prepared serve_route prepare of_state serve_plain
chat_completions-plain h env classifiers body out sent s on e f =
    rw (on, e, f, chat_completions, serve_prepared, serve_route, ◌>>=◌) refl

or_else : Bytes × State → Option (Bytes × State) → Bytes × State
or_else r none = r
or_else r (some q) = q

sends :
    (classifiers : List Classifier) (arrivals : ℕ → ℕ → List Arrival) (bound : ℕ) (body : Bytes)
    (counter : ℕ) (out : Bytes) (s : State)
    → IsBounded classifiers arrivals bound
    → counter + cost_of_body bound body < 2 ^ 64
    → redact_messages classifiers arrivals body counter ≡ some (out, s)
    → IsValid s × IsSent classifiers arrivals s body out
unfolding or_else
sends classifiers arrivals bound body counter out s bounded room e =
    let (out', s', e', v, is_sent) =
      redact_messages-IsSent classifiers arrivals bound body counter bounded room in
    let both : some (out', s') ≡ some (out, s) = sym e' ∙ e in
    let same : (out', s') ≡ (out, s) = ap (or_else (out, s)) both in
    subst (λ (r : Bytes × State). IsValid r.1 × IsSent classifiers arrivals r.1 body r.0) same
      (v, is_sent)

-- For a plain request the nodes are asked with nothing but the redacted body, as `route` normalises
-- it: each of its messages has its text, or the texts of its parts, replaced by what redactText
-- makes of them for the last message of the user and redactTextWithNER for the others, and it is as
-- it came only where there are no messages or these give back every text. Where the node's answer
-- consists of tokens of the request and other text, in any order and number, the client gets it
-- with the originals in place of the tokens, under the node's status; for every order in which the
-- entries of the token map are met, when there is a token, and the restored text has no beginning
-- of one.
pub chat_completions-restored :
    (h : Handler) (env : Env) (classifiers : List Classifier) (bound : ℕ) (body out sent : Bytes)
    (s : State) (status : ℕ) (pieces : List Piece)
    → h.sanitizer ≡ some classifiers
    → IsBounded classifiers env.arrivals bound
    → env.counter + cost_of_body bound body < 2 ^ 64
    → redact_messages classifiers env.arrivals body env.counter ≡ some (out, s)
    → route h out ≡ some (plain sent)
    → (do_request (env.world sent) h.client).outcome ≡ answered status (render pieces) none
    → 100 ≤ status
    → status ≤ 999
    → Perm (env.restore_order s.map.from_token) s.map.from_token
    → AllMarks (Stands s) pieces
    → is_empty s.map ≡ false
    → contains token_prefix (expand pieces) ≡ false
    → IsSent classifiers env.arrivals s body out
      × ((chat_completions h env (readable body)).upstream
          ≡ some (sent, do_request (env.world sent) h.client))
      × ((chat_completions h env (readable body)).reply ≡ some (restored_reply env s status pieces))
unfolding serve_plain
chat_completions-restored h env classifiers bound body out sent s status pieces on bounded room e f
      answer low high perm stand nonempty clean =
    let (v, is_sent) = sends classifiers env.arrivals bound body env.counter out s bounded room e in
    let same = chat_completions-plain h env classifiers body out sent s on e f in
    let back = restored-Stands env s pieces v perm stand nonempty clean in
    (
      is_sent,
      ap (λ r. r.upstream) same,
      ap (λ r. r.reply) same
          ∙ ap (plain_reply env (some s.map)) answer
          ∙ plain_reply-restored env s status pieces back low high,
    )
