-- ===== src/Sanitize/Messages/Sent.antt =====
-- What `RedactMessages` sends, and the request behind its redacted messages.
use opengnk.Prelude.{
  ℕ, true, false, List, Option, none, some, ◌≡◌, refl, ◌⊎◌, inl, inr, Bool-cases, ◌>>=◌,
}
use opengnk.Text.{Bytes, codes}
use opengnk.Text.Dict.{Dict, insert}
use opengnk.Json.Encode.{marshal_map, marshal_maps, brackets}
use opengnk.Json.Decode.{RawMap, unmarshal_map, get, assign}
use opengnk.Sanitize.Span.{Classifier}
use opengnk.Sanitize.TokenMap.{State}
use opengnk.Sanitize.TokenMap.Invariant.{IsValid}
use opengnk.Sanitize.Redact.{Arrival, redact_text, redact_text_with_ner}
use opengnk.Sanitize.Redact.Loop.{IsRedaction}
use opengnk.Sanitize.Messages.{Result, is_last, last_user_from, put_messages, messages_of}
use opengnk.Sanitize.Messages.Steps.{Ran}
use opengnk.Sanitize.Messages.Walk.{RedactedMessages}

-- `text` is what redactText makes of the original, text `j` of message `i`, or redactTextWithNER where
-- that is not the last message of the user; the classifiers finish as `arrivals` tells.
pub record IsRedactedBy (classifiers : List Classifier) (arrivals : ℕ → ℕ → List Arrival)
    (last : Option ℕ) (i j : ℕ) (original text : Bytes) : Type 0 where
  pub before : State
  pub after : State
  pub runs :
      ((is_last last i ≡ true)
        × (redact_text classifiers (arrivals i j) original before ≡ some (text, after)))
      ⊎ ((is_last last i ≡ false)
          × (redact_text_with_ner classifiers (arrivals i j) original before ≡ some (text, after)))

-- The messages of the request are redacted one by one, and stand in it again, or the body is sent as
-- it came where they are all as they were.
pub record HasMessages (classifiers : List Classifier) (arrivals : ℕ → ℕ → List Arrival) (s : State)
    (body out : Bytes) : Type 0 where
  pub req : RawMap
  pub messages : List RawMap
  pub redacted : List RawMap
  pub decodes : unmarshal_map body ≡ some req
  pub found : messages_of (get (codes "messages") req) ≡ some messages
  pub hides :
      RedactedMessages
        (IsRedactedBy classifiers arrivals (last_user_from 0 messages))
        0
        messages
        s
        redacted
  pub put :
      ((redacted ≡ messages) × (out ≡ body))
      ⊎ ((sent : RawMap) × (assign (codes "messages") (brackets (marshal_maps redacted)) req
            ≡ some sent)
          × (out ≡ marshal_map sent))

-- The body is an object without a list of messages, and is sent as it came.
pub record HasNoMessages (body out : Bytes) : Type 0 where
  pub req : RawMap
  pub decodes : unmarshal_map body ≡ some req
  pub absent : messages_of (get (codes "messages") req) ≡ none
  pub same : out ≡ body

-- What is sent: an object without messages as it came, a redaction of a body that is no JSON object,
-- or the request with redacted messages.
abbrev pub IsSent : List Classifier → (ℕ → ℕ → List Arrival) → State → Bytes → Bytes → Type 0
IsSent classifiers arrivals s body out =
    HasNoMessages body out
    ⊎ (((unmarshal_map body ≡ none)
          × IsRedaction body s out
          × ((start after : State) × (redact_text classifiers (arrivals 0 0) body start
                ≡ some (out, after))))
        ⊎ HasMessages classifiers arrivals s body out)

-- The outcome of a redaction that returns.
abbrev pub Sends :
    List Classifier → (ℕ → ℕ → List Arrival) → Bytes → Option (Bytes × State) → Type 0
Sends classifiers arrivals body o =
    (out : Bytes) × (s : State) × (o ≡ some (out, s))
    × IsValid s
    × IsSent classifiers arrivals s body out

pub put_messages-Sends :
    (classifiers : List Classifier) (arrivals : ℕ → ℕ → List Arrival) (body : Bytes) (d : Dict)
    (messages : List RawMap) (n : ℕ) (s : State) (o : Option (Result (List RawMap)))
    → unmarshal_map body ≡ some (some d)
    → messages_of (get (codes "messages") (some d)) ≡ some messages
    → Ran n s messages
        (RedactedMessages
          (IsRedactedBy classifiers arrivals (last_user_from 0 messages))
          0
          messages)
        o
    → Sends classifiers arrivals body (o >>= put_messages body (some d))
put_messages-Sends classifiers arrivals body d messages n s o e found r =
    elim (Bool-cases r.result.changed) [
      | inr c ↦ (
        body,
        r.result.state,
        rw (r.returns, ◌>>=◌) (kept c),
        r.valid,
        inr (
            inr (record {
              req = some d;
              messages = messages;
              redacted = r.result.value;
              decodes = e;
              found = found;
              hides = r.holds;
              put = inl (r.stays c, refl);
            })),
      )
      | inl c ↦ (
        marshal_map (some (new r.result.value)),
        r.result.state,
        rw (r.returns, ◌>>=◌) (put c),
        r.valid,
        inr (
            inr (record {
              req = some d;
              messages = messages;
              redacted = r.result.value;
              decodes = e;
              found = found;
              hides = r.holds;
              put = inr (some (new r.result.value), (unfold assign in refl), refl);
            })),
      )
    ]
  where
    new : List RawMap → Dict
    new ns = insert (codes "messages") (brackets (marshal_maps ns)) d

    kept :
        r.result.changed ≡ false → put_messages body (some d) r.result ≡ some (body, r.result.state)
    kept c = unfold put_messages in rw c refl

    put :
        r.result.changed ≡ true
        → put_messages body (some d) r.result
          ≡ some (marshal_map (some (new r.result.value)), r.result.state)
    put c = unfold put_messages assign in rw c refl
