-- ===== src/Sanitize/Messages/Request.antt =====
-- `RedactMessages` returns, and sends what it should.
use opengnk.Prelude.{
  ℕ, ◌+◌, ◌^◌, ◌≤◌, ◌<◌, List, Option, none, some, ◌≡◌, refl, sym, ◌∙◌, inl, inr, arith, Bool-cases,
  length,
}
use opengnk.Text.{Bytes, codes}
use opengnk.Json.Decode.{RawMap, unmarshal_map, get}
use opengnk.Sanitize.Span.{Classifier}
use opengnk.Sanitize.TokenMap.{State, new_token_map}
use opengnk.Sanitize.TokenMap.Invariant.{IsValid, new-IsValid}
use opengnk.Sanitize.Redact.{
  Arrival, run_classifiers, history_classifiers, redact_text, redact_text_with_ner,
}
use opengnk.Sanitize.Redact.Loop.{Redacts, Redacts-weaken}
use opengnk.Sanitize.Redact.RoundTrip.{redact_found-Redacts}
use opengnk.Sanitize.Messages.{
  last_user_from, is_last, redactor_of, redact_list, messages_of, redact_messages,
}
use opengnk.Sanitize.Messages.Steps.{IsRedactor}
use opengnk.Sanitize.Messages.Walk.{cost, redact_from-Ran}
use opengnk.Sanitize.Messages.Sent.{IsRedactedBy, IsSent, Sends, put_messages-Sends}

-- No text has more than `bound` spans, neither for all classifiers nor for those of the history.
abbrev pub IsBounded : List Classifier → (ℕ → ℕ → List Arrival) → ℕ → Type 0
IsBounded classifiers arrivals bound =
    (i j : ℕ) (text : Bytes)
    → (length (run_classifiers classifiers text (arrivals i j)) ≤ bound)
      × (length (run_classifiers (history_classifiers classifiers) text (arrivals i j)) ≤ bound)

module _ (classifiers : List Classifier) (arrivals : ℕ → ℕ → List Arrival) (bound : ℕ)
    (bounded : IsBounded classifiers arrivals bound) where
  redact_text-Redacts :
      (i j : ℕ) (text : Bytes) (s : State)
      → IsValid s
      → s.counter + bound < 2 ^ 64
      → Redacts text bound s (redact_text classifiers (arrivals i j) text s)
  unfolding redact_text
  redact_text-Redacts i j text s v room = Redacts-weaken (bounded i j text).0 refl (
      redact_found-Redacts (run_classifiers classifiers text (arrivals i j)) text s v
        (omega (arith, (bounded i j text).0)))

  redact_text_with_ner-Redacts :
      (i j : ℕ) (text : Bytes) (s : State)
      → IsValid s
      → s.counter + bound < 2 ^ 64
      → Redacts text bound s (redact_text_with_ner classifiers (arrivals i j) text s)
  unfolding redact_text_with_ner
  redact_text_with_ner-Redacts i j text s v room = Redacts-weaken (bounded i j text).1 refl (
      redact_found-Redacts (run_classifiers (history_classifiers classifiers) text (arrivals i j))
        text s v (omega (arith, (bounded i j text).1)))

  redactor_of-IsRedactor :
      (last : Option ℕ) (i : ℕ)
      → IsRedactor
          (IsRedactedBy classifiers arrivals last i)
          (redactor_of classifiers arrivals last i)
          bound
  unfolding redactor_of
  redactor_of-IsRedactor last i j text s v room = elim (Bool-cases (is_last last i)) [
    | inl e ↦
        let same : redactor_of classifiers arrivals last i j text s
            ≡ redact_text classifiers (arrivals i j) text s =
          rw (e, redactor_of) refl in
        let r : Redacts text bound s (redactor_of classifiers arrivals last i j text s) =
          Redacts-weaken (omega arith) same (redact_text-Redacts i j text s v room) in
        (r, record { before = s; after = r.state; runs = inl (e, sym same ∙ r.returns) })
    | inr e ↦
        let same : redactor_of classifiers arrivals last i j text s
            ≡ redact_text_with_ner classifiers (arrivals i j) text s =
          rw (e, redactor_of) refl in
        let r : Redacts text bound s (redactor_of classifiers arrivals last i j text s) =
          Redacts-weaken (omega arith) same (redact_text_with_ner-Redacts i j text s v room) in
        (r, record { before = s; after = r.state; runs = inr (e, sym same ∙ r.returns) })
  ]

-- How many tokens a body may need, when a text needs `bound`.
abbrev cost_of_list : ℕ → Option (List RawMap) → ℕ
cost_of_list bound none = 0
cost_of_list bound (some ms) = cost bound ms

abbrev cost_of_map : ℕ → Option RawMap → ℕ
cost_of_map bound none = bound
cost_of_map bound (some req) = cost_of_list bound (messages_of (get (codes "messages") req))

abbrev pub cost_of_body : ℕ → Bytes → ℕ
cost_of_body bound body = cost_of_map bound (unmarshal_map body)

module _ (classifiers : List Classifier) (arrivals : ℕ → ℕ → List Arrival) (bound : ℕ)
    (bounded : IsBounded classifiers arrivals bound) where
  redact_list-Sends :
      (body : Bytes) (req : RawMap) (s : State) (o : Option (List RawMap))
      → unmarshal_map body ≡ some req
      → messages_of (get (codes "messages") req) ≡ o
      → IsValid s
      → s.counter + cost_of_list bound o < 2 ^ 64
      → Sends classifiers arrivals body (redact_list classifiers arrivals body req s o)
  unfolding redact_list
  redact_list-Sends body req s none e found v room =
      (body, s, refl, v, inl (record { req = req; decodes = e; absent = found; same = refl }))
  redact_list-Sends body none s (some ms) e found v room =
      unfold get messages_of in absurd (ground (arith, found))
  redact_list-Sends body (some d) s (some ms) e found v room =
      put_messages-Sends classifiers arrivals body d ms (cost bound ms) s _ e found (
        redact_from-Ran (IsRedactedBy classifiers arrivals (last_user_from 0 ms))
          (redactor_of classifiers arrivals (last_user_from 0 ms)) bound 0 ms s
          (redactor_of-IsRedactor classifiers arrivals bound bounded (last_user_from 0 ms)) v room)

  redact_messages-none :
      (body : Bytes) (counter : ℕ)
      → unmarshal_map body ≡ none
      → redact_messages classifiers arrivals body counter
        ≡ redact_text classifiers
            (arrivals 0 0)
            body
            (record { counter = counter; map = new_token_map })
  unfolding redact_messages
  redact_messages-none body counter e = rw (e, redact_messages) refl

  redact_messages-some :
      (body : Bytes) (counter : ℕ) (req : RawMap)
      → unmarshal_map body ≡ some req
      → redact_messages classifiers arrivals body counter
        ≡ redact_list classifiers arrivals body req
            (record { counter = counter; map = new_token_map })
            (messages_of (get (codes "messages") req))
  unfolding redact_messages
  redact_messages-some body counter req e = rw (e, redact_messages) refl

  returns_sent :
      (body : Bytes) (counter : ℕ) (o : Option RawMap)
      → unmarshal_map body ≡ o
      → counter + cost_of_map bound o < 2 ^ 64
      → Sends classifiers arrivals body (redact_messages classifiers arrivals body counter)
  returns_sent body counter none e room =
      let start = new-IsValid counter (omega arith) in
      let r = redact_text-Redacts classifiers arrivals bound bounded 0 0 body _ start room in
      (
        r.text,
        r.state,
        redact_messages-none body counter e ∙ r.returns,
        r.valid,
        inr (inl (e, r.redaction, (_, r.state, r.returns))),
      )
  returns_sent body counter (some req) e room =
      let start = new-IsValid counter (omega arith) in
      let (out, s, f, v, h) =
        redact_list-Sends body req _ (messages_of (get (codes "messages") req)) e refl start room in
      (out, s, redact_messages-some body counter req e ∙ f, v, h)

-- `RedactMessages` never panics, whatever the body, what the classifiers report and in whatever
-- order they finish, as long as the counter has room. It leaves a valid token map. A body that is no
-- JSON object is sent as redactText makes it, an object without a list of messages as it came, and
-- any other request with as many messages in the same order, each with its text, or the texts of
-- its parts, replaced by what redactText makes of them for the last message of the user and
-- redactTextWithNER for the others, with the classifiers finishing as they did for that text. A
-- message is left as it was only where it has neither text nor parts, or where these give back each
-- of its texts, and the body is sent as it came only where all messages are as they were.
pub redact_messages-IsSent :
    (classifiers : List Classifier) (arrivals : ℕ → ℕ → List Arrival) (bound : ℕ) (body : Bytes)
    (counter : ℕ)
    → IsBounded classifiers arrivals bound
    → counter + cost_of_body bound body < 2 ^ 64
    → (out : Bytes) × (s : State) × (redact_messages classifiers arrivals body counter
        ≡ some (out, s))
      × IsValid s
      × IsSent classifiers arrivals s body out
redact_messages-IsSent classifiers arrivals bound body counter bounded room =
    returns_sent classifiers arrivals bound bounded body counter (unmarshal_map body) refl room
