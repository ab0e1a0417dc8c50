-- ===== src/Sanitize/Messages/History.antt =====
-- All messages but the last one of the user, where there is a single classifier.
use opengnk.Prelude.{ℕ, ◌+◌, false, List, [], ◌∷◌, Option, none, some, ◌≡◌, refl, ◌>>=◌}
use opengnk.Text.{Bytes, codes}
use opengnk.Text.Search.{equal_refl}
use opengnk.Json.Decode.{RawMap, unmarshal_maps, unmarshal_string, get}
use opengnk.Sanitize.Span.{Classifier}
use opengnk.Sanitize.TokenMap.{State}
use opengnk.Sanitize.Redact.{Arrival}
use opengnk.Sanitize.Redact.RoundTrip.{redact_text_with_ner_single}
use opengnk.Sanitize.Messages.{
  Redactor, same, put_text, redact_string, text_of, redact_part, redact_parts, put_parts,
  redact_array, redact_content, with_content, redact_message, is_last, redactor_of,
}

module _ (redact : Redactor)
    (leaves : (j : ℕ) (text : Bytes) (s : State) → redact j text s ≡ some (text, s)) where
  redact_string-same :
      (j : ℕ) (key : Bytes) (m : RawMap) (s : State) (o : Option Bytes)
      → redact_string redact j key m s o ≡ some (same m s)
  unfolding redact_string put_text
  redact_string-same j key m s none = refl
  redact_string-same j key m s (some text) =
      rw (leaves j text s, redact_string, ◌>>=◌, put_text, equal_refl text) refl

  redact_parts-same :
      (j : ℕ) (ps : List RawMap) (s : State) → redact_parts redact j ps s ≡ some (same ps s)
  unfolding redact_parts redact_part
  redact_parts-same j [] s = refl
  redact_parts-same j (p ∷ ps) s =
      rw
        (
          redact_string-same j (codes "text") p s (text_of (get (codes "text") p)),
          ◌>>=◌,
          redact_parts-same (j + 1) ps s,
        )
        refl

  redact_array-same :
      (m : RawMap) (s : State) (o : Option (List RawMap))
      → redact_array redact m s o ≡ some (same m s)
  unfolding redact_array put_parts
  redact_array-same m s none = refl
  redact_array-same m s (some parts) = rw (redact_parts-same 0 parts s, ◌>>=◌) refl

  redact_content-same :
      (m : RawMap) (s : State) (raw : Bytes) (o : Option Bytes)
      → redact_content redact m s raw o ≡ some (same m s)
  unfolding redact_content
  redact_content-same m s raw none = redact_array-same m s (unmarshal_maps raw)
  redact_content-same m s raw (some text) = redact_string-same 0 (codes "content") m s (some text)

  with_content-same :
      (m : RawMap) (s : State) (o : Option Bytes) → with_content redact m s o ≡ some (same m s)
  unfolding with_content
  with_content-same m s none = refl
  with_content-same m s (some raw) = redact_content-same m s raw (unmarshal_string raw)

  redact_message-same : (m : RawMap) (s : State) → redact_message redact m s ≡ some (same m s)
  unfolding redact_message
  redact_message-same m s = with_content-same m s (get (codes "content") m)

redactor_of-single :
    (c : Classifier) (arrivals : ℕ → ℕ → List Arrival) (last : Option ℕ) (i j : ℕ) (text : Bytes)
    (s : State)
    → is_last last i ≡ false
    → redactor_of (c ∷ []) arrivals last i j text s ≡ some (text, s)
unfolding redactor_of
redactor_of-single c arrivals last i j text s e =
    rw e (redact_text_with_ner_single c (arrivals i j) text s)

-- With a single classifier, every message of a request but the last one of the user is left as it
-- is: the texts of its content, be it a string or an array of parts, go out unredacted, whatever
-- the classifier would find in them, and no token is issued.
pub redact_message_single :
    (c : Classifier) (arrivals : ℕ → ℕ → List Arrival) (last : Option ℕ) (i : ℕ) (message : RawMap)
    (s : State)
    → is_last last i ≡ false
    → redact_message (redactor_of (c ∷ []) arrivals last i) message s ≡ some (same message s)
redact_message_single c arrivals last i message s e =
    redact_message-same (redactor_of (c ∷ []) arrivals last i)
      (λ j text t. redactor_of-single c arrivals last i j text t e) message s
