-- ===== src/Ner.antt =====
-- internal/sanitize/ner/ner.go: the classifier that asks the sidecar. What the sidecar replies is an
-- argument, with its JSON decoded.
use opengnk.Prelude.{List, [], ◌∷◌, Option, none, some}
use opengnk.Prelude.Int.{ℤ}
use opengnk.Text.{Bytes}
use opengnk.Sanitize.Span.{Span, Classifier}

pub record NerSpan : Type 0 where
  pub start : ℤ
  pub stop : ℤ
  pub label : Bytes
  pub text : Bytes

-- What asking comes to: no request, no reply or one with another status than 200, a reply that
-- does not decode, or spans.
pub data Answer : Type 0 where
  not_sent : Answer
  skipped : Answer
  undecodable : Answer
  spans : List NerSpan → Answer

-- The loop of `Classify`.
unfoldable pub convert : List NerSpan → List Span
convert [] = []
convert (s ∷ ss) =
    record { start = s.start; stop = s.stop; label = s.label; score = 100 } ∷ convert ss

abbrev on_answer : Answer → Option (List Span)
on_answer not_sent = none
on_answer skipped = some []
on_answer undecodable = none
on_answer (spans ss) = some (convert ss)

unfoldable pub classify : (Bytes → Answer) → Classifier
classify ask text = on_answer (ask text)
