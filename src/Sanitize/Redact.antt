-- ===== src/Sanitize/Redact.antt =====
-- `Sanitizer.runClassifiers`, `redactText`, `redactTextWithNER` and `RestoreBytes`.
pub mod Loop
pub mod RoundTrip
use opengnk.Prelude.{
  ℕ, zero, suc, ◌-◌, Bool, true, false, List, [], ◌∷◌, ◌++◌, Option, none, some, ltb, ◌==◌,
  if◌then◌else◌, ◌>>=◌, length, get_elem?, take,
}
use opengnk.Prelude.Int.{to_index}
use opengnk.Text.{Bytes, slice}
use opengnk.Text.Dict.{Dict}
use opengnk.Sanitize.Span.{Span, Classifier}
use opengnk.Sanitize.Spans.{valid_spans, deduplicate_spans, sort_spans_desc}
use opengnk.Sanitize.TokenMap.{TokenMap, State, register, restore, is_empty}

-- What the loop of `runClassifiers` receives next: the result of the classifier with this index,
-- or the end of the budget. The order in which the goroutines finish is arbitrary.
pub data Arrival : Type 0 where
  finished : ℕ → Arrival
  expired : Arrival

-- The spans that a classifier's goroutine sends; none after an error.
sent : Option (List Span) → List Span
sent none = []
sent (some spans) = spans

result_of : List Classifier → Bytes → ℕ → List Span
unfolding sent
result_of classifiers text i = elim (get_elem? classifiers i) [
  | none ↦ []
  | some classify ↦ sent (classify text)
]

-- The loop of `runClassifiers`, with the rounds that are left. A run that never hears of a
-- classifier again hears of the end of the budget.
collect : List Classifier → Bytes → ℕ → List Arrival → List Span → List Span
unfolding result_of
collect classifiers text zero arrivals all = all
collect classifiers text (suc n) [] all = all
collect classifiers text (suc n) (expired ∷ arrivals) all = all
collect classifiers text (suc n) (finished i ∷ arrivals) all =
    collect classifiers text n arrivals (all ++ result_of classifiers text i)

unfoldable pub run_classifiers : List Classifier → Bytes → List Arrival → List Span
unfolding collect
run_classifiers classifiers text arrivals =
    collect classifiers text (length classifiers) arrivals []

-- The loop behind the checks: `text = text[:sp.Start] + tok + text[sp.End:]`.
unfoldable pub redact_spans : List Span → Bytes → State → Option (Bytes × State)
redact_spans [] text s = some (text, s)
redact_spans (sp ∷ sps) text s = do
  a ← to_index sp.start
  b ← to_index sp.stop
  matched ← slice text a b
  let (tok, s') = register matched s
  head ← slice text 0 a
  rest ← slice text b (length text)
  redact_spans sps (head ++ (tok ++ rest)) s'

-- What `redactText` and `redactTextWithNER` do with the spans of the classifiers.
unfoldable pub redact_found : List Span → Bytes → State → Option (Bytes × State)
redact_found [] original s = some (original, s)
redact_found (sp ∷ sps) original s = do
  valid ← valid_spans original (sp ∷ sps)
  redact_spans (deduplicate_spans (sort_spans_desc valid)) original s

unfoldable pub redact_text : List Classifier → List Arrival → Bytes → State → Option (Bytes × State)
redact_text classifiers arrivals original s =
    redact_found (run_classifiers classifiers original arrivals) original s

-- The classifiers for a history message: all but the last, if there are two or more.
unfoldable pub history_classifiers : List Classifier → List Classifier
history_classifiers classifiers =
    if ltb 1 (length classifiers) then take (length classifiers - 1) classifiers else []

unfoldable pub redact_text_with_ner :
    List Classifier → List Arrival → Bytes → State → Option (Bytes × State)
redact_text_with_ner classifiers arrivals original s =
    redact_found (run_classifiers (history_classifiers classifiers) original arrivals) original s

-- `RestoreBytes`, with the order in which Go meets the map's entries. `none` is a nil map.
unfoldable pub restore_bytes : Dict → Bytes → Option TokenMap → Bytes
restore_bytes order body none = body
restore_bytes order body (some m) = if is_empty m then body else restore order body
