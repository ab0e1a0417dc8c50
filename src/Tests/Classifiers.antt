-- ===== src/Tests/Classifiers.antt =====
-- The classifier that asks a language model, on short texts.
use opengnk.Prelude.{List, [], ◌∷◌, Option, none, some, ◌≡◌, refl, arith}
use opengnk.Text.{Bytes, codes, starts_with, contains, slice}
use opengnk.Text.Trim.{index, last_index, trim_space, trim_front, width, reverse_onto}
use opengnk.Sanitize.Span.{Span}
use opengnk.LlmClassifier.{
  is_boundary, grows_left, grows_right, is_inside_token, find_from, find_value, strip_think_block,
  behind_line, before_fence, strip_code_fence, Completion, choices, clean_answer, classify, span_at,
}
use opengnk.LlmClassifier.Occurrences.{IsScan}
use opengnk.LlmClassifier.Occurrences.Scan.{find_value-IsScan}
use opengnk.LlmClassifier.Occurrences.Answer.{IsReport, classify-IsReport}

abbrev text : Bytes
text = codes "Bob (Bob) saw Bobby"

finds : find_value text (codes "Bob") ≡ some (span_at 0 3 ∷ span_at 5 8 ∷ [])
unfolding find_value find_from is_inside_token grows_left grows_right is_boundary index slice
    starts_with
finds = refl

-- A copy behind a passed-over one is missed where they overlap: "a a" stands alone at 3.
hidden : find_value (codes "xa a a") (codes "a a") ≡ some []
unfolding find_value find_from is_inside_token grows_left grows_right is_boundary index slice
    starts_with
hidden = refl

-- A closing tag in front of the opening one doubles the text between them.
doubles : strip_think_block (codes "</think>a<think>b") ≡ some (codes "</think>aa<think>b")
unfolding strip_think_block index slice starts_with trim_space trim_front width reverse_onto
doubles = refl

find_value-IsScan_example :
    (sps : List Span) × (find_value text (codes "Bob") ≡ some sps) × IsScan text (codes "Bob") 0 sps
find_value-IsScan_example = find_value-IsScan text (codes "Bob") (omega arith)

-- A decoder that knows one array.
abbrev decode : Bytes → Option (List Bytes)
decode [] = none
decode (c ∷ s) = some (codes "Bob" ∷ [])

abbrev ask : Bytes → Completion
ask s = choices (
    record { content = codes "```json\n[\"Bob\"]\n```"; reasoning = []; reasoning_content = [] }
    ∷ [])

classify-IsReport_example :
    (r : Option (List Span)) × (classify decode ask text ≡ some r) × IsReport (ask text) text r
classify-IsReport_example = classify-IsReport decode ask text

cleans : clean_answer (codes "```json\n[\"Bob\"]\n```") ≡ some (codes "[\"Bob\"]")
unfolding clean_answer strip_code_fence behind_line before_fence strip_think_block index last_index
    slice starts_with contains trim_space trim_front width reverse_onto
cleans = refl
