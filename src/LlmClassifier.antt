-- ===== src/LlmClassifier.antt =====
-- internal/sanitize/llmclassifier/llmclassifier.go: the classifier that asks a language model. What
-- the model replies and the decoding of a JSON array of strings are arguments. Where Go's code
-- would panic the model is `none`.
pub mod Occurrences
pub mod Boundary
use opengnk.Prelude.{
  ℕ, zero, suc, ◌+◌, Bool, true, false, not, ◌||◌, List, [], ◌∷◌, ◌++◌, Option, none, some, ltb,
  leb, ◌==◌, if◌then◌else◌, ◌>>=◌, length, get_elem?,
}
use opengnk.Prelude.Int.{ℤ, pos}
use opengnk.Text.{Bytes, codes, equal, starts_with, contains, slice}
use opengnk.Text.Trim.{index, last_index, trim_space}
use opengnk.Sanitize.Span.{Span}
use opengnk.Sanitize.Token.{token_prefix}

-- The cases of the `switch`.
unfoldable pub is_boundary : ℕ → Bool
is_boundary b =
    b == 32
    || b == 9
    || b == 10
    || b == 13
    || b == b'<'
    || b == b'>'
    || b == b','
    || b == b';'
    || b == b'('
    || b == b')'
    || b == b'['
    || b == b']'
    || b == b'{'
    || b == b'}'
    || b == 34
    || b == 39
    || b == b'`'

-- `start > 0 && !isBoundary(text[start-1])`.
unfoldable pub grows_left : Bytes → ℕ → Option Bool
grows_left text zero = some false
grows_left text (suc i) = do b ← get_elem? text i; some (not (is_boundary b))

-- `end < len(text) && !isBoundary(text[end])`.
unfoldable pub grows_right : Bytes → ℕ → Option Bool
grows_right text i =
    if ltb i (length text)
    then (do b ← get_elem? text i; some (not (is_boundary b)))
    else some false

unfoldable pub is_inside_token : Bytes → ℕ → ℕ → Option Bool
is_inside_token text start stop = do
  left ← grows_left text start
  if left then some true else grows_right text stop

abbrev pub span_at : ℕ → ℕ → Span
span_at a b = record { start = pos a; stop = pos b; label = codes "LLM"; score = 100 }

-- The inner loop of `Classify`: the occurrences of `val` from `start` on. `none` also means that
-- the fuel ran out.
unfoldable pub find_from : ℕ → Bytes → Bytes → ℕ → Option (List Span)
find_from zero text val start = none
find_from (suc fuel) text val start = do
  rest ← slice text start (length text)
  elim (index val rest) [
    | none ↦ some []
    | some idx ↦ do
      inside ← is_inside_token text (start + idx) (start + idx + length val)
      later ← find_from fuel text val (start + idx + length val)
      some (if inside then later else span_at (start + idx) (start + idx + length val) ∷ later)
  ]

-- The fuel is one round for each byte and one more.
unfoldable pub find_value : Bytes → Bytes → Option (List Span)
find_value text val = find_from (length text + 1) text val 0

-- The outer loop of `Classify`.
unfoldable pub find_values : Bytes → List Bytes → Option (List Span)
find_values text [] = some []
find_values text (v ∷ vs) = do
  let val = trim_space v
  found ←
      (if leb (length val) 0 || starts_with token_prefix val then some [] else find_value text val)
  later ← find_values text vs
  some (found ++ later)

unfoldable pub extract_json_array : Bytes → Option Bytes
extract_json_array s = elim (index (codes "[") s) [
  | none ↦ some s
  | some start ↦ elim (last_index (codes "]") s) [
    | none ↦ some s
    | some stop ↦ if ltb stop start then some s else slice s start (stop + 1)
  ]
]

unfoldable pub strip_think_block : Bytes → Option Bytes
strip_think_block s = elim (index (codes "<think>") s) [
  | none ↦ some s
  | some start ↦ elim (index (codes "</think>") s) [
    | none ↦ do head ← slice s 0 start; some (trim_space head)
    | some stop ↦ do
      head ← slice s 0 start
      rest ← slice s (stop + length (codes "</think>")) (length s)
      some (trim_space (head ++ rest))
  ]
]

-- `if idx := strings.Index(s, "\n"); idx >= 0 { s = s[idx+1:] }`.
unfoldable pub behind_line : Bytes → Option Bytes
behind_line s = elim (index (10 ∷ []) s) [ none ↦ some s | some idx ↦ slice s (idx + 1) (length s) ]

-- `if idx := strings.LastIndex(s, "```"); idx >= 0 { s = s[:idx] }`.
unfoldable pub before_fence : Bytes → Option Bytes
before_fence s = elim (last_index (codes "```") s) [ none ↦ some s | some idx ↦ slice s 0 idx ]

unfoldable pub strip_code_fence : Bytes → Option Bytes
strip_code_fence s =
    let t = trim_space s in
    if starts_with (codes "```") t
    then (do u ← behind_line t; v ← before_fence u; some (trim_space v))
    else some t

-- What `choices[0].message` of the reply holds.
pub record Message : Type 0 where
  pub content : Bytes
  pub reasoning : Bytes
  pub reasoning_content : Bytes

-- What asking the model comes to.
pub data Completion : Type 0 where
  not_sent : Completion
  skipped : Completion
  choices : List Message → Completion

-- `raw`: the first of the three fields that is not blank.
unfoldable pub raw_answer : Message → Bytes
raw_answer msg =
    let content = trim_space msg.content in
    let reasoning = trim_space msg.reasoning in
    if not (leb (length content) 0)
    then content
    else if not (leb (length reasoning) 0)
    then reasoning
    else trim_space msg.reasoning_content

-- From `raw` to the text of the array.
unfoldable pub clean_answer : Bytes → Option Bytes
clean_answer raw = do
  a ← strip_think_block raw
  b ← strip_code_fence a
  if contains (codes "[") b then some b else extract_json_array b

-- `decode` is `json.Unmarshal` into a list of strings; `none` is its error.
unfoldable pub read_answer : (Bytes → Option (List Bytes)) → Bytes → Bytes → Option (List Span)
read_answer decode text raw = do
  content ← clean_answer raw
  elim (decode content) [ none ↦ some [] | some values ↦ find_values text values ]

-- `Classify`: `none` is a panic, and `some none` a returned error.
unfoldable pub classify :
    (Bytes → Option (List Bytes)) → (Bytes → Completion) → Bytes → Option (Option (List Span))
classify decode ask text =
    if leb (length (trim_space text)) 0 then some (some []) else elim (ask text) [
      | not_sent ↦ some none
      | skipped ↦ some (some [])
      | choices ms ↦ elim ms [
        | [] ↦ some (some [])
        | m ∷ rest ↦ do found ← read_answer decode text (raw_answer m); some (some found)
      ]
    ]
