-- ===== src/LlmClassifier/Occurrences/Answer.antt =====
-- From the answer of the model to the spans: no step panics.
use opengnk.Prelude.{
  ◌+◌, Bool, true, false, ◌||◌, List, [], ◌∷◌, ◌++◌, Option, none, some, ◌≡◌, refl, ◌∙◌, inl, inr,
  All, Any, All-map, All-append, arith, Bool-cases, Option-cases, ltb, leb, ◌>>=◌, length,
}
use opengnk.Text.{Bytes, codes, contains, starts_with, slice}
use opengnk.Text.Trim.{index, last_index, trim_space, index_finds, last_index_inside}
use opengnk.Sanitize.Span.{Span}
use opengnk.Text.Runs.{Runs, slice-Runs, Runs-cases, Runs-bind, Runs-if}
use opengnk.Sanitize.Token.{token_prefix}
use opengnk.LlmClassifier.{
  find_value, find_values, extract_json_array, strip_think_block, behind_line, before_fence,
  strip_code_fence, Completion, not_sent, skipped, choices, raw_answer, clean_answer, read_answer,
  classify,
}
use opengnk.LlmClassifier.Occurrences.{IsOccurrence}
use opengnk.LlmClassifier.Occurrences.Scan.{find_value-IsScan}

-- A value of the list stands at the span.
abbrev pub IsListed : Bytes → List Bytes → Span → Type 0
IsListed text vs sp = Any (λ v. IsOccurrence text (trim_space v) sp) vs

is_skipped : Bytes → Bool
is_skipped val = leb (length val) 0 || starts_with token_prefix val

find_values_skip :
    (text v : Bytes) (vs : List Bytes)
    → leb (length (trim_space v)) 0 || starts_with token_prefix (trim_space v) ≡ true
    → find_values text (v ∷ vs) ≡ find_values text vs
unfolding find_values
find_values_skip text v vs e = elim (Option-cases (find_values text vs)) [
  | inl none_found ↦ rw (e, none_found, ◌>>=◌) refl
  | inr (sps, some_found) ↦ rw (e, some_found, ◌>>=◌) refl
]

find_values_add :
    (text v : Bytes) (vs : List Bytes) (found later : List Span)
    → leb (length (trim_space v)) 0 || starts_with token_prefix (trim_space v) ≡ false
    → find_value text (trim_space v) ≡ some found
    → find_values text vs ≡ some later
    → find_values text (v ∷ vs) ≡ some (found ++ later)
unfolding find_values
find_values_add text v vs found later e f l = rw (e, f, l, ◌>>=◌) refl

find_values-IsListed :
    (text : Bytes) (vs : List Bytes)
    → (sps : List Span) × (find_values text vs ≡ some sps) × All (IsListed text vs) sps
find_values-IsListed text [] = ([], unfold find_values in refl, tt)
find_values-IsListed text (v ∷ vs) =
    let (later, el, h) = find_values-IsListed text vs in
    let h' : All (IsListed text (v ∷ vs)) later = All-map later (λ x k. inr k) h in
    elim (Bool-cases (leb (length (trim_space v)) 0 || starts_with token_prefix (trim_space v))) [
      | inl e ↦ (later, find_values_skip text v vs e ∙ el, h')
      | inr e ↦
          let (found, ef, scan) = find_value-IsScan text (trim_space v) (ground arith) in
          (
            found ++ later,
            find_values_add text v vs found later e ef el,
            All-append (IsListed text (v ∷ vs)) found later
                (All-map found (λ x k. inl k) scan.sound) h',
          )
    ]

extract_json_array-Runs : (s : Bytes) → Runs (extract_json_array s)
unfolding extract_json_array
extract_json_array-Runs s =
    Runs-cases (index (codes "[") s) (some s) _ (s, refl)
      (λ start e.
        Runs-cases (last_index (codes "]") s) (some s) _ (s, refl)
          (λ stop e'.
            let inside = last_index_inside (codes "]") s stop e' in
            Runs-if (ltb stop start) (some s) (slice s start (stop + 1)) (λ _. (s, refl))
              (λ late. slice-Runs s start (stop + 1) (ground arith) (omega (arith, inside)))))

strip_think_block-Runs : (s : Bytes) → Runs (strip_think_block s)
unfolding strip_think_block
strip_think_block-Runs s =
    Runs-cases (index (codes "<think>") s) (some s) _ (s, refl)
      (λ start e.
        let (_, before) = index_finds (codes "<think>") s start e in
        let head = slice-Runs s 0 start (omega arith) (omega arith) in
        Runs-cases (index (codes "</think>") s) _ _
          (Runs-bind (slice s 0 start) _ head (λ h. (trim_space h, refl)))
          (λ stop e'.
            let (_, inside) = index_finds (codes "</think>") s stop e' in
            let behind = stop + length (codes "</think>") in
            Runs-bind (slice s 0 start) _ head (λ h.
              Runs-bind (slice s behind (length s)) _
                (slice-Runs s behind (length s) inside (omega arith))
                (λ rest. (trim_space (h ++ rest), refl)))))

pub behind_line-Runs : (s : Bytes) → Runs (behind_line s)
unfolding behind_line
behind_line-Runs s =
    Runs-cases (index (10 ∷ []) s) (some s) _ (s, refl)
      (λ i e.
        let (_, inside) = index_finds (10 ∷ []) s i e in
        slice-Runs s (i + 1) (length s) (omega (arith, inside)) (omega arith))

pub before_fence-Runs : (s : Bytes) → Runs (before_fence s)
unfolding before_fence
before_fence-Runs s =
    Runs-cases (last_index (codes "```") s) (some s) _ (s, refl)
      (λ i e. slice-Runs s 0 i (omega arith) (omega (arith, last_index_inside (codes "```") s i e)))

strip_code_fence-Runs : (s : Bytes) → Runs (strip_code_fence s)
unfolding strip_code_fence
strip_code_fence-Runs s =
    let t = trim_space s in
    Runs-if (starts_with (codes "```") t) _ (some t)
      (λ _.
        Runs-bind (behind_line t) _ (behind_line-Runs t)
          (λ u. Runs-bind (before_fence u) _ (before_fence-Runs u) (λ v. (trim_space v, refl))))
      (λ _. (t, refl))

clean_answer-Runs : (raw : Bytes) → Runs (clean_answer raw)
unfolding clean_answer
clean_answer-Runs raw = Runs-bind (strip_think_block raw) _ (strip_think_block-Runs raw) (λ a.
    Runs-bind (strip_code_fence a) _ (strip_code_fence-Runs a) (λ b.
      Runs-if (contains (codes "[") b) (some b) (extract_json_array b) (λ _. (b, refl))
        (λ _. extract_json_array-Runs b)))

-- A span over a copy of some value, with a word boundary at either end.
abbrev pub IsSensitive : Bytes → Span → Type 0
IsSensitive text sp = (val : Bytes) × IsOccurrence text val sp

IsSensitive-listed :
    (text : Bytes) (vs : List Bytes) (sp : Span) → IsListed text vs sp → IsSensitive text sp
IsSensitive-listed text [] sp h = absurd h
IsSensitive-listed text (v ∷ vs) sp (inl h) = (trim_space v, h)
IsSensitive-listed text (v ∷ vs) sp (inr h) = IsSensitive-listed text vs sp h

-- What `Classify` returns: an error where the request was not sent, or else spans.
abbrev pub IsReport : Completion → Bytes → Option (List Span) → Type 0
IsReport reply text none = reply ≡ not_sent
IsReport reply text (some sps) = All (IsSensitive text) sps

read_answer-IsSensitive :
    (decode : Bytes → Option (List Bytes)) (text raw : Bytes)
    → (sps : List Span) × (read_answer decode text raw ≡ some sps) × All (IsSensitive text) sps
unfolding read_answer
read_answer-IsSensitive decode text raw =
    let (content, e) = clean_answer-Runs raw in
    elim (Option-cases (decode content)) [
      | inl f ↦ ([], rw (e, ◌>>=◌, f) refl, tt)
      | inr (vs, f) ↦
          let (sps, g, h) = find_values-IsListed text vs in
          (sps, rw (e, ◌>>=◌, f) g, All-map sps (IsSensitive-listed text vs) h)
    ]

answer_to :
    (decode : Bytes → Option (List Bytes)) (ask : Bytes → Completion) (text : Bytes)
    → leb (length (trim_space text)) 0 ≡ false
    → (reply : Completion) → ask text ≡ reply
    → (r : Option (List Span)) × (classify decode ask text ≡ some r) × IsReport reply text r
unfolding classify
answer_to decode ask text e not_sent a = (none, rw (e, a) refl, refl)
answer_to decode ask text e skipped a = (some [], rw (e, a) refl, tt)
answer_to decode ask text e (choices []) a = (some [], rw (e, a) refl, tt)
answer_to decode ask text e (choices (m ∷ ms)) a =
    let (sps, g, h) = read_answer-IsSensitive decode text (raw_answer m) in
    (some sps, rw (e, a, g, ◌>>=◌) refl, h)

-- Whatever the model answers, `Classify` does not panic. It returns an error only where the request
-- could not be built; else every span that it returns lies in the text, covers a copy of a
-- non-empty value, and has a word boundary or an end of the text on either side.
pub classify-IsReport :
    (decode : Bytes → Option (List Bytes)) (ask : Bytes → Completion) (text : Bytes)
    → (r : Option (List Span)) × (classify decode ask text ≡ some r) × IsReport (ask text) text r
classify-IsReport decode ask text = elim (Bool-cases (leb (length (trim_space text)) 0)) [
  | inl e ↦ (some [], unfold classify in rw e refl, tt)
  | inr e ↦ answer_to decode ask text e (ask text) refl
]
