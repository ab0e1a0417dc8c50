-- ===== src/LlmClassifier/Occurrences.antt =====
-- What the inner loop of `Classify` finds.
pub mod Scan
pub mod Answer
use mathlib.Core.Path.{subst}
use opengnk.Prelude.{
  ℕ, zero, suc, ◌+◌, ◌≤◌, ◌<◌, Bool, true, false, not, List, [], ◌∷◌, ◌++◌, Option, none, some, ◌≡◌,
  refl, sym, ◌∙◌, ap, ◌⊎◌, inl, inr, All, Any, All-map, arith, Bool-cases, Option-cases, ltb, leb,
  if◌then◌else◌, ◌>>=◌, length, take, drop, take_all, drop_all, get_elem?, get_elem?_total,
}
use opengnk.Text.{Bytes, starts_with, slice}
use opengnk.Text.Trim.{index, index_finds, index_first, index_none}
use opengnk.Sanitize.Span.{Span}
use opengnk.Text.Runs.{slice_total}
use opengnk.LlmClassifier.{
  is_boundary, grows_left, grows_right, is_inside_token, span_at, find_from, find_value,
}

-- The span covers a copy of `val`, and no word goes on beyond either end.
pub record IsOccurrence (text val : Bytes) (sp : Span) : Type 0 where
  pub start : ℕ
  pub place : sp ≡ span_at start (start + length val)
  pub nonempty : 0 < length val
  pub copy : slice text start (start + length val) ≡ some val
  pub free : is_inside_token text start (start + length val) ≡ some false

pub drop-drop : (i j : ℕ) (s : Bytes) → drop i (drop j s) ≡ drop (j + i) s
drop-drop i zero s = let same : i ≡ 0 + i = omega arith in ap (λ k. drop k s) same
drop-drop i (suc j) [] = drop_all i [] (omega arith) ∙ sym (drop_all (suc j + i) [] (omega arith))
drop-drop i (suc j) (c ∷ s) =
    let back : suc j + i ≡ suc (j + i) = omega arith in
    drop-drop i j s ∙ ap (λ k. drop k (c ∷ s)) (sym back)

take-prefix : (p s : Bytes) → starts_with p s ≡ true → take (length p) s ≡ p
unfolding starts_with
take-prefix [] s h = refl
take-prefix (c ∷ p) [] h = cc
take-prefix (c ∷ p) (d ∷ s) h = ground (arith, take-prefix p s)

drop-take : (a n : ℕ) (s : Bytes) → drop a (take (a + n) s) ≡ take n (drop a s)
drop-take zero n s = let same : 0 + n ≡ n = omega arith in ap (λ k. take k s) same
drop-take (suc a) n [] =
    ap (drop (suc a)) (take_all (suc a + n) [] (omega arith)) ∙ sym (take_all n [] (omega arith))
drop-take (suc a) n (c ∷ s) =
    let back : suc a + n ≡ suc (a + n) = omega arith in
    ap (λ k. drop (suc a) (take k (c ∷ s))) back ∙ drop-take a n s

pub slice_copy :
    (text val : Bytes) (a : ℕ)
    → a + length val ≤ length text
    → starts_with val (drop a text) ≡ true
    → slice text a (a + length val) ≡ some val
slice_copy text val a inside there =
    slice_total text a (a + length val) (omega arith) inside
    ∙ ap some (drop-take a (length val) text ∙ take-prefix val (drop a text) there)

slice_rest :
    (text : Bytes) (a : ℕ) → a ≤ length text → slice text a (length text) ≡ some (drop a text)
slice_rest text a h =
    slice_total text a (length text) h (omega arith)
    ∙ ap (λ s. some (drop a s)) (take_all (length text) text (omega arith))

grows_left_total :
    (text : Bytes) (a : ℕ) → a ≤ length text → (b : Bool) × (grows_left text a ≡ some b)
unfolding grows_left
grows_left_total text zero h = (false, refl)
grows_left_total text (suc a) h =
    let (b, e) = get_elem?_total text a (omega arith) in (not (is_boundary b), rw e refl)

grows_right_total : (text : Bytes) (a : ℕ) → (b : Bool) × (grows_right text a ≡ some b)
unfolding grows_right
grows_right_total text a = elim (Bool-cases (ltb a (length text))) [
  | inr h ↦ (false, rw h refl)
  | inl h ↦
      let (b, e) = get_elem?_total text a (ground arith) in (not (is_boundary b), rw (h, e) refl)
]

pub is_inside_token_total :
    (text : Bytes) (a b : ℕ) → a ≤ length text → (t : Bool) × (is_inside_token text a b ≡ some t)
unfolding is_inside_token
is_inside_token_total text a b h =
    let (left, e) = grows_left_total text a h in
    let (right, f) = grows_right_total text b in
    elim (Bool-cases left) [ inl t ↦ (true, rw (e, t) refl) | inr t ↦ (right, rw (e, t) f) ]

-- An occurrence of `val` at `a` shares a byte with a copy at `x` that was reported, or that was
-- passed over since a word goes on beyond one of its ends.
pub record IsMet (text val : Bytes) (sps : List Span) (start a : ℕ) : Type 0 where
  pub x : ℕ
  pub low : start ≤ x
  pub before : x ≤ a
  pub overlap : a < x + length val
  pub copy : slice text x (x + length val) ≡ some val
  pub what :
      Any (λ sp. sp ≡ span_at x (x + length val)) sps
      ⊎ (is_inside_token text x (x + length val) ≡ some true)

-- All that the loop finds from `start` on are occurrences, and it misses none but for overlaps.
pub record IsScan (text val : Bytes) (start : ℕ) (sps : List Span) : Type 0 where
  pub sound : All (IsOccurrence text val) sps
  pub complete :
      (a : ℕ)
      → start ≤ a
      → a < length text
      → starts_with val (drop a text) ≡ true
      → IsMet text val sps start a

pub find_from-none :
    (fuel : ℕ) (text val : Bytes) (start : ℕ)
    → start ≤ length text
    → index val (drop start text) ≡ none
    → find_from (suc fuel) text val start ≡ some []
unfolding find_from
find_from-none fuel text val start h e = rw (slice_rest text start h, ◌>>=◌, e) refl

pub find_from-some :
    (fuel : ℕ) (text val : Bytes) (start idx : ℕ) (inside : Bool) (later : List Span)
    → start ≤ length text
    → index val (drop start text) ≡ some idx
    → is_inside_token text (start + idx) (start + idx + length val) ≡ some inside
    → find_from fuel text val (start + idx + length val) ≡ some later
    → find_from (suc fuel) text val start
      ≡ some (if inside then later else span_at (start + idx) (start + idx + length val) ∷ later)
unfolding find_from
find_from-some fuel text val start idx inside later h e i l =
    rw (slice_rest text start h, ◌>>=◌, e, i, l) refl
