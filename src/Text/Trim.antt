-- ===== src/Text/Trim.antt =====
-- `strings.Index`, `strings.LastIndex` and `strings.TrimSpace`.
use opengnk.Prelude.{
  ℕ, zero, suc, ◌+◌, ◌≤◌, ◌<◌, Bool, true, false, List, [], ◌∷◌, Option, none, some, ◌≡◌, refl, sym,
  ◌∙◌, ◌⊎◌, inl, inr, Bool-cases, arith, if◌then◌else◌, length, drop,
}
use opengnk.Text.{Bytes, starts_with}

shift : Option ℕ → Option ℕ
shift none = none
shift (some i) = some (suc i)

-- `strings.Index(s, substr)`, the substring first; `none` is -1.
unfoldable pub index : Bytes → Bytes → Option ℕ
unfolding shift
index p [] = if starts_with p [] then some 0 else none
index p (c ∷ s) = let later = shift (index p s) in if starts_with p (c ∷ s) then some 0 else later

first_or : Bool → Option ℕ → Option ℕ
first_or here (some i) = some (suc i)
first_or here none = if here then some 0 else none

-- `strings.LastIndex(s, substr)`.
unfoldable pub last_index : Bytes → Bytes → Option ℕ
unfolding first_or
last_index p [] = if starts_with p [] then some 0 else none
last_index p (c ∷ s) = first_or (starts_with p (c ∷ s)) (last_index p s)

-- The white space of Unicode, as UTF-8.
abbrev spaces : List Bytes
spaces =
    (9 ∷ [])
    ∷ (10 ∷ [])
    ∷ (11 ∷ [])
    ∷ (12 ∷ [])
    ∷ (13 ∷ [])
    ∷ (32 ∷ [])
    ∷ (0xC2 ∷ 0x85 ∷ [])
    ∷ (0xC2 ∷ 0xA0 ∷ [])
    ∷ (0xE1 ∷ 0x9A ∷ 0x80 ∷ [])
    ∷ (0xE2 ∷ 0x80 ∷ 0x80 ∷ [])
    ∷ (0xE2 ∷ 0x80 ∷ 0x81 ∷ [])
    ∷ (0xE2 ∷ 0x80 ∷ 0x82 ∷ [])
    ∷ (0xE2 ∷ 0x80 ∷ 0x83 ∷ [])
    ∷ (0xE2 ∷ 0x80 ∷ 0x84 ∷ [])
    ∷ (0xE2 ∷ 0x80 ∷ 0x85 ∷ [])
    ∷ (0xE2 ∷ 0x80 ∷ 0x86 ∷ [])
    ∷ (0xE2 ∷ 0x80 ∷ 0x87 ∷ [])
    ∷ (0xE2 ∷ 0x80 ∷ 0x88 ∷ [])
    ∷ (0xE2 ∷ 0x80 ∷ 0x89 ∷ [])
    ∷ (0xE2 ∷ 0x80 ∷ 0x8A ∷ [])
    ∷ (0xE2 ∷ 0x80 ∷ 0xA8 ∷ [])
    ∷ (0xE2 ∷ 0x80 ∷ 0xA9 ∷ [])
    ∷ (0xE2 ∷ 0x80 ∷ 0xAF ∷ [])
    ∷ (0xE2 ∷ 0x81 ∷ 0x9F ∷ [])
    ∷ (0xE3 ∷ 0x80 ∷ 0x80 ∷ [])
    ∷ []

unfoldable pub reverse_onto : Bytes → Bytes → Bytes
reverse_onto done [] = done
reverse_onto done (c ∷ s) = reverse_onto (c ∷ done) s

abbrev backwards : List Bytes → List Bytes
backwards [] = []
backwards (p ∷ ps) = reverse_onto [] p ∷ backwards ps

-- The length of the first of the strings `ps` that `s` starts with, or 0.
unfoldable pub width : List Bytes → Bytes → ℕ
width [] s = 0
width (p ∷ ps) s = let later = width ps s in if starts_with p s then length p else later

-- Drops what stands in `ps` from the front, with the bytes of the last find that are left to drop.
unfoldable pub trim_front : List Bytes → ℕ → Bytes → Bytes
trim_front ps k [] = []
trim_front ps (suc k) (c ∷ s) = trim_front ps k s
trim_front ps zero (c ∷ s) = elim (width ps (c ∷ s)) [ zero ↦ c ∷ s | suc k ↦ trim_front ps k s ]

unfoldable pub trim_space : Bytes → Bytes
trim_space s =
    reverse_onto [] (trim_front (backwards spaces) 0 (reverse_onto [] (trim_front spaces 0 s)))

starts_with-length : (p s : Bytes) → starts_with p s ≡ true → length p ≤ length s
unfolding starts_with
starts_with-length [] s h = omega arith
starts_with-length (c ∷ p) [] h = cc
starts_with-length (c ∷ p) (d ∷ s) h = ground (arith, starts_with-length p s)

index_here :
    (p : Bytes) (c : ℕ) (s : Bytes) → starts_with p (c ∷ s) ≡ true → index p (c ∷ s) ≡ some 0
unfolding index
index_here p c s h = rw h refl

index_later :
    (p : Bytes) (c : ℕ) (s : Bytes)
    → starts_with p (c ∷ s) ≡ false
    → index p (c ∷ s) ≡ shift (index p s)
unfolding index
index_later p c s h = rw h refl

shift-some : (o : Option ℕ) (i : ℕ) → shift o ≡ some i → (j : ℕ) × (o ≡ some j) × (i ≡ suc j)
unfolding shift
shift-some none i e = absurd (ground arith)
shift-some (some j) i e = (j, refl, ground arith)

shift-none : (o : Option ℕ) → shift o ≡ none → o ≡ none
unfolding shift
shift-none none e = refl
shift-none (some j) e = absurd (ground arith)

-- What is found stands there, and lies inside the text.
pub index_finds :
    (p s : Bytes) (i : ℕ)
    → index p s ≡ some i
    → (starts_with p (drop i s) ≡ true) × (i + length p ≤ length s)
index_finds p [] i e = unfold index in ground (arith, starts_with-length p [])
index_finds p (c ∷ s) i e = elim (Bool-cases (starts_with p (c ∷ s))) [
  | inl h ↦
      let first : i ≡ 0 = ground (arith, index_here p c s h) in
      rw first (h, omega (arith, starts_with-length p (c ∷ s) h))
  | inr h ↦
      let (j, found, next) = shift-some (index p s) i (sym (index_later p c s h) ∙ e) in
      let (there, inside) = index_finds p s j found in rw next (there, omega (arith, inside))
]

-- The text `p` stands at no place of `s` before `n`.
abbrev pub IsNotBefore : Bytes → Bytes → ℕ → Type 0
IsNotBefore p s n = (a : ℕ) → a < n → starts_with p (drop a s) ≡ false

IsNotBefore-suc :
    (p : Bytes) (c : ℕ) (s : Bytes) (n : ℕ)
    → starts_with p (c ∷ s) ≡ false
    → IsNotBefore p s n
    → IsNotBefore p (c ∷ s) (suc n)
IsNotBefore-suc p c s n h k zero lt = h
IsNotBefore-suc p c s n h k (suc a) lt = k a (omega arith)

-- The first occurrence is found.
pub index_first : (p s : Bytes) (i : ℕ) → index p s ≡ some i → IsNotBefore p s i
index_first p [] i e a lt = unfold index in absurd (ground arith)
index_first p (c ∷ s) i e a lt = elim (Bool-cases (starts_with p (c ∷ s))) [
  | inl h ↦ absurd (ground (arith, index_here p c s h))
  | inr h ↦
      let (j, found, next) = shift-some (index p s) i (sym (index_later p c s h) ∙ e) in
      IsNotBefore-suc p c s j h (index_first p s j found) a (omega arith)
]

-- Where nothing is found, there is no occurrence.
pub index_none : (p s : Bytes) → index p s ≡ none → IsNotBefore p s (length s)
index_none p [] e a lt = absurd (omega arith)
index_none p (c ∷ s) e a lt = elim (Bool-cases (starts_with p (c ∷ s))) [
  | inl h ↦ absurd (ground (arith, index_here p c s h))
  | inr h ↦
      IsNotBefore-suc p c s (length s) h
        (index_none p s (shift-none (index p s) (sym (index_later p c s h) ∙ e))) a lt
]

first_or_cases :
    (here : Bool) (o : Option ℕ) (i : ℕ)
    → first_or here o ≡ some i
    → ((j : ℕ) × (o ≡ some j) × (i ≡ suc j)) ⊎ ((here ≡ true) × (i ≡ 0))
unfolding first_or
first_or_cases here (some j) i e = inl (j, refl, ground arith)
first_or_cases true none i e = inr (refl, ground arith)
first_or_cases false none i e = absurd (ground arith)

pub last_index_inside : (p s : Bytes) (i : ℕ) → last_index p s ≡ some i → i + length p ≤ length s
last_index_inside p [] i e = unfold last_index in ground (arith, starts_with-length p [])
last_index_inside p (c ∷ s) i e =
    let e' : first_or (starts_with p (c ∷ s)) (last_index p s) ≡ some i = unfold last_index in e in
    elim (first_or_cases (starts_with p (c ∷ s)) (last_index p s) i e') [
      | inl (j, found, next) ↦ omega (arith, last_index_inside p s j found, next)
      | inr (here, first) ↦ omega (arith, starts_with-length p (c ∷ s) here, first)
    ]
