-- ===== src/Text/Replace.antt =====
-- How `replace_all` walks over pieces of a text.
use opengnk.Prelude.{ℕ, ◌-◌, true, false, [], ◌∷◌, ◌++◌, ◌≡◌, refl, ap, ◌∙◌, length, arith}
use opengnk.Text.{Bytes, starts_with, replace_skip}
use opengnk.Text.Search.{starts_with-append}

-- `old` starts nowhere inside `u`, when `s` follows.
abbrev pub Quiet : Bytes → Bytes → Bytes → Type 0
Quiet old [] s = Unit
Quiet old (c ∷ u) s = (starts_with old (c ∷ (u ++ s)) ≡ false) × Quiet old u s

pub replace_skip_miss :
    (old new : Bytes) (b : ℕ) (s : Bytes)
    → starts_with old (b ∷ s) ≡ false
    → replace_skip old new 0 (b ∷ s) ≡ b ∷ replace_skip old new 0 s
unfolding replace_skip
replace_skip_miss old new b s h = ground arith

replace_skip_hit :
    (old new : Bytes) (b : ℕ) (s : Bytes)
    → starts_with old (b ∷ s) ≡ true
    → replace_skip old new 0 (b ∷ s) ≡ new ++ replace_skip old new (length old - 1) s
unfolding replace_skip
replace_skip_hit old new b s h = ground arith

pub replace_skip-Quiet :
    (old new u s : Bytes)
    → Quiet old u s
    → replace_skip old new 0 (u ++ s) ≡ u ++ replace_skip old new 0 s
replace_skip-Quiet old new [] s h = refl
replace_skip-Quiet old new (c ∷ u) s h =
    replace_skip_miss old new c (u ++ s) h.0 ∙ ap (◌∷◌ c) (replace_skip-Quiet old new u s h.1)

replace_skip-append :
    (old new u s : Bytes) → replace_skip old new (length u) (u ++ s) ≡ replace_skip old new 0 s
unfolding replace_skip
replace_skip-append old new [] s = refl
replace_skip-append old new (c ∷ u) s = replace_skip-append old new u s

-- A match is replaced, and the scan goes on behind it.
pub replace_skip_match :
    (c : ℕ) (u new s : Bytes)
    → replace_skip (c ∷ u) new 0 ((c ∷ u) ++ s) ≡ new ++ replace_skip (c ∷ u) new 0 s
replace_skip_match c u new s =
    replace_skip_hit (c ∷ u) new c (u ++ s) (starts_with-append (c ∷ u) s)
    ∙ ap (◌++◌ new) (rest (length (c ∷ u) - 1) (omega arith))
  where
    rest :
        (k : ℕ) → k ≡ length u → replace_skip (c ∷ u) new k (u ++ s) ≡ replace_skip (c ∷ u) new 0 s
    rest k e = rw e (replace_skip-append (c ∷ u) new u s)
