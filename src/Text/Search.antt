-- ===== src/Text/Search.antt =====
-- What `starts_with` and `contains` tell about a text and its parts.
use opengnk.Prelude.{zero, suc, take, ℕ, true, false, [], ◌∷◌, ◌++◌, ◌≡◌, refl, arith}
use opengnk.Text.{Bytes, starts_with, contains, equal}

pub equal→eq : (a b : Bytes) → equal a b ≡ true → a ≡ b
unfolding equal
equal→eq [] [] h = refl
equal→eq [] (d ∷ b) h = cc
equal→eq (c ∷ a) [] h = cc
equal→eq (c ∷ a) (d ∷ b) h = ground (arith, equal→eq a b)

pub equal_refl : (a : Bytes) → equal a a ≡ true
unfolding equal
equal_refl [] = refl
equal_refl (c ∷ a) = ground (arith, equal_refl a)

pub starts_with-append : (p s : Bytes) → starts_with p (p ++ s) ≡ true
unfolding starts_with
starts_with-append [] s = refl
starts_with-append (c ∷ p) s = ground (arith, starts_with-append p s)

pub starts_with_left : (p q s : Bytes) → starts_with (p ++ q) s ≡ true → starts_with p s ≡ true
unfolding starts_with
starts_with_left [] q s h = refl
starts_with_left (c ∷ p) q [] h = cc
starts_with_left (c ∷ p) q (d ∷ s) h = ground (arith, starts_with_left p q s)

pub contains-cons :
    (p : Bytes) (c : ℕ) (s : Bytes) → contains p (c ∷ s) ≡ false → contains p s ≡ false
unfolding contains
contains-cons p c s h = ground arith

pub contains_head :
    (p : Bytes) (c : ℕ) (s : Bytes) → contains p (c ∷ s) ≡ false → starts_with p (c ∷ s) ≡ false
unfolding contains
contains_head p c s h = ground arith

pub contains-append : (p u s : Bytes) → contains p (u ++ s) ≡ false → contains p s ≡ false
contains-append p [] s h = h
contains-append p (c ∷ u) s h = contains-append p u s (contains-cons p c (u ++ s) h)

starts_with-take : (p s : Bytes) (n : ℕ) → starts_with p (take n s) ≡ true → starts_with p s ≡ true
unfolding starts_with
starts_with-take [] s n h = refl
starts_with-take (c ∷ p) s zero h = cc
starts_with-take (c ∷ p) [] (suc n) h = cc
starts_with-take (c ∷ p) (d ∷ s) (suc n) h = ground (arith, starts_with-take p s n)

-- Parts of a text contain no more than the text.
pub contains-take :
    (c : ℕ) (p s : Bytes) (n : ℕ) → contains (c ∷ p) s ≡ false → contains (c ∷ p) (take n s) ≡ false
unfolding contains
contains-take c p s zero h = unfold starts_with in refl
contains-take c p [] (suc n) h = h
contains-take c p (d ∷ s) (suc n) h =
    ground (arith, contains-take c p s n, starts_with-take (c ∷ p) (d ∷ s) (suc n))
