-- ===== src/Prelude/Sort.antt =====
-- The insertion sort that the proxy writes out twice:
--   for i := 1; i < len(s); i++ { for j := i; j > 0 && less(s[j], s[j-1]); j-- { swap } }
-- The sorted part of the slice is held from its right end, so its head is `s[j-1]`.
pub mod Sorted
use mathlib.Core.List.{Permᴰ, reverse}
use mathlib.Core.List.Permᴰ
use opengnk.Prelude.Tests.{if◌then◌else◌, Bool-cases}
use opengnk.Prelude.Lists.{All, All-map}
use mathlib.Core.Path.{◌≡◌, refl}
use mathlib.Core.Logic.{inl, inr}
use mathlib.Core.Bool.{Bool, true, false}
use mathlib.Core.List.{List, [], ◌∷◌, ◌++◌}

module _ {ℓ} {A : Type ℓ} (less : A → A → Bool) where
  -- The inner loop: `x` moves left past every element that it is less than.
  pub sink : A → List A → List A
  sink x [] = x ∷ []
  sink x (y ∷ ys) = if less x y then y ∷ sink x ys else x ∷ y ∷ ys

  -- The outer loop, over the part of the slice that is not sorted yet.
  pub sort_from : List A → List A → List A
  sort_from done [] = done
  sort_from done (x ∷ xs) = sort_from (sink x done) xs

  unfoldable pub sort : List A → List A
  unfolding sink sort_from
  sort xs = reverse (sort_from [] xs)

  pub sink-perm : (x : A) (ys : List A) → Permᴰ (sink x ys) (x ∷ ys)
  unfolding sink
  sink-perm x [] = Permᴰ.refl _
  sink-perm x (y ∷ ys) = elim (Bool-cases (less x y)) [
    | inl e ↦ rw e (Permᴰ.trans (Permᴰ.cons refl (sink-perm x ys)) (Permᴰ.swap refl refl))
    | inr e ↦ rw e (Permᴰ.refl _)
  ]

  pub sort_from-perm : (done xs : List A) → Permᴰ (sort_from done xs) (done ++ xs)
  unfolding sort_from
  sort_from-perm done [] = Permᴰ.symm (Permᴰ.append-nil done)
  sort_from-perm done (x ∷ xs) =
      Permᴰ.trans (sort_from-perm (sink x done) xs) (
        Permᴰ.trans (Permᴰ.append_right xs (sink-perm x done))
          (Permᴰ.symm (Permᴰ.middle x done xs)))

  -- Sorting keeps every element, as often as it occurs.
  pub sort-perm : (xs : List A) → Permᴰ (sort xs) xs
  unfolding sort
  sort-perm xs = Permᴰ.trans (Permᴰ.reverse _) (sort_from-perm [] xs)

  -- No element is less than one that stands before it.
  abbrev pub IsSorted : List A → Type ℓ
  IsSorted [] = Unit
  IsSorted (x ∷ xs) = All (λ y. less y x ≡ false) xs × IsSorted xs

  -- The same for a list that is held from its right end.
  abbrev IsSortedBack : List A → Type ℓ
  IsSortedBack [] = Unit
  IsSortedBack (x ∷ xs) = All (λ y. less x y ≡ false) xs × IsSortedBack xs
