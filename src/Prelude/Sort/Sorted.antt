-- ===== src/Prelude/Sort/Sorted.antt =====
-- The insertion sort sorts, for every test that is a strict weak order.
use mathlib.Core.List.{reverse, reverse-cons}
use mathlib.Core.List.Permᴰ
use mathlib.Core.Path.{◌≡◌}
use mathlib.Core.Logic.{inl, inr}
use mathlib.Core.Bool.{Bool, true, false}
use mathlib.Core.List.{List, [], ◌∷◌, ◌++◌}
use opengnk.Prelude.Tests.{Bool-cases}
use opengnk.Prelude.Lists.{All, All-map, All-perm}
use opengnk.Prelude.Sort.{sink, sink-perm, sort_from, sort, IsSorted, IsSortedBack}

module _ {ℓ} {A : Type ℓ} (less : A → A → Bool)
    (asym : (x y : A) → less x y ≡ true → less y x ≡ false)
    (negtrans : (x y z : A) → less x y ≡ false → less y z ≡ false → less x z ≡ false) where
  sink-IsSortedBack :
      (x : A) (ys : List A) → IsSortedBack less ys → IsSortedBack less (sink less x ys)
  unfolding sink
  sink-IsSortedBack x [] h = (tt, tt)
  sink-IsSortedBack x (y ∷ ys) h = elim (Bool-cases (less x y)) [
    | inl e ↦ rw e (
      All-perm (λ z. less y z ≡ false) (Permᴰ.symm (sink-perm less x ys)) (asym x y e, h.0),
      sink-IsSortedBack x ys h.1,
    )
    | inr e ↦ rw e ((e, All-map ys (λ z. negtrans x y z e) h.0), h)
  ]

  sort_from-IsSortedBack :
      (done xs : List A) → IsSortedBack less done → IsSortedBack less (sort_from less done xs)
  unfolding sort_from
  sort_from-IsSortedBack done [] h = h
  sort_from-IsSortedBack done (x ∷ xs) h =
      sort_from-IsSortedBack (sink less x done) xs (sink-IsSortedBack x done h)

  IsSorted-concat :
      (xs : List A) (x : A)
      → IsSorted less xs
      → All (λ y. less x y ≡ false) xs
      → IsSorted less (xs ++ x ∷ [])
  IsSorted-concat [] x h a = (tt, tt)
  IsSorted-concat (y ∷ ys) x h a = (later ys h.0, IsSorted-concat ys x h.1 a.1)
    where
      later :
          (zs : List A)
          → All (λ z. less z y ≡ false) zs
          → All (λ z. less z y ≡ false) (zs ++ x ∷ [])
      later [] k = (a.0, tt)
      later (z ∷ zs) k = (k.0, later zs k.1)

  reverse-IsSorted : (xs : List A) → IsSortedBack less xs → IsSorted less (reverse xs)
  reverse-IsSorted [] h = tt
  reverse-IsSorted (x ∷ xs) h = rw (reverse-cons x xs) (
      IsSorted-concat (reverse xs) x (reverse-IsSorted xs h.1)
        (All-perm (λ y. less x y ≡ false) (Permᴰ.symm (Permᴰ.reverse xs)) h.0))

  pub sort-IsSorted : (xs : List A) → IsSorted less (sort less xs)
  unfolding sort
  sort-IsSorted xs = reverse-IsSorted _ (sort_from-IsSortedBack [] xs tt)
