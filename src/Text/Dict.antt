-- ===== src/Text/Dict.antt =====
-- A Go `map[string]string` as an association list with one entry for each key.
use opengnk.Prelude.{
  false, List, [], ◌∷◌, Option, none, some, ◌≡◌, refl, ap, inl, inr, All, Any, if◌then◌else◌,
  Bool-cases, arith,
}
use mathlib.Core.Path.{subst}
use opengnk.Text.{Bytes, equal}
use opengnk.Text.Search.{equal→eq, equal_refl}

abbrev pub Dict : Type 0
Dict = List (Bytes × Bytes)

-- `v, ok := m[k]`.
unfoldable pub lookup : Bytes → Dict → Option Bytes
lookup k [] = none
lookup k ((j, v) ∷ m) = if equal j k then some v else lookup k m

-- `m[k] = v`.
unfoldable pub insert : Bytes → Bytes → Dict → Dict
insert k v [] = (k, v) ∷ []
insert k v ((j, w) ∷ m) = if equal j k then (k, v) ∷ m else (j, w) ∷ insert k v m

pub All-insert {κ} :
    (P : Bytes × Bytes → Type κ) (k v : Bytes) (m : Dict)
    → P (k, v)
    → All P m
    → All P (insert k v m)
unfolding insert
All-insert P k v [] p h = (p, tt)
All-insert P k v ((j, w) ∷ m) p h = elim (Bool-cases (equal j k)) [
  | inl e ↦ rw e (p, h.1)
  | inr e ↦ rw e (h.0, All-insert P k v m p h.1)
]

-- The key of an insertion is present, and no key goes away.
pub Any-insert_self : (k v : Bytes) (m : Dict) → Any (λ e. e.0 ≡ k) (insert k v m)
unfolding insert
Any-insert_self k v [] = inl refl
Any-insert_self k v ((j, w) ∷ m) = elim (Bool-cases (equal j k)) [
  | inl e ↦ rw e (inl refl)
  | inr e ↦ rw e (inr (Any-insert_self k v m))
]

pub Any-insert :
    (t k v : Bytes) (m : Dict) → Any (λ e. e.0 ≡ t) m → Any (λ e. e.0 ≡ t) (insert k v m)
unfolding insert
Any-insert t k v [] h = absurd h
Any-insert t k v ((j, w) ∷ m) h = elim (Bool-cases (equal j k)) [
  | inl e ↦ rw e (elim h [ inl same ↦ inl (cc (equal→eq j k e)) | inr later ↦ inr later ])
  | inr e ↦ rw e (elim h [ inl same ↦ inl same | inr later ↦ inr (Any-insert t k v m later) ])
]

-- What holds of every entry holds of an entry that is found.
pub All-lookup {κ} :
    (P : Bytes × Bytes → Type κ) (k : Bytes) (m : Dict) {v : Bytes}
    → All P m
    → lookup k m ≡ some v
    → P (k, v)
unfolding lookup
All-lookup P k [] h e = cc
All-lookup P k ((j, w) ∷ m) {v} h e = elim (Bool-cases (equal j k)) [
  | inl same ↦
      let found : w ≡ v = cc (rw same at e) in
      subst (λ x. P (x, v)) (equal→eq j k same) (subst (λ y. P (j, y)) found h.0)
  | inr other ↦ All-lookup P k m h.1 (rw other at e)
]

pub lookup-insert_self : (k v : Bytes) (m : Dict) → lookup k (insert k v m) ≡ some v
unfolding lookup insert
lookup-insert_self k v [] = rw (equal_refl k)
lookup-insert_self k v ((j, w) ∷ m) = ground (arith, equal_refl k, lookup-insert_self k v m)

pub lookup-insert_ne :
    (k v i : Bytes) (m : Dict) → equal k i ≡ false → lookup i (insert k v m) ≡ lookup i m
unfolding lookup insert
lookup-insert_ne k v i [] h = rw h
lookup-insert_ne k v i ((j, w) ∷ m) h = elim (Bool-cases (equal j k)) [
  | inl e ↦ rw e (rw (ap (λ x. equal x i) (equal→eq j k e), h))
  | inr e ↦ rw e (ground (arith, lookup-insert_ne k v i m h))
]
