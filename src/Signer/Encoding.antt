-- ===== src/Signer/Encoding.antt =====
-- The 64 bytes of a signature, and its small half.
use opengnk.Prelude.{
  ℕ, zero, suc, ◌+◌, ◌-◌, ◌*◌, ◌/◌, ◌%◌, ◌^◌, ◌≤◌, ◌<◌, false, [], ◌∷◌, ◌++◌, ◌≡◌, refl, ◌∙◌, ap,
  ◌⊎◌, inl, inr, arith, Bool-cases, ltb, ◌==◌, length, replicate, take, drop, length-append,
  length-replicate, take-append, take_all, drop-append, drop_all,
}
use opengnk.Text.{Bytes}
use opengnk.Signer.{low_s, big_bytes, set_bytes, fill, encode}

-- For `s` below the order the result is `s` or the order minus `s`, and no more than half of the
-- order.
pub low_s_lem :
    (order s : ℕ)
    → s < order
    → ((low_s order s ≡ s) ⊎ (low_s order s ≡ order - s)) × (2 * low_s order s ≤ order)
unfolding low_s
low_s_lem order s h = elim (Bool-cases (ltb (order / 2) s)) [
  | inl e ↦ rw e (inr refl, ground arith)
  | inr e ↦ rw e (inl refl, ground arith)
]

set_bytes-append : (x : ℕ) (a b : Bytes) → set_bytes x (a ++ b) ≡ set_bytes (set_bytes x a) b
unfolding set_bytes
set_bytes-append x [] b = refl
set_bytes-append x (c ∷ a) b = set_bytes-append (x * 256 + c) a b

set_bytes-replicate : (n : ℕ) (b : Bytes) → set_bytes 0 (replicate n 0 ++ b) ≡ set_bytes 0 b
unfolding set_bytes
set_bytes-replicate zero b = refl
set_bytes-replicate (suc n) b = set_bytes-replicate n b

big_bytes_zero : (fuel : ℕ) → big_bytes fuel 0 ≡ []
unfolding big_bytes
big_bytes_zero zero = refl
big_bytes_zero (suc fuel) = refl

big_bytes-suc :
    (fuel x : ℕ)
    → x == 0 ≡ false
    → big_bytes (suc fuel) x ≡ big_bytes fuel (x / 256) ++ x % 256 ∷ []
unfolding big_bytes
big_bytes-suc fuel x e = rw e refl

length-big_bytes : (fuel x : ℕ) → length (big_bytes fuel x) ≤ fuel
length-big_bytes zero x = unfold big_bytes in omega arith
length-big_bytes (suc fuel) x = elim (Bool-cases (x == 0)) [
  | inl e ↦
      let none_left : x ≡ 0 = ground arith in
      rw (none_left, big_bytes_zero (suc fuel)) (omega arith)
  | inr e ↦ rw (big_bytes-suc fuel x e) (
      omega (
        arith,
        length-append (big_bytes fuel (x / 256)) (x % 256 ∷ []),
        length-big_bytes fuel (x / 256),
      ))
]

set_bytes-big_bytes : (fuel x : ℕ) → x < 256 ^ fuel → set_bytes 0 (big_bytes fuel x) ≡ x
unfolding set_bytes
set_bytes-big_bytes zero x h = unfold big_bytes in ground arith
set_bytes-big_bytes (suc fuel) x h = elim (Bool-cases (x == 0)) [
  | inl e ↦ let none_left : x ≡ 0 = ground arith in rw (none_left, big_bytes_zero (suc fuel)) refl
  | inr e ↦
      let rest = set_bytes-big_bytes fuel (x / 256) (omega arith) in
      rw
        (big_bytes-suc fuel x e, set_bytes-append 0 (big_bytes fuel (x / 256)) (x % 256 ∷ []), rest)
        (omega arith)
]

length-fill : (x : ℕ) → length (fill x) ≡ 32
unfolding fill
length-fill x = omega (
  arith,
  length-append (replicate (32 - length (big_bytes 32 x)) 0) (big_bytes 32 x),
  length-replicate {A = ℕ} (32 - length (big_bytes 32 x)) 0,
  length-big_bytes 32 x,
)

set_bytes-fill : (x : ℕ) → x < 2 ^ 256 → set_bytes 0 (fill x) ≡ x
unfolding fill
set_bytes-fill x h =
    set_bytes-replicate (32 - length (big_bytes 32 x)) (big_bytes 32 x) ∙ set_bytes-big_bytes 32 x h

-- A signature of two numbers below 2 ^ 256 is 64 bytes, and the two halves give the numbers back.
pub encode_lem :
    (r s : ℕ)
    → r < 2 ^ 256
    → s < 2 ^ 256
    → (length (encode r s) ≡ 64)
      × (set_bytes 0 (take 32 (encode r s)) ≡ r)
      × (set_bytes 0 (drop 32 (encode r s)) ≡ s)
unfolding encode
encode_lem r s h k =
    let size = length-fill r in
    (
      omega (arith, length-append (fill r) (fill s), size, length-fill s),
      ap (set_bytes 0)
            (take-append 32 (fill r) (fill s) (omega arith) ∙ take_all 32 (fill r) (omega arith))
          ∙ set_bytes-fill r h,
      ap (set_bytes 0) (
            drop-append 32 (fill r) (fill s) (omega arith)
            ∙ ap (λ b. b ++ fill s) (drop_all 32 (fill r) (omega arith)))
          ∙ set_bytes-fill s k,
    )
