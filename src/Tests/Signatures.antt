-- ===== src/Tests/Signatures.antt =====
-- A signature on a toy curve of order 3.
use opengnk.Prelude.{
  ℕ, zero, suc, ◌+◌, ◌-◌, ◌*◌, ◌%◌, ◌≤◌, ◌<◌, ◌⊎◌, [], ◌∷◌, some, ◌≡◌, refl, arith, replicate,
}
use opengnk.Text.{Bytes, codes}
use opengnk.Signer.{low_s, big_bytes, set_bytes}
use opengnk.Signer.Nonce.{Curve, int2octets, bits2int, update, seed, draw, attempt, rfc6979_sign}
use opengnk.Signer.Nonce.Laws.{Suits, candidate, rfc6979_sign-IsSignature}

abbrev toy : Curve
toy = record { order = 3; bits = 2; scalar_base_x = λ b. 5; inverse = λ k. k }

abbrev toy_hmac : Bytes → Bytes → Bytes
toy_hmac key message = replicate 32 64

toy_inverse : (k : ℕ) → Suits toy k → toy.inverse k * k % toy.order ≡ 1
toy_inverse zero h = absurd (omega (arith, h.0))
toy_inverse (suc zero) h = refl
toy_inverse (suc (suc zero)) h = refl
toy_inverse (suc (suc (suc k))) h = absurd (omega (arith, h.1))

first_suits : candidate toy_hmac toy 0 (seed toy_hmac toy 2 (codes "h")) ≡ some 1
unfolding attempt draw bits2int set_bytes seed update
first_suits = refl

rfc6979_sign-IsSignature_example :
    (k r s : ℕ) × (rfc6979_sign toy_hmac 1 toy 2 (codes "h") ≡ some (r, s))
    × Suits toy k
    × (r < 3)
    × (s < 3)
    × (r ≡ toy.scalar_base_x (big_bytes 32 k) % 3)
    × (s * k % 3 ≡ (r * 2 + set_bytes 0 (codes "h")) % 3)
    × ((low_s 3 s ≡ s) ⊎ (low_s 3 s ≡ 3 - s))
    × (2 * low_s 3 s ≤ 3)
rfc6979_sign-IsSignature_example =
    rfc6979_sign-IsSignature toy_hmac toy 2 1 0 1 (codes "h") (λ key message. refl) toy_inverse
      (omega arith) first_suits (omega arith, omega arith)

-- Two bits of the first byte.
leading_bits : bits2int 2 (0xC0 ∷ 0x01 ∷ []) ≡ 3
unfolding bits2int set_bytes
leading_bits = refl

pads : int2octets 24 0x1234 ≡ 0 ∷ 0x12 ∷ 0x34 ∷ []
unfolding int2octets big_bytes
pads = refl
