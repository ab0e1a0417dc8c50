-- ===== src/Signer.antt =====
-- internal/signer/signer.go: the last steps of `Sign`, from the pair of numbers to 64 bytes. What
-- `math/big` does is written out for numbers that are not negative.
pub mod Encoding
pub mod Nonce
use opengnk.Prelude.{
  ℕ, zero, suc, ◌+◌, ◌-◌, ◌*◌, ◌/◌, ◌%◌, Bool, true, false, List, [], ◌∷◌, ◌++◌, ltb, ◌==◌,
  if◌then◌else◌, length, replicate,
}
use opengnk.Text.{Bytes}

-- `halfOrder` is `curveOrder` shifted right by one.
unfoldable pub low_s : ℕ → ℕ → ℕ
low_s order s = if ltb (order / 2) s then order - s else s

-- `x.Bytes()`: big-endian, with no leading zero; `fuel` bounds the number of bytes.
unfoldable pub big_bytes : ℕ → ℕ → Bytes
big_bytes zero x = []
big_bytes (suc fuel) x =
    let front = big_bytes fuel (x / 256) in if x == 0 then [] else front ++ x % 256 ∷ []

-- `x.SetBytes(b)`, with the value of the bytes before.
unfoldable pub set_bytes : ℕ → Bytes → ℕ
set_bytes x [] = x
set_bytes x (b ∷ bs) = set_bytes (x * 256 + b) bs

-- `copy(out[32-len(b):32], b)` into zeros. The numbers of a signature are below the order of the
-- curve, which has 256 bits, so 32 bytes are enough; a larger number would make Go's slice panic.
unfoldable pub fill : ℕ → Bytes
fill x = let b = big_bytes 32 x in replicate (32 - length b) 0 ++ b

-- `out`, with `r` and `s`.
unfoldable pub encode : ℕ → ℕ → Bytes
encode r s = fill r ++ fill s
