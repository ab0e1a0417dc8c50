-- ===== src/Signer/Nonce.antt =====
-- `generateRFC6979K` and `rfc6979Sign`. SHA-256, HMAC, the multiplication on the curve and the inverse
-- modulo the order are arguments.
pub mod Laws
use opengnk.Prelude.{
  ℕ, zero, suc, ◌+◌, ◌-◌, ◌*◌, ◌/◌, ◌%◌, ◌^◌, Bool, true, false, ◌&&◌, List, [], ◌∷◌, ◌++◌, Option,
  none, some, ltb, if◌then◌else◌, ◌>>=◌, length, replicate,
}
use opengnk.Text.{Bytes, codes}
use opengnk.Text.Decimal.{decimal}
use opengnk.Text.Hex.{hex_text}
use opengnk.Text.Base64.{base64}
use opengnk.Signer.{low_s, big_bytes, set_bytes, encode}

-- The curve: its order, the number of bits of the order, the first coordinate of the base point
-- times a number, and the inverse modulo the order.
pub record Curve : Type 0 where
  pub order : ℕ
  pub bits : ℕ
  pub scalar_base_x : Bytes → ℕ
  pub inverse : ℕ → ℕ

-- `big_bytes` takes the last bytes only, as many as are wanted, which is what the cut of `out` does.
unfoldable pub int2octets : ℕ → ℕ → Bytes
int2octets qlen v =
    let rlen = (qlen + 7) / 8 in
    let out = big_bytes rlen v in replicate (rlen - length out) 0 ++ out

unfoldable pub bits2int : ℕ → Bytes → ℕ
bits2int qlen b =
    let v = set_bytes 0 b in
    let blen = length b * 8 in if ltb qlen blen then v / 2 ^ (blen - qlen) else v

unfoldable pub bits2octets : ℕ → ℕ → Bytes → Bytes
bits2octets q qlen b = let z1 = bits2int qlen b in int2octets qlen (if ltb z1 q then z1 else z1 - q)

-- `kk` and `v` of the generator.
pub record Generator : Type 0 where
  pub key : Bytes
  pub value : Bytes

module _ (hmac : Bytes → Bytes → Bytes) where
  -- Steps d and e, f and g, and the update behind a number that does not suit.
  unfoldable pub update : ℕ → Bytes → Generator → Generator
  update tag extra g =
      let key = hmac g.key (g.value ++ tag ∷ extra) in
      record { key = key; value = hmac key g.value }

  unfoldable pub seed : Curve → ℕ → Bytes → Generator
  seed c d hash =
      let extra = int2octets c.bits d ++ bits2octets c.order c.bits hash in
      update 1 extra (update 0 extra (record { key = replicate 32 0; value = replicate 32 1 }))

  -- The loop that fills `t`; `none` where the fuel runs out.
  unfoldable pub draw : ℕ → ℕ → Bytes → Bytes → Bytes → Option (Bytes × Bytes)
  draw zero qlen key value t = none
  draw (suc fuel) qlen key value t =
      let value' = hmac key value in
      let more = draw fuel qlen key value' (t ++ value') in
      if ltb (length t * 8) qlen then more else some (t, value)

  -- One round of step h: the number, and the generator behind it. One round of `draw` for each bit
  -- that is wanted is more than enough.
  unfoldable pub attempt : Curve → Generator → Option (ℕ × Generator)
  attempt c g = do
    out ← draw (suc c.bits) c.bits g.key g.value []
    some (bits2int c.bits out.0, record { key = g.key; value = out.1 })

  -- The loop of step h; `none` where the fuel runs out.
  unfoldable pub generate_from : ℕ → Curve → Generator → Option ℕ
  generate_from zero c g = none
  generate_from (suc fuel) c g = do
    out ← attempt c g
    let rest = generate_from fuel c (update 0 [] out.1)
    if ltb 0 out.0 && ltb out.0 c.order then some out.0 else rest

  unfoldable pub generate_rfc6979_k : ℕ → Curve → ℕ → Bytes → Option ℕ
  generate_rfc6979_k fuel c d hash = generate_from fuel c (seed c d hash)

  -- The two numbers of a signature, from the number that `generateRFC6979K` gives.
  unfoldable pub numbers : Curve → ℕ → Bytes → ℕ → ℕ × ℕ
  numbers c d hash k =
      let r = c.scalar_base_x (big_bytes 32 k) % c.order in
      (r, (r * d + set_bytes 0 hash) * c.inverse k % c.order)

  unfoldable pub rfc6979_sign : ℕ → Curve → ℕ → Bytes → Option (ℕ × ℕ)
  rfc6979_sign fuel c d hash = do k ← generate_rfc6979_k fuel c d hash; some (numbers c d hash k)

  -- What `Sign` hashes: the hash of the payload in hexadecimal, the time and the address.
  unfoldable pub signature_input : (Bytes → Bytes) → Bytes → ℕ → Bytes → Bytes
  signature_input sha256 payload ts address = hex_text (sha256 payload) ++ decimal ts ++ address

  -- `Sign` at a time.
  unfoldable pub sign : (Bytes → Bytes) → ℕ → Curve → ℕ → ℕ → Bytes → Bytes → Option Bytes
  sign sha256 fuel c d ts payload address = do
    out ← rfc6979_sign fuel c d (sha256 (signature_input sha256 payload ts address))
    some (base64 (encode out.0 (low_s c.order out.1)))
