-- ===== src/Text/Decimal.antt =====
-- `fmt.Sprintf("%06d", n)`: the decimal digits, padded with zeros to six places.
use opengnk.Prelude.{
  ℕ, zero, suc, ◌+◌, ◌-◌, ◌*◌, ◌/◌, ◌%◌, ◌^◌, ◌≤◌, ◌<◌, [], ◌∷◌, ◌++◌, ◌≡◌, refl, sym, ap, ◌∙◌, All,
  All-append, length, length-append, replicate, length-replicate, arith, ◌==◌, if◌then◌else◌,
}
use native.Mathlib.Nat.{pow-suc}
use opengnk.Text.{Bytes, codes}

-- Twenty digits are enough for a 64-bit number.
pub emit : ℕ → ℕ → Bytes → Bytes
emit zero n out = out
emit (suc f) n out =
    let rest = emit f (n / 10) ((b'0' + n % 10) ∷ out) in if n == 0 then out else rest

unfoldable pub decimal6 : ℕ → Bytes
unfolding emit
decimal6 n = let ds = emit 20 n [] in replicate (6 - length ds) b'0' ++ ds

-- `%d`.
unfoldable pub decimal : ℕ → Bytes
unfolding emit
decimal n = if n == 0 then codes "0" else emit 20 n []

decimal6_short : decimal6 42 ≡ codes "000042"
unfolding decimal6
decimal6_short = refl

decimal6_long : decimal6 18446744073709551615 ≡ codes "18446744073709551615"
unfolding decimal6
decimal6_long = refl

abbrev pub IsDigit : ℕ → Type 0
IsDigit c = (b'0' ≤ c) × (c ≤ b'9')

-- The number that digits spell behind `n`.
value : ℕ → Bytes → ℕ
value n [] = n
value n (c ∷ s) = value (n * 10 + (c - b'0')) s

emit-IsDigit : (f n : ℕ) (out : Bytes) → All IsDigit out → All IsDigit (emit f n out)
unfolding emit
emit-IsDigit zero n out h = h
emit-IsDigit (suc f) n out h = ground (arith, emit-IsDigit f (n / 10) ((b'0' + n % 10) ∷ out))

zeros-IsDigit : (k : ℕ) → All IsDigit (replicate k b'0')
zeros-IsDigit zero = tt
zeros-IsDigit (suc k) = (omega arith, zeros-IsDigit k)

pub decimal6-IsDigit : (n : ℕ) → All IsDigit (decimal6 n)
unfolding decimal6
decimal6-IsDigit n = All-append IsDigit _ _ (zeros-IsDigit _) (emit-IsDigit 20 n [] tt)

value-emit : (f n : ℕ) (out : Bytes) → n < 10 ^ f → value 0 (emit f n out) ≡ value n out
unfolding emit value
value-emit zero n out h = let e : n ≡ 0 = omega arith in rw e
value-emit (suc f) n out h =
    ground (arith, pow-suc 10 f, value-emit f (n / 10) ((b'0' + n % 10) ∷ out))

value-zeros : (k : ℕ) (s : Bytes) → value 0 (replicate k b'0' ++ s) ≡ value 0 s
unfolding value
value-zeros zero s = refl
value-zeros (suc k) s = value-zeros k s

value-decimal6 : (n : ℕ) → n < 10 ^ 20 → value 0 (decimal6 n) ≡ n
unfolding decimal6
value-decimal6 n h = value-zeros _ (emit 20 n []) ∙ value-emit 20 n [] h ∙ unfold value in refl

-- Different numbers have different prints.
pub decimal6_injective : (m n : ℕ) → m < 10 ^ 20 → n < 10 ^ 20 → decimal6 m ≡ decimal6 n → m ≡ n
decimal6_injective m n hm hn e = sym (value-decimal6 m hm) ∙ ap (value 0) e ∙ value-decimal6 n hn

length-emit : (f k n : ℕ) (out : Bytes) → n < 10 ^ k → length (emit f n out) ≤ k + length out
unfolding emit
length-emit zero k n out h = omega arith
length-emit (suc f) zero n out h = let e : n ≡ 0 = omega arith in rw e (omega arith)
length-emit (suc f) (suc k) n out h =
    ground (arith, pow-suc 10 k, length-emit f k (n / 10) ((b'0' + n % 10) ∷ out))

-- Below a million the print has six places.
pub length-decimal6 : (n : ℕ) → n < 10 ^ 6 → length (decimal6 n) ≡ 6
unfolding decimal6
length-decimal6 n h =
    let ds = emit 20 n [] in
    omega (
      arith,
      length-append (replicate (6 - length ds) b'0') ds,
      length-replicate {A = ℕ} (6 - length ds) b'0',
      length-emit 20 6 n [] h,
    )
