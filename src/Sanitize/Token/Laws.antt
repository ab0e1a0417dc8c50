-- ===== src/Sanitize/Token/Laws.antt =====
-- Where a token can be matched in a text that is made of plain bytes and other tokens.
use opengnk.Prelude.{
  ℕ, ◌^◌, ◌<◌, true, false, [], ◌∷◌, ◌++◌, append_assoc, ◌≡◌, ◌≢◌, refl, sym, ap, ◌∙◌, All, All-map,
  arith, Bool-cases, inl, inr,
}
use opengnk.Text.{Bytes, codes, starts_with}
use opengnk.Text.Decimal.{decimal6, decimal6-IsDigit, decimal6_injective, IsDigit}
use opengnk.Text.Replace.{Quiet}
use opengnk.Text.Search.{starts_with-append, starts_with_left}
use opengnk.Sanitize.Token.{token, token_prefix, token_suffix}

-- Two runs of digits, each closed by a token's end: one is a prefix only if they are equal.
digits_match :
    (ds es s : Bytes)
    → All IsDigit ds
    → All IsDigit es
    → starts_with (ds ++ token_suffix) (es ++ (token_suffix ++ s)) ≡ true
    → ds ≡ es
unfolding starts_with
digits_match [] [] s hd he h = refl
digits_match [] (e ∷ es) s hd he h = absurd (ground arith)
digits_match (d ∷ ds) [] s hd he h = absurd (ground arith)
digits_match (d ∷ ds) (e ∷ es) s hd he h = ground (arith, digits_match ds es s hd.1 he.1)

strip_prefix : (p q s : Bytes) → starts_with (p ++ q) (p ++ s) ≡ starts_with q s
unfolding starts_with
strip_prefix [] q s = refl
strip_prefix (c ∷ p) q s = ground (arith, strip_prefix p q s)

-- A token is matched at a token only if they are the same.
pub token_match :
    (j k : ℕ) (s : Bytes)
    → j < 10 ^ 20
    → k < 10 ^ 20
    → starts_with (token k) (token j ++ s) ≡ true
    → j ≡ k
unfolding token
token_match j k s hj hk h =
    let e : (decimal6 j ++ token_suffix) ++ s ≡ decimal6 j ++ (token_suffix ++ s) =
      append_assoc (decimal6 j) token_suffix s in
    decimal6_injective j k hj hk (
      sym (
        digits_match (decimal6 k) (decimal6 j) s (decimal6-IsDigit k) (decimal6-IsDigit j) (
          sym (
            strip_prefix token_prefix (decimal6 k ++ token_suffix)
              (decimal6 j ++ (token_suffix ++ s)))
          ∙ (ap
                (λ x.
                  starts_with (token_prefix ++ (decimal6 k ++ token_suffix)) (token_prefix ++ x))
                (sym e)
              ∙ h))))

-- A first byte that differs.
starts_with_ne : (a b : ℕ) (p s : Bytes) → b ≢ a → starts_with (a ∷ p) (b ∷ s) ≡ false
unfolding starts_with
starts_with_ne a b p s h = ground arith

Quiet-no_lead :
    (p u v s : Bytes) → All (λ c. c ≢ 0xC2) u → Quiet (0xC2 ∷ p) v s → Quiet (0xC2 ∷ p) (u ++ v) s
Quiet-no_lead p [] v s hu hv = hv
Quiet-no_lead p (c ∷ u) v s hu hv =
    (starts_with_ne 0xC2 c p ((u ++ v) ++ s) hu.0, Quiet-no_lead p u v s hu.1 hv)

suffix-Quiet : (p s : Bytes) → Quiet (0xC2 ∷ 0xAB ∷ p) token_suffix s
unfolding starts_with
suffix-Quiet p s = (refl, (refl, tt))

-- Inside another token no token starts.
pub token-Quiet :
    (j k : ℕ) (s : Bytes) → j < 10 ^ 20 → k < 10 ^ 20 → j ≢ k → Quiet (token k) (token j) s
token-Quiet j k s hj hk ne = elim (Bool-cases (starts_with (token k) (token j ++ s))) [
  | inl e ↦ absurd (ne (token_match j k s hj hk e))
  | inr e ↦ unfold token in (e, inner)
]
  where
    digit_ne : (c : ℕ) → IsDigit c → c ≢ 0xC2
    digit_ne c h = omega arith

    inner :
        Quiet
          (0xC2 ∷ 0xAB ∷ (codes "TOKEN_" ++ (decimal6 k ++ token_suffix)))
          ((0xAB ∷ codes "TOKEN_") ++ (decimal6 j ++ token_suffix))
          s
    inner = Quiet-no_lead _ (0xAB ∷ codes "TOKEN_") _ s (omega arith) (
        Quiet-no_lead _ (decimal6 j) token_suffix s
          (All-map (decimal6 j) digit_ne (decimal6-IsDigit j)) (suffix-Quiet _ s))

-- Every token starts with the prefix.
pub starts_with-token :
    (k : ℕ) (s : Bytes) → starts_with (token k) s ≡ true → starts_with token_prefix s ≡ true
unfolding token
starts_with-token k s = starts_with_left token_prefix (decimal6 k ++ token_suffix) s

pub token_injective : (j k : ℕ) → j < 10 ^ 20 → k < 10 ^ 20 → token j ≡ token k → j ≡ k
token_injective j k hj hk e = token_match j k [] hj hk (rw e (starts_with-append (token k) []))
