-- ===== src/Signer/Nonce/Laws.antt =====
-- The numbers of a signature solve the equation of ECDSA, and the number `k` is found.
use native.Mathlib.Nat.{
  add_comm, mul_comm, mul_assoc, mul_right_comm, add-mul, one-mul, div-add-mod',
  add-mul-mod_self_right, mod-lt,
}
use opengnk.Prelude.{
  ℕ, zero, suc, ◌+◌, ◌-◌, ◌*◌, ◌/◌, ◌%◌, ◌≤◌, ◌<◌, true, false, ◌&&◌, [], ◌++◌, Option, some, ◌≡◌,
  refl, sym, ◌∙◌, ap, ◌⊎◌, inl, inr, arith, Bool-cases, ltb, if◌then◌else◌, ◌>>=◌, length,
  length-append,
}
use opengnk.Text.{Bytes}
use opengnk.Text.Runs.{Runs}
use opengnk.Signer.{low_s, big_bytes, set_bytes}
use opengnk.Signer.Encoding.{low_s_lem}
use opengnk.Signer.Nonce.{
  Curve, bits2int, Generator, update, seed, draw, attempt, generate_from, generate_rfc6979_k,
  numbers, rfc6979_sign,
}

mod-mul : (a k n : ℕ) → (a % n) * k % n ≡ a * k % n
mod-mul a k n = sym (add-mul-mod_self_right ((a % n) * k) (a / n * k) n) ∙ ap (λ x. x % n) whole
  where
    whole : (a % n) * k + a / n * k * n ≡ a * k
    whole =
        ap (λ x. (a % n) * k + x) (mul_right_comm (a / n) k n)
        ∙ sym (add-mul (a % n) (a / n * n) k)
        ∙ ap (λ x. x * k) both
      where
        both : a % n + a / n * n ≡ a
        both = add_comm (a % n) (a / n * n) ∙ div-add-mod' a n

mul-mod : (x y n : ℕ) → x * (y % n) % n ≡ x * y % n
mul-mod x y n =
    ap (λ z. z % n) (mul_comm x (y % n)) ∙ mod-mul y x n ∙ ap (λ z. z % n) (mul_comm y x)

-- Times a number and its inverse.
cancel : (x inv k n : ℕ) → inv * k % n ≡ 1 → (x * inv % n) * k % n ≡ x % n
cancel x inv k n h =
    mod-mul (x * inv) k n
    ∙ ap (λ z. z % n) (mul_assoc x inv k)
    ∙ sym (mul-mod x (inv * k) n)
    ∙ ap (λ z. x * z % n) h
    ∙ ap (λ z. z % n) (mul_comm x 1 ∙ one-mul x)

-- A number that suits: above zero and below the order.
abbrev pub Suits : Curve → ℕ → Type 0
Suits c k = (0 < k) × (k < c.order)

module _ (hmac : Bytes → Bytes → Bytes) where
  -- The number that round `i` of step h gives.
  abbrev pub candidate : Curve → ℕ → Generator → Option ℕ
  candidate c zero g = attempt hmac c g >>= (λ out. some out.0)
  candidate c (suc i) g = attempt hmac c g >>= (λ out. candidate c i (update hmac 0 [] out.1))

module _ (hmac : Bytes → Bytes → Bytes)
    (sized : (key message : Bytes) → length (hmac key message) ≡ 32) where
  draw-suc :
      (fuel qlen : ℕ) (key value t : Bytes)
      → ltb (length t * 8) qlen ≡ true
      → draw hmac (suc fuel) qlen key value t
        ≡ draw hmac fuel qlen key (hmac key value) (t ++ hmac key value)
  unfolding draw
  draw-suc fuel qlen key value t e = rw e refl

  draw-Runs :
      (fuel qlen : ℕ) (key value t : Bytes)
      → qlen ≤ length t * 8 + fuel * 256
      → Runs (draw hmac (suc fuel) qlen key value t)
  unfolding draw
  draw-Runs zero qlen key value t h =
      let full : ltb (length t * 8) qlen ≡ false = ground arith in ((t, value), rw full refl)
  draw-Runs (suc fuel) qlen key value t h = elim (Bool-cases (ltb (length t * 8) qlen)) [
    | inr e ↦ ((t, value), rw e refl)
    | inl e ↦
        let value' = hmac key value in
        let longer = length-append t value' in
        let (out, f) =
          draw-Runs fuel qlen key value' (t ++ value')
            (omega (arith, h, longer, sized key value)) in
        (out, draw-suc (suc fuel) qlen key value t e ∙ f)
  ]

  attempt-Runs : (c : Curve) (g : Generator) → Runs (attempt hmac c g)
  unfolding attempt
  attempt-Runs c g =
      let (out, e) = draw-Runs c.bits c.bits g.key g.value [] (omega arith) in
      ((bits2int c.bits out.0, record { key = g.key; value = out.1 }), rw (e, ◌>>=◌) refl)

  candidate_head :
      (c : Curve) (g : Generator) (out : ℕ × Generator) (secret : ℕ)
      → attempt hmac c g ≡ some out
      → candidate hmac c zero g ≡ some secret
      → out.0 ≡ secret
  candidate_head c g out secret e h =
      let both : some out.0 ≡ some secret = sym (rw (e, ◌>>=◌) refl) ∙ h in ground (arith, both)

  candidate-suc :
      (c : Curve) (g : Generator) (out : ℕ × Generator) (i : ℕ)
      → attempt hmac c g ≡ some out
      → candidate hmac c (suc i) g ≡ candidate hmac c i (update hmac 0 [] out.1)
  candidate-suc c g out i e = rw (e, ◌>>=◌) refl

  generate_from-suc :
      (fuel : ℕ) (c : Curve) (g : Generator) (out : ℕ × Generator)
      → attempt hmac c g ≡ some out
      → generate_from hmac (suc fuel) c g ≡ (
          if ltb 0 out.0 && ltb out.0 c.order
          then some out.0
          else generate_from hmac fuel c (update hmac 0 [] out.1))
  unfolding generate_from
  generate_from-suc fuel c g out e = rw (e, ◌>>=◌) refl

  -- Round 0 suits where it is the round in question.
  later_round :
      (i : ℕ) (c : Curve) (g : Generator) (out : ℕ × Generator) (secret : ℕ)
      → attempt hmac c g ≡ some out
      → candidate hmac c i g ≡ some secret
      → Suits c secret
      → ltb 0 out.0 && ltb out.0 c.order ≡ false
      → (j : ℕ) × (i ≡ suc j)
  later_round zero c g out secret e h suits f =
      let same = candidate_head c g out secret e h in
      absurd (ground (arith, same, f, suits.0, suits.1))
  later_round (suc j) c g out secret e h suits f = (j, refl)

  generate_from-Suits :
      (fuel i : ℕ) (c : Curve) (g : Generator) (secret : ℕ)
      → i < fuel
      → candidate hmac c i g ≡ some secret
      → Suits c secret
      → (k : ℕ) × (generate_from hmac fuel c g ≡ some k) × Suits c k
  generate_from-Suits zero i c g secret h e suits = absurd (omega arith)
  generate_from-Suits (suc fuel) i c g secret h e suits =
      let (out, f) = attempt-Runs c g in
      let step = generate_from-suc fuel c g out f in
      elim (Bool-cases (ltb 0 out.0 && ltb out.0 c.order)) [
        | inl t ↦ (out.0, step ∙ rw t refl, (ground arith, ground arith))
        | inr t ↦
            let (j, same) = later_round i c g out secret f e suits t in
            let next : candidate hmac c j (update hmac 0 [] out.1) ≡ some secret =
              sym (candidate-suc c g out j f) ∙ ap (λ n. candidate hmac c n g) (sym same) ∙ e in
            let (k, found, ok) =
              generate_from-Suits fuel j c (update hmac 0 [] out.1) secret (omega (arith, same))
                next suits in
            (k, step ∙ rw t found, ok)
      ]

-- With an HMAC of 32 bytes and an inverse for the numbers above zero and below the order, and where
-- one of the first `fuel` rounds of step h gives a number that suits, `rfc6979Sign` returns within
-- these rounds. Its two numbers are below the order; the first is the coordinate of a point, for a
-- number `k` above zero and below the order, and the second solves `s * k = e + r * d` modulo the
-- order. The number that `Sign` takes for the second is that one or its negative, and no more than
-- half of the order.
pub rfc6979_sign-IsSignature :
    (hmac : Bytes → Bytes → Bytes) (c : Curve) (d fuel i secret : ℕ) (hash : Bytes)
    → ((key message : Bytes) → length (hmac key message) ≡ 32)
    → ((k : ℕ) → Suits c k → c.inverse k * k % c.order ≡ 1)
    → i < fuel
    → candidate hmac c i (seed hmac c d hash) ≡ some secret
    → Suits c secret
    → (k r s : ℕ) × (rfc6979_sign hmac fuel c d hash ≡ some (r, s))
      × Suits c k
      × (r < c.order)
      × (s < c.order)
      × (r ≡ c.scalar_base_x (big_bytes 32 k) % c.order)
      × (s * k % c.order ≡ (r * d + set_bytes 0 hash) % c.order)
      × ((low_s c.order s ≡ s) ⊎ (low_s c.order s ≡ c.order - s))
      × (2 * low_s c.order s ≤ c.order)
unfolding rfc6979_sign generate_rfc6979_k numbers
rfc6979_sign-IsSignature hmac c d fuel i secret hash sized inverse few e suits =
    let (k, found, ok) =
      generate_from-Suits hmac sized fuel i c (seed hmac c d hash) secret few e suits in
    let n = c.order in
    let r = c.scalar_base_x (big_bytes 32 k) % n in
    let x = r * d + set_bytes 0 hash in
    let s = x * c.inverse k % n in
    let positive : 0 < n = omega (arith, ok.0, ok.1) in
    let low = low_s_lem n s (mod-lt (x * c.inverse k) positive) in
    (
      k,
      r,
      s,
      rw (found, ◌>>=◌) refl,
      ok,
      mod-lt _ positive,
      mod-lt _ positive,
      refl,
      cancel x (c.inverse k) k n (inverse k ok),
      low.0,
      low.1,
    )
