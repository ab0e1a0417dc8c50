-- ===== src/Wallet/Fairness.antt =====
-- Every call of `Next` returns a wallet, and the calls are spread evenly over the wallets.
use opengnk.Prelude.{
  ℕ, zero, suc, ◌+◌, ◌-◌, ◌*◌, ◌/◌, ◌%◌, ◌^◌, ◌<◌, List, [], ◌∷◌, Option, none, some, ◌≡◌, sym, ap,
  ◌∙◌, arith, ◌⊎◌, inl, inr, ltb, Bool-cases, ◌==◌, if◌then◌else◌, length, get_elem?,
  get_elem?_total,
}
use native.Mathlib.Nat.{
  zero-div, zero-mod, add-zero, div-add-mod, mul-add-div, mul-add-mod_self_left, div-eq_of_lt,
  mod-eq_of_lt, mod-lt, div_self, mod_self,
}
use opengnk.Wallet.{Wallet, Pool, new_pool, advance, next_index, next, handed_out, len}

pub record IsValid (p : Pool) : Type 0 where
  pub nonempty : 0 < len p
  pub in_range : p.counter < 2 ^ 64

-- A new pool can serve, and `NewPool` fails on the empty list alone.
pub new_pool-IsValid : (ws : List Wallet) (p : Pool) → new_pool ws ≡ some p → IsValid p
unfolding new_pool
new_pool-IsValid [] p e = absurd (ground arith)
new_pool-IsValid (w ∷ ws) p e = ground arith

new_pool_lem :
    (ws : List Wallet) (p : Pool) → new_pool ws ≡ some p → (p.wallets ≡ ws) × (p.counter ≡ 0)
unfolding new_pool
new_pool_lem [] p e = absurd (ground arith)
new_pool_lem (w ∷ ws) p e = ground arith

pub advance-IsValid : (p : Pool) → IsValid p → IsValid (advance p)
advance-IsValid p v = record { nonempty = v.nonempty; in_range = omega arith }

next_index_lem : (p : Pool) → IsValid p → next_index p ≡ some (p.counter % len p)
unfolding next_index
next_index_lem p v =
    let e : ((advance p).counter + 2 ^ 64 - 1) % 2 ^ 64 ≡ p.counter = omega (arith, v.in_range) in
    rw e (ground (arith, v.nonempty))

next_lem : (p : Pool) → IsValid p → (next p).0 ≡ get_elem? p.wallets (p.counter % len p)
unfolding next
next_lem p v = rw (next_index_lem p v, next)

next-IsValid : (p : Pool) → IsValid p → IsValid (next p).1
unfolding next
next-IsValid p v = advance-IsValid p v

-- `Next` never panics, also when the counter wraps around, and the pool stays valid.
pub next_total :
    (p : Pool)
    → IsValid p
    → (w : Wallet) × ((next p).0 ≡ some w)
      × (get_elem? p.wallets (p.counter % len p) ≡ some w)
      × IsValid (next p).1
next_total p v =
    let (w, found) = get_elem?_total p.wallets (p.counter % len p) (omega (arith, v.nonempty)) in
    (w, next_lem p v ∙ found, found, next-IsValid p v)

abbrev pub count : ℕ → List (Option ℕ) → ℕ
count i [] = 0
count i (none ∷ xs) = count i xs
count i (some j ∷ xs) = (if j == i then 1 else 0) + count i xs

-- How many of the numbers below `c` leave the rest `i` modulo `n`: one for each full turn, and one
-- more if the turn that has begun is past `i`.
abbrev pub share : ℕ → ℕ → ℕ → ℕ
share c n i = c / n + (if ltb i (c % n) then 1 else 0)

share_zero : (n i : ℕ) → share 0 n i ≡ 0
share_zero n i = rw (zero-div n, zero-mod n) (ground arith)

split_suc :
    (c n : ℕ) → 0 < n → ((c + 1) / n ≡ c / n + (c % n + 1) / n) × ((c + 1) % n ≡ (c % n + 1) % n)
split_suc c n h =
    let e : n * (c / n) + (c % n + 1) ≡ c + 1 = omega (arith, div-add-mod c n) in
    (
      ap (λ x. x / n) (sym e) ∙ mul-add-div h (c / n) (c % n + 1),
      ap (λ x. x % n) (sym e) ∙ mul-add-mod_self_left n (c / n) (c % n + 1),
    )

turn :
    (c n : ℕ)
    → 0 < n
    → (((c + 1) / n ≡ c / n) × ((c + 1) % n ≡ c % n + 1) × (c % n + 1 < n))
      ⊎ (((c + 1) / n ≡ c / n + 1) × ((c + 1) % n ≡ 0) × (c % n + 1 ≡ n))
turn c n h =
    let (quot, rest) = split_suc c n h in
    elim (Bool-cases (ltb (c % n + 1) n)) [
      | inl e ↦
          let lt : c % n + 1 < n = ground arith in
          inl (
            quot ∙ ap (◌+◌ (c / n)) (div-eq_of_lt lt) ∙ add-zero (c / n),
            rest ∙ mod-eq_of_lt lt,
            lt,
          )
      | inr e ↦
          let eq : c % n + 1 ≡ n = ground (arith, mod-lt c h) in
          inr (
            quot ∙ ap (λ x. c / n + x / n) eq ∙ ap (◌+◌ (c / n)) (div_self h),
            rest ∙ ap (λ x. x % n) eq ∙ mod_self n,
            eq,
          )
    ]

share_suc : (c n i : ℕ) → i < n → share (c + 1) n i ≡ share c n i + (if c % n == i then 1 else 0)
share_suc c n i h = ground (arith, turn c n (omega arith))

-- The calls from counter `c` to counter `c + m` give wallet `i` its share.
count-handed_out :
    (m : ℕ) (p : Pool) (i : ℕ)
    → IsValid p
    → i < len p
    → p.counter + m < 2 ^ 64
    → count i (handed_out m p) + share p.counter (len p) i ≡ share (p.counter + m) (len p) i
unfolding handed_out
count-handed_out zero p i v h room =
    let e : p.counter + 0 ≡ p.counter = omega arith in rw e (omega arith)
count-handed_out (suc m) p i v h room = ground (
  arith,
  next_index_lem p v,
  count-handed_out m (advance p) i (advance-IsValid p v) h,
  share_suc p.counter (len p) i h,
)

-- The first `m` calls on a new pool hand out every wallet `m / n` times, and the first `m % n`
-- wallets once more, where `n` is the number of wallets, as long as the counter does not wrap.
pub count-new_pool :
    (ws : List Wallet) (p : Pool) (m i : ℕ)
    → new_pool ws ≡ some p
    → i < length ws
    → m < 2 ^ 64
    → count i (handed_out m p) ≡ m / length ws + (if ltb i (m % length ws) then 1 else 0)
count-new_pool ws p m i e h room =
    let (same, start) = new_pool_lem ws p e in
    rw (← same) (
      ground (
        arith,
        count-handed_out m p i (new_pool-IsValid ws p e),
        ap length same,
        share_zero (len p) i,
        start,
      ))
