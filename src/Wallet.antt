-- ===== src/Wallet.antt =====
-- internal/wallet/pool.go: the pool of wallets and its round-robin counter. `Next` is one atomic
-- add, so calls from several goroutines are a sequence of calls.
pub mod Fairness
use opengnk.Prelude.{
  ℕ, zero, suc, ◌+◌, ◌-◌, ◌%◌, ◌^◌, List, [], ◌∷◌, Option, none, some, ◌==◌, if◌then◌else◌, length,
  get_elem?,
}
use opengnk.Text.{Bytes}

-- The signer is its private scalar, `key.D`.
pub record Wallet : Type 0 where
  pub signer : ℕ
  pub address : Bytes

pub record Pool : Type 0 where
  pub wallets : List Wallet
  pub counter : ℕ

-- `NewPool`; `none` is the error on an empty list.
unfoldable pub new_pool : List Wallet → Option Pool
new_pool [] = none
new_pool (w ∷ ws) = some (record { wallets = w ∷ ws; counter = 0 })

abbrev pub len : Pool → ℕ
len p = length p.wallets

abbrev pub all : Pool → List Wallet
all p = p.wallets

-- `p.counter.Add(1)` on a `uint64`.
abbrev pub advance : Pool → Pool
advance p = record p { counter = (p.counter + 1) % 2 ^ 64 }

-- `p.counter.Add(1) - 1`, and the index that it gives; `none` is the panic of `%` by zero.
unfoldable pub next_index : Pool → Option ℕ
next_index p =
    let idx = ((advance p).counter + 2 ^ 64 - 1) % 2 ^ 64 in
    if len p == 0 then none else some (idx % len p)

-- `Next`: the wallet, which is none after a panic, and the pool behind the call.
unfoldable pub next : Pool → Option Wallet × Pool
next p = (elim (next_index p) [ none ↦ none | some i ↦ get_elem? p.wallets i ], advance p)

-- The indices of the wallets that the next `m` calls hand out.
unfoldable pub handed_out : ℕ → Pool → List (Option ℕ)
handed_out zero p = []
handed_out (suc m) p = next_index p ∷ handed_out m (advance p)
