-- ===== src/Config.antt =====
-- internal/config/config.go: the wallets of the environment. The environment is an argument.
pub mod Wallets
pub mod Settings
use opengnk.Prelude.{
  ℕ, zero, suc, ◌+◌, Bool, true, false, List, [], ◌∷◌, Option, none, some, leb, ◌==◌, if◌then◌else◌,
  length, take, drop,
}
use opengnk.Text.{Bytes, codes}
use opengnk.Text.Trim.{index, trim_space}

pub record WalletCfg : Type 0 where
  pub private_key : Bytes
  pub address : Bytes

-- The errors: no variable is set, entry `i` has an empty key, no entry is left.
pub data Problem : Type 0 where
  unset : Problem
  empty_key : ℕ → Problem
  no_entries : Problem

pub data Loaded : Type 0 where
  wallets : List WalletCfg → Loaded
  problem : Problem → Loaded

prepend : ℕ → List Bytes → List Bytes
prepend c [] = (c ∷ []) ∷ []
prepend c (p ∷ ps) = (c ∷ p) ∷ ps

-- `strings.Split(raw, sep)` for a separator of one byte.
unfoldable pub split : ℕ → Bytes → List Bytes
unfolding prepend
split sep [] = [] ∷ []
split sep (c ∷ s) = let rest = split sep s in if c == sep then [] ∷ rest else prepend c rest

-- The part of an entry in front of the first colon and the part behind it. `strings.Index` gives
-- an index in range, so the slices do not panic.
unfoldable pub read_entry : Bytes → WalletCfg
read_entry part = elim (index (codes ":") part) [
  | none ↦ record { private_key = part; address = [] }
  | some idx ↦ record {
    private_key = trim_space (take idx part);
    address = trim_space (drop (idx + 1) part);
  }
]

keep : WalletCfg → Loaded → Loaded
keep w (wallets ws) = wallets (w ∷ ws)
keep w (problem e) = problem e

-- The loop of `parseMultiWallets` from entry `i` on.
unfoldable pub parse_from : ℕ → List Bytes → Loaded
unfolding keep
parse_from i [] = wallets []
parse_from i (p ∷ ps) =
    let part = trim_space p in
    let w = read_entry part in
    let rest = parse_from (i + 1) ps in
    if leb (length part) 0
    then rest
    else if leb (length w.private_key) 0
    then problem (empty_key (i + 1))
    else keep w rest

some_entries : Loaded → Loaded
some_entries (wallets []) = problem no_entries
some_entries (wallets (w ∷ ws)) = wallets (w ∷ ws)
some_entries (problem e) = problem e

unfoldable pub parse_multi_wallets : Bytes → Loaded
unfolding some_entries
parse_multi_wallets raw = some_entries (parse_from 0 (split b',' raw))

-- The variables that `loadWallets` reads, which are empty where they are not set.
pub record Env : Type 0 where
  pub gonka_wallets : Bytes
  pub gonka_private_key : Bytes
  pub gonka_address : Bytes

unfoldable pub load_wallets : Env → Loaded
load_wallets env =
    let multi = trim_space env.gonka_wallets in
    let pk = trim_space env.gonka_private_key in
    if leb (length multi) 0
    then (if leb (length pk) 0
        then problem unset
        else wallets (record { private_key = pk; address = trim_space env.gonka_address } ∷ []))
    else parse_multi_wallets multi
