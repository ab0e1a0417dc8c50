-- ===== src/Config/Wallets.antt =====
-- What `loadWallets` returns can be used.
use opengnk.Prelude.{
  ℕ, ◌+◌, ◌<◌, Bool, true, false, List, [], ◌∷◌, ◌≡◌, refl, leb, if◌then◌else◌, length, All, arith,
}
use opengnk.Text.{Bytes}
use opengnk.Text.Trim.{trim_space}
use opengnk.Config.{
  WalletCfg, unset, empty_key, Loaded, wallets, problem, read_entry, keep, parse_from, some_entries,
  split, parse_multi_wallets, Env, load_wallets,
}

abbrev pub HasKey : WalletCfg → Type 0
HasKey w = 0 < length w.private_key

-- The wallets, if there are any, all have a key.
abbrev HaveKeys : Loaded → Type 0
HaveKeys (wallets ws) = All HasKey ws
HaveKeys (problem e) = Unit

-- There is a wallet, and all wallets have a key; or there is an error.
abbrev pub IsUsable : Loaded → Type 0
IsUsable (wallets ws) = (0 < length ws) × All HasKey ws
IsUsable (problem e) = Unit

HaveKeys-keep : (w : WalletCfg) (l : Loaded) → HasKey w → HaveKeys l → HaveKeys (keep w l)
unfolding keep
HaveKeys-keep w (wallets ws) h k = (h, k)
HaveKeys-keep w (problem e) h k = tt

HaveKeys-if :
    (b : Bool) (l r : Loaded)
    → HaveKeys l
    → (b ≡ false → HaveKeys r)
    → HaveKeys (if b then l else r)
HaveKeys-if true l r h k = h
HaveKeys-if false l r h k = k refl

parse_from-HaveKeys : (i : ℕ) (ps : List Bytes) → HaveKeys (parse_from i ps)
unfolding parse_from
parse_from-HaveKeys i [] = tt
parse_from-HaveKeys i (p ∷ ps) =
    let part = trim_space p in
    let w = read_entry part in
    let rest = parse_from-HaveKeys (i + 1) ps in
    HaveKeys-if (leb (length part) 0) (parse_from (i + 1) ps) _ rest (λ _.
      HaveKeys-if (leb (length w.private_key) 0) (problem (empty_key (i + 1))) _ tt
        (λ e. HaveKeys-keep w (parse_from (i + 1) ps) (ground arith) rest))

some_entries-IsUsable : (l : Loaded) → HaveKeys l → IsUsable (some_entries l)
unfolding some_entries
some_entries-IsUsable (wallets []) h = tt
some_entries-IsUsable (wallets (w ∷ ws)) h = (omega arith, h)
some_entries-IsUsable (problem e) h = tt

IsUsable-if :
    (b : Bool) (l r : Loaded)
    → (b ≡ true → IsUsable l)
    → (b ≡ false → IsUsable r)
    → IsUsable (if b then l else r)
IsUsable-if true l r h k = h refl
IsUsable-if false l r h k = k refl

-- Whatever the environment holds, `loadWallets` returns an error or at least one wallet, and every
-- wallet that it returns has a key that is not empty.
pub load_wallets-IsUsable : (env : Env) → IsUsable (load_wallets env)
unfolding load_wallets parse_multi_wallets
load_wallets-IsUsable env =
    IsUsable-if (leb (length (trim_space env.gonka_wallets)) 0) _ _
      (λ _.
        IsUsable-if (leb (length (trim_space env.gonka_private_key)) 0) (problem unset) _ (λ _. tt)
          (λ e. (omega arith, (ground arith, tt))))
      (λ _.
        some_entries-IsUsable (parse_from 0 (split b',' (trim_space env.gonka_wallets)))
          (parse_from-HaveKeys 0 (split b',' (trim_space env.gonka_wallets))))
