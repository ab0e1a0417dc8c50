-- ===== src/Text.antt =====
-- Go strings as lists of bytes, with what the proxy uses of the packages `strings` and `fmt`.
pub mod Search
pub mod Replace
pub mod Decimal
pub mod Base64
pub mod Dict
pub mod Hex
pub mod Trim
pub mod Runs
use Prim.Native.Char.{code}
use Prim.Native.String.{String}
use opengnk.Prelude.{
  ℕ, zero, suc, ◌-◌, Bool, true, false, ◌&&◌, ◌||◌, List, [], ◌∷◌, ◌++◌, Option, none, some, ltb,
  leb, ◌==◌, if◌then◌else◌, length, take, drop,
}

abbrev pub Bytes : Type 0
Bytes = List ℕ

pub Bytes-set : IsSet Bytes
Bytes-set = hlevel

-- The code points of a literal; these are its bytes when the text is ASCII.
abbrev pub codes : String → Bytes
codes String.[] = []
codes (String.◌∷◌ c s) = code c ∷ codes s

-- `a == b` on strings.
unfoldable pub equal : Bytes → Bytes → Bool
equal [] [] = true
equal [] (d ∷ s) = false
equal (c ∷ p) [] = false
equal (c ∷ p) (d ∷ s) = c == d && equal p s

-- `a < b` on strings: byte by byte.
unfoldable pub less : Bytes → Bytes → Bool
less [] [] = false
less [] (d ∷ s) = true
less (c ∷ p) [] = false
less (c ∷ p) (d ∷ s) = ltb c d || c == d && less p s

-- `strings.HasPrefix(s, prefix)`, the prefix first.
unfoldable pub starts_with : Bytes → Bytes → Bool
starts_with [] s = true
starts_with (c ∷ p) [] = false
starts_with (c ∷ p) (d ∷ s) = c == d && starts_with p s

-- `strings.Contains(s, substr)`, the substring first.
unfoldable pub contains : Bytes → Bytes → Bool
contains p [] = starts_with p []
contains p (c ∷ s) = starts_with p (c ∷ s) || contains p s

-- `text[a:b]`; `none` is the panic on bounds out of range.
unfoldable pub slice : Bytes → ℕ → ℕ → Option Bytes
slice text a b = if leb a b && leb b (length text) then some (drop a (take b text)) else none

-- The scan of `strings.ReplaceAll`, with the bytes of a match that are still to be skipped.
-- The program calls it with a non-empty `old` only.
unfoldable pub replace_skip : Bytes → Bytes → ℕ → Bytes → Bytes
replace_skip old new k [] = []
replace_skip old new (suc k) (b ∷ s) = replace_skip old new k s
replace_skip old new zero (b ∷ s) = elim (starts_with old (b ∷ s)) [
  | true ↦ new ++ replace_skip old new (length old - 1) s
  | false ↦ b ∷ replace_skip old new 0 s
]

unfoldable pub replace_all : Bytes → Bytes → Bytes → Bytes
replace_all text old new = replace_skip old new 0 text
