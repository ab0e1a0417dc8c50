-- ===== src/Json/Split.antt =====
-- The items of an array and the members of an object, as raw texts.
use opengnk.Prelude.{
  ℕ, ◌+◌, ◌-◌, Bool, true, false, not, ◌&&◌, ◌||◌, List, [], ◌∷◌, leb, ◌==◌, if◌then◌else◌, length,
  take, drop,
}
use opengnk.Text.{Bytes}
use opengnk.Text.Trim.{reverse_onto}
use opengnk.Json.Syntax.{is_space}

unfoldable pub skip_spaces : Bytes → Bytes
skip_spaces [] = []
skip_spaces (c ∷ s) = if is_space c then skip_spaces s else c ∷ s

-- The text without the white space around it.
unfoldable pub trim : Bytes → Bytes
trim s = reverse_onto [] (skip_spaces (reverse_onto [] (skip_spaces s)))

-- The text between the brackets.
abbrev pub inner : Bytes → Bytes
inner s = drop 1 (take (length s - 1) s)

abbrev pub prepend : ℕ → List Bytes → List Bytes
prepend c [] = (c ∷ []) ∷ []
prepend c (p ∷ ps) = (c ∷ p) ∷ ps

abbrev deeper : ℕ → ℕ → ℕ
deeper c depth =
    if c == b'{' || c == b'['
    then depth + 1
    else if c == b'}' || c == b']'
    then depth - 1
    else depth

-- Cuts at the separators that stand outside of brackets and strings. The flags say that the scan
-- is in a string, and behind a backslash.
unfoldable pub cut : ℕ → ℕ → Bool → Bool → Bytes → List Bytes
cut sep depth text slash [] = [] ∷ []
cut sep depth true true (c ∷ s) = prepend c (cut sep depth true false s)
cut sep depth true false (c ∷ s) = prepend c (cut sep depth (not (c == 34)) (c == 92) s)
cut sep depth false slash (c ∷ s) =
    let rest = cut sep (deeper c depth) (c == 34) false s in
    if c == sep && depth == 0 then [] ∷ rest else prepend c rest

unfoldable pub trim_all : List Bytes → List Bytes
trim_all [] = []
trim_all (p ∷ ps) = trim p ∷ trim_all ps

-- The texts between the commas, none in an empty pair of brackets.
unfoldable pub items : Bytes → List Bytes
items s = if leb (length (skip_spaces s)) 0 then [] else trim_all (cut b',' 0 false false s)

-- The key's literal and the value's text.
unfoldable pub halve : List Bytes → Bytes × Bytes
halve [] = ([], [])
halve (k ∷ []) = (trim k, [])
halve (k ∷ v ∷ rest) = (trim k, trim v)

unfoldable pub members : List Bytes → List (Bytes × Bytes)
members [] = []
members (p ∷ ps) = halve (cut b':' 0 false false p) ∷ members ps
