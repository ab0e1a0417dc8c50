-- ===== src/Json/Encode.antt =====
-- `json.Marshal` of lists and maps of raw messages: keys in order, no white space, and the escapes
-- for HTML inside of strings.
use opengnk.Prelude.{
  ℕ, zero, suc, ◌-◌, Bool, true, false, not, ◌&&◌, ◌||◌, List, [], ◌∷◌, ◌++◌, Option, none, some,
  ◌==◌, if◌then◌else◌,
}
use opengnk.Prelude.Sort.{sort}
use opengnk.Text.{Bytes, codes, less}
use opengnk.Text.Dict.{Dict}
use opengnk.Json.Syntax.{is_space}
use opengnk.Json.Strings.{marshal_string, escape_byte, is_line_end}

compact_front : ℕ → Bytes → Bytes
compact_front c s =
    if c == b'<' || c == b'>' || c == b'&'
    then escape_byte c
    else if is_line_end (c ∷ s)
    then elim s [ [] ↦ [] | d ∷ t ↦ elim t [ [] ↦ [] | e ∷ u ↦ codes "\\u202" ++ (e - 112) ∷ [] ] ]
    else c ∷ []

-- A raw message without its white space. The flags say that the scan is in a string, and behind a
-- backslash; `skipped` bytes are passed over.
unfoldable pub compact : ℕ → Bool → Bool → Bytes → Bytes
unfolding compact_front
compact skipped text slash [] = []
compact (suc skipped) text slash (c ∷ s) = compact skipped text slash s
compact zero true slash (c ∷ s) =
    compact_front c s
    ++ compact (if is_line_end (c ∷ s) then 2 else 0) (slash || not (c == 34))
        (not slash && c == 92) s
compact zero false slash (c ∷ s) =
    let rest = compact 0 (c == 34) false s in if is_space c then rest else c ∷ rest

-- `json.Marshal` of a raw message, where an empty one stands for `null`.
unfoldable pub marshal_raw : Bytes → Bytes
marshal_raw [] = codes "null"
marshal_raw (c ∷ s) = compact 0 false false (c ∷ s)

-- Texts with commas between them.
unfoldable pub join : List Bytes → Bytes
join [] = []
join (p ∷ []) = p
join (p ∷ q ∷ ps) = p ++ b',' ∷ join (q ∷ ps)

unfoldable pub marshal_raws : List Bytes → List Bytes
marshal_raws [] = []
marshal_raws (r ∷ rs) = marshal_raw r ∷ marshal_raws rs

-- A list of encoded values.
unfoldable pub brackets : List Bytes → Bytes
brackets ps = b'[' ∷ join ps ++ b']' ∷ []

unfoldable pub entries : Dict → List Bytes
entries [] = []
entries ((k, v) ∷ m) = (marshal_string k ++ b':' ∷ marshal_raw v) ∷ entries m

abbrev key_before : Bytes × Bytes → Bytes × Bytes → Bool
key_before a b = less a.0 b.0

-- A struct: the fields in their order.
unfoldable pub braces : List Bytes → Bytes
braces ps = b'{' ∷ join ps ++ b'}' ∷ []

-- A `map[string]json.RawMessage`, which is none when it is nil.
unfoldable pub marshal_map : Option Dict → Bytes
marshal_map none = codes "null"
marshal_map (some m) = braces (entries (sort key_before m))

unfoldable pub marshal_maps : List (Option Dict) → List Bytes
marshal_maps [] = []
marshal_maps (m ∷ ms) = marshal_map m ∷ marshal_maps ms
