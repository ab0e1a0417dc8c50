-- ===== src/Json/Decode.antt =====
-- `json.Unmarshal` into maps and lists of raw messages, into strings and flags, and the fields of a
-- struct.
use opengnk.Prelude.{
  ℕ, zero, suc, ◌+◌, Bool, true, false, ◌&&◌, List, [], ◌∷◌, Option, none, some, leb, if◌then◌else◌,
}
use opengnk.Text.{Bytes, codes, equal, starts_with}
use opengnk.Text.Dict.{Dict, lookup, insert}
use opengnk.Json.Syntax.{valid}
use opengnk.Json.Split.{trim, inner, items, members}
use opengnk.Json.Strings.{unquote}

-- What a valid text is, by its first byte, with the raw texts of its items or members.
pub data Shape : Type 0 where
  null : Shape
  flag : Bool → Shape
  number : Shape
  text : Bytes → Shape
  list : List Bytes → Shape
  object : List (Bytes × Bytes) → Shape

unquote_keys : List (Bytes × Bytes) → List (Bytes × Bytes)
unquote_keys [] = []
unquote_keys ((k, v) ∷ ms) = (unquote k, v) ∷ unquote_keys ms

shape_of : Bytes → Shape
unfolding unquote_keys
shape_of s =
    if starts_with (codes "{") s
    then object (unquote_keys (members (items (inner s))))
    else if starts_with (codes "[") s
    then list (items (inner s))
    else if starts_with (codes "\"") s
    then text (unquote s)
    else if starts_with (codes "t") s
    then flag true
    else if starts_with (codes "f") s
    then flag false
    else if starts_with (codes "n") s
    then null
    else number

-- `none` is a text that is no JSON.
unfoldable pub shape : Bytes → Option Shape
unfolding shape_of unquote_keys
shape s = if valid s then some (shape_of (trim s)) else none

-- A `map[string]json.RawMessage`; none is a nil map.
abbrev pub RawMap : Type 0
RawMap = Option Dict

-- `v, ok := m[k]`, and `m[k] = v`, where `none` is the panic on a nil map.
unfoldable pub get : Bytes → RawMap → Option Bytes
get k none = none
get k (some m) = lookup k m

unfoldable pub assign : Bytes → Bytes → RawMap → Option RawMap
assign k v none = none
assign k v (some m) = some (some (insert k v m))

-- Of two members with one key the later one counts.
unfoldable pub fill : Dict → List (Bytes × Bytes) → Dict
fill m [] = m
fill m ((k, v) ∷ ms) = fill (insert k v m) ms

as_map : Shape → Option RawMap
as_map (object ms) = some (some (fill [] ms))
as_map null = some none
as_map _ = none

as_list : Shape → Option (List Bytes)
as_list (list rs) = some rs
as_list null = some []
as_list _ = none

-- `null` leaves a string or a flag as it is.
as_string : Shape → Option Bytes
as_string (text s) = some s
as_string null = some []
as_string _ = none

on_shape {κ} : {A : Type κ} → (Shape → Option A) → Option Shape → Option A
on_shape f none = none
on_shape f (some s) = f s

-- `json.Unmarshal` into a map, a list of raw messages and a string; `none` is its error.
unfoldable pub unmarshal_map : Bytes → Option RawMap
unfolding as_map on_shape
unmarshal_map s = on_shape as_map (shape s)

unfoldable pub unmarshal_list : Bytes → Option (List Bytes)
unfolding as_list on_shape
unmarshal_list s = on_shape as_list (shape s)

unfoldable pub unmarshal_string : Bytes → Option Bytes
unfolding as_string on_shape
unmarshal_string s = on_shape as_string (shape s)

-- `json.Unmarshal` into a list of maps.
unfoldable pub all_maps : List Bytes → Option (List RawMap)
all_maps [] = some []
all_maps (r ∷ rs) = elim (unmarshal_map r) [
  | none ↦ none
  | some m ↦ elim (all_maps rs) [ none ↦ none | some ms ↦ some (m ∷ ms) ]
]

maps_of : Option (List Bytes) → Option (List RawMap)
maps_of none = none
maps_of (some rs) = all_maps rs

unfoldable pub unmarshal_maps : Bytes → Option (List RawMap)
unfolding maps_of
unmarshal_maps s = maps_of (unmarshal_list s)

-- Keys are folded to lower case for the fields of a struct, with the long s and the sign for Kelvin.
unfoldable pub fold_key : ℕ → Bytes → Bytes
fold_key k [] = []
fold_key (suc k) (c ∷ s) = fold_key k s
fold_key zero (c ∷ s) =
    let long_s = starts_with (0xC5 ∷ 0xBF ∷ []) (c ∷ s) in
    let kelvin = starts_with (0xE2 ∷ 0x84 ∷ 0xAA ∷ []) (c ∷ s) in
    (if long_s then b's' else if kelvin then b'k' else if leb 65 c && leb c 90 then c + 32 else c)
    ∷ fold_key (if long_s then 1 else if kelvin then 2 else 0) s

-- The members that decode into a field, in their order.
unfoldable pub field_values : Bytes → List (Bytes × Bytes) → List Bytes
field_values name [] = []
field_values name ((k, v) ∷ ms) =
    let rest = field_values name ms in
    if equal (fold_key 0 k) (fold_key 0 name) then v ∷ rest else rest

-- The members of an object; none for `null`, and an error for anything else.
as_members : Shape → Option (List (Bytes × Bytes))
as_members (object ms) = some ms
as_members null = some []
as_members _ = none

unfoldable pub unmarshal_struct : Bytes → Option (List (Bytes × Bytes))
unfolding as_members on_shape
unmarshal_struct s = on_shape as_members (shape s)

-- A field with the value that it has so far, and whether all of its members had its type.
pub record Field {κ} (A : Type κ) : Type κ where
  pub value : A
  pub fits : Bool

text_step : Shape → Bytes → Field Bytes
text_step (text s) old = record { value = s; fits = true }
text_step null old = record { value = old; fits = true }
text_step _ old = record { value = old; fits = false }

flag_step : Shape → Bool → Field Bool
flag_step (flag b) old = record { value = b; fits = true }
flag_step null old = record { value = old; fits = true }
flag_step _ old = record { value = old; fits = false }

step_by {κ} : {A : Type κ} → (Shape → A → Field A) → Option Shape → A → Field A
step_by f none old = record { value = old; fits = false }
step_by f (some s) old = f s old

module _ {κ} {A : Type κ} (f : Shape → A → Field A) where
  decode_field : Bool → A → List Bytes → Field A
  unfolding step_by
  decode_field ok old [] = record { value = old; fits = ok }
  decode_field ok old (v ∷ vs) =
      let r = step_by f (shape v) old in decode_field (ok && r.fits) r.value vs

unfoldable pub string_field : Bytes → List (Bytes × Bytes) → Field Bytes
unfolding decode_field step_by text_step
string_field name ms = decode_field text_step true [] (field_values name ms)

unfoldable pub flag_field : Bytes → List (Bytes × Bytes) → Field Bool
unfolding decode_field step_by flag_step
flag_field name ms = decode_field flag_step true false (field_values name ms)

last_of : Bytes → List Bytes → Bytes
last_of r [] = r
last_of r (s ∷ ss) = last_of s ss

-- A field of raw text, which is empty where there is no member for it.
unfoldable pub raw_field : Bytes → List (Bytes × Bytes) → Bytes
unfolding last_of
raw_field name ms = last_of [] (field_values name ms)

-- `_ = json.Unmarshal(body, &peek)` for a struct of one flag or one string: what is decoded stays,
-- also where there is an error.
unfoldable pub peek_flag : Bytes → Bytes → Bool
peek_flag name body = elim (unmarshal_struct body) [
  | none ↦ false
  | some ms ↦ (flag_field name ms).value
]

unfoldable pub peek_string : Bytes → Bytes → Bytes
peek_string name body = elim (unmarshal_struct body) [
  | none ↦ []
  | some ms ↦ (string_field name ms).value
]
