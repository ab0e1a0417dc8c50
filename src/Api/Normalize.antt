-- ===== src/Api/Normalize.antt =====
-- `normalizeMessageContent`: the content of a message becomes one string.
pub mod Flat
use opengnk.Prelude.{
  ℕ, Bool, true, false, ◌||◌, List, [], ◌∷◌, ◌++◌, Option, none, some, if◌then◌else◌, ◌>>=◌,
}
use opengnk.Text.{Bytes, codes, equal}
use opengnk.Json.Strings.{marshal_string}
use opengnk.Json.Encode.{marshal_map, marshal_maps, brackets}
use opengnk.Json.Decode.{RawMap, unmarshal_map, unmarshal_maps, unmarshal_string, get, assign}

-- A raw value of a key, decoded as a string; `none` where it is not there or no string.
string_at : Option Bytes → Option Bytes
string_at none = none
string_at (some raw) = unmarshal_string raw

is_text : Option Bytes → Bool
is_text none = false
is_text (some t) = equal t (codes "text")

or_empty : Option Bytes → Bytes
or_empty none = []
or_empty (some t) = t

-- What a part adds to the flat text.
unfoldable pub part_text : RawMap → Bytes
unfolding string_at is_text or_empty
part_text part =
    if is_text (string_at (get (codes "type") part))
    then or_empty (string_at (get (codes "text") part))
    else []

unfoldable pub flat_text : List RawMap → Bytes
flat_text [] = []
flat_text (p ∷ ps) = part_text p ++ flat_text ps

-- A message, and whether it changed.
abbrev pub Normal : Type 0
Normal = RawMap × Bool

flatten : RawMap → Option (List RawMap) → Option Normal
flatten msg none = some (msg, false)
flatten msg (some parts) = do
  m ← assign (codes "content") (marshal_string (flat_text parts)) msg
  some (m, true)

-- With the content decoded as a string, which a string and `null` do.
flatten_raw : RawMap → Bytes → Option Bytes → Option Normal
unfolding flatten
flatten_raw msg raw (some s) = some (msg, false)
flatten_raw msg raw none = flatten msg (unmarshal_maps raw)

normalize_content : RawMap → Option Bytes → Option Normal
unfolding flatten_raw
normalize_content msg none = some (msg, false)
normalize_content msg (some raw) = flatten_raw msg raw (unmarshal_string raw)

unfoldable pub normalize_message : RawMap → Option Normal
unfolding normalize_content flatten_raw flatten
normalize_message msg = normalize_content msg (get (codes "content") msg)

unfoldable pub normalize_all : List RawMap → Option (List RawMap × Bool)
normalize_all [] = some ([], false)
normalize_all (m ∷ ms) = do
  first ← normalize_message m
  rest ← normalize_all ms
  some (first.0 ∷ rest.0, first.1 || rest.1)

put_normal : Bytes → RawMap → List RawMap × Bool → Option Bytes
put_normal body req (ms, false) = some body
put_normal body req (ms, true) = do
  req' ← assign (codes "messages") (brackets (marshal_maps ms)) req
  some (marshal_map req')

normalize_list : Bytes → RawMap → Option (List RawMap) → Option Bytes
unfolding put_normal
normalize_list body req none = some body
normalize_list body req (some ms) = do r ← normalize_all ms; put_normal body req r

unfoldable pub messages_at : Option Bytes → Option (List RawMap)
messages_at none = none
messages_at (some raw) = unmarshal_maps raw

-- `normalizeMessageContent`, whose caller only logs the error and takes the body all the same;
-- `none` is a panic.
unfoldable pub normalize_message_content : Bytes → Option Bytes
unfolding normalize_list put_normal messages_at
normalize_message_content body = elim (unmarshal_map body) [
  | none ↦ some body
  | some req ↦ normalize_list body req (messages_at (get (codes "messages") req))
]
