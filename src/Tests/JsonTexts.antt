-- ===== src/Tests/JsonTexts.antt =====
-- The decoder and the encoder of JSON on small texts.
use opengnk.Prelude.{true, false, [], ◌∷◌, some, ◌≡◌, refl}
use opengnk.Text.{codes, equal, starts_with, less}
use opengnk.Text.Dict.{insert}
use opengnk.Prelude.Sort.{sort}
use opengnk.Text.Trim.{reverse_onto}
use opengnk.Json.Syntax.{valid}
use opengnk.Json.Split.{skip_spaces, trim, cut, trim_all, items, halve, members}
use opengnk.Json.Strings.{rune_width, utf8, unescape, unquote, escape_byte, escape, marshal_string}
use opengnk.Json.Encode.{compact, marshal_raw, join, entries, braces, marshal_map}
use opengnk.Json.Decode.{
  shape, fill, unmarshal_map, unmarshal_string, fold_key, field_values, unmarshal_struct,
  flag_field, peek_flag,
}

accepts : valid (codes " {\"a\": [1, -2.5e+3, true, null], \"b\\n\": \"\\u00e9\"} ") ≡ true
unfolding valid
accepts = refl

rejects : valid (codes "{\"a\": [1, 02]}") ≡ false
unfolding valid
rejects = refl

decodes :
    unmarshal_map (codes "{ \"b\" : [ 1, 2 ], \"a\": \"x:,]\", \"b\": {\"c\": null} }")
    ≡ some (some ((codes "b", codes "{\"c\": null}") ∷ (codes "a", codes "\"x:,]\"") ∷ []))
unfolding unmarshal_map shape valid trim skip_spaces reverse_onto items members halve trim_all cut
    unquote unescape rune_width fill insert equal starts_with
decodes = refl

encodes :
    marshal_map (some ((codes "b", codes "{\"c\": null}") ∷ (codes "a<", codes "\"x <\"") ∷ []))
    ≡ codes "{\"a\\u003c\":\"x \\u003c\",\"b\":{\"c\":null}}"
unfolding marshal_map entries marshal_string escape escape_byte marshal_raw compact braces join sort
    less starts_with rune_width
encodes = refl

unescapes :
    unmarshal_string (codes "\"a\\n\\u00e9\\ud83d\\ude00\\ud83dz\"")
    ≡ some (97 ∷ 10 ∷ 0xC3 ∷ 0xA9 ∷ 0xF0 ∷ 0x9F ∷ 0x98 ∷ 0x80 ∷ 0xEF ∷ 0xBF ∷ 0xBD ∷ 122 ∷ [])
unfolding unmarshal_string shape valid trim skip_spaces reverse_onto unquote unescape rune_width
    utf8 starts_with
unescapes = refl

peeks : peek_flag (codes "stream") (codes "{\"model\": 3, \"STREAM\": true}") ≡ true
unfolding peek_flag unmarshal_struct shape valid trim skip_spaces reverse_onto items members halve
    trim_all cut unquote unescape rune_width starts_with flag_field field_values fold_key equal
peeks = refl
