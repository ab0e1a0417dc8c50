-- ===== src/Json/Strings.antt =====
-- String literals of JSON: `unquote` and the encoder's escapes, which are those for HTML too.
use opengnk.Prelude.{
  ℕ, zero, suc, ◌+◌, ◌-◌, ◌*◌, ◌/◌, ◌%◌, Bool, ◌&&◌, ◌||◌, [], ◌∷◌, ◌++◌, ltb, leb, ◌==◌,
  if◌then◌else◌,
}
use opengnk.Text.{Bytes, codes, starts_with}
use opengnk.Json.Split.{inner}

abbrev between : ℕ → ℕ → ℕ → Bool
between a b c = leb a c && leb c b

abbrev byte_at : ℕ → Bytes → ℕ
byte_at n [] = 0
byte_at zero (c ∷ s) = c
byte_at (suc n) (c ∷ s) = byte_at n s

-- How many bytes the character at the front has, when its first byte is not ASCII; 0 where it is
-- no UTF-8.
unfoldable pub rune_width : Bytes → ℕ
rune_width s =
    let a = byte_at 0 s in
    let b = byte_at 1 s in
    let third = between 128 191 (byte_at 2 s) in
    let fourth = between 128 191 (byte_at 3 s) in
    if between 0xC2 0xDF a && between 128 191 b
    then 2
    else if a == 0xE0 && between 160 191 b && third
    then 3
    else if (between 0xE1 0xEC a || between 0xEE 0xEF a) && between 128 191 b && third
    then 3
    else if a == 0xED && between 128 159 b && third
    then 3
    else if a == 0xF0 && between 144 191 b && third && fourth
    then 4
    else if between 0xF1 0xF3 a && between 128 191 b && third && fourth
    then 4
    else if a == 0xF4 && between 128 143 b && third && fourth
    then 4
    else 0

-- The bytes of a character.
unfoldable pub utf8 : ℕ → Bytes
utf8 r =
    if ltb r 128
    then r ∷ []
    else if ltb r 2048
    then (192 + r / 64) ∷ (128 + r % 64) ∷ []
    else if ltb r 65536
    then (224 + r / 4096) ∷ (128 + r / 64 % 64) ∷ (128 + r % 64) ∷ []
    else (240 + r / 262144) ∷ (128 + r / 4096 % 64) ∷ (128 + r / 64 % 64) ∷ (128 + r % 64) ∷ []

-- U+FFFD, which stands for what is no character.
abbrev pub unknown : Bytes
unknown = 0xEF ∷ 0xBF ∷ 0xBD ∷ []

abbrev hex_value : ℕ → ℕ
hex_value c = if leb c 57 then c - 48 else if leb c 70 then c - 55 else c - 87

unescaped : ℕ → ℕ
unescaped c =
    if c == b'b'
    then 8
    else if c == b'f'
    then 12
    else if c == b'n'
    then 10
    else if c == b'r'
    then 13
    else if c == b't'
    then 9
    else c

-- Where the reader of a literal stands: in plain text, inside a character, behind a backslash, or
-- with so many digits of `\u` to come and the value of the ones before. `high` is the first half
-- of a pair that is still without its second half, and 0 where there is none.
pub data Reading : Type 0 where
  plain : Reading
  copy : ℕ → Reading
  slash : ℕ → Reading
  unicode : ℕ → ℕ → ℕ → Reading
  half : ℕ → Reading

-- What the value of `\u` writes, behind `high`.
write : ℕ → ℕ → Bytes
write high v =
    if between 0xDC00 0xDFFF v
    then (if ltb 0 high then utf8 ((high - 0xD800) * 1024 + (v - 0xDC00) + 65536) else unknown)
    else if between 0xD800 0xDBFF v
    then (if ltb 0 high then unknown else [])
    else if ltb 0 high
    then unknown ++ utf8 v
    else utf8 v

-- A byte of plain text, with what stands behind it: the bytes that it gives, and the next reading.
plain_out : ℕ → Bytes → Bytes
plain_out c s =
    if c == 92
    then []
    else if ltb c 128
    then c ∷ []
    else if rune_width (c ∷ s) == 0
    then unknown
    else c ∷ []

plain_next : ℕ → Bytes → ℕ → Reading
plain_next c s high =
    if c == 92
    then slash high
    else if ltb c 128 || rune_width (c ∷ s) == 0
    then plain
    else copy (rune_width (c ∷ s) - 1)

-- What a byte gives in a reading.
read_out : Reading → ℕ → Bytes → Bytes
unfolding plain_out
read_out plain c s = plain_out c s
read_out (copy k) c s = c ∷ []
read_out (slash high) c s =
    if c == b'u' then [] else if ltb 0 high then unknown ++ unescaped c ∷ [] else unescaped c ∷ []
read_out (unicode high n v) c s = if leb n 1 then write high (v * 16 + hex_value c) else []
read_out (half high) c s = if c == 92 then [] else unknown ++ plain_out c s

read_next : Reading → ℕ → Bytes → Reading
unfolding plain_next
read_next plain c s = plain_next c s 0
read_next (copy k) c s = if leb k 1 then plain else copy (k - 1)
read_next (slash high) c s = if c == b'u' then unicode high 4 0 else plain
read_next (unicode high n v) c s =
    let w = v * 16 + hex_value c in
    if leb n 1 then (if between 0xD800 0xDBFF w then half w else plain) else unicode high (n - 1) w
read_next (half high) c s = plain_next c s high

read_end : Reading → Bytes
read_end (half high) = unknown
read_end _ = []

unfoldable pub unescape : Reading → Bytes → Bytes
unfolding read_out read_next read_end write unescaped plain_out plain_next
unescape m [] = read_end m
unescape m (c ∷ s) = read_out m c s ++ unescape (read_next m c s) s

-- The text of a literal, which stands between quotes.
unfoldable pub unquote : Bytes → Bytes
unquote literal = unescape plain (inner literal)

hex_digit : ℕ → ℕ
hex_digit n = if ltb n 10 then 48 + n else 87 + n

-- How the encoder writes an ASCII byte.
unfoldable pub escape_byte : ℕ → Bytes
unfolding hex_digit
escape_byte c =
    if c == 34 || c == 92
    then 92 ∷ c ∷ []
    else if c == 8
    then codes "\\b"
    else if c == 12
    then codes "\\f"
    else if c == 10
    then codes "\\n"
    else if c == 13
    then codes "\\r"
    else if c == 9
    then codes "\\t"
    else if ltb c 32 || c == b'<' || c == b'>' || c == b'&'
    then codes "\\u00" ++ hex_digit (c / 16) ∷ hex_digit (c % 16) ∷ []
    else c ∷ []

-- U+2028 and U+2029, which the encoder escapes.
abbrev pub is_line_end : Bytes → Bool
is_line_end s = starts_with (0xE2 ∷ 0x80 ∷ 0xA8 ∷ []) s || starts_with (0xE2 ∷ 0x80 ∷ 0xA9 ∷ []) s

-- How the encoder writes the character at the front, and how many bytes behind the first byte it
-- takes along.
escape_front : ℕ → Bytes → Bytes
escape_front c s =
    if ltb c 128
    then escape_byte c
    else if is_line_end (c ∷ s)
    then codes "\\u202" ++ hex_digit (byte_at 1 s % 16) ∷ []
    else if rune_width (c ∷ s) == 0
    then codes "\\ufffd"
    else c ∷ []

-- The text with escapes; `k` bytes are skipped.
unfoldable pub escape : ℕ → ℕ → Bytes → Bytes
unfolding escape_front hex_digit
escape skipped k [] = []
escape (suc skipped) k (c ∷ s) = escape skipped k s
escape zero (suc k) (c ∷ s) = c ∷ escape 0 k s
escape zero zero (c ∷ s) =
    let line_end = is_line_end (c ∷ s) in
    escape_front c s
    ++ escape (if line_end then 2 else 0)
        (if line_end || ltb c 128 then 0 else rune_width (c ∷ s) - 1) s

-- `json.Marshal` of a string.
unfoldable pub marshal_string : Bytes → Bytes
marshal_string s = 34 ∷ escape 0 0 s ++ 34 ∷ []
