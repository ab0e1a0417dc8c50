-- ===== src/Json.antt =====
-- What the code uses of Go's package encoding/json, on the bytes of a text: the test for valid
-- JSON, the decoding of objects, arrays, strings and flags, and the encoding of maps and lists of
-- raw messages.
pub mod Syntax
pub mod Split
pub mod Strings
pub mod Encode
pub mod Decode
