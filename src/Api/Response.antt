-- ===== src/Api/Response.antt =====
-- What is written to a client, and the header with the redactions.
use opengnk.Prelude.{ℕ, Bool, ◌&&◌, List, [], ◌∷◌, ◌++◌, Option, none, some, leb, if◌then◌else◌}
use opengnk.Prelude.Sort.{sort}
use opengnk.Text.{Bytes, codes, less}
use opengnk.Text.Base64.{base64}
use opengnk.Text.Decimal.{decimal}
use opengnk.Text.Dict.{Dict, insert}
use opengnk.Json.Strings.{marshal_string}
use opengnk.Json.Encode.{braces, brackets}
use opengnk.Sanitize.TokenMap.{TokenMap, is_empty}
use opengnk.Upstream.Request.{Failure, transport, upstream, exhausted}

-- A response as the client gets it: `Header().Set` adds to the headers.
pub record Reply : Type 0 where
  pub status : ℕ
  pub headers : Dict
  pub body : Bytes

-- `w.WriteHeader(status)` and `w.Write(body)`; `none` is the panic of net/http on a status that has
-- not three digits. The statuses 1xx, 204 and 304, with which net/http sends no body, are taken as
-- any other.
unfoldable pub write : Dict → ℕ → Bytes → Option Reply
write headers status body =
    if leb 100 status && leb status 999
    then some (record { status = status; headers = headers; body = body })
    else none

abbrev pub json_header : Dict
json_header = (codes "Content-Type", codes "application/json") ∷ []

-- A field of a struct or a key of a map in its encoding.
abbrev pub field : Bytes → Bytes → Bytes
field name value = marshal_string name ++ b':' ∷ value

-- `writeJSON`, with the value encoded: the encoder ends the text with a line end.
abbrev pub write_json : ℕ → Bytes → Option Reply
write_json status value = write json_header status (value ++ 10 ∷ [])

unfoldable pub write_err : ℕ → Bytes → Option Reply
write_err status msg = write_json status (braces (field (codes "error") (marshal_string msg) ∷ []))

-- The text of an error of the upstream client.
unfoldable pub error_text : Failure → Bytes
error_text (transport e) = e
error_text (upstream status body) = codes "upstream " ++ decimal status ++ codes ": " ++ body
error_text exhausted = codes "upstream: all endpoints exhausted"

unfoldable pub upstream_error : Bytes → Option Reply
upstream_error text = write_err 502 (codes "upstream error: " ++ text)

abbrev token_before : Bytes × Bytes → Bytes × Bytes → Bool
token_before a b = less a.0 b.0

-- `Redactions`: the tokens and their originals, in the order of the tokens, from the order in which
-- Go meets the entries of the map.
unfoldable pub redactions : Dict → Dict
redactions order = sort token_before order

unfoldable pub marshal_redactions : Dict → List Bytes
marshal_redactions [] = []
marshal_redactions ((tok, orig) ∷ rs) =
    braces (
      field (codes "token") (marshal_string tok)
      ∷ field (codes "original") (marshal_string orig)
      ∷ [])
    ∷ marshal_redactions rs

-- `setSanitizeHeader`; a map that is none is nil.
unfoldable pub set_sanitize_header : Dict → Option TokenMap → Dict → Dict
set_sanitize_header order none headers = headers
set_sanitize_header order (some tm) headers =
    if is_empty tm
    then headers
    else insert (codes "X-Sanitize-Redactions")
        (base64 (brackets (marshal_redactions (redactions order)))) headers

unfoldable pub health : Option Reply
health = write json_header 200 (codes "{\"status\":\"ok\"}")
