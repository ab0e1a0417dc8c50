-- ===== src/ToolSim/Response.antt =====
-- `ParseResponse` and what it calls.
pub mod Calls
pub mod Parsed
use opengnk.Prelude.{
  ℕ, zero, suc, ◌+◌, ◌/◌, ◌%◌, Bool, true, false, not, ◌&&◌, ◌||◌, List, [], ◌∷◌, ◌++◌, Option,
  none, some, leb, ltb, if◌then◌else◌, ◌>>=◌, length,
}
use opengnk.Text.{Bytes, codes, equal, starts_with, slice}
use opengnk.Text.Hex.{hex_text}
use opengnk.Text.Trim.{index, last_index, trim_space}
use opengnk.Text.Dict.{insert}
use opengnk.Json.Decode.{RawMap, get, assign, unmarshal_map, unmarshal_maps, unmarshal_string}
use opengnk.Json.Encode.{marshal_map, marshal_maps, brackets}
use opengnk.LlmClassifier.{behind_line, before_fence}
use opengnk.ToolSim.{
  FunctionDef, Tool, FunctionCall, ToolCallMsg, ParsedToolCall, unmarshal_all, decode_call,
}
use opengnk.ToolSim.Request.{marshal_calls, decoded_or}

-- `stripCodeFences` cuts as the classifier does: `strings.SplitN(s, "\n", 2)` has a second part
-- where there is a line end, and it is the text behind the first one.
unfoldable pub strip_code_fences : Bytes → Option Bytes
strip_code_fences s =
    if starts_with (codes "```") s then (do t ← behind_line s; before_fence t) else some s

-- `validNames[name]`.
unfoldable pub valid_name : List Tool → Bytes → Bool
valid_name [] name = false
valid_name (t ∷ ts) name = equal t.function.name name || valid_name ts name

unfoldable pub arguments_of : Bytes → Bytes
arguments_of args = if leb (length args) 0 || equal args (codes "null") then codes "{}" else args

-- The calls whose names are valid.
unfoldable pub keep_valid : List Tool → List FunctionCall → List ParsedToolCall
keep_valid tools [] = []
keep_valid tools (c ∷ cs) =
    let rest = keep_valid tools cs in
    if valid_name tools c.name
    then record { name = c.name; arguments = arguments_of c.arguments } ∷ rest
    else rest

-- A list of calls, which is none where the text does not decode or is the empty list.
calls_in : Option (List FunctionCall) → Option (List FunctionCall)
calls_in none = none
calls_in (some []) = none
calls_in (some (c ∷ cs)) = some (c ∷ cs)

unfoldable pub array_of_calls : Bytes → Option (List FunctionCall)
unfolding calls_in
array_of_calls content = calls_in (unmarshal_all decode_call content)

single_call : List Tool → Option FunctionCall → List ParsedToolCall
single_call tools none = []
single_call tools (some c) =
    if leb 1 (length c.name) && valid_name tools c.name
    then record { name = c.name; arguments = arguments_of c.arguments } ∷ []
    else []

-- The text from the first `[` to the last `]`, if there is any; `none` is a panic.
embedded : Bytes → Option ℕ → Option ℕ → Option (Option Bytes)
embedded content none stop = some none
embedded content (some start) none = some none
embedded content (some start) (some stop) =
    if ltb start stop then (do t ← slice content start (stop + 1); some (some t)) else some none

unfoldable pub embedded_array : Bytes → Option (Option Bytes)
unfolding embedded
embedded_array content =
    embedded content (index (codes "[") content) (last_index (codes "]") content)

array_in : Option Bytes → Option (List FunctionCall)
array_in none = none
array_in (some t) = array_of_calls t

-- From the second attempt on.
unfoldable pub extract_embedded : Bytes → List Tool → Option (List ParsedToolCall)
unfolding array_in single_call
extract_embedded content tools = do
  text ← embedded_array content
  elim (array_in text) [
    | some calls ↦ some (keep_valid tools calls)
    | none ↦ some (single_call tools (decode_call content))
  ]

-- The result of the first attempt, unless it is empty.
first_or_else : List ParsedToolCall → Option (List ParsedToolCall) → Option (List ParsedToolCall)
first_or_else [] rest = rest
first_or_else (c ∷ cs) rest = some (c ∷ cs)

unfoldable pub extract_from : Bytes → List Tool → Option (List ParsedToolCall)
unfolding first_or_else
extract_from content tools = elim (array_of_calls content) [
  | some calls ↦ first_or_else (keep_valid tools calls) (extract_embedded content tools)
  | none ↦ extract_embedded content tools
]

-- `extractToolCalls`. The second decoding writes into the slice of the first; it fills the same
-- items with the same values, so the model decodes afresh.
unfoldable pub extract_tool_calls : Bytes → List Tool → Option (List ParsedToolCall)
extract_tool_calls content tools = do
  stripped ← strip_code_fences (trim_space content)
  extract_from (trim_space stripped) tools

-- `generateToolCallID`, from the bytes that `rand.Read` gives.
unfoldable pub generate_tool_call_id : Bytes → Bytes
generate_tool_call_id random = codes "call_" ++ hex_text random

-- `random` gives the bytes for each call in turn.
unfoldable pub tool_call_msgs : (ℕ → Bytes) → ℕ → List ParsedToolCall → List ToolCallMsg
tool_call_msgs random i [] = []
tool_call_msgs random i (c ∷ cs) =
    record {
      id = generate_tool_call_id (random i);
      type = codes "function";
      function = record { name = c.name; arguments = c.arguments };
    }
    ∷ tool_call_msgs random (i + 1) cs

-- The response with the calls in its first choice; `none` is a panic.
unfoldable pub with_calls : RawMap → RawMap → List RawMap → RawMap → List ToolCallMsg → Option Bytes
with_calls resp choice choices msg calls = do
  m1 ← assign (codes "role") (codes "\"assistant\"") msg
  m2 ← assign (codes "content") (codes "null") m1
  m3 ← assign (codes "tool_calls") (marshal_calls calls) m2
  c1 ← assign (codes "message") (marshal_map m3) choice
  c2 ← assign (codes "finish_reason") (codes "\"tool_calls\"") c1
  r ← assign (codes "choices") (brackets (marshal_maps (c2 ∷ choices))) resp
  some (marshal_map r)

reply_with :
    Bytes
    → (ℕ → Bytes)
    → RawMap
    → RawMap
    → List RawMap
    → RawMap
    → List ParsedToolCall
    → Option Bytes
reply_with body random resp choice choices msg [] = some body
reply_with body random resp choice choices msg (c ∷ cs) =
    with_calls resp choice choices msg (tool_call_msgs random 0 (c ∷ cs))

reply_to :
    Bytes
    → (ℕ → Bytes)
    → List Tool
    → RawMap
    → RawMap
    → List RawMap
    → RawMap
    → Option Bytes
    → Option Bytes
reply_to body random tools resp choice choices msg none = some body
reply_to body random tools resp choice choices msg (some content) = do
  calls ← extract_tool_calls content tools
  reply_with body random resp choice choices msg calls

-- With the choices of the response, which are none where there is no such key: `choices[0]` of a
-- nil slice panics.
unfoldable pub parse_choices : Bytes → (ℕ → Bytes) → List Tool → RawMap → List RawMap → Option Bytes
unfolding reply_with reply_to
parse_choices body random tools resp [] = none
parse_choices body random tools resp (choice ∷ choices) =
    elim (decoded_or none unmarshal_map (get (codes "message") choice)) [
      | none ↦ some body
      | some msg ↦
          reply_to body random tools resp choice choices msg
            (decoded_or [] unmarshal_string (get (codes "content") msg))
    ]

choices_or_body : Bytes → (ℕ → Bytes) → List Tool → RawMap → Option (List RawMap) → Option Bytes
choices_or_body body random tools resp none = some body
choices_or_body body random tools resp (some []) = some body
choices_or_body body random tools resp (some (c ∷ cs)) =
    parse_choices body random tools resp (c ∷ cs)

parse_map : Bytes → (ℕ → Bytes) → List Tool → RawMap → Option Bytes
unfolding choices_or_body
parse_map body random tools resp = elim (get (codes "choices") resp) [
  | none ↦ parse_choices body random tools resp []
  | some raw ↦ choices_or_body body random tools resp (unmarshal_maps raw)
]

-- `ParseResponse`; `none` is a panic. The model's name that it takes is not used.
unfoldable pub parse_response : Bytes → (ℕ → Bytes) → List Tool → Option Bytes
unfolding parse_map choices_or_body
parse_response body random tools = elim (unmarshal_map body) [
  | none ↦ some body
  | some resp ↦ parse_map body random tools resp
]
