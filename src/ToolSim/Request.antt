-- ===== src/ToolSim/Request.antt =====
-- `RewriteRequest` and what it calls.
pub mod Forwarded
use opengnk.Prelude.{
  ℕ, zero, suc, ◌+◌, Bool, true, false, not, ◌&&◌, ◌||◌, List, [], ◌∷◌, ◌++◌, Option, none, some,
  leb, ltb, if◌then◌else◌, ◌>>=◌, length,
}
use opengnk.Text.{Bytes, codes, equal}
use opengnk.Text.Decimal.{decimal}
use opengnk.Text.Dict.{Dict, lookup, insert}
use opengnk.Json.Decode.{
  RawMap, get, assign, unmarshal_map, unmarshal_string, unmarshal_struct, Shape, flag, shape,
}
use opengnk.Json.Strings.{marshal_string}
use opengnk.Json.Encode.{marshal_raw, braces, brackets, marshal_map}
use opengnk.ToolSim.{
  FunctionDef, Tool, FunctionCall, ToolCallMsg, Message, unmarshal_all, string_of, struct_of,
  decode_tool, decode_message,
}

-- `delete(m, k)`.
unfoldable pub remove : Bytes → Dict → Dict
remove k [] = []
remove k ((j, v) ∷ m) = let rest = remove k m in if equal j k then rest else (j, v) ∷ rest

unfoldable pub delete : Bytes → RawMap → RawMap
delete k none = none
delete k (some m) = some (remove k m)

-- The part of the description for tool number `i`, counted from 0.
unfoldable pub describe : ℕ → Tool → Bytes
describe i t =
    (if ltb 0 i then codes "\n\n" else [])
    ++ codes "### Function "
    ++ decimal (i + 1)
    ++ codes ": `"
    ++ t.function.name
    ++ codes "`\n"
    ++ (if leb 1 (length t.function.description)
        then codes "Description: " ++ t.function.description ++ codes "\n"
        else [])
    ++ (if leb 1 (length t.function.parameters) && not (equal t.function.parameters (codes "null"))
        then codes "Parameters (JSON Schema):\n```json\n" ++ t.function.parameters ++ codes "\n```"
        else [])

unfoldable pub describe_from : ℕ → List Tool → Bytes
describe_from i [] = []
describe_from i (t ∷ ts) = describe i t ++ describe_from (i + 1) ts

abbrev pub build_tool_description : List Tool → Bytes
build_tool_description tools = describe_from 0 tools

-- The `switch` on a string.
hint_for : Bytes → Bytes
hint_for s =
    if equal s (codes "none")
    then codes "Do NOT call any tools. Respond normally."
    else if equal s (codes "required")
    then codes "You MUST call at least one tool."
    else []

-- The name in `{"type": "function", "function": {"name": "..."}}`; `none` is an error.
unfoldable pub chosen_name : Bytes → Option Bytes
chosen_name raw = do
  ms ← unmarshal_struct raw
  type ← string_of (codes "type") ms
  fs ← struct_of (codes "function") ms
  string_of (codes "name") fs

hint_for_name : Option Bytes → Bytes
hint_for_name none = []
hint_for_name (some []) = []
hint_for_name (some (c ∷ name)) = codes "You MUST call the `" ++ (c ∷ name) ++ codes "` function."

unfoldable pub parse_tool_choice : Bytes → Bytes
unfolding hint_for hint_for_name
parse_tool_choice raw = elim (unmarshal_string raw) [
  | some s ↦ hint_for s
  | none ↦ hint_for_name (chosen_name raw)
]

unfoldable pub build_system_prompt : Bytes → Bytes → Bytes
build_system_prompt tool_desc choice_hint =
    codes "You have access to the following tools/functions:\n\n"
    ++ tool_desc
    ++ codes "\n\n"
    ++ codes "## Instructions\n"
    ++ codes
        "If the user's request can be answered by calling one or more of these tools, respond with ONLY a JSON array of tool calls in this exact format:\n"
    ++ codes "```json\n"
    ++ codes "[{\"name\": \"function_name\", \"arguments\": {\"param1\": \"value1\"}}]"
    ++ codes "\n```\n\n"
    ++ codes "Rules:\n"
    ++ codes "- Output ONLY the raw JSON array, no markdown code fences, no explanation.\n"
    ++ codes "- `arguments` must be a JSON object matching the parameter schema.\n"
    ++ codes "- You may call multiple tools by including multiple objects in the array.\n"
    ++ codes "- If you do NOT need to call any tool, respond normally with plain text.\n"
    ++ (if leb 1 (length choice_hint)
        then codes "\nIMPORTANT: " ++ choice_hint ++ codes "\n"
        else [])

unfoldable pub inject_system_prompt : List Message → Bytes → List Message
inject_system_prompt messages sys_prompt =
    record {
      role = codes "system";
      content = marshal_string sys_prompt;
      name = [];
      tool_calls = [];
      tool_call_id = [];
    }
    ∷ messages

-- A field of a struct in its encoding.
abbrev pub member_text : Bytes → Bytes → Bytes
member_text name value = 34 ∷ name ++ 34 ∷ b':' ∷ value

-- A field that is left out where it is empty.
abbrev pub omitempty : Bytes → Bytes → List Bytes
omitempty name [] = []
omitempty name (c ∷ s) = member_text name (marshal_string (c ∷ s)) ∷ []

unfoldable pub marshal_call : ToolCallMsg → Bytes
marshal_call c = braces (
    member_text (codes "id") (marshal_string c.id)
    ∷ member_text (codes "type") (marshal_string c.type)
    ∷ member_text (codes "function") (
        braces (
          member_text (codes "name") (marshal_string c.function.name)
          ∷ member_text (codes "arguments") (marshal_string c.function.arguments)
          ∷ []))
    ∷ [])

marshal_each : {A : Type 0} → (A → Bytes) → List A → List Bytes
marshal_each f [] = []
marshal_each f (x ∷ xs) = f x ∷ marshal_each f xs

unfoldable pub marshal_calls : List ToolCallMsg → Bytes
unfolding marshal_each
marshal_calls cs = brackets (marshal_each marshal_call cs)

calls_member : List ToolCallMsg → List Bytes
calls_member [] = []
calls_member (c ∷ cs) = member_text (codes "tool_calls") (marshal_calls (c ∷ cs)) ∷ []

unfoldable pub marshal_message : Message → Bytes
unfolding calls_member
marshal_message m = braces (
    member_text (codes "role") (marshal_string m.role)
      ∷ member_text (codes "content") (marshal_raw m.content)
      ∷ omitempty (codes "name") m.name
    ++ calls_member m.tool_calls
    ++ omitempty (codes "tool_call_id") m.tool_call_id)

unfoldable pub marshal_messages : List Message → Bytes
unfolding marshal_each
marshal_messages ms = brackets (marshal_each marshal_message ms)

-- What `RewriteRequest` returns: an error, the body as it is, or a new body with the tools and the
-- flag of the original.
pub data Rewrite : Type 0 where
  failed : Rewrite
  unchanged : Rewrite
  rewritten : Bytes → List Tool → Bool → Rewrite

-- A raw value of a key, decoded; a key that is not there gives the zero value.
unfoldable pub decoded_or : {A : Type 0} → A → (Bytes → Option A) → Option Bytes → Option A
decoded_or zero_value decode none = some zero_value
decoded_or zero_value decode (some r) = decode r

stream_flag : Option Shape → Bool
stream_flag (some (flag b)) = b
stream_flag _ = false

-- The flag, where an error is passed over.
unfoldable pub stream_of : Option Bytes → Bool
unfolding stream_flag
stream_of none = false
stream_of (some r) = stream_flag (shape r)

unfoldable pub choice_of : Option Bytes → List Tool → Bytes
choice_of none tools = []
choice_of (some r) tools = parse_tool_choice r

-- The map that is sent on, from the map of the request.
unfoldable pub forwarded : RawMap → List Message → List Tool → Option RawMap
forwarded raw messages tools =
    let hint = choice_of (get (codes "tool_choice") raw) tools in
    let prompt = build_system_prompt (build_tool_description tools) hint in
    do
      with_messages ←
          assign (codes "messages") (marshal_messages (inject_system_prompt messages prompt)) raw
      let stripped = delete (codes "tool_choice") (delete (codes "tools") with_messages)
      assign (codes "stream") (codes "false") stripped

rewrite_with : RawMap → List Tool → Option Rewrite
rewrite_with raw [] = some unchanged
rewrite_with raw (t ∷ ts) =
    elim (decoded_or [] (unmarshal_all decode_message) (get (codes "messages") raw)) [
      | none ↦ some failed
      | some messages ↦ do
        sent ← forwarded raw messages (t ∷ ts)
        some (rewritten (marshal_map sent) (t ∷ ts) (stream_of (get (codes "stream") raw)))
    ]

-- `RewriteRequest`; `none` is a panic.
unfoldable pub rewrite_request : Bytes → Option Rewrite
unfolding rewrite_with
rewrite_request body = elim (unmarshal_map body) [
  | none ↦ some failed
  | some raw ↦ elim (decoded_or [] (unmarshal_all decode_tool) (get (codes "tools") raw)) [
    | none ↦ some failed
    | some tools ↦ rewrite_with raw tools
  ]
]
