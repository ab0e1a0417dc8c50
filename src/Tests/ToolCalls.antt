-- ===== src/Tests/ToolCalls.antt =====
-- Simulated tool calls, and flat contents, on small requests and responses.
use opengnk.Prelude.{List, [], ◌∷◌, none, some, ◌≡◌, refl, ◌⊎◌, All}
use opengnk.Prelude.Sort.{sort}
use opengnk.Text.{Bytes, codes, equal, starts_with, less, slice}
use opengnk.Text.Dict.{lookup, insert}
use opengnk.Text.Trim.{reverse_onto, trim_space, trim_front, width, index, last_index}
use opengnk.Json.Syntax.{valid}
use opengnk.Json.Split.{skip_spaces, trim, cut, trim_all, items, halve, members}
use opengnk.Json.Strings.{rune_width, unescape, unquote, escape_byte, escape, marshal_string}
use opengnk.Json.Encode.{
  compact, marshal_raw, join, brackets, entries, braces, marshal_map, marshal_maps,
}
use opengnk.Json.Decode.{
  shape, fill, get, assign, unmarshal_map, unmarshal_list, unmarshal_string, all_maps,
  unmarshal_maps, fold_key, field_values, unmarshal_struct, string_field, raw_field,
}
use opengnk.LlmClassifier.{behind_line, before_fence}
use opengnk.ToolSim.{Tool, ParsedToolCall, string_of, decode_all, decode_call, unmarshal_all}
use opengnk.ToolSim.Request.{Rewrite, rewrite_request}
use opengnk.ToolSim.Request.Forwarded.{IsRewrite, rewrite_request-IsRewrite}
use opengnk.ToolSim.Response.{
  strip_code_fences, valid_name, arguments_of, keep_valid, array_of_calls, extract_from,
  extract_tool_calls, parse_choices, parse_response,
}
use opengnk.ToolSim.Response.Calls.{IsCall, extract_tool_calls-IsCall}
use opengnk.ToolSim.Response.Parsed.{IsWithoutChoices, parse_response-panics}
use opengnk.Api.Normalize.{
  flat_text, part_text, normalize_message, normalize_all, normalize_message_content,
}

abbrev weather : List Tool
weather =
    record {
      type = codes "function";
      function = record { name = codes "weather"; description = []; parameters = [] };
    }
    ∷ []

abbrev request : Bytes
request =
    codes
      "{\"tools\":[{\"type\":\"function\",\"function\":{\"name\":\"weather\"}}],\"messages\":[]}"

rewrite_request-IsRewrite_example :
    (r : Rewrite) × (rewrite_request request ≡ some r) × IsRewrite request r
rewrite_request-IsRewrite_example = rewrite_request-IsRewrite request

-- One call of the tool, and one of a tool that there is not.
abbrev content : Bytes
content =
    codes "```json\n[{\"name\":\"weather\",\"arguments\":{\"at\":1}},{\"name\":\"time\"}]\n```"

extracts :
    extract_tool_calls content weather
    ≡ some (record { name = codes "weather"; arguments = codes "{\"at\":1}" } ∷ [])
unfolding extract_tool_calls strip_code_fences extract_from keep_valid valid_name arguments_of
    trim_space trim_front width reverse_onto index last_index starts_with slice unmarshal_all
    unmarshal_list decode_call unmarshal_struct shape valid trim skip_spaces items members halve
    trim_all cut unquote unescape rune_width equal string_field raw_field field_values fold_key
    behind_line before_fence array_of_calls decode_all string_of
extracts = refl

extract_tool_calls-IsCall_example :
    (cs : List ParsedToolCall) × (extract_tool_calls content weather ≡ some cs)
    × All (IsCall weather) cs
extract_tool_calls-IsCall_example = extract_tool_calls-IsCall content weather

abbrev refusal : Bytes
refusal = codes "{\"error\":\"busy\"}"

parse_response-panics_example :
    (IsWithoutChoices refusal × (parse_response refusal (λ i. []) weather ≡ none))
    ⊎ ((¬ IsWithoutChoices refusal)
        × ((out : Bytes) × (parse_response refusal (λ i. []) weather ≡ some out)))
parse_response-panics_example = parse_response-panics refusal (λ i. []) weather

-- A response that is an error makes `ParseResponse` panic.
panics : parse_response refusal (λ i. []) weather ≡ none
unfolding parse_response parse_choices get lookup unmarshal_map shape valid trim skip_spaces
    reverse_onto items members halve trim_all cut unquote unescape rune_width fill insert equal
    starts_with
panics = refl

abbrev in_parts : Bytes
in_parts =
    codes
      "{\"messages\":[{\"content\":[{\"type\":\"text\",\"text\":\"a\"},{\"type\":\"text\",\"text\":\"b\"}]}]}"

flattens : normalize_message_content in_parts ≡ some (codes "{\"messages\":[{\"content\":\"ab\"}]}")
unfolding normalize_message_content normalize_all normalize_message flat_text part_text get assign
    marshal_map marshal_maps entries marshal_string escape escape_byte marshal_raw compact braces
    brackets join sort less unmarshal_map unmarshal_maps unmarshal_list unmarshal_string all_maps
    shape valid trim skip_spaces reverse_onto items members halve trim_all cut unquote unescape
    rune_width fill insert lookup equal starts_with
flattens = refl
