-- ===== src/ToolSim.antt =====
-- internal/toolsim/toolsim.go: requests with tools are rewritten as plain prompts, and the answer
-- is read for tool calls.
pub mod Request
pub mod Response
use opengnk.Prelude.{
  ℕ, Bool, true, false, ◌&&◌, List, [], ◌∷◌, ◌++◌, Option, none, some, leb, if◌then◌else◌, ◌>>=◌,
  length,
}
use opengnk.Text.{Bytes, codes}
use opengnk.Json.Decode.{unmarshal_list, unmarshal_struct, string_field, raw_field, field_values}

-- The tools, the messages and the calls in them, with the fields of the Go structs.
pub record FunctionDef : Type 0 where
  pub name : Bytes
  pub description : Bytes
  pub parameters : Bytes

pub record Tool : Type 0 where
  pub type : Bytes
  pub function : FunctionDef

pub record FunctionCall : Type 0 where
  pub name : Bytes
  pub arguments : Bytes

pub record ToolCallMsg : Type 0 where
  pub id : Bytes
  pub type : Bytes
  pub function : FunctionCall

pub record Message : Type 0 where
  pub role : Bytes
  pub content : Bytes
  pub name : Bytes
  pub tool_calls : List ToolCallMsg
  pub tool_call_id : Bytes

pub record ParsedToolCall : Type 0 where
  pub name : Bytes
  pub arguments : Bytes

module _ {A : Type 0} (decode : Bytes → Option A) where
  -- `json.Unmarshal` of a list, with the decoding of an item; one error is an error of the whole.
  unfoldable pub decode_all : List Bytes → Option (List A)
  decode_all [] = some []
  decode_all (r ∷ rs) = do a ← decode r; as' ← decode_all rs; some (a ∷ as')

  unfoldable pub unmarshal_all : Bytes → Option (List A)
  unmarshal_all s = do rs ← unmarshal_list s; decode_all rs

-- A string field, with an error where a member has another type.
unfoldable pub string_of : Bytes → List (Bytes × Bytes) → Option Bytes
string_of name ms = let f = string_field name ms in if f.fits then some f.value else none

-- The members of a nested struct; where it is given twice, both add to it.
nested : List Bytes → Option (List (Bytes × Bytes))
nested [] = some []
nested (r ∷ rs) = do ms ← unmarshal_struct r; more ← nested rs; some (ms ++ more)

unfoldable pub struct_of : Bytes → List (Bytes × Bytes) → Option (List (Bytes × Bytes))
unfolding nested
struct_of name ms = nested (field_values name ms)

unfoldable pub decode_tool : Bytes → Option Tool
decode_tool r = do
  ms ← unmarshal_struct r
  type ← string_of (codes "type") ms
  fs ← struct_of (codes "function") ms
  name ← string_of (codes "name") fs
  description ← string_of (codes "description") fs
  some (record {
    type = type;
    function = record {
      name = name;
      description = description;
      parameters = raw_field (codes "parameters") fs;
    };
  })

-- A call of a message, from its members.
unfoldable pub call_of : List (Bytes × Bytes) → Option ToolCallMsg
call_of ms = do
  id ← string_of (codes "id") ms
  type ← string_of (codes "type") ms
  fs ← struct_of (codes "function") ms
  name ← string_of (codes "name") fs
  arguments ← string_of (codes "arguments") fs
  some (record { id = id; type = type; function = record { name = name; arguments = arguments } })

-- The items of a list of structs, each as its members.
member_lists : List Bytes → Option (List (List (Bytes × Bytes)))
member_lists [] = some []
member_lists (r ∷ rs) = do ms ← unmarshal_struct r; rest ← member_lists rs; some (ms ∷ rest)

-- A list that is decoded over an older one: Go decodes each item into the one that is there.
onto : List (List (Bytes × Bytes)) → List (List (Bytes × Bytes)) → List (List (Bytes × Bytes))
onto older [] = []
onto [] (n ∷ ns) = n ∷ onto [] ns
onto (o ∷ os) (n ∷ ns) = (o ++ n) ∷ onto os ns

-- The members for a field that is a list of structs, one after the other; an error in any of them
-- is an error.
unfoldable pub items_from :
    List (List (Bytes × Bytes)) → List Bytes → Option (List (List (Bytes × Bytes)))
unfolding member_lists onto
items_from items [] = some items
items_from items (v ∷ vs) = do
  rs ← unmarshal_list v
  ms ← member_lists rs
  items_from (onto items ms) vs

unfoldable pub calls_of : List (List (Bytes × Bytes)) → Option (List ToolCallMsg)
calls_of [] = some []
calls_of (ms ∷ rest) = do c ← call_of ms; cs ← calls_of rest; some (c ∷ cs)

unfoldable pub tool_calls_of : List (Bytes × Bytes) → Option (List ToolCallMsg)
tool_calls_of ms = do items ← items_from [] (field_values (codes "tool_calls") ms); calls_of items

unfoldable pub decode_message : Bytes → Option Message
decode_message r = do
  ms ← unmarshal_struct r
  role ← string_of (codes "role") ms
  name ← string_of (codes "name") ms
  calls ← tool_calls_of ms
  call_id ← string_of (codes "tool_call_id") ms
  some (record {
    role = role;
    content = raw_field (codes "content") ms;
    name = name;
    tool_calls = calls;
    tool_call_id = call_id;
  })

-- The struct of a call in the model's answer.
unfoldable pub decode_call : Bytes → Option FunctionCall
decode_call r = do
  ms ← unmarshal_struct r
  name ← string_of (codes "name") ms
  some (record { name = name; arguments = raw_field (codes "arguments") ms })

-- The field `tools`, from the members for it: each of them has to be a list, and the last one stays.
tools_from : List Bytes → List Bytes → Option (List Bytes)
tools_from tools [] = some tools
tools_from tools (v ∷ vs) = elim (unmarshal_list v) [ none ↦ none | some rs ↦ tools_from rs vs ]

has_items : Option (List Bytes) → Bool
has_items none = false
has_items (some rs) = leb 1 (length rs)

unfoldable pub needs_simulation : Bytes → Bool
unfolding tools_from has_items
needs_simulation body = elim (unmarshal_struct body) [
  | none ↦ false
  | some ms ↦ has_items (tools_from [] (field_values (codes "tools") ms))
]
