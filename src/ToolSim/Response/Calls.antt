-- ===== src/ToolSim/Response/Calls.antt =====
-- The calls that are read from the model's answer.
use mathlib.Core.Path.{subst}
use opengnk.Prelude.{
  ℕ, ◌+◌, ◌<◌, Bool, true, false, ◌&&◌, ◌||◌, List, [], ◌∷◌, Option, none, some, ◌≡◌, refl, sym,
  inl, inr, All, Any, arith, Bool-cases, Option-cases, leb, ltb, if◌then◌else◌, ◌>>=◌, length,
}
use opengnk.Text.{Bytes, codes, equal, starts_with, slice}
use opengnk.Text.Search.{equal→eq}
use opengnk.Text.Trim.{index, last_index, trim_space, last_index_inside}
use opengnk.Text.Runs.{Runs, slice-Runs, Runs-bind, Runs-if}
use opengnk.LlmClassifier.{behind_line}
use opengnk.LlmClassifier.Occurrences.Answer.{behind_line-Runs, before_fence-Runs}
use opengnk.ToolSim.{Tool, FunctionCall, ParsedToolCall, decode_call}
use opengnk.ToolSim.Response.{
  strip_code_fences, valid_name, arguments_of, keep_valid, array_of_calls, single_call,
  embedded_array, embedded, array_in, extract_embedded, first_or_else, extract_from,
  extract_tool_calls,
}

-- A call of one of the tools, with arguments that are neither empty nor `null`.
pub record IsCall (tools : List Tool) (c : ParsedToolCall) : Type 0 where
  pub named : Any (λ t. t.function.name ≡ c.name) tools
  pub nonempty : 0 < length c.arguments
  pub not_null : equal c.arguments (codes "null") ≡ false

valid_name_lem :
    (tools : List Tool) (name : Bytes)
    → valid_name tools name ≡ true
    → Any (λ t. t.function.name ≡ name) tools
unfolding valid_name
valid_name_lem [] name h = absurd (ground arith)
valid_name_lem (t ∷ ts) name h = elim (Bool-cases (equal t.function.name name)) [
  | inl e ↦ inl (equal→eq t.function.name name e)
  | inr e ↦ inr (valid_name_lem ts name (ground arith))
]

arguments_of_lem :
    (args : Bytes)
    → (0 < length (arguments_of args)) × (equal (arguments_of args) (codes "null") ≡ false)
unfolding arguments_of
arguments_of_lem args = elim (Bool-cases (leb (length args) 0 || equal args (codes "null"))) [
  | inl e ↦ rw e (unfold equal in (omega arith, refl))
  | inr e ↦ rw e (ground arith, ground arith)
]

IsCall-of :
    (tools : List Tool) (c : FunctionCall)
    → valid_name tools c.name ≡ true
    → IsCall tools (record { name = c.name; arguments = arguments_of c.arguments })
IsCall-of tools c h =
    let (nonempty, not_null) = arguments_of_lem c.arguments in
    record { named = valid_name_lem tools c.name h; nonempty = nonempty; not_null = not_null }

All-if :
    {A : Type 0} (P : A → Type 0) (b : Bool) (xs ys : List A)
    → (b ≡ true → All P xs)
    → (b ≡ false → All P ys)
    → All P (if b then xs else ys)
All-if P true xs ys h k = h refl
All-if P false xs ys h k = k refl

keep_valid-IsCall :
    (tools : List Tool) (cs : List FunctionCall) → All (IsCall tools) (keep_valid tools cs)
unfolding keep_valid
keep_valid-IsCall tools [] = tt
keep_valid-IsCall tools (c ∷ cs) =
    All-if (IsCall tools) (valid_name tools c.name) _ _
      (λ h. (IsCall-of tools c h, keep_valid-IsCall tools cs)) (λ _. keep_valid-IsCall tools cs)

single_call-IsCall :
    (tools : List Tool) (o : Option FunctionCall) → All (IsCall tools) (single_call tools o)
unfolding single_call
single_call-IsCall tools none = tt
single_call-IsCall tools (some c) =
    All-if (IsCall tools) (leb 1 (length c.name) && valid_name tools c.name) _ []
      (λ h. (IsCall-of tools c (ground arith), tt)) (λ _. tt)

embedded_array-Runs : (content : Bytes) → Runs (embedded_array content)
unfolding embedded_array
embedded_array-Runs content =
    embedded-Runs content (index (codes "[") content) (last_index (codes "]") content) refl
  where
    embedded-Runs :
        (content : Bytes) (start stop : Option ℕ)
        → last_index (codes "]") content ≡ stop
        → Runs (embedded content start stop)
    embedded-Runs content none stop e = (none, refl)
    embedded-Runs content (some a) none e = (none, refl)
    embedded-Runs content (some a) (some b) e =
        let inside = last_index_inside (codes "]") content b e in
        Runs-if (ltb a b) _ (some none)
          (λ h.
            Runs-bind (slice content a (b + 1)) _
              (slice-Runs content a (b + 1) (ground arith) (omega (arith, inside)))
              (λ t. (some t, refl)))
          (λ _. (none, refl))

-- The calls that a step gives, if it does not panic.
abbrev Gives : List Tool → Option (List ParsedToolCall) → Type 0
Gives tools o = (cs : List ParsedToolCall) × (o ≡ some cs) × All (IsCall tools) cs

extract_embedded-Gives :
    (content : Bytes) (tools : List Tool) → Gives tools (extract_embedded content tools)
unfolding extract_embedded
extract_embedded-Gives content tools =
    let (text, e) = embedded_array-Runs content in
    elim (Option-cases (array_in text)) [
      | inl f ↦ (
        single_call tools (decode_call content),
        rw (e, ◌>>=◌, f) refl,
        single_call-IsCall tools (decode_call content),
      )
      | inr (cs, f) ↦ (keep_valid tools cs, rw (e, ◌>>=◌, f) refl, keep_valid-IsCall tools cs)
    ]

first_or_else-Gives :
    (tools : List Tool) (cs : List ParsedToolCall) (rest : Option (List ParsedToolCall))
    → All (IsCall tools) cs
    → Gives tools rest
    → Gives tools (first_or_else cs rest)
unfolding first_or_else
first_or_else-Gives tools [] rest h k = k
first_or_else-Gives tools (c ∷ cs) rest h k = (c ∷ cs, refl, h)

extract_from-Gives :
    (content : Bytes) (tools : List Tool) → Gives tools (extract_from content tools)
unfolding extract_from
extract_from-Gives content tools = elim (Option-cases (array_of_calls content)) [
  | inl f ↦ subst (Gives tools) (sym (extract_none f)) (extract_embedded-Gives content tools)
  | inr (cs, f) ↦ subst (Gives tools) (sym (extract_some cs f)) (
      first_or_else-Gives tools (keep_valid tools cs) (extract_embedded content tools)
        (keep_valid-IsCall tools cs) (extract_embedded-Gives content tools))
]
  where
    extract_none :
        array_of_calls content ≡ none → extract_from content tools ≡ extract_embedded content tools
    extract_none f = rw (f, extract_from) refl

    extract_some :
        (cs : List FunctionCall)
        → array_of_calls content ≡ some cs
        → extract_from content tools
          ≡ first_or_else (keep_valid tools cs) (extract_embedded content tools)
    extract_some cs f = rw (f, extract_from) refl

strip_code_fences-Runs : (s : Bytes) → Runs (strip_code_fences s)
unfolding strip_code_fences
strip_code_fences-Runs s =
    Runs-if (starts_with (codes "```") s) _ (some s)
      (λ _. Runs-bind (behind_line s) _ (behind_line-Runs s) (λ t. before_fence-Runs t))
      (λ _. (s, refl))

-- Whatever the model answers, `extractToolCalls` does not panic, and each call that it returns
-- names one of the tools of the request and has arguments that are neither empty nor `null`.
pub extract_tool_calls-IsCall :
    (content : Bytes) (tools : List Tool)
    → (cs : List ParsedToolCall) × (extract_tool_calls content tools ≡ some cs)
      × All (IsCall tools) cs
unfolding extract_tool_calls
extract_tool_calls-IsCall content tools =
    let (s, e) = strip_code_fences-Runs (trim_space content) in
    let (cs, f, h) = extract_from-Gives (trim_space s) tools in (cs, rw (e, ◌>>=◌) f, h)
