-- ===== src/ToolSim/Response/Parsed.antt =====
-- Where `ParseResponse` panics, and where it does not.
use opengnk.Prelude.{
  ℕ, List, [], ◌∷◌, Option, none, some, ◌≡◌, refl, sym, ◌∙◌, ap, ◌⊎◌, inl, inr, arith, Option-cases,
  ◌>>=◌,
}
use opengnk.Text.{Bytes, codes, starts_with}
use opengnk.Text.Trim.{index, last_index, trim_space, trim_front, width, reverse_onto}
use opengnk.Text.Runs.{Runs}
use opengnk.Text.Dict.{Dict}
use opengnk.Json.Syntax.{valid}
use opengnk.Json.Decode.{
  RawMap, get, assign, unmarshal_map, unmarshal_maps, unmarshal_string, unmarshal_list,
  unmarshal_struct, shape,
}
use opengnk.ToolSim.{Tool, ToolCallMsg, ParsedToolCall, unmarshal_all, decode_call}
use opengnk.ToolSim.Request.{decoded_or}
use opengnk.ToolSim.Response.{
  strip_code_fences, array_of_calls, calls_in, single_call, embedded_array, embedded, array_in,
  extract_embedded, extract_from, extract_tool_calls, tool_call_msgs, with_calls, reply_with,
  reply_to, parse_choices, choices_or_body, parse_map, parse_response,
}
use opengnk.ToolSim.Response.Calls.{extract_tool_calls-IsCall}

no_calls : (tools : List Tool) → extract_tool_calls [] tools ≡ some []
unfolding extract_tool_calls strip_code_fences extract_from array_of_calls calls_in extract_embedded
    embedded_array embedded array_in single_call unmarshal_all unmarshal_list decode_call
    unmarshal_struct shape valid trim_space trim_front width reverse_onto starts_with index
    last_index
no_calls tools = refl

with_calls-Runs :
    (r c m : Dict) (choices : List RawMap) (calls : List ToolCallMsg)
    → Runs (with_calls (some r) (some c) choices (some m) calls)
unfolding with_calls assign
with_calls-Runs r c m choices calls = (_, refl)

module _ (body : Bytes) (random : ℕ → Bytes) (tools : List Tool) where
  reply_with-Runs :
      (r c m : Dict) (choices : List RawMap) (calls : List ParsedToolCall)
      → Runs (reply_with body random (some r) (some c) choices (some m) calls)
  unfolding reply_with
  reply_with-Runs r c m choices [] = (body, refl)
  reply_with-Runs r c m choices (x ∷ xs) =
      with_calls-Runs r c m choices (tool_call_msgs random 0 (x ∷ xs))

  reply_to-Runs :
      (r c m : Dict) (choices : List RawMap) (content : Option Bytes)
      → Runs (reply_to body random tools (some r) (some c) choices (some m) content)
  unfolding reply_to
  reply_to-Runs r c m choices none = (body, refl)
  reply_to-Runs r c m choices (some content) =
      let (calls, e, _) = extract_tool_calls-IsCall content tools in
      let (out, f) = reply_with-Runs r c m choices calls in (out, rw (e, ◌>>=◌) f)

  -- With a nil map in place of the message there is no content and there are no calls.
  no_message :
      (resp choice : RawMap) (choices : List RawMap)
      → reply_to body random tools resp choice choices none (some []) ≡ some body
  unfolding reply_to reply_with
  no_message resp choice choices = rw (no_calls tools, ◌>>=◌) refl

  message_none :
      (r : Dict) (choice : RawMap) (choices : List RawMap)
      → decoded_or none unmarshal_map (get (codes "message") choice) ≡ none
      → parse_choices body random tools (some r) (choice ∷ choices) ≡ some body
  unfolding parse_choices
  message_none r choice choices e = rw (e, parse_choices) refl

  message_some :
      (r : Dict) (choice msg : RawMap) (choices : List RawMap)
      → decoded_or none unmarshal_map (get (codes "message") choice) ≡ some msg
      → parse_choices body random tools (some r) (choice ∷ choices)
        ≡ reply_to body random tools
            (some r)
            choice
            choices
            msg
            (decoded_or [] unmarshal_string (get (codes "content") msg))
  unfolding parse_choices
  message_some r choice msg choices e = rw (e, parse_choices) refl

  nil_content : decoded_or [] unmarshal_string (get (codes "content") none) ≡ some []
  unfolding decoded_or get
  nil_content = refl

  nil_message : decoded_or none unmarshal_map (get (codes "message") none) ≡ some none
  unfolding decoded_or get
  nil_message = refl

  with_message-Runs :
      (r : Dict) (choice msg : RawMap) (choices : List RawMap)
      → decoded_or none unmarshal_map (get (codes "message") choice) ≡ some msg
      → Runs (parse_choices body random tools (some r) (choice ∷ choices))
  with_message-Runs r choice none choices e = (
    body,
    message_some r choice none choices e
        ∙ ap (reply_to body random tools (some r) choice choices none) nil_content
        ∙ no_message (some r) choice choices,
  )
  with_message-Runs r none (some m) choices e = absurd (ground (arith, nil_message, e))
  with_message-Runs r (some c) (some m) choices e =
      let (out, f) =
        reply_to-Runs r c m choices
          (decoded_or [] unmarshal_string (get (codes "content") (some m))) in
      (out, message_some r (some c) (some m) choices e ∙ f)

  parse_choices-Runs :
      (r : Dict) (choice : RawMap) (choices : List RawMap)
      → Runs (parse_choices body random tools (some r) (choice ∷ choices))
  parse_choices-Runs r choice choices =
      elim (Option-cases (decoded_or none unmarshal_map (get (codes "message") choice))) [
        | inl e ↦ (body, message_none r choice choices e)
        | inr (msg, e) ↦ with_message-Runs r choice msg choices e
      ]

  choices_or_body-Runs :
      (r : Dict) (o : Option (List RawMap)) → Runs (choices_or_body body random tools (some r) o)
  unfolding choices_or_body
  choices_or_body-Runs r none = (body, refl)
  choices_or_body-Runs r (some []) = (body, refl)
  choices_or_body-Runs r (some (c ∷ cs)) = parse_choices-Runs r c cs

-- The response is an object, or `null`, and has no choices.
pub record IsWithoutChoices (body : Bytes) : Type 0 where
  pub resp : RawMap
  pub decodes : unmarshal_map body ≡ some resp
  pub missing : get (codes "choices") resp ≡ none

module _ (body : Bytes) (random : ℕ → Bytes) (tools : List Tool) where
  parse_map_lem :
      (resp : RawMap) (c : Option Bytes)
      → get (codes "choices") resp ≡ c
      → ((c ≡ none) × (parse_map body random tools resp ≡ none))
        ⊎ ((raw : Bytes) × (c ≡ some raw) × Runs (parse_map body random tools resp))
  unfolding parse_map
  parse_map_lem resp none e = inl (refl, rw (e, parse_map) (unfold parse_choices in refl))
  parse_map_lem none (some raw) e = unfold get in absurd (ground (arith, e))
  parse_map_lem (some r) (some raw) e =
      let (out, f) = choices_or_body-Runs body random tools r (unmarshal_maps raw) in
      inr (raw, refl, (out, rw (e, parse_map) f))

-- The choices of a decoded body.
choices_of : Option RawMap → Option Bytes
choices_of none = none
choices_of (some resp) = get (codes "choices") resp

IsWithoutChoices-none : (body : Bytes) → unmarshal_map body ≡ none → ¬ IsWithoutChoices body
IsWithoutChoices-none body e w = ground (arith, sym e ∙ w.decodes)

IsWithoutChoices-some :
    (body raw : Bytes) (resp : RawMap)
    → unmarshal_map body ≡ some resp
    → get (codes "choices") resp ≡ some raw
    → ¬ IsWithoutChoices body
unfolding choices_of
IsWithoutChoices-some body raw resp e f w =
    let same : get (codes "choices") resp ≡ get (codes "choices") w.resp =
      ap choices_of (sym e ∙ w.decodes) in
    ground (arith, sym f ∙ same ∙ w.missing)

-- `ParseResponse` panics exactly where the upstream's response is an object without the key
-- `choices`, such as `{"error": "..."}`, or `null`, whatever the tools are; for every other body it
-- returns.
pub parse_response-panics :
    (body : Bytes) (random : ℕ → Bytes) (tools : List Tool)
    → (IsWithoutChoices body × (parse_response body random tools ≡ none))
      ⊎ ((¬ IsWithoutChoices body)
          × ((out : Bytes) × (parse_response body random tools ≡ some out)))
unfolding parse_response
parse_response-panics body random tools = elim (Option-cases (unmarshal_map body)) [
  | inl e ↦ inr (IsWithoutChoices-none body e, (body, rw (e, parse_response) refl))
  | inr (resp, e) ↦ elim (parse_map_lem body random tools resp (get (codes "choices") resp) refl) [
    | inl (missing, f) ↦
        inl (record { resp = resp; decodes = e; missing = missing }, rw (e, parse_response) f)
    | inr (raw, there, (out, f)) ↦
        inr (IsWithoutChoices-some body raw resp e there, (out, rw (e, parse_response) f))
  ]
]
