-- ===== src/ToolSim/Request/Forwarded.antt =====
-- What `RewriteRequest` sends on.
use opengnk.Prelude.{
  ◌<◌, length, false, List, [], ◌∷◌, Option, none, some, ◌≡◌, refl, sym, ◌∙◌, ap, ◌⊎◌, inl, inr,
  arith, Bool-cases, Option-cases, ◌>>=◌,
}
use opengnk.Text.{Bytes, codes, equal}
use opengnk.Text.Search.{equal→eq}
use opengnk.Text.Dict.{Dict, lookup, insert, lookup-insert_self, lookup-insert_ne}
use opengnk.Json.Decode.{RawMap, get, assign, unmarshal_map}
use opengnk.Json.Strings.{marshal_string}
use opengnk.Json.Encode.{marshal_map}
use opengnk.ToolSim.{Tool, Message, unmarshal_all, decode_tool, decode_message}
use opengnk.ToolSim.Request.{
  remove, delete, decoded_or, inject_system_prompt, build_system_prompt, build_tool_description,
  choice_of, stream_of, marshal_messages, forwarded, Rewrite, failed, unchanged, rewritten,
  rewrite_with, rewrite_request,
}

pub lookup-remove_self : (k : Bytes) (m : Dict) → lookup k (remove k m) ≡ none
unfolding lookup remove
lookup-remove_self k [] = refl
lookup-remove_self k ((j, v) ∷ m) = ground (arith, lookup-remove_self k m)

pub lookup-remove_ne :
    (k i : Bytes) (m : Dict) → equal k i ≡ false → lookup i (remove k m) ≡ lookup i m
unfolding lookup remove
lookup-remove_ne k i [] h = refl
lookup-remove_ne k i ((j, v) ∷ m) h = elim (Bool-cases (equal j k)) [
  | inl e ↦
      rw e (lookup-remove_ne k i m h ∙ sym (rw (ap (λ x. equal x i) (equal→eq j k e) ∙ h) refl))
  | inr e ↦ rw e (ground (arith, lookup-remove_ne k i m h))
]

-- A message of the system, with this prompt.
abbrev pub system_message : Bytes → Message
system_message prompt = record {
  role = codes "system";
  content = marshal_string prompt;
  name = [];
  tool_calls = [];
  tool_call_id = [];
}

-- The map that is sent on: without the tools, not as a stream, with the prompt in front of the
-- messages, and otherwise as it came.
pub record IsForwarded (raw : RawMap) (messages : List Message) (tools : List Tool) (sent : Dict)
    : Type 0 where
  pub no_tools : lookup (codes "tools") sent ≡ none
  pub no_choice : lookup (codes "tool_choice") sent ≡ none
  pub not_streamed : lookup (codes "stream") sent ≡ some (codes "false")
  pub prompted :
      lookup (codes "messages") sent
      ≡ some (
          marshal_messages (
            system_message (
              build_system_prompt
                (build_tool_description tools)
                (choice_of (get (codes "tool_choice") raw) tools))
            ∷ messages))
  pub others :
      (k : Bytes)
      → equal (codes "tools") k ≡ false
      → equal (codes "tool_choice") k ≡ false
      → equal (codes "stream") k ≡ false
      → equal (codes "messages") k ≡ false
      → lookup k sent ≡ get k raw

-- The dictionary that `forwarded` builds.
abbrev built : Dict → Bytes → Dict
built m text =
    insert (codes "stream") (codes "false")
      (remove (codes "tool_choice") (remove (codes "tools") (insert (codes "messages") text m)))

lookup-built :
    (m : Dict) (text k : Bytes)
    → equal (codes "tools") k ≡ false
    → equal (codes "tool_choice") k ≡ false
    → equal (codes "stream") k ≡ false
    → lookup k (built m text) ≡ lookup k (insert (codes "messages") text m)
lookup-built m text k a b c =
    lookup-insert_ne (codes "stream") (codes "false") k _ c
    ∙ lookup-remove_ne (codes "tool_choice") k _ b
    ∙ lookup-remove_ne (codes "tools") k _ a

forwarded-IsForwarded :
    (m : Dict) (messages : List Message) (tools : List Tool)
    → (sent : Dict) × (forwarded (some m) messages tools ≡ some (some sent))
      × IsForwarded (some m) messages tools sent
unfolding forwarded assign delete inject_system_prompt
forwarded-IsForwarded m messages tools =
    let text : Bytes = marshal_messages (
      inject_system_prompt messages (
        build_system_prompt (build_tool_description tools)
          (choice_of (get (codes "tool_choice") (some m)) tools))) in
    (
      built m text,
      refl,
      record {
        no_tools =
            lookup-insert_ne (codes "stream") (codes "false") (codes "tools") _
              (unfold equal in refl)
            ∙ lookup-remove_ne (codes "tool_choice") (codes "tools") _ (unfold equal in refl)
            ∙ lookup-remove_self (codes "tools") _;
        no_choice =
            lookup-insert_ne (codes "stream") (codes "false") (codes "tool_choice") _
              (unfold equal in refl)
            ∙ lookup-remove_self (codes "tool_choice") _;
        not_streamed = lookup-insert_self (codes "stream") (codes "false") _;
        prompted =
            lookup-built m text (codes "messages") (unfold equal in refl) (unfold equal in refl)
              (unfold equal in refl)
            ∙ lookup-insert_self (codes "messages") text m;
        others = λ k a b c d.
            lookup-built m text k a b c
            ∙ lookup-insert_ne (codes "messages") text k m d
            ∙ (unfold get in refl);
      },
    )

abbrev pub tools_in : RawMap → Option (List Tool)
tools_in raw = decoded_or [] (unmarshal_all decode_tool) (get (codes "tools") raw)

abbrev pub messages_in : RawMap → Option (List Message)
messages_in raw = decoded_or [] (unmarshal_all decode_message) (get (codes "messages") raw)

-- What a rewriting means: the body or its tools do not decode, or there are tools and the messages
-- do not; there are no tools; or
-- the new body is the encoding of the map that is to be sent, with the tools and the flag of the
-- old one.
abbrev pub IsRewrite : Bytes → Rewrite → Type 0
IsRewrite body failed =
    (unmarshal_map body ≡ none)
    ⊎ ((raw : RawMap) × (unmarshal_map body ≡ some raw)
        × ((tools_in raw ≡ none)
            ⊎ ((tools : List Tool) × (tools_in raw ≡ some tools)
                × (0 < length tools)
                × (messages_in raw ≡ none))))
IsRewrite body unchanged =
    (raw : RawMap) × (unmarshal_map body ≡ some raw) × (tools_in raw ≡ some [])
IsRewrite body (rewritten out tools stream) =
    (m sent : Dict) × (messages : List Message) × (unmarshal_map body ≡ some (some m))
    × (tools_in (some m) ≡ some tools)
    × (0 < length tools)
    × (messages_in (some m) ≡ some messages)
    × (out ≡ marshal_map (some sent))
    × (stream ≡ stream_of (get (codes "stream") (some m)))
    × IsForwarded (some m) messages tools sent

rewrite_with-IsRewrite :
    (body : Bytes) (raw : RawMap) (tools : List Tool)
    → unmarshal_map body ≡ some raw
    → tools_in raw ≡ some tools
    → (r : Rewrite) × (rewrite_with raw tools ≡ some r) × IsRewrite body r
unfolding rewrite_with
rewrite_with-IsRewrite body raw [] e t = (unchanged, refl, (raw, e, t))
rewrite_with-IsRewrite body none (x ∷ xs) e t = absurd (no_tools t)
  where
    no_tools : tools_in none ≡ some (x ∷ xs) → ⊥
    no_tools h = unfold decoded_or get in ground (arith, h)
rewrite_with-IsRewrite body (some m) (x ∷ xs) e t = elim (Option-cases (messages_in (some m))) [
  | inl f ↦ (failed, rw (f, rewrite_with) refl, inr (some m, e, inr (x ∷ xs, t, omega arith, f)))
  | inr (messages, f) ↦
      let (sent, g, h) = forwarded-IsForwarded m messages (x ∷ xs) in
      (
        rewritten (marshal_map (some sent)) (x ∷ xs) (stream_of (get (codes "stream") (some m))),
        rw (f, g, rewrite_with, ◌>>=◌) refl,
        (m, sent, messages, e, t, omega arith, f, refl, refl, h),
      )
]

-- `RewriteRequest` never panics. It fails where the body or its tools do not decode, or there are
-- tools and the messages do not decode, and nowhere else. It leaves a body without tools as it is, and otherwise sends the request on without `tools`
-- and `tool_choice`, with `stream` off, with a message of the system in front of the messages,
-- which has the prompt for the tools, and with all other keys as they were.
pub rewrite_request-IsRewrite :
    (body : Bytes) → (r : Rewrite) × (rewrite_request body ≡ some r) × IsRewrite body r
unfolding rewrite_request
rewrite_request-IsRewrite body = elim (Option-cases (unmarshal_map body)) [
  | inl e ↦ (failed, rw (e, rewrite_request) refl, inl e)
  | inr (raw, e) ↦ elim (Option-cases (tools_in raw)) [
    | inl t ↦ (failed, rw (e, t, rewrite_request) refl, inr (raw, e, inl t))
    | inr (tools, t) ↦
        let (r, f, h) = rewrite_with-IsRewrite body raw tools e t in
        (r, rw (e, t, rewrite_request) f, h)
  ]
]
