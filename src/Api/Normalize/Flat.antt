-- ===== src/Api/Normalize/Flat.antt =====
-- What `normalizeMessageContent` makes of a request.
use opengnk.Prelude.{
  Bool, true, false, ◌||◌, List, [], ◌∷◌, ◌++◌, if◌then◌else◌, Option, none, some, ◌≡◌, refl, sym,
  ◌∙◌, ap, ◌⊎◌, inl, inr, All, arith, Bool-cases, Option-cases, ◌>>=◌,
}
use opengnk.Text.{Bytes, codes, equal}
use opengnk.Text.Search.{equal→eq}
use opengnk.Text.Dict.{Dict, insert}
use opengnk.Json.Strings.{marshal_string}
use opengnk.Json.Encode.{marshal_map, marshal_maps, brackets}
use opengnk.Json.Decode.{RawMap, unmarshal_map, unmarshal_maps, unmarshal_string, get, assign}
use opengnk.Api.Normalize.{
  flat_text, string_at, is_text, or_empty, part_text, flatten, flatten_raw, normalize_content,
  normalize_message, normalize_all, put_normal, normalize_list, messages_at,
  normalize_message_content,
}

-- The parts of a content that is no string and not `null`, but an array of objects.
abbrev pub array_parts : Bytes → Option Bytes → Option (List RawMap)
array_parts raw (some text) = none
array_parts raw none = unmarshal_maps raw

abbrev pub parts_at : Option Bytes → Option (List RawMap)
parts_at none = none
parts_at (some raw) = array_parts raw (unmarshal_string raw)

abbrev pub content_parts : RawMap → Option (List RawMap)
content_parts msg = parts_at (get (codes "content") msg)

-- A part of the type `text`, with its text.
pub record IsTextPart (part : RawMap) (text : Bytes) : Type 0 where
  pub type_raw : Bytes
  pub text_raw : Bytes
  pub typed : get (codes "type") part ≡ some type_raw
  pub is_of_text : unmarshal_string type_raw ≡ some (codes "text")
  pub given : get (codes "text") part ≡ some text_raw
  pub reads : unmarshal_string text_raw ≡ some text

-- The texts of the text parts, one behind the other; the other parts add nothing.
pub data IsFlatText : List RawMap → Bytes → Type 0 where
  no_parts : IsFlatText [] []
  text_part :
      {part : RawMap} {parts : List RawMap} {text rest : Bytes}
      → IsTextPart part text
      → IsFlatText parts rest
      → IsFlatText (part ∷ parts) (text ++ rest)
  other_part :
      {part : RawMap} {parts : List RawMap} {rest : Bytes}
      → ((text : Bytes) → ¬ IsTextPart part text)
      → IsFlatText parts rest
      → IsFlatText (part ∷ parts) rest

string_at-some :
    (o : Option Bytes) (text : Bytes)
    → string_at o ≡ some text
    → (raw : Bytes) × (o ≡ some raw) × (unmarshal_string raw ≡ some text)
unfolding string_at
string_at-some none text e = absurd (ground (arith, e))
string_at-some (some raw) text e = (raw, refl, e)

type_of :
    (part : RawMap) (t : Bytes)
    → IsTextPart part t
    → string_at (get (codes "type") part) ≡ some (codes "text")
unfolding string_at
type_of part t w = rw w.typed w.is_of_text

text_of_part :
    (part : RawMap) (t : Bytes) → IsTextPart part t → string_at (get (codes "text") part) ≡ some t
unfolding string_at
text_of_part part t w = rw w.given w.reads

-- What a part adds, from what its type and its text are read as.
abbrev added : Option Bytes → Option Bytes → Bytes
added type text = if is_text type then or_empty text else []

IsTextPart-added :
    (part : RawMap) (parts : List RawMap) (rest : Bytes) (type text : Option Bytes)
    → string_at (get (codes "type") part) ≡ type
    → string_at (get (codes "text") part) ≡ text
    → IsFlatText parts rest
    → IsFlatText (part ∷ parts) (added type text ++ rest)
unfolding is_text or_empty
IsTextPart-added part parts rest none text e f h = other_part (λ t w. no_type t w) h
  where
    no_type : (t : Bytes) → ¬ IsTextPart part t
    no_type t w = ground (arith, sym e ∙ type_of part t w)
IsTextPart-added part parts rest (some type) text e f h =
    elim (Bool-cases (equal type (codes "text"))) [
      | inr g ↦ rw g (other_part (λ t w. other_type g t w) h)
      | inl g ↦ rw g (by_text g text f)
    ]
  where
    other_type : equal type (codes "text") ≡ false → (t : Bytes) → ¬ IsTextPart part t
    other_type g t w =
        let same : equal type (codes "text") ≡ true =
          ap is_text (sym e ∙ type_of part t w) ∙ (unfold equal in refl) in
        ground (arith, g, same)

    by_text :
        equal type (codes "text") ≡ true
        → (o : Option Bytes) → string_at (get (codes "text") part) ≡ o
        → IsFlatText (part ∷ parts) (or_empty o ++ rest)
    by_text g none f' = other_part (λ t w. ground (arith, sym f' ∙ text_of_part part t w)) h
    by_text g (some t) f' =
        let (type_raw, typed, kind) = string_at-some (get (codes "type") part) type e in
        let (text_raw, given, reads) = string_at-some (get (codes "text") part) t f' in
        text_part
          (record {
            type_raw = type_raw;
            text_raw = text_raw;
            typed = typed;
            is_of_text = kind ∙ ap some (equal→eq type (codes "text") g);
            given = given;
            reads = reads;
          })
          h

flat_text-IsFlatText : (parts : List RawMap) → IsFlatText parts (flat_text parts)
unfolding flat_text part_text
flat_text-IsFlatText [] = no_parts
flat_text-IsFlatText (p ∷ ps) =
    IsTextPart-added p ps (flat_text ps) (string_at (get (codes "type") p))
      (string_at (get (codes "text") p)) refl refl (flat_text-IsFlatText ps)

-- A message without parts stays as it is; one with parts has their text as its content.
abbrev pub IsFlatOf : RawMap → RawMap → Type 0
IsFlatOf old new =
    ((content_parts old ≡ none) × (new ≡ old))
    ⊎ ((d : Dict) × (parts : List RawMap) × (text : Bytes) × (old ≡ some d)
        × (content_parts old ≡ some parts)
        × IsFlatText parts text
        × (new ≡ some (insert (codes "content") (marshal_string text) d)))

abbrev pub AreFlatOf : List RawMap → List RawMap → Type 0
AreFlatOf [] [] = Unit
AreFlatOf [] (n ∷ ns) = ⊥
AreFlatOf (m ∷ ms) [] = ⊥
AreFlatOf (m ∷ ms) (n ∷ ns) = IsFlatOf m n × AreFlatOf ms ns

-- A message that is the same is one without parts.
record Flattened (m : RawMap) : Type 0 where
  value : RawMap
  changed : Bool
  returns : normalize_message m ≡ some (value, changed)
  flat : IsFlatOf m value
  kept : changed ≡ false → content_parts m ≡ none

record AllFlattened (ms : List RawMap) : Type 0 where
  values : List RawMap
  changed : Bool
  returns : normalize_all ms ≡ some (values, changed)
  flat : AreFlatOf ms values
  kept : changed ≡ false → All (λ m. content_parts m ≡ none) ms

without_parts :
    (m : RawMap) → content_parts m ≡ none → normalize_message m ≡ some (m, false) → Flattened m
without_parts m e f = record {
  value = m;
  changed = false;
  returns = f;
  flat = inl (e, refl);
  kept = λ _. e;
}

with_parts :
    (d : Dict) (parts : List RawMap)
    → content_parts (some d) ≡ some parts
    → normalize_message (some d)
      ≡ some (some (insert (codes "content") (marshal_string (flat_text parts)) d), true)
    → Flattened (some d)
with_parts d parts e f = record {
  value = some (insert (codes "content") (marshal_string (flat_text parts)) d);
  changed = true;
  returns = f;
  flat = inr (d, parts, flat_text parts, refl, e, flat_text-IsFlatText parts, refl);
  kept = λ h. absurd (ground arith);
}

flattened : (m : RawMap) → Flattened m
flattened none =
    without_parts none (unfold get in refl) (unfold normalize_message normalize_content get in refl)
flattened (some d) = elim (Option-cases (get (codes "content") (some d))) [
  | inl e ↦
      without_parts (some d) (rw e refl) (unfold normalize_message normalize_content in rw e refl)
  | inr (raw, e) ↦ elim (Option-cases (unmarshal_string raw)) [
    | inr (text, f) ↦
        without_parts (some d) (rw (e, f) refl)
          (unfold normalize_message normalize_content flatten_raw in rw (e, f) refl)
    | inl f ↦ elim (Option-cases (unmarshal_maps raw)) [
      | inl g ↦
          without_parts (some d) (rw (e, f, g) refl)
            (unfold normalize_message normalize_content flatten_raw flatten in rw (e, f, g) refl)
      | inr (parts, g) ↦ with_parts d parts (rw (e, f, g) refl) (
          unfold normalize_message normalize_content flatten_raw flatten assign in
          rw (e, f, g) refl)
    ]
  ]
]

normalize_all-AllFlattened : (ms : List RawMap) → AllFlattened ms
unfolding normalize_all
normalize_all-AllFlattened [] = record {
  values = [];
  changed = false;
  returns = refl;
  flat = tt;
  kept = λ _. tt;
}
normalize_all-AllFlattened (m ∷ ms) =
    let first = flattened m in
    let rest = normalize_all-AllFlattened ms in
    record {
      values = first.value ∷ rest.values;
      changed = first.changed || rest.changed;
      returns = rw (first.returns, rest.returns, ◌>>=◌) refl;
      flat = (first.flat, rest.flat);
      kept = λ h. (first.kept (ground arith), rest.kept (ground arith));
    }

-- The request with its messages made flat.
pub record HasFlat (body out : Bytes) : Type 0 where
  pub req : Dict
  pub messages : List RawMap
  pub flat : List RawMap
  pub decodes : unmarshal_map body ≡ some (some req)
  pub found : messages_at (get (codes "messages") (some req)) ≡ some messages
  pub are_flat : AreFlatOf messages flat
  pub encodes :
      out ≡ marshal_map (some (insert (codes "messages") (brackets (marshal_maps flat)) req))

-- There is nothing to make flat: no object, no list of messages, or no message with parts.
abbrev pub IsFlat : Bytes → Type 0
IsFlat body =
    (unmarshal_map body ≡ none)
    ⊎ ((req : RawMap) × (unmarshal_map body ≡ some req)
        × ((messages_at (get (codes "messages") req) ≡ none)
            ⊎ ((messages : List RawMap) × (messages_at (get (codes "messages") req) ≡ some messages)
                × All (λ m. content_parts m ≡ none) messages)))

-- A body behind the step.
abbrev Normalized : Bytes → Option Bytes → Type 0
Normalized body o =
    (out : Bytes) × (o ≡ some out) × ((IsFlat body × (out ≡ body)) ⊎ HasFlat body out)

normalize_list-Normalized :
    (body : Bytes) (req : RawMap) (o : Option (List RawMap))
    → unmarshal_map body ≡ some req
    → messages_at (get (codes "messages") req) ≡ o
    → Normalized body (normalize_list body req o)
unfolding normalize_list
normalize_list-Normalized body req none e f = (body, refl, inl (inr (req, e, inl f), refl))
normalize_list-Normalized body none (some ms) e f =
    unfold get messages_at in absurd (ground (arith, f))
normalize_list-Normalized body (some d) (some ms) e f =
    let all = normalize_all-AllFlattened ms in
    let new : Dict = insert (codes "messages") (brackets (marshal_maps all.values)) d in
    elim (Bool-cases all.changed) [
      | inl c ↦ (
        marshal_map (some new),
        (unfold put_normal assign in rw (all.returns, ◌>>=◌, c) refl),
        inr (record {
          req = d;
          messages = ms;
          flat = all.values;
          decodes = e;
          found = f;
          are_flat = all.flat;
          encodes = refl;
        }),
      )
      | inr c ↦ (
        body,
        (unfold put_normal in rw (all.returns, ◌>>=◌, c) refl),
        inl (inr (some d, e, inr (ms, f, all.kept c)), refl),
      )
    ]

pub normalize_message_content-IsFlat :
    (body : Bytes)
    → (out : Bytes) × (normalize_message_content body ≡ some out)
      × ((IsFlat body × (out ≡ body)) ⊎ HasFlat body out)
unfolding normalize_message_content
normalize_message_content-IsFlat body = elim (Option-cases (unmarshal_map body)) [
  | inl e ↦ (body, rw (e, normalize_message_content) refl, inl (inl e, refl))
  | inr (req, e) ↦
      let (out, f, h) =
        normalize_list-Normalized body req (messages_at (get (codes "messages") req)) e refl in
      (out, rw (e, normalize_message_content) f, h)
]
