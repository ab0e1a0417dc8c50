-- ===== src/Sanitize/Messages.antt =====
-- `Sanitizer.RedactMessages`: the messages of a chat request are redacted one by one.
pub mod Steps
pub mod Redacted
pub mod Walk
pub mod Sent
pub mod Request
pub mod History
use opengnk.Prelude.{
  ℕ, zero, suc, ◌+◌, Bool, true, false, ◌||◌, List, [], ◌∷◌, Option, none, some, ◌==◌,
  if◌then◌else◌, ◌>>=◌,
}
use opengnk.Text.{Bytes, codes, equal}
use opengnk.Json.Strings.{marshal_string}
use opengnk.Json.Encode.{marshal_map, marshal_maps, brackets}
use opengnk.Json.Decode.{RawMap, unmarshal_map, unmarshal_maps, unmarshal_string, get, assign}
use opengnk.Sanitize.Span.{Classifier}
use opengnk.Sanitize.TokenMap.{State, new_token_map}
use opengnk.Sanitize.Redact.{Arrival, redact_text, redact_text_with_ner}

says_user : Option Bytes → Bool
says_user none = false
says_user (some role) = equal role (codes "user")

role_of : Option Bytes → Option Bytes
role_of none = none
role_of (some raw) = unmarshal_string raw

unfoldable pub is_user : RawMap → Bool
unfolding says_user role_of
is_user msg = says_user (role_of (get (codes "role") msg))

-- The index of the last message of the user, counted from `i`.
unfoldable pub last_user_from : ℕ → List RawMap → Option ℕ
last_user_from i [] = none
last_user_from i (m ∷ ms) = elim (last_user_from (i + 1) ms) [
  | some j ↦ some j
  | none ↦ if is_user m then some i else none
]

-- A function that redacts a text: what `redactFn` is. The number tells the texts of a message
-- apart, whose classifiers finish in orders of their own.
abbrev pub Redactor : Type 0
Redactor = ℕ → Bytes → State → Option (Bytes × State)

-- A value behind a step, whether it changed, and the state.
pub record Result {κ} (A : Type κ) : Type κ where
  pub value : A
  pub changed : Bool
  pub state : State

abbrev pub same {κ} : {A : Type κ} → A → State → Result A
same a s = record { value = a; changed = false; state = s }

-- A first value and the ones behind it.
abbrev pub cons_result : Result RawMap → Result (List RawMap) → Result (List RawMap)
cons_result first rest = record {
  value = first.value ∷ rest.value;
  changed = first.changed || rest.changed;
  state = rest.state;
}

-- The value of a key is replaced where the redacted text differs.
unfoldable pub put_text : Bytes → RawMap → Bytes → Bytes × State → Option (Result RawMap)
put_text key m original (redacted, s) = if equal redacted original then some (same m s) else (do
  m' ← assign key (marshal_string redacted) m
  some (record { value = m'; changed = true; state = s }))

unfoldable pub redact_string :
    Redactor → ℕ → Bytes → RawMap → State → Option Bytes → Option (Result RawMap)
redact_string redact j key m s none = some (same m s)
redact_string redact j key m s (some original) = do
  out ← redact j original s
  put_text key m original out

unfoldable pub text_of : Option Bytes → Option Bytes
text_of none = none
text_of (some raw) = unmarshal_string raw

-- A part of a message's content: its text, if it has one.
unfoldable pub redact_part : Redactor → ℕ → RawMap → State → Option (Result RawMap)
unfolding redact_string text_of
redact_part redact j part s =
    redact_string redact j (codes "text") part s (text_of (get (codes "text") part))

unfoldable pub redact_parts : Redactor → ℕ → List RawMap → State → Option (Result (List RawMap))
redact_parts redact j [] s = some (same [] s)
redact_parts redact j (p ∷ ps) s = do
  first ← redact_part redact j p s
  rest ← redact_parts redact (j + 1) ps first.state
  some (cons_result first rest)

-- The parts stand in the message again where one of them changed.
unfoldable pub put_parts : RawMap → Result (List RawMap) → Option (Result RawMap)
put_parts msg r =
    if r.changed
    then (do
      m' ← assign (codes "content") (brackets (marshal_maps r.value)) msg
      some (record { value = m'; changed = true; state = r.state }))
    else some (same msg r.state)

redact_array : Redactor → RawMap → State → Option (List RawMap) → Option (Result RawMap)
redact_array redact msg s none = some (same msg s)
redact_array redact msg s (some parts) = do r ← redact_parts redact 0 parts s; put_parts msg r

redact_content : Redactor → RawMap → State → Bytes → Option Bytes → Option (Result RawMap)
unfolding redact_array
redact_content redact msg s raw (some original) =
    redact_string redact 0 (codes "content") msg s (some original)
redact_content redact msg s raw none = redact_array redact msg s (unmarshal_maps raw)

with_content : Redactor → RawMap → State → Option Bytes → Option (Result RawMap)
unfolding redact_content
with_content redact msg s none = some (same msg s)
with_content redact msg s (some raw) = redact_content redact msg s raw (unmarshal_string raw)

unfoldable pub redact_message : Redactor → RawMap → State → Option (Result RawMap)
unfolding with_content redact_content redact_array redact_string
redact_message redact msg s = with_content redact msg s (get (codes "content") msg)

module _ (redactors : ℕ → Redactor) where
  -- The loop over the messages, from number `i` on.
  unfoldable pub redact_from : ℕ → List RawMap → State → Option (Result (List RawMap))
  redact_from i [] s = some (same [] s)
  redact_from i (m ∷ ms) s = do
    first ← redact_message (redactors i) m s
    rest ← redact_from (i + 1) ms first.state
    some (cons_result first rest)

unfoldable pub is_last : Option ℕ → ℕ → Bool
is_last none i = false
is_last (some j) i = i == j

-- `redactFn` of message `i`: `arrivals` tells in which order the classifiers finish for text `j` of
-- message `i`.
unfoldable pub redactor_of : List Classifier → (ℕ → ℕ → List Arrival) → Option ℕ → ℕ → Redactor
unfolding is_last
redactor_of classifiers arrivals last i j text s =
    if is_last last i
    then redact_text classifiers (arrivals i j) text s
    else redact_text_with_ner classifiers (arrivals i j) text s

-- The request with its messages replaced, where one of them changed.
pub put_messages : Bytes → RawMap → Result (List RawMap) → Option (Bytes × State)
put_messages body req r =
    if r.changed
    then (do
      req' ← assign (codes "messages") (brackets (marshal_maps r.value)) req
      some (marshal_map req', r.state))
    else some (body, r.state)

redact_list :
    List Classifier
    → (ℕ → ℕ → List Arrival)
    → Bytes
    → RawMap
    → State
    → Option (List RawMap)
    → Option (Bytes × State)
unfolding put_messages
redact_list classifiers arrivals body req s none = some (body, s)
redact_list classifiers arrivals body req s (some ms) = do
  r ← redact_from (redactor_of classifiers arrivals (last_user_from 0 ms)) 0 ms s
  put_messages body req r

unfoldable pub messages_of : Option Bytes → Option (List RawMap)
messages_of none = none
messages_of (some raw) = unmarshal_maps raw

-- `RedactMessages`, with the value of `globalCounter`. The encoder does not fail on what the
-- decoder has read.
unfoldable pub redact_messages :
    List Classifier → (ℕ → ℕ → List Arrival) → Bytes → ℕ → Option (Bytes × State)
unfolding redact_list put_messages messages_of
redact_messages classifiers arrivals body counter =
    let s : State = record { counter = counter; map = new_token_map } in
    elim (unmarshal_map body) [
      | none ↦ redact_text classifiers (arrivals 0 0) body s
      | some req ↦
          redact_list classifiers arrivals body req s (messages_of (get (codes "messages") req))
    ]
