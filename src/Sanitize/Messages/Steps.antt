-- ===== src/Sanitize/Messages/Steps.antt =====
-- One text of a message: it is replaced by a redaction of it, or left.
use opengnk.Prelude.{
  ℕ, ◌+◌, ◌^◌, ◌≤◌, ◌<◌, Bool, true, false, Option, none, some, ◌≡◌, refl, ◌∙◌, ◌⊎◌, inl, inr,
  arith, Bool-cases, ◌>>=◌,
}
use opengnk.Text.{Bytes, codes, equal}
use opengnk.Text.Dict.{Dict, insert}
use opengnk.Text.Search.{equal→eq}
use opengnk.Json.Strings.{marshal_string}
use opengnk.Json.Decode.{RawMap, unmarshal_string, get, assign}
use opengnk.Sanitize.TokenMap.{State}
use opengnk.Sanitize.TokenMap.Invariant.{IsValid, IsRegistered}
use opengnk.Sanitize.TokenMap.Pieces.{AllMarks-map}
use opengnk.Sanitize.Redact.Loop.{Redacts, IsRedaction, Stands}
use opengnk.Sanitize.Messages.{
  Redactor, Result, same, put_text, redact_string, text_of, redact_part,
}

-- A later state has issued more tokens, and the old ones mean what they meant.
pub record IsLater (s t : State) : Type 0 where
  pub grows : s.counter ≤ t.counter
  pub keeps :
      (o tok : Bytes)
      → IsRegistered s.map.from_token s.counter o tok
      → IsRegistered t.map.from_token t.counter o tok

pub IsLater-refl : (s : State) → IsLater s s
IsLater-refl s = record { grows = omega arith; keeps = λ o tok r. r }

pub IsLater-trans : (s t u : State) → IsLater s t → IsLater t u → IsLater s u
IsLater-trans s t u a b = record {
  grows = omega (arith, a.grows, b.grows);
  keeps = λ o tok r. b.keeps o tok (a.keeps o tok r);
}

pub IsRedaction-later :
    (original text : Bytes) (s t : State)
    → IsLater s t
    → IsRedaction original s text
    → IsRedaction original t text
IsRedaction-later original text s t later r = record {
  pieces = r.pieces;
  reads = r.reads;
  hides = r.hides;
  stand =
      AllMarks-map (Stands s) (Stands t) r.pieces
        (λ k o h. (later.keeps o _ h.0, omega (arith, h.1, later.grows))) r.stand;
}

-- A step on `old` that returns, within so many new tokens, with a value as wanted; it is the old one
-- where nothing has changed.
pub record Ran {A : Type 0} (rounds : ℕ) (s : State) (old : A) (P : State → A → Type 0)
    (out : Option (Result A)) : Type 0 where
  pub result : Result A
  pub returns : out ≡ some result
  pub valid : IsValid result.state
  pub later : IsLater s result.state
  pub slow : result.state.counter ≤ s.counter + rounds
  pub holds : P result.state result.value
  pub stays : result.changed ≡ false → result.value ≡ old

-- The value of the key is a text, and the new map has a redaction of it in its place, one that `G`
-- admits; the map is as it was where the redaction is the text itself.
pub record IsReplaced (G : Bytes → Bytes → Type 0) (s : State) (key : Bytes) (old new : RawMap)
    : Type 0 where
  pub raw : Bytes
  pub original : Bytes
  pub redacted : Bytes
  pub found : get key old ≡ some raw
  pub decodes : unmarshal_string raw ≡ some original
  pub hides : IsRedaction original s redacted
  pub gives : G original redacted
  pub put :
      ((redacted ≡ original) × (new ≡ old)) ⊎ (assign key (marshal_string redacted) old ≡ some new)

-- The map has no text at the key and is as it was, or its text is redacted.
abbrev pub IsRedactedAt : (Bytes → Bytes → Type 0) → Bytes → RawMap → State → RawMap → Type 0
IsRedactedAt G key old s new =
    ((text_of (get key old) ≡ none) × (new ≡ old)) ⊎ IsReplaced G s key old new

pub IsReplaced-later :
    (G : Bytes → Bytes → Type 0) (key : Bytes) (old new : RawMap) (s t : State)
    → IsLater s t
    → IsReplaced G s key old new
    → IsReplaced G t key old new
IsReplaced-later G key old new s t later r = record {
  raw = r.raw;
  original = r.original;
  redacted = r.redacted;
  found = r.found;
  decodes = r.decodes;
  hides = IsRedaction-later r.original r.redacted s t later r.hides;
  gives = r.gives;
  put = r.put;
}

pub IsRedactedAt-later :
    (G : Bytes → Bytes → Type 0) (key : Bytes) (old new : RawMap) (s t : State)
    → IsLater s t
    → IsRedactedAt G key old s new
    → IsRedactedAt G key old t new
IsRedactedAt-later G key old new s t later (inl e) = inl e
IsRedactedAt-later G key old new s t later (inr r) =
    inr (IsReplaced-later G key old new s t later r)

pub Ran-same :
    {A : Type 0} (rounds : ℕ) (s : State) (P : State → A → Type 0) (a : A)
    → IsValid s
    → P s a
    → Ran rounds s a P (some (same a s))
Ran-same rounds s P a v h = record {
  result = same a s;
  returns = refl;
  valid = v;
  later = IsLater-refl s;
  slow = omega arith;
  holds = h;
  stays = λ e. refl;
}

module _ (G : ℕ → Bytes → Bytes → Type 0) (redact : Redactor) (bound : ℕ) where
  -- A function that redacts every text with at most `bound` new tokens, as `G` admits.
  abbrev pub IsRedactor : Type 0
  IsRedactor =
      (j : ℕ) (text : Bytes) (s : State)
      → IsValid s
      → s.counter + bound < 2 ^ 64
      → (r : Redacts text bound s (redact j text s)) × G j text r.text

pub true≢false : ◌≡◌ {A = Bool} true false → ⊥
true≢false e = ground (arith, e)

text_of-some :
    (o : Option Bytes) (original : Bytes)
    → text_of o ≡ some original
    → (raw : Bytes) × (o ≡ some raw) × (unmarshal_string raw ≡ some original)
unfolding text_of
text_of-some none original e = absurd (ground (arith, e))
text_of-some (some raw) original e = (raw, refl, e)

put_text-same :
    (key : Bytes) (m : RawMap) (original redacted : Bytes) (t : State)
    → equal redacted original ≡ true
    → put_text key m original (redacted, t) ≡ some (same m t)
unfolding put_text
put_text-same key m original redacted t e = rw (e, put_text) refl

put_text-new :
    (key : Bytes) (d : Dict) (original redacted : Bytes) (t : State)
    → equal redacted original ≡ false
    → put_text key (some d) original (redacted, t)
      ≡ some (record {
        value = some (insert key (marshal_string redacted) d);
        changed = true;
        state = t;
      })
unfolding put_text assign
put_text-new key d original redacted t e = rw (e, put_text) refl

put_text-Ran :
    (G : Bytes → Bytes → Type 0) (bound : ℕ) (s : State) (key raw original : Bytes) (d : Dict)
    (redacted : Bytes) (t : State)
    → get key (some d) ≡ some raw
    → unmarshal_string raw ≡ some original
    → IsRedaction original t redacted
    → G original redacted
    → IsValid t
    → IsLater s t
    → t.counter ≤ s.counter + bound
    → Ran bound s
        (some d)
        (IsRedactedAt G key (some d))
        (put_text key (some d) original (redacted, t))
put_text-Ran G bound s key raw original d redacted t found decodes hides gives v later slow =
    elim (Bool-cases (equal redacted original)) [
      | inl e ↦ record {
        result = same (some d) t;
        returns = put_text-same key (some d) original redacted t e;
        valid = v;
        later = later;
        slow = slow;
        holds = inr (record {
          raw = raw;
          original = original;
          redacted = redacted;
          found = found;
          decodes = decodes;
          hides = hides;
          gives = gives;
          put = inl (equal→eq redacted original e, refl);
        });
        stays = λ c. refl;
      }
      | inr e ↦ record {
        result = record {
          value = some (insert key (marshal_string redacted) d);
          changed = true;
          state = t;
        };
        returns = put_text-new key d original redacted t e;
        valid = v;
        later = later;
        slow = slow;
        holds = inr (record {
          raw = raw;
          original = original;
          redacted = redacted;
          found = found;
          decodes = decodes;
          hides = hides;
          gives = gives;
          put = inr (unfold assign in refl);
        });
        stays = λ c. absurd (true≢false c);
      }
    ]

pub Ran-transport :
    {A : Type 0} (rounds : ℕ) (s : State) (a : A) (P : State → A → Type 0)
    (o o' : Option (Result A))
    → o' ≡ o
    → Ran rounds s a P o
    → Ran rounds s a P o'
Ran-transport rounds s a P o o' e r = record {
  result = r.result;
  returns = e ∙ r.returns;
  valid = r.valid;
  later = r.later;
  slow = r.slow;
  holds = r.holds;
  stays = r.stays;
}

redact_string-bind :
    (redact : Redactor) (j : ℕ) (key : Bytes) (m : RawMap) (s t : State) (original redacted : Bytes)
    → redact j original s ≡ some (redacted, t)
    → redact_string redact j key m s (some original) ≡ put_text key m original (redacted, t)
unfolding redact_string
redact_string-bind redact j key m s t original redacted e = rw (e, redact_string, ◌>>=◌) refl

pub redact_string-Ran :
    (G : ℕ → Bytes → Bytes → Type 0) (redact : Redactor) (bound : ℕ) (j : ℕ) (key : Bytes)
    (m : RawMap) (s : State) (o : Option Bytes)
    → IsRedactor G redact bound
    → text_of (get key m) ≡ o
    → IsValid s
    → s.counter + bound < 2 ^ 64
    → Ran bound s m (IsRedactedAt (G j) key m) (redact_string redact j key m s o)
redact_string-Ran G redact bound j key m s none good e v room =
    unfold redact_string in Ran-same bound s (IsRedactedAt (G j) key m) m v (inl (e, refl))
redact_string-Ran G redact bound j key none s (some original) good e v room =
    let (raw, found, decodes) = text_of-some (get key none) original e in
    unfold get in absurd (ground (arith, found))
redact_string-Ran G redact bound j key (some d) s (some original) good e v room =
    let (raw, found, decodes) = text_of-some (get key (some d)) original e in
    let (r, gives) = good j original s v room in
    Ran-transport bound s (some d) (IsRedactedAt (G j) key (some d)) _ _
      (redact_string-bind redact j key (some d) s r.state original r.text r.returns)
      (put_text-Ran (G j) bound s key raw original d r.text r.state found decodes r.redaction gives
        r.valid (record { grows = r.grows; keeps = r.keeps }) r.slow)

pub redact_part-Ran :
    (G : ℕ → Bytes → Bytes → Type 0) (redact : Redactor) (bound : ℕ) (j : ℕ) (part : RawMap)
    (s : State)
    → IsRedactor G redact bound
    → IsValid s
    → s.counter + bound < 2 ^ 64
    → Ran bound s part (IsRedactedAt (G j) (codes "text") part) (redact_part redact j part s)
unfolding redact_part
redact_part-Ran G redact bound j part s good v room =
    redact_string-Ran G redact bound j (codes "text") part s (text_of (get (codes "text") part))
      good refl v room
