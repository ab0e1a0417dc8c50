-- ===== src/Sanitize/Messages/Walk.antt =====
-- The messages of a request, one after the other.
use mathlib.Core.Path.{subst}
use opengnk.Prelude.{
  ℕ, ◌+◌, ◌^◌, ◌≤◌, ◌<◌, true, false, List, [], ◌∷◌, Option, none, some, ◌≡◌, refl, sym, ◌∙◌, ap,
  inl, inr, arith, Bool-cases, ◌>>=◌,
}
use opengnk.Text.{Bytes, codes}
use opengnk.Text.Dict.{Dict, insert}
use opengnk.Json.Encode.{marshal_maps, brackets}
use opengnk.Json.Decode.{RawMap, unmarshal_string, unmarshal_maps, get, assign}
use opengnk.Sanitize.TokenMap.{State}
use opengnk.Sanitize.TokenMap.Invariant.{IsValid}
use opengnk.Sanitize.Messages.{
  Redactor, Result, same, redact_parts, put_parts, redact_array, text_of, redact_content,
  with_content, redact_message, redact_from,
}
use opengnk.Sanitize.Messages.Steps.{
  Ran, Ran-same, true≢false, IsReplaced, IsRedactedAt, IsRedactor, redact_string-Ran,
}
use opengnk.Sanitize.Messages.Redacted.{
  Pointwise, RedactedParts, times, HasNoText, Ran-cons, redact_parts-Ran, IsRedactedMessage,
  IsRedactedMessage-later,
}

-- How many new tokens a message may need, when a text needs `bound`.
abbrev cost_of_parts : ℕ → Option (List RawMap) → ℕ
cost_of_parts bound none = 0
cost_of_parts bound (some parts) = times bound parts

abbrev cost_of_raw : ℕ → Option Bytes → ℕ
cost_of_raw bound none = 0
cost_of_raw bound (some raw) = bound + cost_of_parts bound (unmarshal_maps raw)

abbrev pub cost : ℕ → List RawMap → ℕ
cost bound [] = 0
cost bound (m ∷ ms) = cost_of_raw bound (get (codes "content") m) + cost bound ms

Ran-weaken :
    {A : Type 0} (n k : ℕ) (s : State) (b : A) (P Q : State → A → Type 0) (o : Option (Result A))
    → n ≤ k
    → ((t : State) (a : A) → P t a → Q t a)
    → Ran n s b P o
    → Ran k s b Q o
Ran-weaken n k s b P Q o h f r = record {
  result = r.result;
  returns = r.returns;
  valid = r.valid;
  later = r.later;
  slow = omega (arith, r.slow);
  holds = f r.result.state r.result.value r.holds;
  stays = r.stays;
}

put_parts-same :
    (m : RawMap) (r : Result (List RawMap))
    → r.changed ≡ false
    → put_parts m r ≡ some (same m r.state)
unfolding put_parts
put_parts-same m r e = rw (e, put_parts) refl

put_parts-new :
    (d : Dict) (r : Result (List RawMap))
    → r.changed ≡ true
    → put_parts (some d) r
      ≡ some (record {
        value = some (insert (codes "content") (brackets (marshal_maps r.value)) d);
        changed = true;
        state = r.state;
      })
unfolding put_parts assign
put_parts-new d r e = rw (e, put_parts) refl

put_parts-Ran :
    (G : ℕ → Bytes → Bytes → Type 0) (n : ℕ) (s : State) (d : Dict) (raw : Bytes)
    (parts : List RawMap) (o : Option (Result (List RawMap)))
    → get (codes "content") (some d) ≡ some raw
    → unmarshal_maps raw ≡ some parts
    → Ran n s parts (RedactedParts G 0 parts) o
    → Ran n s (some d) (IsRedactedMessage G (some d)) (o >>= put_parts (some d))
put_parts-Ran G n s d raw parts o found decodes r = elim (Bool-cases r.result.changed) [
  | inr e ↦ record {
    result = same (some d) r.result.state;
    returns = rw (r.returns, ◌>>=◌) (put_parts-same (some d) r.result e);
    valid = r.valid;
    later = r.later;
    slow = r.slow;
    holds = inr (
        inr (record {
          raw = raw;
          parts = parts;
          redacted = r.result.value;
          found = found;
          decodes = decodes;
          hides = r.holds;
          put = inl (r.stays e, refl);
        }));
    stays = λ c. refl;
  }
  | inl e ↦ record {
    result = record {
      value = some (insert (codes "content") (brackets (marshal_maps r.result.value)) d);
      changed = true;
      state = r.result.state;
    };
    returns = rw (r.returns, ◌>>=◌) (put_parts-new d r.result e);
    valid = r.valid;
    later = r.later;
    slow = r.slow;
    holds = inr (
        inr (record {
          raw = raw;
          parts = parts;
          redacted = r.result.value;
          found = found;
          decodes = decodes;
          hides = r.holds;
          put = inr (unfold assign in refl);
        }));
    stays = λ c. absurd (true≢false c);
  }
]

HasNoText-found :
    (o : Option Bytes) (raw : Bytes)
    → o ≡ some raw
    → unmarshal_string raw ≡ none
    → unmarshal_maps raw ≡ none
    → HasNoText o
HasNoText-found o raw found e f = subst HasNoText (sym found) (e, f)

HasNoText-absent : (o : Option Bytes) → o ≡ none → HasNoText o
HasNoText-absent o e = subst HasNoText (sym e) tt

IsRedactedAt-some :
    (G : Bytes → Bytes → Type 0) (m n : RawMap) (s : State) (original : Bytes)
    → text_of (get (codes "content") m) ≡ some original
    → IsRedactedAt G (codes "content") m s n
    → IsReplaced G s (codes "content") m n
IsRedactedAt-some G m n s original e (inl (f, _)) = absurd (none_some (sym f ∙ e))
  where
    none_some : ◌≡◌ {A = Option Bytes} none (some original) → ⊥
    none_some h = ground (arith, h)
IsRedactedAt-some G m n s original e (inr h) = h

redact_array-Ran :
    (G : ℕ → Bytes → Bytes → Type 0) (redact : Redactor) (bound : ℕ) (d : Dict) (s : State)
    (raw : Bytes) (o : Option (List RawMap))
    → IsRedactor G redact bound
    → get (codes "content") (some d) ≡ some raw
    → unmarshal_string raw ≡ none
    → unmarshal_maps raw ≡ o
    → IsValid s
    → s.counter + cost_of_parts bound o < 2 ^ 64
    → Ran
        (cost_of_parts bound o)
        s
        (some d)
        (IsRedactedMessage G (some d))
        (redact_array redact (some d) s o)
unfolding redact_array
redact_array-Ran G redact bound d s raw none good found no_text decodes v room =
    Ran-same 0 s (IsRedactedMessage G (some d)) (some d) v
      (inl (HasNoText-found (get (codes "content") (some d)) raw found no_text decodes, refl))
redact_array-Ran G redact bound d s raw (some parts) good found no_text decodes v room =
    put_parts-Ran G (times bound parts) s d raw parts (redact_parts redact 0 parts s) found decodes
      (redact_parts-Ran G redact bound 0 parts s good v room)

redact_content-Ran :
    (G : ℕ → Bytes → Bytes → Type 0) (redact : Redactor) (bound : ℕ) (d : Dict) (s : State)
    (raw : Bytes) (o : Option Bytes)
    → IsRedactor G redact bound
    → get (codes "content") (some d) ≡ some raw
    → unmarshal_string raw ≡ o
    → IsValid s
    → s.counter + cost_of_raw bound (some raw) < 2 ^ 64
    → Ran
        (cost_of_raw bound (some raw))
        s
        (some d)
        (IsRedactedMessage G (some d))
        (redact_content redact (some d) s raw o)
unfolding redact_content
redact_content-Ran G redact bound d s raw none good found e v room =
    Ran-weaken (cost_of_parts bound (unmarshal_maps raw)) (cost_of_raw bound (some raw)) s (some d)
      (IsRedactedMessage G (some d)) (IsRedactedMessage G (some d)) _ (omega arith) (λ t a h. h)
      (redact_array-Ran G redact bound d s raw (unmarshal_maps raw) good found e refl v
        (omega arith))
redact_content-Ran G redact bound d s raw (some original) good found e v room =
    Ran-weaken bound (cost_of_raw bound (some raw)) s (some d)
      (IsRedactedAt (G 0) (codes "content") (some d)) (IsRedactedMessage G (some d)) _ (omega arith)
      (λ t a h. inr (
        inl (
          IsRedactedAt-some (G 0) (some d) a t original (ap text_of found ∙ (unfold text_of in e))
            h)))
      (redact_string-Ran G redact bound 0 (codes "content") (some d) s (some original) good
        (ap text_of found ∙ (unfold text_of in e)) v (omega arith))

with_content-Ran :
    (G : ℕ → Bytes → Bytes → Type 0) (redact : Redactor) (bound : ℕ) (m : RawMap) (s : State)
    (o : Option Bytes)
    → IsRedactor G redact bound
    → get (codes "content") m ≡ o
    → IsValid s
    → s.counter + cost_of_raw bound o < 2 ^ 64
    → Ran (cost_of_raw bound o) s m (IsRedactedMessage G m) (with_content redact m s o)
unfolding with_content
with_content-Ran G redact bound m s none good found v room =
    Ran-same 0 s (IsRedactedMessage G m) m v
      (inl (HasNoText-absent (get (codes "content") m) found, refl))
with_content-Ran G redact bound none s (some raw) good found v room =
    unfold get in absurd (ground (arith, found))
with_content-Ran G redact bound (some d) s (some raw) good found v room =
    redact_content-Ran G redact bound d s raw (unmarshal_string raw) good found refl v room

redact_message-Ran :
    (G : ℕ → Bytes → Bytes → Type 0) (redact : Redactor) (bound : ℕ) (m : RawMap) (s : State)
    → IsRedactor G redact bound
    → IsValid s
    → s.counter + cost_of_raw bound (get (codes "content") m) < 2 ^ 64
    → Ran
        (cost_of_raw bound (get (codes "content") m))
        s
        m
        (IsRedactedMessage G m)
        (redact_message redact m s)
unfolding redact_message
redact_message-Ran G redact bound m s good v room =
    with_content-Ran G redact bound m s (get (codes "content") m) good refl v room

-- `G i j` is about text `j` of message `i`.
abbrev pub RedactedMessages :
    (ℕ → ℕ → Bytes → Bytes → Type 0) → ℕ → List RawMap → State → List RawMap → Type 0
RedactedMessages G i ms s ns = Pointwise (λ k m n. IsRedactedMessage (G k) m s n) i ms ns

pub redact_from-Ran :
    (G : ℕ → ℕ → Bytes → Bytes → Type 0) (redactors : ℕ → Redactor) (bound : ℕ) (i : ℕ)
    (ms : List RawMap) (s : State)
    → ((k : ℕ) → IsRedactor (G k) (redactors k) bound)
    → IsValid s
    → s.counter + cost bound ms < 2 ^ 64
    → Ran (cost bound ms) s ms (RedactedMessages G i ms) (redact_from redactors i ms s)
unfolding redact_from
redact_from-Ran G redactors bound i [] s good v room =
    Ran-same 0 s (RedactedMessages G i []) [] v tt
redact_from-Ran G redactors bound i (m ∷ ms) s good v room =
    Ran-cons (λ k. IsRedactedMessage (G k)) (λ k. IsRedactedMessage-later (G k)) i
      (cost_of_raw bound (get (codes "content") m)) (cost bound ms) s m ms
      (redact_message (redactors i) m s) (redact_from redactors (i + 1) ms)
      (redact_message-Ran (G i) (redactors i) bound m s (good i) v (omega arith))
      (λ t w low. redact_from-Ran G redactors bound (i + 1) ms t good w (omega arith))
