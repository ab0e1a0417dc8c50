-- ===== src/Sanitize/Messages/Redacted.antt =====
-- What a redacted message is, and the parts of a message, one after the other.
use opengnk.Prelude.{
  Bool, false, ◌||◌, none, ◌∙◌, ap, ℕ, ◌+◌, ◌^◌, ◌≤◌, ◌<◌, List, [], ◌∷◌, Option, some, ◌≡◌, refl,
  ◌⊎◌, inl, inr, arith, ◌>>=◌,
}
use opengnk.Text.{Bytes, codes}
use opengnk.Json.Encode.{marshal_maps, brackets}
use opengnk.Json.Decode.{RawMap, unmarshal_maps, unmarshal_string, get, assign}
use opengnk.Sanitize.TokenMap.{State}
use opengnk.Sanitize.TokenMap.Invariant.{IsValid}
use opengnk.Sanitize.Messages.{Redactor, Result, cons_result, redact_part, redact_parts}
use opengnk.Sanitize.Messages.Steps.{
  IsLater, IsLater-trans, Ran, Ran-same, IsReplaced, IsReplaced-later, IsRedactedAt,
  IsRedactedAt-later, IsRedactor, redact_part-Ran,
}

-- Two lists of one length, related item by item; the first items have the number `i`.
abbrev pub Pointwise : (ℕ → RawMap → RawMap → Type 0) → ℕ → List RawMap → List RawMap → Type 0
Pointwise R i [] [] = Unit
Pointwise R i [] (y ∷ ys) = ⊥
Pointwise R i (x ∷ xs) [] = ⊥
Pointwise R i (x ∷ xs) (y ∷ ys) = R i x y × Pointwise R (i + 1) xs ys

pub Pointwise-map :
    (R S : ℕ → RawMap → RawMap → Type 0) (i : ℕ) (xs ys : List RawMap)
    → ((k : ℕ) (x y : RawMap) → R k x y → S k x y)
    → Pointwise R i xs ys
    → Pointwise S i xs ys
Pointwise-map R S i [] [] f h = tt
Pointwise-map R S i [] (y ∷ ys) f h = h
Pointwise-map R S i (x ∷ xs) [] f h = h
Pointwise-map R S i (x ∷ xs) (y ∷ ys) f h = (f i x y h.0, Pointwise-map R S (i + 1) xs ys f h.1)

-- `G j` is about the text of part `j`.
abbrev pub RedactedParts :
    (ℕ → Bytes → Bytes → Type 0) → ℕ → List RawMap → State → List RawMap → Type 0
RedactedParts G j ps s qs = Pointwise (λ k p q. IsRedactedAt (G k) (codes "text") p s q) j ps qs

-- `bound` for each item.
abbrev pub times : ℕ → List RawMap → ℕ
times bound [] = 0
times bound (p ∷ ps) = bound + times bound ps

or-false : (a b : Bool) → (a || b) ≡ false → (a ≡ false) × (b ≡ false)
or-false a b e = ground (arith, e)

-- A first item and the ones behind it, on the state that the first leaves.
pub Ran-cons :
    (F : ℕ → RawMap → State → RawMap → Type 0)
    → ((k : ℕ) (p q : RawMap) (s t : State) → IsLater s t → F k p s q → F k p t q)
    → (i n k : ℕ) (s : State) (p : RawMap) (ps : List RawMap) (first : Option (Result RawMap))
      (next : State → Option (Result (List RawMap)))
    → Ran n s p (F i p) first
    → ((t : State)
        → IsValid t
        → t.counter ≤ s.counter + n
        → Ran k t ps (λ u qs. Pointwise (λ m x y. F m x u y) (i + 1) ps qs) (next t))
    → Ran
        (n + k)
        s
        (p ∷ ps)
        (λ u qs. Pointwise (λ m x y. F m x u y) i (p ∷ ps) qs)
        (first >>= (λ r. next r.state >>= (λ q. some (cons_result r q))))
Ran-cons F later i n k s p ps first next a b =
    let c = b a.result.state a.valid a.slow in
    record {
      result = cons_result a.result c.result;
      returns = rw (a.returns, ◌>>=◌, c.returns) refl;
      valid = c.valid;
      later = IsLater-trans s a.result.state c.result.state a.later c.later;
      slow = omega (arith, a.slow, c.slow);
      holds = (later i p a.result.value a.result.state c.result.state c.later a.holds, c.holds);
      stays = λ e.
          let (f, g) = or-false a.result.changed c.result.changed e in
          ap (λ x. x ∷ c.result.value) (a.stays f) ∙ ap (◌∷◌ p) (c.stays g);
    }

pub redact_parts-Ran :
    (G : ℕ → Bytes → Bytes → Type 0) (redact : Redactor) (bound : ℕ) (j : ℕ) (ps : List RawMap)
    (s : State)
    → IsRedactor G redact bound
    → IsValid s
    → s.counter + times bound ps < 2 ^ 64
    → Ran (times bound ps) s ps (RedactedParts G j ps) (redact_parts redact j ps s)
unfolding redact_parts
redact_parts-Ran G redact bound j [] s good v room = Ran-same 0 s (RedactedParts G j []) [] v tt
redact_parts-Ran G redact bound j (p ∷ ps) s good v room =
    Ran-cons (λ m. IsRedactedAt (G m) (codes "text"))
      (λ m p q. IsRedactedAt-later (G m) (codes "text") p q) j bound (times bound ps) s p ps
      (redact_part redact j p s) (redact_parts redact (j + 1) ps)
      (redact_part-Ran G redact bound j p s good v (omega arith))
      (λ t w low. redact_parts-Ran G redact bound (j + 1) ps t good w (omega arith))

-- The content of the message is a list of parts, and the new message has the redacted parts in its
-- place; it is as it was where these are the parts themselves.
pub record HasParts (G : ℕ → Bytes → Bytes → Type 0) (s : State) (old new : RawMap) : Type 0 where
  pub raw : Bytes
  pub parts : List RawMap
  pub redacted : List RawMap
  pub found : get (codes "content") old ≡ some raw
  pub decodes : unmarshal_maps raw ≡ some parts
  pub hides : RedactedParts G 0 parts s redacted
  pub put :
      ((redacted ≡ parts) × (new ≡ old))
      ⊎ (assign (codes "content") (brackets (marshal_maps redacted)) old ≡ some new)

-- A content that is neither a text nor an array of objects.
abbrev pub HasNoText : Option Bytes → Type 0
HasNoText none = Unit
HasNoText (some raw) = (unmarshal_string raw ≡ none) × (unmarshal_maps raw ≡ none)

-- A message has no text and is as it was, or its text is redacted, or its parts are.
abbrev pub IsRedactedMessage : (ℕ → Bytes → Bytes → Type 0) → RawMap → State → RawMap → Type 0
IsRedactedMessage G old s new =
    (HasNoText (get (codes "content") old) × (new ≡ old))
    ⊎ (IsReplaced (G 0) s (codes "content") old new ⊎ HasParts G s old new)

pub IsRedactedMessage-later :
    (G : ℕ → Bytes → Bytes → Type 0) (old new : RawMap) (s t : State)
    → IsLater s t
    → IsRedactedMessage G old s new
    → IsRedactedMessage G old t new
IsRedactedMessage-later G old new s t later (inl h) = inl h
IsRedactedMessage-later G old new s t later (inr (inl h)) =
    inr (inl (IsReplaced-later (G 0) (codes "content") old new s t later h))
IsRedactedMessage-later G old new s t later (inr (inr h)) = inr (
    inr (record {
      raw = h.raw;
      parts = h.parts;
      redacted = h.redacted;
      found = h.found;
      decodes = h.decodes;
      hides =
          Pointwise-map (λ k p q. IsRedactedAt (G k) (codes "text") p s q) _ 0 h.parts h.redacted
            (λ k p q. IsRedactedAt-later (G k) (codes "text") p q s t later) h.hides;
      put = h.put;
    }))
