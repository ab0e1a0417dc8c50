-- ===== src/Sanitize/Redact/RoundTrip.antt =====
-- `redactText` always returns, and `Restore` undoes it.
use mathlib.Core.List.{Perm, Permᴰ}
use mathlib.Core.List.Permᴰ
use mathlib.Core.Path.{subst}
use mathlib.Core.Logic.{∥∥₁_elim}
use opengnk.Prelude.{
  ℕ, ◌+◌, ◌^◌, ◌≤◌, ◌<◌, List, [], ◌∷◌, false, Option, some, ◌≡◌, refl, sym, ap, ◌∙◌, All, All-map,
  All-perm, Any, Any-perm, arith, length, length-perm,
}
use opengnk.Prelude.Sort.{sort-perm}
use opengnk.Text.{Bytes, Bytes-set, contains}
use opengnk.Text.Dict.{Dict}
use opengnk.Sanitize.Span.{Span, Classifier}
use opengnk.Sanitize.Spans.{valid_spans, deduplicate_spans, sort_spans_desc, starts_later}
use opengnk.Sanitize.Spans.Chain.{nil, HasBounds, deduplicate_spans-Chain, length-deduplicate_spans}
use opengnk.Sanitize.Spans.Keep.{IsSafe, valid_spans-IsSafe}
use opengnk.Sanitize.Token.{token, token_prefix}
use opengnk.Sanitize.Token.Laws.{token_injective}
use opengnk.Sanitize.TokenMap.{State, restore}
use opengnk.Sanitize.TokenMap.Invariant.{IsValid, IsRegistered, IsIssued}
use opengnk.Sanitize.TokenMap.Pieces.{Piece, render, expand, AllMarks, AllMarks-map}
use opengnk.Sanitize.TokenMap.Restore.{IsKnown, IsToken, restore-render}
use opengnk.Sanitize.Redact.{
  Arrival, redact_spans, redact_found, redact_text, redact_text_with_ner, run_classifiers,
  history_classifiers,
}
use opengnk.Sanitize.Redact.Loop.{
  Redacts, Redacts-weaken, Stands, IsPartly-start, redact_spans-Redacts,
}

sort_spans_desc-perm : (sps : List Span) → Permᴰ (sort_spans_desc sps) sps
unfolding sort_spans_desc
sort_spans_desc-perm = sort-perm starts_later

IsSafe-HasBounds : (text : Bytes) (sp : Span) → IsSafe text sp → HasBounds (length text) sp
IsSafe-HasBounds text sp h = record {
  a = h.a;
  b = h.b;
  starts = h.starts;
  stops = h.stops;
  nonempty = h.nonempty;
  within = h.within;
}

redact_found-nil :
    (original : Bytes) (s : State) → redact_found [] original s ≡ redact_spans [] original s
unfolding redact_found redact_spans
redact_found-nil original s = refl

redact_found-some :
    (sp : Span) (sps valid : List Span) (original : Bytes) (s : State)
    → valid_spans original (sp ∷ sps) ≡ some valid
    → redact_found (sp ∷ sps) original s
      ≡ redact_spans (deduplicate_spans (sort_spans_desc valid)) original s
unfolding redact_found
redact_found-some sp sps valid original s e = rw e

-- Whatever the classifiers report, redaction returns, and what it returns hides the original.
pub redact_found-Redacts :
    (found : List Span) (original : Bytes) (s : State)
    → IsValid s
    → s.counter + length found < 2 ^ 64
    → Redacts original (length found) s (redact_found found original s)
redact_found-Redacts [] original s v room =
    Redacts-weaken (omega arith) (redact_found-nil original s) (
      redact_spans-Redacts original [] (length original) original s nil (omega arith)
        (IsPartly-start original s) v room)
redact_found-Redacts (sp ∷ sps) original s v room =
    let (out, e, safe, short) = valid_spans-IsSafe original (sp ∷ sps) in
    let sorted = sort_spans_desc out in
    let bounds : All (HasBounds (length original)) sorted =
      All-perm (HasBounds (length original)) (Permᴰ.symm (sort_spans_desc-perm out))
        (All-map out (λ x. IsSafe-HasBounds original x) safe) in
    let fewer : length (deduplicate_spans sorted) ≤ length (sp ∷ sps) =
      omega (arith, length-deduplicate_spans sorted, length-perm (sort_spans_desc-perm out)) in
    Redacts-weaken fewer (redact_found-some sp sps out original s e) (
      redact_spans-Redacts original (deduplicate_spans sorted) (length original) original s
        (deduplicate_spans-Chain (length original) sorted bounds) (omega arith)
        (IsPartly-start original s) v (omega (arith, fewer)))

IsIssued-IsToken : (c : ℕ) (t : Bytes) → c < 2 ^ 64 → IsIssued c t → IsToken t
IsIssued-IsToken c t h i = record {
  id = i.id;
  fits = omega (arith, i.issued);
  is_token = i.is_token;
}

Stands-IsKnown :
    (s : State) (order : Dict) (k : ℕ) (o : Bytes)
    → IsValid s
    → Permᴰ order s.map.from_token
    → Stands s k o
    → IsKnown order k o
Stands-IsKnown s order k o v p h =
    let r = h.0 in
    let same : k ≡ r.id =
      token_injective k r.id (omega (arith, h.1, v.in_range)) (omega (arith, r.issued, v.in_range))
        r.is_token in
    record {
      fits = omega (arith, h.1, v.in_range);
      present =
          Any-perm (λ e. e.0 ≡ token k) (Permᴰ.symm p)
            (subst (λ i. Any (λ e. e.0 ≡ token i) s.map.from_token) (sym same) r.present);
      means =
          All-perm (λ e. e.0 ≡ token k → e.1 ≡ o) (Permᴰ.symm p)
            (subst (λ i. All (λ e. e.0 ≡ token i → e.1 ≡ o) s.map.from_token) (sym same) r.means);
    }

-- A text that mentions any of the tokens of a request, in any order and as often as it likes, is
-- restored with what they stand for, in whatever order the loop meets the entries; unless the
-- restored text itself contains a token's beginning.
pub restore-Stands :
    (s : State) (ps : List Piece) (order : Dict)
    → IsValid s
    → Perm order s.map.from_token
    → AllMarks (Stands s) ps
    → contains token_prefix (expand ps) ≡ false
    → restore order (render ps) ≡ expand ps
restore-Stands s ps order v perm stand clean = ∥∥₁_elim perm (Bytes-set _ _) λ p.
    restore-render order ps
      (All-perm (λ e. IsToken e.0) (Permᴰ.symm p)
        (All-map s.map.from_token (λ e i. IsIssued-IsToken s.counter e.0 v.in_range i) v.backward))
      (AllMarks-map (Stands s) (IsKnown order) ps (λ k o h. Stands-IsKnown s order k o v p h) stand)
      clean

Redacts-restore :
    {n : ℕ} {s : State} {out : Option (Bytes × State)} (original text : Bytes) (state : State)
    (order : Dict)
    → Redacts original n s out
    → out ≡ some (text, state)
    → Perm order state.map.from_token
    → contains token_prefix original ≡ false
    → restore order text ≡ original
Redacts-restore original text state order r e perm clean =
    let same : some (r.text, r.state) ≡ some (text, state) = sym r.returns ∙ e in
    let same_text : r.text ≡ text = cc in
    let same_state : r.state ≡ state = cc in
    let red = r.redaction in
    ap (restore order) (sym same_text ∙ red.reads)
    ∙ restore-Stands r.state red.pieces order r.valid
        (subst (λ (st : State). Perm order st.map.from_token) (sym same_state) perm) red.stand
        (ap (contains token_prefix) red.hides ∙ clean)
    ∙ red.hides

-- Redacting a text always returns: no index is out of range, whatever spans the classifiers
-- report and in whatever order they finish. The state stays valid, and every token that was
-- issued before still stands for its text.
pub redact_text_total :
    (classifiers : List Classifier) (arrivals : List Arrival) (original : Bytes) (s : State)
    → IsValid s
    → s.counter + length (run_classifiers classifiers original arrivals) < 2 ^ 64
    → (text : Bytes) × (state : State) × (redact_text classifiers arrivals original s
        ≡ some (text, state))
      × IsValid state
      × ((o t : Bytes)
          → IsRegistered s.map.from_token s.counter o t
          → IsRegistered state.map.from_token state.counter o t)
unfolding redact_text
redact_text_total classifiers arrivals original s v room =
    let r =
      redact_found-Redacts (run_classifiers classifiers original arrivals) original s v room in
    (r.text, r.state, r.returns, r.valid, r.keeps)

-- Restoring a redacted text gives the original back, for every order in which the entries of the
-- map are met, when the original does not itself contain the beginning of a token.
pub restore-redact_text :
    (classifiers : List Classifier) (arrivals : List Arrival) (original text : Bytes)
    (s state : State) (order : Dict)
    → IsValid s
    → s.counter + length (run_classifiers classifiers original arrivals) < 2 ^ 64
    → redact_text classifiers arrivals original s ≡ some (text, state)
    → Perm order state.map.from_token
    → contains token_prefix original ≡ false
    → restore order text ≡ original
unfolding redact_text
restore-redact_text classifiers arrivals original text s state order v room e perm clean =
    Redacts-restore original text state order
      (redact_found-Redacts (run_classifiers classifiers original arrivals) original s v room) e
      perm clean

-- With a single classifier a history message is sent as it is, whatever the classifier would find
-- in it.
pub redact_text_with_ner_single :
    (c : Classifier) (arrivals : List Arrival) (original : Bytes) (s : State)
    → redact_text_with_ner (c ∷ []) arrivals original s ≡ some (original, s)
unfolding redact_text_with_ner history_classifiers run_classifiers redact_found
redact_text_with_ner_single c arrivals original s = refl
