-- ===== src/Tests/Redaction.antt =====
-- internal/sanitize at one message: two names are found in it.
use mathlib.Core.List.Perm
use opengnk.Prelude.{ℕ, [], ◌∷◌, ◌++◌, some, ◌≡◌, refl, arith}
use opengnk.Prelude.Int.{pos}
use opengnk.Text.{Bytes, codes, contains, starts_with, equal, slice}
use opengnk.Text.Decimal.{decimal6}
use opengnk.Text.Dict.{lookup, insert}
use opengnk.Sanitize.Span.{Span, Classifier}
use opengnk.Sanitize.Spans.{
  valid_spans, keep_span, keep_between, is_rune_boundary, cut_before, cut_after,
  is_word_boundary_byte, one_of, deduplicate_spans, sort_spans_desc,
}
use opengnk.Prelude.Sort.{sort}
use opengnk.Sanitize.Token.{token, has_placeholder}
use opengnk.Sanitize.TokenMap.{State, new_token_map, register, restore}
use opengnk.Sanitize.TokenMap.Invariant.{IsValid, IsRegistered, new-IsValid}
use opengnk.Sanitize.Redact.{finished, run_classifiers, redact_text, redact_found, redact_spans}
use opengnk.Sanitize.Redact.RoundTrip.{redact_text_total, restore-redact_text}

abbrev name_at : ℕ → ℕ → Span
name_at a b = record { start = pos a; stop = pos b; label = codes "PER"; score = 100 }

abbrev message : Bytes
message = codes "call John or Mary"

abbrev finds_names : Classifier
finds_names text = some (name_at 5 9 ∷ name_at 13 17 ∷ [])

abbrev fresh : State
fresh = record { counter = 0; map = new_token_map }

abbrev sent_text : Bytes
sent_text = codes "call " ++ (token 2 ++ (codes " or " ++ token 1))

abbrev after : State
after = record {
  counter = 2;
  map = record {
    to_token = (codes "Mary", token 1) ∷ (codes "John", token 2) ∷ [];
    from_token = (token 1, codes "Mary") ∷ (token 2, codes "John") ∷ [];
  };
}

sends : redact_text (finds_names ∷ []) (finished 0 ∷ []) message fresh ≡ some (sent_text, after)
unfolding redact_text redact_found redact_spans run_classifiers valid_spans keep_span keep_between
    is_rune_boundary cut_before cut_after is_word_boundary_byte one_of deduplicate_spans
    sort_spans_desc sort has_placeholder starts_with slice register lookup insert equal token
    decimal6
sends = refl

redact_text_total_example :
    (text : Bytes) × (state : State) × (redact_text
        (finds_names ∷ [])
        (finished 0 ∷ [])
        message
        fresh
      ≡ some (text, state))
    × IsValid state
    × ((o t : Bytes)
        → IsRegistered fresh.map.from_token fresh.counter o t
        → IsRegistered state.map.from_token state.counter o t)
unfolding run_classifiers
redact_text_total_example =
    redact_text_total (finds_names ∷ []) (finished 0 ∷ []) message fresh
      (new-IsValid 0 (omega arith)) (omega arith)

restore-redact_text_example :
    restore ((token 2, codes "John") ∷ (token 1, codes "Mary") ∷ []) sent_text ≡ message
unfolding run_classifiers contains starts_with
restore-redact_text_example =
    restore-redact_text (finds_names ∷ []) (finished 0 ∷ []) message sent_text fresh after
      ((token 2, codes "John") ∷ (token 1, codes "Mary") ∷ []) (new-IsValid 0 (omega arith))
      (omega arith) sends (Perm.swap (token 1, codes "Mary") (token 2, codes "John") []) refl
