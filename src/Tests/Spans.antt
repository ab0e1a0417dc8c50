-- ===== src/Tests/Spans.antt =====
-- The span checks at the spans of one message, and the maps of tokens.
use mathlib.Core.List.{Permᴰ}
use opengnk.Prelude.{ℕ, ◌≤◌, List, [], ◌∷◌, some, ◌≡◌, ◌≢◌, refl, arith, length, All, Any, ap}
use opengnk.Prelude.Int.{pos}
use opengnk.Prelude.Sort.{IsSorted}
use opengnk.Text.{codes}
use opengnk.Sanitize.Span.{Span}
use opengnk.Sanitize.Spans.{valid_spans, deduplicate_spans, sort_spans_desc, starts_later}
use opengnk.Sanitize.Spans.Chain.{
  Chain, HasBounds, Overlaps, deduplicate_spans-Chain, deduplicate_spans_meets, later_wins,
  sort_spans_desc_sorts,
}
use opengnk.Sanitize.Spans.Keep.{IsSafe, valid_spans-IsSafe}
use opengnk.Sanitize.TokenMap.{State, new_token_map, register}
use opengnk.Sanitize.TokenMap.Invariant.{
  IsValid, IsRegistered, new-IsValid, register-IsValid, register_stable, register_injective,
}

abbrev span : ℕ → ℕ → Span
span a b = record { start = pos a; stop = pos b; label = []; score = 100 }

abbrev fresh : State
fresh = record { counter = 7; map = new_token_map }

abbrev two : List Span
two = span 10 14 ∷ span 3 12 ∷ []

bounds : All (HasBounds 20) two
bounds = (
  record {
    a = 10;
    b = 14;
    starts = refl;
    stops = refl;
    nonempty = omega arith;
    within = omega arith;
  },
  (
    record {
      a = 3;
      b = 12;
      starts = refl;
      stops = refl;
      nonempty = omega arith;
      within = omega arith;
    },
    tt,
  ),
)

valid_spans-IsSafe_example :
    (out : List Span) × (valid_spans (codes "hi Bob") (span 3 6 ∷ []) ≡ some out)
    × All (IsSafe (codes "hi Bob")) out
    × (length out ≤ length (span 3 6 ∷ []))
valid_spans-IsSafe_example = valid_spans-IsSafe (codes "hi Bob") (span 3 6 ∷ [])

deduplicate_spans-Chain_example : Chain 20 (deduplicate_spans two)
deduplicate_spans-Chain_example = deduplicate_spans-Chain 20 two bounds

deduplicate_spans_meets_example : All (λ sp. Any (Overlaps sp) (deduplicate_spans two)) two
deduplicate_spans_meets_example = deduplicate_spans_meets 20 two bounds ((refl, tt), (tt, tt))

later_wins_example : deduplicate_spans (sort_spans_desc (span 3 12 ∷ span 5 7 ∷ [])) ≡ span 5 7 ∷ []
later_wins_example =
    later_wins (span 3 12) (span 5 7) 3 5 12 refl refl refl (omega arith) (omega arith)

sort_spans_desc_sorts_example :
    IsSorted starts_later (sort_spans_desc (span 3 12 ∷ span 5 7 ∷ []))
    × Permᴰ (sort_spans_desc (span 3 12 ∷ span 5 7 ∷ [])) (span 3 12 ∷ span 5 7 ∷ [])
sort_spans_desc_sorts_example = sort_spans_desc_sorts (span 3 12 ∷ span 5 7 ∷ [])

register-IsValid_example :
    IsValid (register (codes "Bob") fresh).1
    × IsRegistered
        (register (codes "Bob") fresh).1.map.from_token
        (register (codes "Bob") fresh).1.counter
        (codes "Bob")
        (register (codes "Bob") fresh).0
register-IsValid_example =
    register-IsValid (codes "Bob") fresh (new-IsValid 7 (omega arith)) (omega arith)

register_stable_example :
    register (codes "Bob") (register (codes "Mary") (register (codes "Bob") fresh).1).1 ≡ (
      (register (codes "Bob") fresh).0,
      (register (codes "Mary") (register (codes "Bob") fresh).1).1,
    )
register_stable_example = register_stable (codes "Bob") (codes "Mary") fresh

register_injective_example :
    (register (codes "Bob") fresh).0 ≢ (register (codes "Mary") (register (codes "Bob") fresh).1).0
register_injective_example =
    register_injective (codes "Bob") (codes "Mary") fresh (new-IsValid 7 (omega arith))
      (omega arith) (λ e. omega (arith, ap length e))
