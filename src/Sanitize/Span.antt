-- ===== src/Sanitize/Span.antt =====
-- internal/sanitize/classifier.go: `Span` and the interface `Classifier`.
use opengnk.Prelude.{ℕ, List, Option}
use opengnk.Prelude.Int.{ℤ}
use opengnk.Text.{Bytes}

-- The offsets are Go's `int`: what a classifier reports may be negative. The score is a
-- `float32` that nothing reads; both classifiers set 1.0, which is 100 hundredths here.
pub record Span : Type 0 where
  pub start : ℤ
  pub stop : ℤ
  pub label : Bytes
  pub score : ℕ

-- `Classify(text)`; `none` is a returned error.
abbrev pub Classifier : Type 0
Classifier = Bytes → Option (List Span)
