-- ===== src/LlmClassifier/Boundary.antt =====
-- The spans that the classifier reports, and what the sanitizer makes of their neighbours.
use opengnk.Prelude.{ℕ, ◌+◌, Bool, not, ◌&&◌, some, ◌≡◌, length}
use opengnk.Text.{Bytes}
use opengnk.LlmClassifier.{span_at}
use opengnk.Sanitize.Span.{Span}
use opengnk.Sanitize.Spans.{is_rune_boundary, keep_between}
use opengnk.Sanitize.Token.{has_placeholder}

-- `validSpans` keeps the span unless it splits a rune or covers a placeholder.
pub record IsKept (text val : Bytes) (sp : Span) : Type 0 where
  pub start : ℕ
  pub left : Bool
  pub right : Bool
  pub place : sp ≡ span_at start (start + length val)
  pub left_is : is_rune_boundary text start ≡ some left
  pub right_is : is_rune_boundary text (start + length val) ≡ some right
  pub kept :
      keep_between text start (start + length val)
      ≡ some (left && right && not (has_placeholder val))
