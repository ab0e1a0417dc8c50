-- ===== src/Sanitize/Spans.antt =====
-- The checks on spans: `wordBoundaryBytes`, `validSpans`, `deduplicateSpans`, `isRuneBoundary`
-- and `sortSpansDesc`. Where Go's code would panic the model is `none`.
pub mod Keep
pub mod Chain
use Prim.Native.Nat.{bit_and}
use opengnk.Prelude.{
  ℕ, zero, suc, ◌-◌, Bool, true, false, not, ◌&&◌, ◌||◌, List, [], ◌∷◌, ◌++◌, Option, none, some,
  ltb, ◌==◌, if◌then◌else◌, ◌>>=◌, length, get_elem?,
}
use opengnk.Prelude.Int.{ℤ, pos, negsuc, ltb_ℤ, leb_ℤ, eqb_ℤ, to_index}
use opengnk.Prelude.Sort.{sort}
use opengnk.Text.{Bytes, codes, slice}
use opengnk.Sanitize.Span.{Span}
use opengnk.Sanitize.Token.{has_placeholder}

abbrev pub boundary_bytes : Bytes
boundary_bytes = codes " \t\n\r<>(),;[]{}\"'`"

-- `t[b]` of the table that `wordBoundaryBytes` fills.
unfoldable pub one_of : Bytes → ℕ → Bool
one_of [] b = false
one_of (c ∷ cs) b = c == b || one_of cs b

unfoldable pub is_word_boundary_byte : ℕ → Bool
is_word_boundary_byte b = one_of boundary_bytes b

unfoldable pub is_rune_boundary : Bytes → ℕ → Option Bool
is_rune_boundary s i =
    if i == 0 || i == length s
    then some true
    else (do b ← get_elem? s i; some (not (bit_and b 0xC0 == 0x80)))

-- `sp.Start > 0 && !isWordBoundaryByte(text[sp.Start-1])`.
unfoldable pub cut_before : Bytes → ℕ → Option Bool
cut_before text zero = some false
cut_before text (suc i) = do b ← get_elem? text i; some (not (is_word_boundary_byte b))

-- `sp.End < len(text) && !isWordBoundaryByte(text[sp.End])`.
unfoldable pub cut_after : Bytes → ℕ → Option Bool
cut_after text i =
    if ltb i (length text)
    then (do b ← get_elem? text i; some (not (is_word_boundary_byte b)))
    else some false

abbrev in_range : Bytes → Span → Bool
in_range text sp =
    not (ltb_ℤ sp.start (pos 0) || ltb_ℤ (pos (length text)) sp.stop || leb_ℤ sp.stop sp.start)

-- The tests of one round of `validSpans` behind the offsets': `true` where the span is kept.
unfoldable pub keep_between : Bytes → ℕ → ℕ → Option Bool
keep_between text a b = do
  left ← is_rune_boundary text a
  right ← is_rune_boundary text b
  matched ← slice text a b
  before ← cut_before text a
  after ← cut_after text b
  some (not (not left || not right || has_placeholder matched || before || after))

unfoldable pub keep_span : Bytes → Span → Option Bool
keep_span text sp =
    if in_range text sp
    then (do a ← to_index sp.start; b ← to_index sp.stop; keep_between text a b)
    else some false

unfoldable pub valid_spans : Bytes → List Span → Option (List Span)
valid_spans text [] = some []
valid_spans text (sp ∷ sps) = do
  keep ← keep_span text sp
  rest ← valid_spans text sps
  some (if keep then sp ∷ rest else rest)

-- The loop of `deduplicateSpans`, with `lastStart`.
unfoldable pub dedup_from : ℤ → List Span → List Span
dedup_from last [] = []
dedup_from last (sp ∷ sps) =
    let kept = sp ∷ dedup_from sp.start sps in
    let skipped = dedup_from last sps in
    if eqb_ℤ last (negsuc 0) || leb_ℤ sp.stop last then kept else skipped

unfoldable pub deduplicate_spans : List Span → List Span
unfolding dedup_from
deduplicate_spans sps = dedup_from (negsuc 0) sps

-- `spans[j].Start > spans[j-1].Start`.
abbrev pub starts_later : Span → Span → Bool
starts_later x y = ltb_ℤ y.start x.start

unfoldable pub sort_spans_desc : List Span → List Span
sort_spans_desc = sort starts_later
