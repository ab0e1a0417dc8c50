-- ===== src/Sanitize/Spans/Keep.antt =====
-- `validSpans` never panics, and keeps only spans that are safe to cut out.
use opengnk.Prelude.{
  ℕ, zero, suc, ◌≤◌, ◌<◌, Bool, true, false, ◌&&◌, ◌||◌, List, [], ◌∷◌, some, ◌≡◌, refl, ap, ◌∙◌,
  ◌⊎◌, inl, inr, All, arith, ltb, leb, ◌==◌, Bool-cases, Option-cases, length, get_elem?,
  get_elem?_total, take, drop,
}
use opengnk.Prelude.Int.{pos, ℤ-cases}
use opengnk.Text.Runs.{slice_total}
use opengnk.Text.{Bytes}
use opengnk.Sanitize.Span.{Span}
use opengnk.Sanitize.Token.{has_placeholder}
use opengnk.Sanitize.Spans.{
  is_word_boundary_byte, is_rune_boundary, cut_before, cut_after, keep_between, keep_span,
  valid_spans,
}

-- The bytes around `text[a:b]`: the span ends at the text's ends or at delimiters.
abbrev pub DelimitedBefore : Bytes → ℕ → Type 0
DelimitedBefore text zero = Unit
DelimitedBefore text (suc i) =
    (c : ℕ) × (get_elem? text i ≡ some c) × (is_word_boundary_byte c ≡ true)

abbrev pub DelimitedAfter : Bytes → ℕ → Type 0
DelimitedAfter text b =
    (b ≡ length text) ⊎ ((c : ℕ) × (get_elem? text b ≡ some c) × (is_word_boundary_byte c ≡ true))

-- `text[a:b]` is a non-empty piece of whole characters and whole words without a placeholder.
pub record IsSafe (text : Bytes) (sp : Span) : Type 0 where
  pub a : ℕ
  pub b : ℕ
  pub starts : sp.start ≡ pos a
  pub stops : sp.stop ≡ pos b
  pub nonempty : a < b
  pub within : b ≤ length text
  pub left : is_rune_boundary text a ≡ some true
  pub right : is_rune_boundary text b ≡ some true
  pub before : DelimitedBefore text a
  pub after : DelimitedAfter text b
  pub fresh : has_placeholder (drop a (take b text)) ≡ false

pub is_rune_boundary_total :
    (text : Bytes) (i : ℕ) → i ≤ length text → (k : Bool) × (is_rune_boundary text i ≡ some k)
unfolding is_rune_boundary
is_rune_boundary_total text i h = elim (Bool-cases (i == 0 || i == length text)) [
  | inl e ↦ (true, rw e)
  | inr e ↦ let (c, found) = get_elem?_total text i (ground arith) in rw (e, found) (_, refl)
]

cut_before_total :
    (text : Bytes) (i : ℕ) → i ≤ length text → (k : Bool) × (cut_before text i ≡ some k)
unfolding cut_before
cut_before_total text zero h = (false, refl)
cut_before_total text (suc i) h = let (c, found) = get_elem?_total text i h in rw found (_, refl)

cut_after_total : (text : Bytes) (i : ℕ) → (k : Bool) × (cut_after text i ≡ some k)
unfolding cut_after
cut_after_total text i = elim (Bool-cases (ltb i (length text))) [
  | inl e ↦ let (c, found) = get_elem?_total text i (ground arith) in rw (e, found) (_, refl)
  | inr e ↦ (false, rw e)
]

pub keep_between_total :
    (text : Bytes) (a b : ℕ)
    → a < b
    → b ≤ length text
    → (k : Bool) × (keep_between text a b ≡ some k)
unfolding keep_between
keep_between_total text a b h w =
    let (l, hl) = is_rune_boundary_total text a (omega arith) in
    let (r, hr) = is_rune_boundary_total text b w in
    let (x, hx) = cut_before_total text a (omega arith) in
    let (y, hy) = cut_after_total text b in
    rw (hl, hr, slice_total text a b (omega arith) w, hx, hy) (_, refl)

cut_before-Delimited :
    (text : Bytes) (a : ℕ) → cut_before text a ≡ some false → DelimitedBefore text a
unfolding cut_before
cut_before-Delimited text zero h = tt
cut_before-Delimited text (suc i) h = elim (Option-cases (get_elem? text i)) [
  | inl e ↦ absurd (ground arith)
  | inr (c, e) ↦ (c, e, ground arith)
]

cut_after-Delimited :
    (text : Bytes) (b : ℕ) → b ≤ length text → cut_after text b ≡ some false → DelimitedAfter text b
unfolding cut_after
cut_after-Delimited text b w h = elim (Bool-cases (ltb b (length text))) [
  | inl e ↦ let (c, found) = get_elem?_total text b (ground arith) in inr (c, found, ground arith)
  | inr e ↦ inl (ground arith)
]

-- The parts of a test that kept a span.
keep_between-eq-true :
    (text : Bytes) (a b : ℕ)
    → a < b
    → b ≤ length text
    → keep_between text a b ≡ some true
    → (is_rune_boundary text a ≡ some true)
      × (is_rune_boundary text b ≡ some true)
      × (cut_before text a ≡ some false)
      × (cut_after text b ≡ some false)
      × (has_placeholder (drop a (take b text)) ≡ false)
unfolding keep_between
keep_between-eq-true text a b h w k =
    let (l, hl) = is_rune_boundary_total text a (omega arith) in
    let (r, hr) = is_rune_boundary_total text b w in
    let (x, hx) = cut_before_total text a (omega arith) in
    let (y, hy) = cut_after_total text b in
    ground (arith, hl, hr, slice_total text a b (omega arith) w, hx, hy, k)

-- A span with sane offsets goes through the other tests.
record HasOffsets (text : Bytes) (sp : Span) : Type 0 where
  a : ℕ
  b : ℕ
  starts : sp.start ≡ pos a
  stops : sp.stop ≡ pos b
  nonempty : a < b
  within : b ≤ length text
  tested : keep_span text sp ≡ keep_between text a b

offsets_pos :
    (text : Bytes) (sp : Span) (a b : ℕ)
    → sp.start ≡ pos a
    → sp.stop ≡ pos b
    → (keep_span text sp ≡ some false) ⊎ HasOffsets text sp
offsets_pos text sp a b hs ht = elim (Bool-cases (ltb a b && leb b (length text))) [
  | inl e ↦ inr (record {
    a = a;
    b = b;
    starts = hs;
    stops = ht;
    nonempty = ground arith;
    within = ground arith;
    tested = unfold keep_span in ground arith;
  })
  | inr e ↦ inl (unfold keep_span in ground arith)
]

offsets-cases : (text : Bytes) (sp : Span) → (keep_span text sp ≡ some false) ⊎ HasOffsets text sp
offsets-cases text sp = elim (ℤ-cases sp.start) [
  | inr (n, hs) ↦ inl (unfold keep_span in ground arith)
  | inl (a, hs) ↦ elim (ℤ-cases sp.stop) [
    | inr (n, ht) ↦ inl (unfold keep_span in ground arith)
    | inl (b, ht) ↦ offsets_pos text sp a b hs ht
  ]
]

-- Each span is judged, and a span that is kept is safe.
keep_span-IsSafe :
    (text : Bytes) (sp : Span)
    → (keep_span text sp ≡ some false) ⊎ ((keep_span text sp ≡ some true) × IsSafe text sp)
keep_span-IsSafe text sp = elim (offsets-cases text sp) [
  | inl e ↦ inl e
  | inr o ↦
      let (k, judged) = keep_between_total text o.a o.b o.nonempty o.within in
      elim (Bool-cases k) [
        | inr e ↦ inl (o.tested ∙ judged ∙ ap some e)
        | inl e ↦
            let kept : keep_between text o.a o.b ≡ some true = judged ∙ ap some e in
            let (l, r, x, y, f) = keep_between-eq-true text o.a o.b o.nonempty o.within kept in
            inr (
              o.tested ∙ kept,
              record {
                a = o.a;
                b = o.b;
                starts = o.starts;
                stops = o.stops;
                nonempty = o.nonempty;
                within = o.within;
                left = l;
                right = r;
                before = cut_before-Delimited text o.a x;
                after = cut_after-Delimited text o.b o.within y;
                fresh = f;
              },
            )
      ]
]

-- `validSpans` always returns, for every list of spans and every text, with offsets of any sign:
-- what it keeps is no longer than the list, and each span of it is a non-empty piece of the text,
-- of whole characters, with a delimiter or the text's end on both sides, and without a
-- placeholder in it.
pub valid_spans-IsSafe :
    (text : Bytes) (sps : List Span)
    → (out : List Span) × (valid_spans text sps ≡ some out)
      × All (IsSafe text) out
      × (length out ≤ length sps)
unfolding valid_spans
valid_spans-IsSafe text [] = ([], refl, tt, omega arith)
valid_spans-IsSafe text (sp ∷ sps) =
    let (rest, e, safe, short) = valid_spans-IsSafe text sps in
    elim (keep_span-IsSafe text sp) [
      | inl dropped ↦ (rest, rw (dropped, e), safe, omega arith)
      | inr (kept, s) ↦ (sp ∷ rest, rw (kept, e), (s, safe), omega arith)
    ]
