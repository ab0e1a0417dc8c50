-- ===== src/Sanitize/Spans/Chain.antt =====
-- What `deduplicateSpans` returns does not overlap, and what it drops overlaps what it keeps.
use mathlib.Core.Path.{subst}
use opengnk.Prelude.{
  ℕ, ◌≤◌, ◌<◌, true, false, ◌||◌, List, [], ◌∷◌, ◌≡◌, refl, sym, ap, ◌∙◌, ◌⊎◌, inl, inr, All,
  All-map, Any, arith, Bool-cases, length,
}
use opengnk.Prelude.Int.{ℤ, pos, negsuc, leb_ℤ, ltb_ℤ, eqb_ℤ}
use mathlib.Core.List.{Permᴰ}
use opengnk.Prelude.Sort.{IsSorted, sort, sort-perm}
use opengnk.Prelude.Sort.Sorted.{sort-IsSorted}
use opengnk.Sanitize.Span.{Span}
use opengnk.Sanitize.Spans.{dedup_from, deduplicate_spans, starts_later, sort_spans_desc}

-- Spans from right to left, each one ending where the next one to its right starts, or before;
-- the first ends at `last` or before.
pub data Chain : ℕ → List Span → Type 0 where
  nil : {last : ℕ} → Chain last []
  link :
      {last : ℕ} {sp : Span} {sps : List Span} (a b : ℕ)
      → sp.start ≡ pos a
      → sp.stop ≡ pos b
      → a < b
      → b ≤ last
      → Chain a sps
      → Chain last (sp ∷ sps)

pub record HasBounds (n : ℕ) (sp : Span) : Type 0 where
  pub a : ℕ
  pub b : ℕ
  pub starts : sp.start ≡ pos a
  pub stops : sp.stop ≡ pos b
  pub nonempty : a < b
  pub within : b ≤ n

dedup_kept :
    (last : ℤ) (sp : Span) (sps : List Span)
    → (eqb_ℤ last (negsuc 0) || leb_ℤ sp.stop last) ≡ true
    → dedup_from last (sp ∷ sps) ≡ sp ∷ dedup_from sp.start sps
unfolding dedup_from
dedup_kept last sp sps e = rw e

dedup_skipped :
    (last : ℤ) (sp : Span) (sps : List Span)
    → (eqb_ℤ last (negsuc 0) || leb_ℤ sp.stop last) ≡ false
    → dedup_from last (sp ∷ sps) ≡ dedup_from last sps
unfolding dedup_from
dedup_skipped last sp sps e = rw e

-- Behind a kept span the next one ends where it starts, or before.
dedup_from-Chain :
    (last n : ℕ) (sps : List Span) → All (HasBounds n) sps → Chain last (dedup_from (pos last) sps)
dedup_from-Chain last n [] h = unfold dedup_from in nil
dedup_from-Chain last n (sp ∷ sps) (h, hs) = elim (Bool-cases (leb_ℤ sp.stop (pos last))) [
  | inl e ↦ rw (dedup_kept (pos last) sp sps (ground arith)) (
      link h.a h.b h.starts h.stops h.nonempty (ground arith)
        (rw h.starts (dedup_from-Chain h.a n sps hs)))
  | inr e ↦ rw (dedup_skipped (pos last) sp sps (ground arith)) (dedup_from-Chain last n sps hs)
]

-- The spans that are left do not overlap, run from right to left, and lie within the text.
pub deduplicate_spans-Chain :
    (n : ℕ) (sps : List Span) → All (HasBounds n) sps → Chain n (deduplicate_spans sps)
deduplicate_spans-Chain n [] h = unfold deduplicate_spans dedup_from in nil
deduplicate_spans-Chain n (sp ∷ sps) (h, hs) =
    unfold deduplicate_spans in
    rw (dedup_kept (negsuc 0) sp sps refl) (
      link h.a h.b h.starts h.stops h.nonempty h.within
        (rw h.starts (dedup_from-Chain h.a n sps hs)))

-- The start of `k` lies inside `sp`.
abbrev pub Overlaps : Span → Span → Type 0
Overlaps sp k = (leb_ℤ sp.start k.start ≡ true) × (ltb_ℤ k.start sp.stop ≡ true)

-- `sp` is met by a kept span: by the last one, which starts at `last`, or by a later one.
abbrev MetFrom : ℕ → List Span → Span → Type 0
MetFrom last kept sp =
    ((leb_ℤ sp.start (pos last) ≡ true) × (ltb_ℤ (pos last) sp.stop ≡ true))
    ⊎ Any (Overlaps sp) kept

MetFrom-tail :
    (k : Span) (last : ℕ) (kept : List Span) (sps : List Span) (m : ℕ)
    → k.start ≡ pos m
    → All (MetFrom m kept) sps
    → All (MetFrom last (k ∷ kept)) sps
MetFrom-tail k last kept sps m e =
    All-map sps (λ sp h. elim h [ inl at ↦ inr (inl (rw e at)) | inr later ↦ inr (inr later) ])

starts_below :
    (sp : Span) (a : ℕ)
    → sp.start ≡ pos a
    → (xs : List Span) → All (λ y. starts_later y sp ≡ false) xs
    → All (λ y. leb_ℤ y.start (pos a) ≡ true) xs
starts_below sp a e xs = All-map xs (λ y k. ground arith)

dedup_from_meets :
    (last n : ℕ) (sps : List Span)
    → All (HasBounds n) sps
    → All (λ sp. leb_ℤ sp.start (pos last) ≡ true) sps
    → IsSorted starts_later sps
    → All (MetFrom last (dedup_from (pos last) sps)) sps
dedup_from_meets last n [] h le s = tt
dedup_from_meets last n (sp ∷ sps) (h, hs) (l, ls) (s, ss) =
    elim (Bool-cases (leb_ℤ sp.stop (pos last))) [
      | inl e ↦
          subst (λ kept. All (MetFrom last kept) (sp ∷ sps))
            (sym (dedup_kept (pos last) sp sps (ground arith)))
            (
              inr (inl (ground arith, ground arith)),
              MetFrom-tail sp last _ sps h.a h.starts (
                  rw h.starts
                    (dedup_from_meets h.a n sps hs (starts_below sp h.a h.starts sps s) ss)),
            )
      | inr e ↦
          subst (λ kept. All (MetFrom last kept) (sp ∷ sps))
            (sym (dedup_skipped (pos last) sp sps (ground arith)))
            (inl (l, ground arith), dedup_from_meets last n sps hs ls ss)
    ]

-- No detected span goes free: of spans in descending order each one is kept, or a kept one starts
-- inside it.
pub deduplicate_spans_meets :
    (n : ℕ) (sps : List Span)
    → All (HasBounds n) sps
    → IsSorted starts_later sps
    → All (λ sp. Any (Overlaps sp) (deduplicate_spans sps)) sps
deduplicate_spans_meets n [] h s = tt
deduplicate_spans_meets n (sp ∷ sps) (h, hs) (s, ss) =
    unfold deduplicate_spans in
    subst (λ kept. All (λ x. Any (Overlaps x) kept) (sp ∷ sps))
      (sym (dedup_kept (negsuc 0) sp sps refl))
      (
        inl (ground arith, ground arith),
        All-map sps
            (λ x m. elim m [ inl at ↦ inl (rw h.starts at) | inr later ↦ inr (rw h.starts later) ])
            (dedup_from_meets h.a n sps hs (starts_below sp h.a h.starts sps s) ss),
      )

dedup_from-All {κ} :
    (P : Span → Type κ) (last : ℤ) (sps : List Span) → All P sps → All P (dedup_from last sps)
dedup_from-All P last [] h = unfold dedup_from in tt
dedup_from-All P last (sp ∷ sps) h =
    elim (Bool-cases (eqb_ℤ last (negsuc 0) || leb_ℤ sp.stop last)) [
      | inl e ↦ rw (dedup_kept last sp sps e) (h.0, dedup_from-All P sp.start sps h.1)
      | inr e ↦ rw (dedup_skipped last sp sps e) (dedup_from-All P last sps h.1)
    ]

length-dedup_from : (last : ℤ) (sps : List Span) → length (dedup_from last sps) ≤ length sps
length-dedup_from last [] = unfold dedup_from in omega arith
length-dedup_from last (sp ∷ sps) =
    elim (Bool-cases (eqb_ℤ last (negsuc 0) || leb_ℤ sp.stop last)) [
      | inl e ↦ rw (dedup_kept last sp sps e) (omega (arith, length-dedup_from sp.start sps))
      | inr e ↦ rw (dedup_skipped last sp sps e) (omega (arith, length-dedup_from last sps))
    ]

-- Of two spans of which one starts inside the other, sorting and deduplicating keeps the one that
-- starts later, however narrow it is, and drops the other.
pub later_wins :
    (wide narrow : Span) (a b c : ℕ)
    → wide.start ≡ pos a
    → narrow.start ≡ pos b
    → wide.stop ≡ pos c
    → a < b
    → b < c
    → deduplicate_spans (sort_spans_desc (wide ∷ narrow ∷ [])) ≡ narrow ∷ []
unfolding deduplicate_spans sort_spans_desc sort
later_wins wide narrow a b c ha hb hc l m =
    let e : starts_later narrow wide ≡ true = ground arith in
    rw e (
      dedup_kept (negsuc 0) narrow (wide ∷ []) refl
      ∙ ap (◌∷◌ narrow)
          (dedup_skipped narrow.start wide [] (ground arith) ∙ unfold dedup_from in refl))

pub length-deduplicate_spans : (sps : List Span) → length (deduplicate_spans sps) ≤ length sps
unfolding deduplicate_spans
length-deduplicate_spans = length-dedup_from (negsuc 0)

-- `sortSpansDesc` keeps every span, as often as it occurs, and no span starts later than one that
-- stands before it.
pub sort_spans_desc_sorts :
    (sps : List Span)
    → IsSorted starts_later (sort_spans_desc sps) × Permᴰ (sort_spans_desc sps) sps
unfolding sort_spans_desc
sort_spans_desc_sorts sps = (
  sort-IsSorted starts_later (λ x y h. ground arith) (λ x y z h k. ground arith) sps,
  sort-perm starts_later sps,
)
