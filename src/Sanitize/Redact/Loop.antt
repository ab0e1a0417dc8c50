-- ===== src/Sanitize/Redact/Loop.antt =====
-- The loop of `redactText` over spans from right to left: the text left of the last span is still
-- the original's, and the rest renders pieces that hide the original's rest.
use opengnk.Prelude.{
  ℕ, ◌+◌, ◌^◌, ◌≤◌, ◌<◌, List, [], ◌∷◌, ◌++◌, append-nil, Option, some, ◌≡◌, refl, sym, ap, ◌∙◌,
  arith, length, length-append, length-take, take, drop, take-append-drop, take-append, drop-append,
  take-take, drop-take-append, take_all, drop_all,
}
use opengnk.Prelude.Int.{pos}
use opengnk.Text.{Bytes, slice}
use opengnk.Sanitize.Span.{Span}
use opengnk.Sanitize.Spans.Chain.{Chain, link}
use opengnk.Text.Runs.{slice_total}
use opengnk.Sanitize.Token.{token}
use opengnk.Sanitize.TokenMap.{State, register}
use opengnk.Sanitize.TokenMap.Invariant.{IsValid, IsRegistered, Registers, register-Registers}
use opengnk.Sanitize.TokenMap.Pieces.{
  Piece, mark, plain, render, expand, render-plain, expand-plain, AllMarks, AllMarks-plain,
  AllMarks-map,
}
use opengnk.Sanitize.Redact.{redact_spans}

-- A mark stands for its text in the state's maps.
abbrev pub Stands : State → ℕ → Bytes → Type 0
Stands s k o = IsRegistered s.map.from_token s.counter o (token k) × (k ≤ s.counter)

-- `text` is `original` up to `last`, and behind it the rendering of `pieces`.
pub record IsPartly (original : Bytes) (last : ℕ) (s : State) (text : Bytes) : Type 0 where
  pub pieces : List Piece
  pub reads : text ≡ take last original ++ render pieces
  pub hides : expand pieces ≡ drop last original
  pub stand : AllMarks (Stands s) pieces

-- The whole text is rendered pieces that hide the original.
pub record IsRedaction (original : Bytes) (s : State) (text : Bytes) : Type 0 where
  pub pieces : List Piece
  pub reads : text ≡ render pieces
  pub hides : expand pieces ≡ original
  pub stand : AllMarks (Stands s) pieces

pub IsPartly-start : (original : Bytes) (s : State) → IsPartly original (length original) s original
IsPartly-start original s = record {
  pieces = [];
  reads = unfold render in sym (append-nil _ ∙ take_all (length original) original (omega arith));
  hides = unfold expand in sym (drop_all (length original) original (omega arith));
  stand = tt;
}

IsPartly-end :
    (original : Bytes) (last : ℕ) (s : State) (text : Bytes)
    → IsPartly original last s text
    → IsRedaction original s text
IsPartly-end original last s text p = record {
  pieces = plain (take last original) ++ p.pieces;
  reads = p.reads ∙ sym (render-plain (take last original) p.pieces);
  hides =
      expand-plain (take last original) p.pieces
      ∙ ap (◌++◌ (take last original)) p.hides
      ∙ take-append-drop last original;
  stand = AllMarks-plain (Stands s) (take last original) p.pieces p.stand;
}

-- The parts of the current text that a round reads, in terms of the original.
module _ (original text r : Bytes) (last a b : ℕ) (reads : text ≡ take last original ++ r)
    (fits : last ≤ length original) (a_lt_b : a < b) (b_le : b ≤ last) where
  last_is : length (take last original) ≡ last
  last_is = omega (arith, length-take last original)

  length_text : last ≤ length text
  length_text =
      rw reads (omega (arith, length-append (take last original) r, length-take last original))

  take_text : (n : ℕ) → n ≤ last → take n text ≡ take n original
  take_text n h =
      ap (take n) reads
      ∙ take-append n (take last original) r (omega (arith, last_is))
      ∙ take-take n last original h

  slice_matched : slice text a b ≡ some (drop a (take b original))
  slice_matched =
      slice_total text a b (omega arith) (omega (arith, length_text))
      ∙ ap (λ x. some (drop a x)) (take_text b b_le)

  slice_head : slice text 0 a ≡ some (take a original)
  slice_head =
      slice_total text 0 a (omega arith) (omega (arith, length_text))
      ∙ ap some (take_text a (omega arith))

  slice_rest : slice text b (length text) ≡ some (drop b (take last original) ++ r)
  slice_rest =
      slice_total text b (length text) (omega (arith, length_text)) (omega arith)
      ∙ ap some (
          ap (drop b) (take_all (length text) text (omega arith) ∙ reads)
          ∙ drop-append b (take last original) r (omega (arith, last_is)))

-- What the loop leaves behind: it returns, and the result is a redaction of the original.
pub record Redacts (original : Bytes) (rounds : ℕ) (s : State) (out : Option (Bytes × State))
    : Type 0 where
  pub text : Bytes
  pub state : State
  pub returns : out ≡ some (text, state)
  pub redaction : IsRedaction original state text
  pub valid : IsValid state
  pub grows : s.counter ≤ state.counter
  pub slow : state.counter ≤ s.counter + rounds
  pub keeps :
      (o t : Bytes)
      → IsRegistered s.map.from_token s.counter o t
      → IsRegistered state.map.from_token state.counter o t

pub Redacts-weaken :
    {original : Bytes} {n m : ℕ} {s : State} {out out' : Option (Bytes × State)}
    → n ≤ m
    → out' ≡ out
    → Redacts original n s out
    → Redacts original m s out'
Redacts-weaken h e r = record {
  text = r.text;
  state = r.state;
  returns = e ∙ r.returns;
  redaction = r.redaction;
  valid = r.valid;
  grows = r.grows;
  slow = omega (arith, r.slow);
  keeps = r.keeps;
}

-- The pieces behind one round.
IsPartly-round :
    (original text : Bytes) (last a b : ℕ) (s : State)
    → last ≤ length original
    → a < b
    → b ≤ last
    → (p : IsPartly original last s text)
    → (g : Registers (drop a (take b original)) s (register (drop a (take b original)) s))
    → IsPartly original a (register (drop a (take b original)) s).1 (
        take a original
        ++ ((register (drop a (take b original)) s).0
            ++ (drop b (take last original) ++ render p.pieces)))
IsPartly-round original text last a b s fits h w p g =
    let matched = drop a (take b original) in
    let middle = drop b (take last original) in
    record {
      pieces = mark g.token_of.id matched ∷ (plain middle ++ p.pieces);
      reads =
          unfold render in
          ap (◌++◌ (take a original)) (
            ap (λ x. x ++ (middle ++ render p.pieces)) g.token_of.is_token
            ∙ ap (◌++◌ (token g.token_of.id)) (sym (render-plain middle p.pieces)));
      hides =
          unfold expand in
          ap (◌++◌ matched) (
            expand-plain middle p.pieces
            ∙ ap (◌++◌ middle) p.hides
            ∙ drop-take-append b last original w)
          ∙ drop-take-append a b original (omega arith);
      stand = (
        (rw (← g.token_of.is_token) g.token_of, g.token_of.issued),
        AllMarks-plain (Stands (register matched s).1) middle p.pieces (
            AllMarks-map (Stands s) (Stands (register matched s).1) p.pieces
              (λ k o z. (g.keeps o (token k) z.0, omega (arith, z.1, g.grows))) p.stand),
      );
    }

redact_spans_round :
    (sp : Span) (sps : List Span) (text matched head rest : Bytes) (a b : ℕ) (s : State)
    → sp.start ≡ pos a
    → sp.stop ≡ pos b
    → slice text a b ≡ some matched
    → slice text 0 a ≡ some head
    → slice text b (length text) ≡ some rest
    → redact_spans (sp ∷ sps) text s
      ≡ redact_spans sps (head ++ ((register matched s).0 ++ rest)) (register matched s).1
unfolding redact_spans
redact_spans_round sp sps text matched head rest a b s ha hb m h r = rw (ha, hb, m, h, r)

pub redact_spans-Redacts :
    (original : Bytes) (sps : List Span) (last : ℕ) (text : Bytes) (s : State)
    → Chain last sps
    → last ≤ length original
    → IsPartly original last s text
    → IsValid s
    → s.counter + length sps < 2 ^ 64
    → Redacts original (length sps) s (redact_spans sps text s)
redact_spans-Redacts original [] last text s c fits p v room = record {
  text = text;
  state = s;
  returns = unfold redact_spans in refl;
  redaction = IsPartly-end original last s text p;
  valid = v;
  grows = omega arith;
  slow = omega arith;
  keeps = λ o t r. r;
}
redact_spans-Redacts original (sp ∷ sps) last text s (link a b ha hb h w c) fits p v room =
    let matched = drop a (take b original) in
    let g = register-Registers matched s v (omega arith) in
    let later =
      redact_spans-Redacts original sps a _ (register matched s).1 c (omega arith)
        (IsPartly-round original text last a b s fits h w p g) g.valid (omega (arith, g.slow)) in
    record {
      text = later.text;
      state = later.state;
      returns =
          redact_spans_round sp sps text matched _ _ a b s ha hb
            (slice_matched original text (render p.pieces) last a b p.reads fits h w)
            (slice_head original text (render p.pieces) last a b p.reads fits h w)
            (slice_rest original text (render p.pieces) last a b p.reads fits h w)
          ∙ later.returns;
      redaction = later.redaction;
      valid = later.valid;
      grows = omega (arith, g.grows, later.grows);
      slow = omega (arith, g.slow, later.slow);
      keeps = λ o t r. later.keeps o t (g.keeps o t r);
    }
