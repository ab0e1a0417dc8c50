-- ===== src/Sanitize/TokenMap/Pieces.antt =====
-- The specification of a redacted text: plain bytes, and marks that hide a piece each. It is
-- rendered with the marks as tokens, and expanded to the text that it hides.
use opengnk.Prelude.{
  ℕ, ◌^◌, ◌<◌, true, false, List, [], ◌∷◌, ◌++◌, ◌≡◌, ◌≢◌, refl, sym, ap, ◌∙◌, inl, inr, All, arith,
  ◌==◌, ==_iff, if◌then◌else◌, Bool-cases,
}
use opengnk.Text.{Bytes, starts_with, contains, replace_skip}
use opengnk.Text.Replace.{replace_skip_miss, replace_skip-Quiet, replace_skip_match}
use opengnk.Text.Search.{contains-cons, contains_head, contains-append}
use opengnk.Sanitize.Token.{token, token_prefix}
use opengnk.Sanitize.Token.Laws.{token-Quiet, starts_with-token}

pub data Piece : Type 0 where
  byte : ℕ → Piece
  mark : ℕ → Bytes → Piece

unfoldable pub render : List Piece → Bytes
render [] = []
render (byte b ∷ ps) = b ∷ render ps
render (mark k o ∷ ps) = token k ++ render ps

unfoldable pub expand : List Piece → Bytes
expand [] = []
expand (byte b ∷ ps) = b ∷ expand ps
expand (mark k o ∷ ps) = o ++ expand ps

abbrev pub plain : Bytes → List Piece
plain [] = []
plain (b ∷ s) = byte b ∷ plain s

-- The marks of token `k` are put back.
abbrev pub resolve : ℕ → List Piece → List Piece
resolve k [] = []
resolve k (byte b ∷ ps) = byte b ∷ resolve k ps
resolve k (mark j o ∷ ps) = if j == k then plain o ++ resolve k ps else mark j o ∷ resolve k ps

abbrev pub AllMarks {κ} : (ℕ → Bytes → Type κ) → List Piece → Type κ
AllMarks P [] = Unit
AllMarks P (byte b ∷ ps) = AllMarks P ps
AllMarks P (mark k o ∷ ps) = P k o × AllMarks P ps

pub render-plain : (s : Bytes) (ps : List Piece) → render (plain s ++ ps) ≡ s ++ render ps
unfolding render
render-plain [] ps = refl
render-plain (b ∷ s) ps = ap (◌∷◌ b) (render-plain s ps)

pub expand-plain : (s : Bytes) (ps : List Piece) → expand (plain s ++ ps) ≡ s ++ expand ps
unfolding expand
expand-plain [] ps = refl
expand-plain (b ∷ s) ps = ap (◌∷◌ b) (expand-plain s ps)

pub AllMarks-plain {κ} :
    (P : ℕ → Bytes → Type κ) (s : Bytes) (ps : List Piece)
    → AllMarks P ps
    → AllMarks P (plain s ++ ps)
AllMarks-plain P [] ps h = h
AllMarks-plain P (b ∷ s) ps h = AllMarks-plain P s ps h

pub AllMarks-map {κ μ} :
    (P : ℕ → Bytes → Type κ) (Q : ℕ → Bytes → Type μ) (ps : List Piece)
    → ((k : ℕ) (o : Bytes) → P k o → Q k o)
    → AllMarks P ps
    → AllMarks Q ps
AllMarks-map P Q [] f h = tt
AllMarks-map P Q (byte b ∷ ps) f h = AllMarks-map P Q ps f h
AllMarks-map P Q (mark k o ∷ ps) f h = (f k o h.0, AllMarks-map P Q ps f h.1)

-- What remains after `k` is resolved are marks of other tokens.
pub AllMarks-resolve {κ μ} :
    (k : ℕ) (P : ℕ → Bytes → Type κ) (Q : ℕ → Bytes → Type μ) (ps : List Piece)
    → ((j : ℕ) (o : Bytes) → j ≢ k → P j o → Q j o)
    → AllMarks P ps
    → AllMarks Q (resolve k ps)
AllMarks-resolve k P Q [] f h = tt
AllMarks-resolve k P Q (byte b ∷ ps) f h = AllMarks-resolve k P Q ps f h
AllMarks-resolve k P Q (mark j o ∷ ps) f h = elim (Bool-cases (j == k)) [
  | inl e ↦ rw e (AllMarks-plain Q o (resolve k ps) (AllMarks-resolve k P Q ps f h.1))
  | inr e ↦ rw e (f j o (ground arith) h.0, AllMarks-resolve k P Q ps f h.1)
]

pub expand-resolve : (k : ℕ) (ps : List Piece) → expand (resolve k ps) ≡ expand ps
unfolding expand
expand-resolve k [] = refl
expand-resolve k (byte b ∷ ps) = ap (◌∷◌ b) (expand-resolve k ps)
expand-resolve k (mark j o ∷ ps) = elim (Bool-cases (j == k)) [
  | inl e ↦ rw e (expand-plain o (resolve k ps) ∙ ap (◌++◌ o) (expand-resolve k ps))
  | inr e ↦ rw e (ap (◌++◌ o) (expand-resolve k ps))
]

-- With no mark left, the text reads as it is.
pub render-eq-expand : (ps : List Piece) → AllMarks (λ k o. ⊥) ps → render ps ≡ expand ps
unfolding render expand
render-eq-expand [] h = refl
render-eq-expand (byte b ∷ ps) h = ap (◌∷◌ b) (render-eq-expand ps h)
render-eq-expand (mark k o ∷ ps) h = absurd h.0

-- A match that begins at a plain byte lies in plain bytes: a pattern without the byte 0xC2 cannot
-- run into a token.
match_plain :
    (p : Bytes) (ps : List Piece)
    → All (λ c. c ≢ 0xC2) p
    → starts_with p (render ps) ≡ true
    → starts_with p (expand ps) ≡ true
unfolding starts_with render expand
match_plain [] ps np h = refl
match_plain (c ∷ p) [] np h = cc
match_plain (c ∷ p) (byte b ∷ ps) np h = ground (arith, match_plain p ps np.1)
match_plain (c ∷ p) (mark k o ∷ ps) np h = unfold token in absurd (ground arith)

match_head :
    (b : ℕ) (p : Bytes) (ps : List Piece)
    → All (λ c. c ≢ 0xC2) p
    → starts_with (0xC2 ∷ p) (b ∷ render ps) ≡ true
    → starts_with (0xC2 ∷ p) (b ∷ expand ps) ≡ true
unfolding starts_with
match_head b p ps np h = ground (arith, match_plain p ps np)

plain_miss :
    (k b : ℕ) (ps : List Piece)
    → contains token_prefix (b ∷ expand ps) ≡ false
    → starts_with (token k) (b ∷ render ps) ≡ false
plain_miss k b ps clean = elim (Bool-cases (starts_with (token k) (b ∷ render ps))) [
  | inl e ↦
      let clash : true ≡ false =
        sym (reaches (starts_with-token k (b ∷ render ps) e))
        ∙ contains_head token_prefix b (expand ps) clean in
      cc
  | inr e ↦ e
]
  where
    reaches :
        starts_with token_prefix (b ∷ render ps) ≡ true
        → starts_with token_prefix (b ∷ expand ps) ≡ true
    reaches h = match_head b _ ps (omega arith) h

token_hit :
    (k : ℕ) (orig s : Bytes)
    → replace_skip (token k) orig 0 (token k ++ s) ≡ orig ++ replace_skip (token k) orig 0 s
unfolding token
token_hit k orig s = replace_skip_match 0xC2 _ orig s

-- Replacing a token in a rendered text resolves its marks, and nothing else.
pub replace-render :
    (k : ℕ) (orig : Bytes) (ps : List Piece)
    → k < 10 ^ 20
    → AllMarks (λ j o. (j < 10 ^ 20) × (j ≡ k → o ≡ orig)) ps
    → contains token_prefix (expand ps) ≡ false
    → replace_skip (token k) orig 0 (render ps) ≡ render (resolve k ps)
unfolding render expand
replace-render k orig [] hk marks clean = unfold replace_skip in refl
replace-render k orig (byte b ∷ ps) hk marks clean =
    replace_skip_miss (token k) orig b (render ps) (plain_miss k b ps clean)
    ∙ ap (◌∷◌ b)
        (replace-render k orig ps hk marks (contains-cons token_prefix b (expand ps) clean))
replace-render k orig (mark j o ∷ ps) hk marks clean =
    let rest : replace_skip (token k) orig 0 (render ps) ≡ render (resolve k ps) =
      replace-render k orig ps hk marks.1 (contains-append token_prefix o (expand ps) clean) in
    elim (Bool-cases (j == k)) [
      | inl e ↦
          let same : j ≡ k = (==_iff j k).0 e in
          rw e (
            ap (λ x. replace_skip (token k) orig 0 (token x ++ render ps)) same
            ∙ token_hit k orig (render ps)
            ∙ ap (◌++◌ orig) rest
            ∙ ap (λ x. x ++ render (resolve k ps)) (sym (marks.0.1 same))
            ∙ sym (render-plain o (resolve k ps)))
      | inr e ↦ rw e (
          replace_skip-Quiet (token k) orig (token j) (render ps)
            (token-Quiet j k (render ps) marks.0.0 hk (ground arith))
          ∙ ap (◌++◌ (token j)) rest)
    ]
