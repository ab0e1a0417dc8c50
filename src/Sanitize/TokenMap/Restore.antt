-- ===== src/Sanitize/TokenMap/Restore.antt =====
-- `Restore` gives back what a redacted text hides, in whatever order it meets the tokens.
use opengnk.Prelude.{
  ℕ, ◌^◌, ◌<◌, false, List, [], ◌∷◌, ◌≡◌, ◌≢◌, refl, sym, ap, ◌∙◌, inl, inr, All, Any,
}
use opengnk.Text.{Bytes, contains, replace_all}
use opengnk.Text.Dict.{Dict}
use opengnk.Sanitize.Token.{token, token_prefix}
use opengnk.Sanitize.Token.Laws.{token_injective}
use opengnk.Sanitize.TokenMap.{restore}
use opengnk.Sanitize.TokenMap.Pieces.{
  Piece, plain, render, expand, resolve, AllMarks, AllMarks-map, AllMarks-resolve, expand-resolve,
  render-eq-expand, replace-render,
}

-- Mark `k`, which hides `o`, has its token among the entries, and all such entries say `o`.
pub record IsKnown (entries : Dict) (k : ℕ) (o : Bytes) : Type 0 where
  pub fits : k < 10 ^ 20
  pub present : Any (λ e. e.0 ≡ token k) entries
  pub means : All (λ e. e.0 ≡ token k → e.1 ≡ o) entries

-- The key of an entry is a token.
pub record IsToken (t : Bytes) : Type 0 where
  pub id : ℕ
  pub fits : id < 10 ^ 20
  pub is_token : t ≡ token id

-- One round of the loop of `Restore`.
restore_round :
    (t orig : Bytes) (ps : List Piece) (order : Dict)
    → (tk : IsToken t) → AllMarks (IsKnown ((t, orig) ∷ order)) ps
    → contains token_prefix (expand ps) ≡ false
    → replace_all (render ps) t orig ≡ render (resolve tk.id ps)
unfolding replace_all
restore_round t orig ps order tk known clean =
    ap (λ x. replace_all (render ps) x orig) tk.is_token
    ∙ replace-render tk.id orig ps tk.fits
        (AllMarks-map (IsKnown ((t, orig) ∷ order)) _ ps
          (λ k o h. (h.fits, λ same. sym (h.means.0 (tk.is_token ∙ ap token (sym same))))) known)
        clean

-- A mark of another token is known to the entries behind.
IsKnown-tail :
    (t orig : Bytes) (order : Dict) (tk : IsToken t) (k : ℕ) (o : Bytes)
    → k ≢ tk.id
    → IsKnown ((t, orig) ∷ order) k o
    → IsKnown order k o
IsKnown-tail t orig order tk k o ne h = record {
  fits = h.fits;
  present = elim h.present [
    | inl e ↦ absurd (ne (token_injective k tk.id h.fits tk.fits (sym e ∙ tk.is_token)))
    | inr later ↦ later
  ];
  means = h.means.1;
}

pub restore-render :
    (order : Dict) (ps : List Piece)
    → All (λ e. IsToken e.0) order
    → AllMarks (IsKnown order) ps
    → contains token_prefix (expand ps) ≡ false
    → restore order (render ps) ≡ expand ps
unfolding restore
restore-render [] ps tokens known clean =
    render-eq-expand ps (AllMarks-map (IsKnown []) _ ps (λ k o h. h.present) known)
restore-render ((t, orig) ∷ order) ps tokens known clean =
    let tk = tokens.0 in
    ap (restore order) (restore_round t orig ps order tk known clean)
    ∙ restore-render order (resolve tk.id ps) tokens.1
        (AllMarks-resolve tk.id _ _ ps (λ k o ne h. IsKnown-tail t orig order tk k o ne h) known)
        (ap (contains token_prefix) (expand-resolve tk.id ps) ∙ clean)
    ∙ expand-resolve tk.id ps

render-plain_all : (s : Bytes) → render (plain s) ≡ s
unfolding render
render-plain_all [] = refl
render-plain_all (b ∷ s) = ap (◌∷◌ b) (render-plain_all s)

AllMarks-plain_all : (P : ℕ → Bytes → Type 0) (s : Bytes) → AllMarks P (plain s)
AllMarks-plain_all P [] = tt
AllMarks-plain_all P (b ∷ s) = AllMarks-plain_all P s

expand-plain_all : (s : Bytes) → expand (plain s) ≡ s
unfolding expand
expand-plain_all [] = refl
expand-plain_all (b ∷ s) = ap (◌∷◌ b) (expand-plain_all s)

-- A text without the beginning of a token is left as it is.
pub restore-clean :
    (order : Dict) (s : Bytes)
    → All (λ e. IsToken e.0) order
    → contains token_prefix s ≡ false
    → restore order s ≡ s
restore-clean order s tokens clean =
    ap (restore order) (sym (render-plain_all s))
    ∙ restore-render order (plain s) tokens (AllMarks-plain_all _ s)
        (ap (contains token_prefix) (expand-plain_all s) ∙ clean)
    ∙ expand-plain_all s
