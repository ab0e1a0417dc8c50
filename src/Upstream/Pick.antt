-- ===== src/Upstream/Pick.antt =====
-- The choice of an endpoint.
use mathlib.Core.Path.{subst}
use opengnk.Prelude.{
  ℕ, zero, suc, ◌<◌, ◌%◌, true, false, List, [], ◌∷◌, some, ◌≡◌, refl, sym, ◌∙◌, ◌⊎◌, inl, inr, All,
  Any, All-map, arith, Bool-cases, length, get_elem?, get_elem?_total,
}
use opengnk.Text.{Bytes}
use opengnk.Upstream.{Endpoint, member, candidates, draw_from, fall_back, pick_endpoint_excluding}

abbrev pub IsOneOf : List Endpoint → Endpoint → Type 0
IsOneOf eps ep = Any (λ e. e ≡ ep) eps

-- An endpoint that has not been tried, or any one where all have been tried.
abbrev pub IsChoice : List Endpoint → List Bytes → Endpoint → Type 0
IsChoice eps tried ep =
    IsOneOf eps ep
    × ((member ep.address tried ≡ false) ⊎ All (λ e. member e.address tried ≡ true) eps)

abbrev IsCandidate : List Endpoint → List Bytes → Endpoint → Type 0
IsCandidate eps tried ep = IsOneOf eps ep × (member ep.address tried ≡ false)

candidates_new :
    (tried : List Bytes) (e : Endpoint) (eps : List Endpoint)
    → member e.address tried ≡ false
    → candidates tried (e ∷ eps) ≡ e ∷ candidates tried eps
unfolding candidates
candidates_new tried e eps m = rw m refl

candidates_tried :
    (tried : List Bytes) (e : Endpoint) (eps : List Endpoint)
    → member e.address tried ≡ true
    → candidates tried (e ∷ eps) ≡ candidates tried eps
unfolding candidates
candidates_tried tried e eps m = rw m refl

candidates-All :
    (tried : List Bytes) (eps : List Endpoint) → All (IsCandidate eps tried) (candidates tried eps)
candidates-All tried [] = unfold candidates in tt
candidates-All tried (e ∷ eps) =
    let rest : All (IsCandidate (e ∷ eps) tried) (candidates tried eps) =
      All-map (candidates tried eps) (λ x h. (inr h.0, h.1)) (candidates-All tried eps) in
    elim (Bool-cases (member e.address tried)) [
      | inl m ↦
          subst (λ es. All (IsCandidate (e ∷ eps) tried) es) (sym (candidates_tried tried e eps m))
            rest
      | inr m ↦
          subst (λ es. All (IsCandidate (e ∷ eps) tried) es) (sym (candidates_new tried e eps m))
            ((inl refl, m), rest)
    ]

candidates-none :
    (tried : List Bytes) (eps : List Endpoint)
    → candidates tried eps ≡ []
    → All (λ e. member e.address tried ≡ true) eps
candidates-none tried [] h = tt
candidates-none tried (e ∷ eps) h = elim (Bool-cases (member e.address tried)) [
  | inl m ↦ (m, candidates-none tried eps (sym (candidates_tried tried e eps m) ∙ h))
  | inr m ↦
      let eq : e ∷ candidates tried eps ≡ [] = sym (candidates_new tried e eps m) ∙ h in
      absurd (ground (arith, eq))
]

All-get_elem? :
    {A : Type 0} (P : A → Type 0) (xs : List A) (i : ℕ) (x : A)
    → All P xs
    → get_elem? xs i ≡ some x
    → P x
All-get_elem? P [] i x h e = absurd (ground arith)
All-get_elem? P (y ∷ xs) zero x h e = subst P (ground arith) h.0
All-get_elem? P (y ∷ xs) (suc i) x h e = All-get_elem? P xs i x h.1 e

draw_from_lem :
    (P : Endpoint → Type 0) (xs : List Endpoint) (draw : ℕ)
    → 0 < length xs
    → All P xs
    → (ep : Endpoint) × (draw_from xs draw ≡ some ep) × P ep
unfolding draw_from
draw_from_lem P xs draw h all =
    let (ep, found) = get_elem?_total xs (draw % length xs) (omega (arith, h)) in
    (ep, found, All-get_elem? P xs (draw % length xs) ep all found)

All-self : (eps : List Endpoint) → All (IsOneOf eps) eps
All-self [] = tt
All-self (e ∷ eps) = (inl refl, All-map eps (λ x h. inr h) (All-self eps))

fall_back_lem :
    (tried : List Bytes) (eps chosen : List Endpoint) (draw : ℕ)
    → 0 < length eps
    → candidates tried eps ≡ chosen
    → (ep : Endpoint) × (fall_back eps chosen draw ≡ some ep) × IsChoice eps tried ep
unfolding fall_back
fall_back_lem tried eps [] draw h e =
    draw_from_lem (IsChoice eps tried) eps draw h
      (All-map eps (λ x one. (one, inr (candidates-none tried eps e))) (All-self eps))
fall_back_lem tried eps (x ∷ xs) draw h e =
    draw_from_lem (IsChoice eps tried) (x ∷ xs) draw (omega arith) (
      All-map (x ∷ xs) (λ y c. (c.0, inl c.1))
        (subst (λ es. All (IsCandidate eps tried) es) e (candidates-All tried eps)))

-- Where there are endpoints, one of them is picked, and one that is not excluded, unless all are.
pub pick_endpoint_excluding-IsChoice :
    (eps : List Endpoint) (tried : List Bytes) (draw : ℕ)
    → 0 < length eps
    → (ep : Endpoint) × (pick_endpoint_excluding eps tried draw ≡ some ep) × IsChoice eps tried ep
unfolding pick_endpoint_excluding
pick_endpoint_excluding-IsChoice [] tried draw h = absurd (omega arith)
pick_endpoint_excluding-IsChoice (e ∷ es) tried draw h =
    fall_back_lem tried (e ∷ es) (candidates tried (e ∷ es)) draw h refl
