-- ===== src/Sanitize/TokenMap/Invariant.antt =====
-- The two maps are inverse to one another, and `register` keeps them so.
use mathlib.Core.Path.{subst}
use opengnk.Prelude.{
  ℕ, ◌+◌, ◌^◌, ◌≤◌, ◌<◌, [], ◌∷◌, none, some, ◌≡◌, ◌≢◌, refl, sym, ap, ◌∙◌, inl, inr, All, All-map,
  Any, arith, Option-cases, Bool-cases,
}
use opengnk.Text.{Bytes, equal}
use opengnk.Text.Dict.{
  Dict, lookup, insert, All-insert, Any-insert, Any-insert_self, All-lookup, lookup-insert_self,
  lookup-insert_ne,
}
use opengnk.Text.Search.{equal→eq}
use opengnk.Sanitize.Token.{token}
use opengnk.Sanitize.Token.Laws.{token_injective}
use opengnk.Sanitize.TokenMap.{State, new_token_map, next_id, assign, register}

-- `t` is a token already issued, and in `entries` it stands for `original` and nothing else.
pub record IsRegistered (entries : Dict) (counter : ℕ) (original t : Bytes) : Type 0 where
  pub id : ℕ
  pub issued : id ≤ counter
  pub is_token : t ≡ token id
  pub present : Any (λ e. e.0 ≡ token id) entries
  pub means : All (λ e. e.0 ≡ token id → e.1 ≡ original) entries

pub record IsIssued (counter : ℕ) (t : Bytes) : Type 0 where
  pub id : ℕ
  pub issued : id ≤ counter
  pub is_token : t ≡ token id

pub record IsValid (s : State) : Type 0 where
  pub in_range : s.counter < 2 ^ 64
  pub forward : All (λ e. IsRegistered s.map.from_token s.counter e.0 e.1) s.map.to_token
  pub backward : All (λ e. IsIssued s.counter e.0) s.map.from_token

pub new-IsValid : (c : ℕ) → c < 2 ^ 64 → IsValid (record { counter = c; map = new_token_map })
new-IsValid c h = record { in_range = h; forward = tt; backward = tt }

-- An entry with a new token leaves what the older tokens stand for.
IsRegistered-insert :
    (entries : Dict) (c : ℕ) (original o t : Bytes)
    → c + 1 < 10 ^ 20
    → IsRegistered entries c o t
    → IsRegistered (insert (token (c + 1)) original entries) (c + 1) o t
IsRegistered-insert entries c original o t h r = record {
  id = r.id;
  issued = omega (arith, r.issued);
  is_token = r.is_token;
  present = Any-insert (token r.id) (token (c + 1)) original entries r.present;
  means =
      All-insert (λ e. e.0 ≡ token r.id → e.1 ≡ o) (token (c + 1)) original entries
        (λ e. absurd (clash (token_injective (c + 1) r.id h (omega (arith, r.issued)) e))) r.means;
}
  where
    clash : c + 1 ≡ r.id → ⊥
    clash e = omega (arith, r.issued)

IsIssued-suc : (c : ℕ) (t : Bytes) → IsIssued c t → IsIssued (c + 1) t
IsIssued-suc c t r = record { id = r.id; issued = omega (arith, r.issued); is_token = r.is_token }

-- The new entry itself.
IsRegistered-self :
    (entries : Dict) (c : ℕ) (original : Bytes)
    → c + 1 < 10 ^ 20
    → All (λ e. IsIssued c e.0) entries
    → IsRegistered (insert (token (c + 1)) original entries) (c + 1) original (token (c + 1))
IsRegistered-self entries c original h old = record {
  id = c + 1;
  issued = omega arith;
  is_token = refl;
  present = Any-insert_self (token (c + 1)) original entries;
  means =
      All-insert (λ e. e.0 ≡ token (c + 1) → e.1 ≡ original) (token (c + 1)) original entries
        (λ _. refl) (All-map entries (λ e i same. absurd (clash e i same)) old);
}
  where
    clash : (e : Bytes × Bytes) → IsIssued c e.0 → e.0 ≡ token (c + 1) → ⊥
    clash e i same =
        let k : i.id ≡ c + 1 =
          token_injective i.id (c + 1) (omega (arith, i.issued)) h (sym i.is_token ∙ same) in
        omega (arith, i.issued)

Any-All :
    (t a b : Bytes) (m : Dict)
    → Any (λ e. e.0 ≡ t) m
    → All (λ e. e.0 ≡ t → e.1 ≡ a) m
    → All (λ e. e.0 ≡ t → e.1 ≡ b) m
    → a ≡ b
Any-All t a b [] h p q = absurd h
Any-All t a b (e ∷ m) (inl h) p q = sym (p.0 h) ∙ q.0 h
Any-All t a b (e ∷ m) (inr h) p q = Any-All t a b m h p.1 q.1

-- A token stands for one text.
pub one_meaning :
    {entries : Dict} {c : ℕ} {a b t : Bytes}
    → c < 2 ^ 64
    → IsRegistered entries c a t
    → IsRegistered entries c b t
    → a ≡ b
one_meaning {entries} {a = a} {b = b} h r q =
    let k : r.id ≡ q.id =
      token_injective r.id q.id (omega (arith, r.issued)) (omega (arith, q.issued))
        (sym r.is_token ∙ q.is_token) in
    Any-All (token r.id) a b entries r.present r.means
      (subst (λ i. All (λ e. e.0 ≡ token i → e.1 ≡ b) entries) (sym k) q.means)

-- What `register` gives: a valid state, and a token that stands for the text from now on.
pub record Registers (original : Bytes) (s : State) (r : Bytes × State) : Type 0 where
  pub valid : IsValid r.1
  pub token_of : IsRegistered r.1.map.from_token r.1.counter original r.0
  pub grows : s.counter ≤ r.1.counter
  pub slow : r.1.counter ≤ s.counter + 1
  pub keeps :
      (o t : Bytes)
      → IsRegistered s.map.from_token s.counter o t
      → IsRegistered r.1.map.from_token r.1.counter o t

assign-Registers :
    (original : Bytes) (s : State)
    → IsValid s
    → s.counter + 1 < 2 ^ 64
    → Registers original s (assign original s)
unfolding assign
assign-Registers original s v h = rw id_eq (record {
  valid = record {
    in_range = h;
    forward =
        All-insert (λ e. IsRegistered entries' (c + 1) e.0 e.1) original (token (c + 1))
          s.map.to_token self
          (All-map s.map.to_token (λ e r. IsRegistered-insert entries c original e.0 e.1 fits r)
            v.forward);
    backward =
        All-insert (λ e. IsIssued (c + 1) e.0) (token (c + 1)) original entries
          (record { id = c + 1; issued = omega arith; is_token = refl })
          (All-map entries (λ e r. IsIssued-suc c e.0 r) v.backward);
  };
  token_of = self;
  grows = omega arith;
  slow = omega arith;
  keeps = λ o t r. IsRegistered-insert entries c original o t fits r;
})
  where
    c : ℕ
    c = s.counter

    entries : Dict
    entries = s.map.from_token

    entries' : Dict
    entries' = insert (token (c + 1)) original entries

    id_eq : next_id s.counter ≡ s.counter + 1
    id_eq = omega arith

    fits : c + 1 < 10 ^ 20
    fits = omega arith

    self : IsRegistered entries' (c + 1) original (token (c + 1))
    self = IsRegistered-self entries c original fits v.backward

register_known :
    (original t : Bytes) (s : State)
    → lookup original s.map.to_token ≡ some t
    → register original s ≡ (t, s)
unfolding register
register_known original t s e = rw (e, register)

register_fresh :
    (original : Bytes) (s : State)
    → lookup original s.map.to_token ≡ none
    → register original s ≡ assign original s
unfolding register
register_fresh original s e = rw (e, register)

known-Registers :
    (original t : Bytes) (s : State)
    → IsValid s
    → lookup original s.map.to_token ≡ some t
    → Registers original s (t, s)
known-Registers original t s v e = record {
  valid = v;
  token_of =
      All-lookup (λ x. IsRegistered s.map.from_token s.counter x.0 x.1) original s.map.to_token
        v.forward e;
  grows = omega arith;
  slow = omega arith;
  keeps = λ o u r. r;
}

pub register-Registers :
    (original : Bytes) (s : State)
    → IsValid s
    → s.counter + 1 < 2 ^ 64
    → Registers original s (register original s)
register-Registers original s v h = elim (Option-cases (lookup original s.map.to_token)) [
  | inl e ↦ rw (register_fresh original s e) (assign-Registers original s v h)
  | inr (t, e) ↦ rw (register_known original t s e) (known-Registers original t s v e)
]

-- Registering a text makes the state valid again, and the token is issued and stands for that
-- text only, when the counter is below its last value.
pub register-IsValid :
    (original : Bytes) (s : State)
    → IsValid s
    → s.counter + 1 < 2 ^ 64
    → IsValid (register original s).1
      × IsRegistered
          (register original s).1.map.from_token
          (register original s).1.counter
          original
          (register original s).0
register-IsValid original s v h = let r = register-Registers original s v h in (r.valid, r.token_of)

register_stores :
    (original : Bytes) (s : State)
    → lookup original (register original s).1.map.to_token ≡ some (register original s).0
register_stores original s = elim (Option-cases (lookup original s.map.to_token)) [
  | inl e ↦
      rw (register_fresh original s e)
        (unfold assign in lookup-insert_self original _ s.map.to_token)
  | inr (t, e) ↦ rw (register_known original t s e) e
]

register_keeps :
    (original other t : Bytes) (s : State)
    → lookup other s.map.to_token ≡ some t
    → lookup other (register original s).1.map.to_token ≡ some t
register_keeps original other t s e = elim (Option-cases (lookup original s.map.to_token)) [
  | inl f ↦ rw (register_fresh original s f) (unfold assign in kept f)
  | inr (u, f) ↦ rw (register_known original u s f) e
]
  where
    kept :
        lookup original s.map.to_token ≡ none
        → lookup other (insert original (token (next_id s.counter)) s.map.to_token) ≡ some t
    kept f = elim (Bool-cases (equal original other)) [
      | inl same ↦
          let clash : some t ≡ none =
            sym e ∙ ap (λ x. lookup x s.map.to_token) (sym (equal→eq original other same)) ∙ f in
          cc
      | inr ne ↦ lookup-insert_ne original _ other s.map.to_token ne ∙ e
    ]

-- A text keeps its token: registering it again, with any other text registered in between,
-- returns the same token and changes nothing.
pub register_stable :
    (original other : Bytes) (s : State)
    → register original (register other (register original s).1).1
      ≡ ((register original s).0, (register other (register original s).1).1)
register_stable original other s =
    register_known original (register original s).0 (register other (register original s).1).1 (
      register_keeps other original (register original s).0 (register original s).1
        (register_stores original s))

-- Different texts get different tokens.
pub register_injective :
    (a b : Bytes) (s : State)
    → IsValid s
    → s.counter + 2 < 2 ^ 64
    → a ≢ b
    → (register a s).0 ≢ (register b (register a s).1).0
register_injective a b s v h ne same =
    let r = register-Registers a s v (omega arith) in
    let q = register-Registers b (register a s).1 r.valid (omega (arith, r.slow)) in
    let first = q.keeps a (register a s).0 r.token_of in
    ne (one_meaning q.valid.in_range first (rw (← same) at q.token_of))
