-- ===== src/Sanitize/Stream/Pending.antt =====
-- What a reader still has to say, and that each `Read` says the first part of it.
use mathlib.Core.Path.{subst}
use opengnk.Prelude.{
  ℕ, ◌-◌, ◌<◌, true, false, List, [], ◌∷◌, ◌++◌, append_assoc, append-nil, ◌≡◌, refl, sym, ap, ◌∙◌,
  ◌⊎◌, inl, inr, arith, ltb, leb, if◌then◌else◌, Bool-cases, length, take, drop, take-append-drop,
  take_all,
}
use opengnk.Text.{Bytes, replace_all, replace_skip}
use opengnk.Text.Dict.{Dict}
use opengnk.Sanitize.TokenMap.{restore}
use opengnk.Sanitize.Stream.{
  Event, chunk, last, broken, Reader, Outcome, got, at_eof, failed, hold_back, held_tail, deliver,
  order_of, buffered, ended, fetch, enter, drain, read_on, read,
}

-- What becomes of a chunk that is not the last: a short one passes as it is, and so do the last
-- bytes of a longer one.
unfoldable pub passed : Dict → Bytes → Bytes
passed order c =
    if leb (length c) hold_back
    then c
    else restore order (take (length c - hold_back) c) ++ drop (length c - hold_back) c

-- The bytes that the events give rise to.
unfoldable pub rest_of : (ℕ → Dict) → List Event → Bytes
rest_of orders [] = []
rest_of orders (chunk c ∷ src) = passed (orders (length src)) c ++ rest_of orders src
rest_of orders (last c ∷ src) = restore (orders (length src)) c
rest_of orders (broken c ∷ src) = []

unfoldable pub pending : Reader → Bytes
pending r = r.buf ++ (if r.src_eof then [] else rest_of r.orders r.src)

pub restore-nil : (order : Dict) → restore order [] ≡ []
unfolding restore replace_all replace_skip
restore-nil [] = refl
restore-nil ((t, o) ∷ order) = restore-nil order

-- An outcome and a new state that say the first part of `whole` and keep the rest of it.
abbrev pub Yields : Bytes → Outcome → Reader → Type 0
Yields whole (got bytes) r' = bytes ++ pending r' ≡ whole
Yields whole at_eof r' = whole ≡ []
Yields whole failed r' = whole ≡ []

deliver_split :
    (p : ℕ) (restored tail : Bytes)
    → take p restored ++ (if ltb p (length restored) then drop p restored ++ tail else tail)
      ≡ restored ++ tail
deliver_split p restored tail = elim (Bool-cases (ltb p (length restored))) [
  | inl e ↦ rw e (
      sym (append_assoc (take p restored) (drop p restored) tail)
      ∙ ap (λ x. x ++ tail) (take-append-drop p restored))
  | inr e ↦ rw e (ap (λ x. x ++ tail) (take_all p restored (ground arith)))
]

held_tail_is : (r : Reader) → (r.src_eof ≡ false) ⊎ (r.buf ≡ []) → held_tail r ≡ r.buf
unfolding held_tail
held_tail_is r h = ground arith

deliver-Yields :
    (p : ℕ) (safe : Bytes) (r : Reader)
    → (r.src_eof ≡ false) ⊎ (r.buf ≡ [])
    → Yields (restore (order_of r) safe ++ pending r) (deliver p safe r).0 (deliver p safe r).1
unfolding deliver pending
deliver-Yields p safe r h =
    let restored = restore (order_of r) safe in
    let after = if r.src_eof then [] else rest_of r.orders r.src in
    sym (append_assoc (take p restored) _ after)
    ∙ ap (λ x. x ++ after)
        (deliver_split p restored (held_tail r) ∙ ap (◌++◌ restored) (held_tail_is r h))
    ∙ append_assoc restored r.buf after

drain-Yields : (p : ℕ) (r : Reader) → Yields (pending r) (drain p r).0 (drain p r).1
unfolding drain pending
drain-Yields p r =
    let after = if r.src_eof then [] else rest_of r.orders r.src in
    sym (append_assoc (take p r.buf) (drop p r.buf) after)
    ∙ ap (λ x. x ++ after) (take-append-drop p r.buf)

-- How `Read` begins, when it is asked for something.
pub data Start (p : ℕ) (r : Reader) : Type 0 where
  drains : enter p r ≡ buffered → Start p r
  ends : enter p r ≡ ended → r.buf ≡ [] → r.src_eof ≡ true → Start p r
  fetches : enter p r ≡ fetch → r.buf ≡ [] → r.src_eof ≡ false → Start p r

length-eq-zero {ℓ} : {A : Type ℓ} (xs : List A) → ltb 0 (length xs) ≡ false → xs ≡ []
length-eq-zero [] h = refl
length-eq-zero (x ∷ xs) h = absurd (ground arith)

pub start : (p : ℕ) (r : Reader) → 0 < p → Start p r
unfolding enter
start p r h = elim (Bool-cases (ltb 0 (length r.buf))) [
  | inl some_left ↦ drains (ground arith)
  | inr none_left ↦ elim (Bool-cases r.src_eof) [
    | inl e ↦ ends (ground arith) (length-eq-zero r.buf none_left) e
    | inr e ↦ fetches (ground arith) (length-eq-zero r.buf none_left) e
  ]
]

pub read_on_buffered :
    (p : ℕ) (src : List Event) (r : Reader) → enter p r ≡ buffered → read_on p src r ≡ drain p r
unfolding read_on
read_on_buffered p [] r e = rw (e, read_on)
read_on_buffered p (broken c ∷ src) r e = rw (e, read_on)
read_on_buffered p (last c ∷ src) r e = rw (e, read_on)
read_on_buffered p (chunk c ∷ src) r e = rw (e, read_on)

pub read_on_ended :
    (p : ℕ) (src : List Event) (r : Reader) → enter p r ≡ ended → read_on p src r ≡ (at_eof, r)
unfolding read_on
read_on_ended p [] r e = rw (e, read_on)
read_on_ended p (broken c ∷ src) r e = rw (e, read_on)
read_on_ended p (last c ∷ src) r e = rw (e, read_on)
read_on_ended p (chunk c ∷ src) r e = rw (e, read_on)

abbrev Says : Bytes → Outcome × Reader → Type 0
Says whole out = Yields whole out.0 out.1

Says-eq : {a b : Bytes} (out : Outcome × Reader) → a ≡ b → Says a out → Says b out
Says-eq out e h = subst (λ w. Says w out) e h

pub pending_nil : (r : Reader) → r.buf ≡ [] → r.src_eof ≡ true → pending r ≡ []
unfolding pending
pending_nil r hb he = rw (hb, he)

pub pending_open : (r : Reader) → r.src_eof ≡ false → pending r ≡ r.buf ++ rest_of r.orders r.src
unfolding pending
pending_open r he = rw he

passed_short : (order : Dict) (c : Bytes) → leb (length c) hold_back ≡ true → passed order c ≡ c
unfolding passed
passed_short order c h = rw h

passed_long :
    (order : Dict) (c : Bytes)
    → leb (length c) hold_back ≡ false
    → passed order c
      ≡ restore order (take (length c - hold_back) c) ++ drop (length c - hold_back) c
unfolding passed
passed_long order c h = rw h

module _ (p : ℕ) (r : Reader) (f : enter p r ≡ fetch) (hb : r.buf ≡ [])
    (he : r.src_eof ≡ false) where
  pending_fetched : (src : List Event) → r.src ≡ src → pending r ≡ rest_of r.orders src
  pending_fetched src e =
      pending_open r he ∙ ap (λ b. b ++ rest_of r.orders r.src) hb ∙ ap (rest_of r.orders) e

  fetch_end : r.src ≡ [] → Says (pending r) (read_on p [] r)
  unfolding read_on
  fetch_end e =
      let r' = record r { src_eof = true; src = [] } in
      rw (f, read_on)
        (Says-eq (deliver p [] r')
          (ap (◌++◌ (restore (r.orders 0) [])) (pending_nil r' hb refl)
            ∙ append-nil _
            ∙ restore-nil (r.orders 0)
            ∙ sym (pending_fetched [] e ∙ unfold rest_of in refl))
          (deliver-Yields p [] r' (inr hb)))

  fetch_broken :
      (c : Bytes) (src : List Event)
      → r.src ≡ broken c ∷ src
      → Says (pending r) (read_on p (broken c ∷ src) r)
  unfolding read_on
  fetch_broken c src e =
      rw (f, read_on) (pending_fetched (broken c ∷ src) e ∙ unfold rest_of in refl)

  fetch_last :
      (c : Bytes) (src : List Event)
      → r.src ≡ last c ∷ src
      → Says (pending r) (read_on p (last c ∷ src) r)
  unfolding read_on
  fetch_last c src e =
      let r' = record r { src_eof = true; src = src } in
      rw (f, read_on)
        (Says-eq (deliver p c r')
          (ap (◌++◌ (restore (r.orders (length src)) c)) (pending_nil r' hb refl)
            ∙ append-nil _
            ∙ sym (pending_fetched (last c ∷ src) e ∙ unfold rest_of in refl))
          (deliver-Yields p c r' (inr hb)))

  fetch_short :
      (c : Bytes) (src : List Event)
      → r.src ≡ chunk c ∷ src
      → leb (length c) hold_back ≡ true
      → (let r' = record r { buf = r.buf ++ c; src = src } in Says (pending r') (read_on p src r'))
      → Says (pending r) (read_on p (chunk c ∷ src) r)
  unfolding read_on
  fetch_short c src e short again =
      let r' = record r { buf = r.buf ++ c; src = src } in
      rw (f, short, read_on)
        (Says-eq (read_on p src r')
          (pending_open r' he
            ∙ ap (λ b. (b ++ c) ++ rest_of r.orders src) hb
            ∙ ap (λ x. x ++ rest_of r.orders src)
                (sym (passed_short (r.orders (length src)) c short))
            ∙ sym (pending_fetched (chunk c ∷ src) e ∙ unfold rest_of in refl))
          again)

  fetch_long :
      (c : Bytes) (src : List Event)
      → r.src ≡ chunk c ∷ src
      → leb (length c) hold_back ≡ false
      → Says (pending r) (read_on p (chunk c ∷ src) r)
  unfolding read_on
  fetch_long c src e long =
      let safe = take (length c - hold_back) c in
      let held = drop (length c - hold_back) c in
      let r' = record r { buf = r.buf ++ held; src = src } in
      rw (f, long, read_on)
        (Says-eq (deliver p safe r')
          (ap (◌++◌ (restore (r.orders (length src)) safe))
              (pending_open r' he ∙ ap (λ b. (b ++ held) ++ rest_of r.orders src) hb)
            ∙ sym (append_assoc (restore (r.orders (length src)) safe) held (rest_of r.orders src))
            ∙ ap (λ x. x ++ rest_of r.orders src) (sym (passed_long (r.orders (length src)) c long))
            ∙ sym (pending_fetched (chunk c ∷ src) e ∙ unfold rest_of in refl))
          (deliver-Yields p safe r' (inl he)))

read_on-Says :
    (p : ℕ) (src : List Event) (r : Reader)
    → 0 < p
    → r.src ≡ src
    → Says (pending r) (read_on p src r)
read_on-Says p [] r h e = elim (start p r h) [
  | drains f ↦ rw (read_on_buffered p [] r f) (drain-Yields p r)
  | ends f hb he ↦ rw (read_on_ended p [] r f) (pending_nil r hb he)
  | fetches f hb he ↦ fetch_end p r f hb he e
]
read_on-Says p (broken c ∷ src) r h e = elim (start p r h) [
  | drains f ↦ rw (read_on_buffered p (broken c ∷ src) r f) (drain-Yields p r)
  | ends f hb he ↦ rw (read_on_ended p (broken c ∷ src) r f) (pending_nil r hb he)
  | fetches f hb he ↦ fetch_broken p r f hb he c src e
]
read_on-Says p (last c ∷ src) r h e = elim (start p r h) [
  | drains f ↦ rw (read_on_buffered p (last c ∷ src) r f) (drain-Yields p r)
  | ends f hb he ↦ rw (read_on_ended p (last c ∷ src) r f) (pending_nil r hb he)
  | fetches f hb he ↦ fetch_last p r f hb he c src e
]
read_on-Says p (chunk c ∷ src) r h e =
    let again = read_on-Says p src (record r { buf = r.buf ++ c; src = src }) h refl in
    elim (start p r h) [
      | drains f ↦ rw (read_on_buffered p (chunk c ∷ src) r f) (drain-Yields p r)
      | ends f hb he ↦ rw (read_on_ended p (chunk c ∷ src) r f) (pending_nil r hb he)
      | fetches f hb he ↦ elim (Bool-cases (leb (length c) hold_back)) [
        | inl short ↦ fetch_short p r f hb he c src e short again
        | inr long ↦ fetch_long p r f hb he c src e long
      ]
    ]

-- Each `Read` into a buffer with room says the first part of what the reader has to say and keeps
-- the rest; it returns `io.EOF`, or the source's error, only when nothing is left to say.
pub read-Yields : (p : ℕ) (r : Reader) → 0 < p → Yields (pending r) (read p r).0 (read p r).1
unfolding read
read-Yields p r h = read_on-Says p r.src r h refl
