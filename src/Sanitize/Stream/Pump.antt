-- ===== src/Sanitize/Stream/Pump.antt =====
-- The copy loop ends, and has then written all that the reader had to say.
use opengnk.Prelude.{
  ℕ, zero, suc, ◌+◌, ◌≤◌, ◌<◌, true, List, [], ◌∷◌, ◌++◌, append_assoc, append-nil, some, ◌≡◌, refl,
  sym, ap, ◌∙◌, ◌⊎◌, inl, inr, arith, leb, if◌then◌else◌, Bool-cases, length, length-append,
  length-take,
}
use opengnk.Text.{Bytes}
use opengnk.Sanitize.Stream.{
  Event, chunk, last, broken, Reader, Outcome, got, at_eof, failed, hold_back, deliver, buffered,
  fetch, enter, drain, read_on, read, Ending, finished, errored, pump,
}
use opengnk.Sanitize.Stream.Pending.{
  drains, ends, fetches, start, read_on_buffered, read_on_ended, pending, read-Yields,
}

-- The events that are left, and the end if it has not been met.
abbrev weight : Reader → ℕ
weight r = length r.src + (if r.src_eof then 0 else 1)

-- A `Read` that returns no bytes has used up an event or met the end.
abbrev Moves : ℕ → Outcome × Reader → Type 0
Moves w (got bytes, r') = weight r' < w + length bytes
Moves w (at_eof, r') = Unit
Moves w (failed, r') = Unit

Moves-weaken : {v w : ℕ} (out : Outcome × Reader) → v ≤ w → Moves v out → Moves w out
Moves-weaken (got bytes, r') h m = omega arith
Moves-weaken (at_eof, r') h m = tt
Moves-weaken (failed, r') h m = tt

drain-Moves : (p : ℕ) (r : Reader) → 0 < p → enter p r ≡ buffered → Moves (weight r) (drain p r)
unfolding drain enter
drain-Moves p r h e = ground (arith, length-take p r.buf)

read_on_short :
    (p : ℕ) (c : Bytes) (src : List Event) (r : Reader)
    → enter p r ≡ fetch
    → leb (length c) hold_back ≡ true
    → read_on p (chunk c ∷ src) r ≡ read_on p src (record r { buf = r.buf ++ c; src = src })
unfolding read_on
read_on_short p c src r f short = rw (f, short, read_on)

read_on-Moves :
    (p : ℕ) (src : List Event) (r : Reader)
    → 0 < p
    → r.src ≡ src
    → Moves (weight r) (read_on p src r)
read_on-Moves p [] r h e = elim (start p r h) [
  | drains f ↦ rw (read_on_buffered p [] r f) (drain-Moves p r h f)
  | ends f hb he ↦ rw (read_on_ended p [] r f) tt
  | fetches f hb he ↦ unfold read_on deliver in rw (f, read_on) (ground (arith, he, ap length e))
]
read_on-Moves p (broken c ∷ src) r h e = elim (start p r h) [
  | drains f ↦ rw (read_on_buffered p (broken c ∷ src) r f) (drain-Moves p r h f)
  | ends f hb he ↦ rw (read_on_ended p (broken c ∷ src) r f) tt
  | fetches f hb he ↦ unfold read_on in rw (f, read_on) tt
]
read_on-Moves p (last c ∷ src) r h e = elim (start p r h) [
  | drains f ↦ rw (read_on_buffered p (last c ∷ src) r f) (drain-Moves p r h f)
  | ends f hb he ↦ rw (read_on_ended p (last c ∷ src) r f) tt
  | fetches f hb he ↦ unfold read_on deliver in rw (f, read_on) (ground (arith, he, ap length e))
]
read_on-Moves p (chunk c ∷ src) r h e =
    let r' = record r { buf = r.buf ++ c; src = src } in
    let again = read_on-Moves p src r' h refl in
    elim (start p r h) [
      | drains f ↦ rw (read_on_buffered p (chunk c ∷ src) r f) (drain-Moves p r h f)
      | ends f hb he ↦ rw (read_on_ended p (chunk c ∷ src) r f) tt
      | fetches f hb he ↦ elim (Bool-cases (leb (length c) hold_back)) [
        | inl short ↦
            rw (read_on_short p c src r f short)
              (Moves-weaken (read_on p src r') (ground (arith, he, ap length e)) again)
        | inr long ↦
            unfold read_on deliver in rw (f, long, read_on) (ground (arith, he, ap length e))
      ]
    ]

-- Enough rounds for the copy loop: one for each byte and each event that is left, and two more.
abbrev pub rounds : Reader → ℕ
rounds r = length (pending r) + weight r + 1

pump_round :
    (fuel p : ℕ) (r r' : Reader) (written bytes : Bytes)
    → (read p r).0 ≡ got bytes
    → (read p r).1 ≡ r'
    → pump (suc fuel) p r written ≡ pump fuel p r' (written ++ bytes)
unfolding pump
pump_round fuel p r r' written bytes e f = rw (← f) (rw (e, pump))

pump_eof :
    (fuel p : ℕ) (r : Reader) (written : Bytes)
    → (read p r).0 ≡ at_eof
    → pump (suc fuel) p r written ≡ some (written, finished)
unfolding pump
pump_eof fuel p r written e = rw (e, pump)

pump_failed :
    (fuel p : ℕ) (r : Reader) (written : Bytes)
    → (read p r).0 ≡ failed
    → pump (suc fuel) p r written ≡ some (written, errored)
unfolding pump
pump_failed fuel p r written e = rw (e, pump)

Outcome-cases : (o : Outcome) → ((bytes : Bytes) × (o ≡ got bytes)) ⊎ (o ≡ at_eof) ⊎ (o ≡ failed)
Outcome-cases (got bytes) = inl (bytes, refl)
Outcome-cases at_eof = inr (inl refl)
Outcome-cases failed = inr (inr refl)

read-Moves : (p : ℕ) (r : Reader) → 0 < p → Moves (weight r) (read p r)
unfolding read
read-Moves p r h = read_on-Moves p r.src r h refl

-- The copy loop ends, with all that the reader had to say written to the client, for every size
-- of the buffer.
pub pump-pending :
    (fuel p : ℕ) (r : Reader) (written : Bytes)
    → 0 < p
    → rounds r ≤ fuel
    → (ending : Ending) × (pump fuel p r written ≡ some (written ++ pending r, ending))
pump-pending zero p r written h enough = absurd (omega arith)
pump-pending (suc fuel) p r written h enough =
    let says = read-Yields p r h in
    let moves = read-Moves p r h in
    elim (Outcome-cases (read p r).0) [
      | inl (bytes, e) ↦
          let r' = (read p r).1 in
          let split : bytes ++ pending r' ≡ pending r = rw e at says in
          let fewer : weight r' < weight r + length bytes = rw e at moves in
          let (ending, later) =
            pump-pending fuel p r' (written ++ bytes) h
              (omega (arith, ap length split, length-append bytes (pending r'))) in
          (
            ending,
            pump_round fuel p r r' written bytes e refl
                ∙ later
                ∙ ap (λ x. some (x, ending))
                    (append_assoc written bytes (pending r') ∙ ap (◌++◌ written) split),
          )
      | inr (inl e) ↦
          let none_left : pending r ≡ [] = rw e at says in
          (
            finished,
            pump_eof fuel p r written e
                ∙ ap (λ x. some (x, finished))
                    (sym (append-nil written) ∙ ap (◌++◌ written) (sym none_left)),
          )
      | inr (inr e) ↦
          let none_left : pending r ≡ [] = rw e at says in
          (
            errored,
            pump_failed fuel p r written e
                ∙ ap (λ x. some (x, errored))
                    (sym (append-nil written) ∙ ap (◌++◌ written) (sym none_left)),
          )
    ]
