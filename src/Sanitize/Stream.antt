-- ===== src/Sanitize/Stream.antt =====
-- internal/sanitize/stream.go: `RestoringReader`, and the copy loop of `Handler.streamResponse`
-- that drives it.
pub mod Pending
pub mod Pump
pub mod Held
use opengnk.Prelude.{
  ℕ, zero, suc, ◌-◌, Bool, true, false, ◌&&◌, List, [], ◌∷◌, ◌++◌, Option, none, some, ltb, leb,
  ◌==◌, if◌then◌else◌, length, take, drop,
}
use opengnk.Text.{Bytes}
use opengnk.Text.Dict.{Dict}
use opengnk.Sanitize.TokenMap.{restore}

-- What one call of the source's `Read` gives: bytes with no error, bytes with `io.EOF`, or bytes
-- with another error.
pub data Event : Type 0 where
  chunk : Bytes → Event
  last : Bytes → Event
  broken : Bytes → Event

-- Go meets the entries of `tm.fromToken` in a new order on each call of `restoreBytes`; `orders`
-- gives that order for each number of events that are left, which is another one for each call. A
-- source with no events left is at its end.
pub record Reader : Type 0 where
  pub orders : ℕ → Dict
  pub buf : Bytes
  pub src_eof : Bool
  pub src : List Event

abbrev pub new_restoring_reader : List Event → (ℕ → Dict) → Reader
new_restoring_reader src orders = record { orders = orders; buf = []; src_eof = false; src = src }

-- The order of this call.
abbrev pub order_of : Reader → Dict
order_of r = r.orders (length r.src)

-- What `Read` returns: bytes and no error, `io.EOF`, or the source's error.
pub data Outcome : Type 0 where
  got : Bytes → Outcome
  at_eof : Outcome
  failed : Outcome

abbrev pub hold_back : ℕ
hold_back = 20

-- The held-back bytes behind the test `r.srcEOF && len(r.buf) > 0`.
unfoldable pub held_tail : Reader → Bytes
held_tail r = if r.src_eof && ltb 0 (length r.buf) then restore (order_of r) r.buf else r.buf

-- The end of `Read`, from `restored := restoreBytes(safe, r.tm)` on.
unfoldable pub deliver : ℕ → Bytes → Reader → Outcome × Reader
deliver p safe r =
    let restored = restore (order_of r) safe in
    let tail = held_tail r in
    (
      got (take p restored),
      record r { buf = if ltb p (length restored) then drop p restored ++ tail else tail },
    )

-- The early returns of `Read`, in their order.
pub data Entry : Type 0 where
  nothing_wanted buffered ended fetch : Entry

unfoldable pub enter : ℕ → Reader → Entry
enter p r =
    if p == 0
    then nothing_wanted
    else if ltb 0 (length r.buf)
    then buffered
    else if r.src_eof
    then ended
    else fetch

unfoldable pub drain : ℕ → Reader → Outcome × Reader
drain p r = (got (take p r.buf), record r { buf = drop p r.buf })

-- `Read`, on the source's events that are left; `p` is `len(p)`. A chunk that is too short starts
-- `Read` again.
unfoldable pub read_on : ℕ → List Event → Reader → Outcome × Reader
read_on p [] r = elim (enter p r) [
  | nothing_wanted ↦ (got [], r)
  | buffered ↦ drain p r
  | ended ↦ (at_eof, r)
  | fetch ↦ deliver p [] (record r { src_eof = true; src = [] })
]
read_on p (broken c ∷ src) r = elim (enter p r) [
  | nothing_wanted ↦ (got [], r)
  | buffered ↦ drain p r
  | ended ↦ (at_eof, r)
  | fetch ↦ (failed, record r { src = src })
]
read_on p (last c ∷ src) r = elim (enter p r) [
  | nothing_wanted ↦ (got [], r)
  | buffered ↦ drain p r
  | ended ↦ (at_eof, r)
  | fetch ↦ deliver p c (record r { src_eof = true; src = src })
]
read_on p (chunk c ∷ src) r = elim (enter p r) [
  | nothing_wanted ↦ (got [], r)
  | buffered ↦ drain p r
  | ended ↦ (at_eof, r)
  | fetch ↦ elim (leb (length c) hold_back) [
    | true ↦ read_on p src (record r { buf = r.buf ++ c; src = src })
    | false ↦
        deliver p (take (length c - hold_back) c)
          (record r { buf = r.buf ++ drop (length c - hold_back) c; src = src })
  ]
]

unfoldable pub read : ℕ → Reader → Outcome × Reader
read p r = read_on p r.src r

-- How the copy loop ends.
pub data Ending : Type 0 where
  finished errored : Ending

-- The loop of `streamResponse`, with what has been written so far to a client that takes every
-- write; `p` is the size of its buffer. `none` means that the fuel ran out.
unfoldable pub pump : ℕ → ℕ → Reader → Bytes → Option (Bytes × Ending)
pump zero p r written = none
pump (suc fuel) p r written =
    let (outcome, r') = read p r in
    elim outcome [
      | got bytes ↦ pump fuel p r' (written ++ bytes)
      | at_eof ↦ some (written, finished)
      | failed ↦ some (written, errored)
    ]
