-- ===== src/Sanitize/Stream/Held.antt =====
-- What the hold-back of 20 bytes does to tokens: it delays the end of a chunk, and that end is
-- never searched for tokens.
use opengnk.Prelude.{
  ℕ, ◌-◌, ◌≤◌, ◌<◌, ◌^◌, false, List, [], ◌∷◌, ◌++◌, append_assoc, some, ◌≡◌, refl, sym, ap, ◌∙◌,
  inl, inr, All, arith, leb, Bool-cases, length, length-append, take, drop, drop-append,
  take-append-drop,
}
use opengnk.Text.{Bytes, contains}
use opengnk.Text.Dict.{Dict}
use opengnk.Text.Decimal.{decimal6, length-decimal6}
use opengnk.Text.Search.{contains-take}
use opengnk.Sanitize.Token.{token, token_prefix, token_suffix}
use opengnk.Sanitize.TokenMap.{restore}
use opengnk.Sanitize.TokenMap.Restore.{IsToken, restore-clean}
use opengnk.Sanitize.Stream.{
  Event, chunk, last, broken, hold_back, Ending, pump, new_restoring_reader,
}
use opengnk.Sanitize.Stream.Pending.{passed, rest_of, pending}
use opengnk.Sanitize.Stream.Pump.{rounds, pump-pending}

passed-append :
    (order : Dict) (u v : Bytes)
    → length v ≤ hold_back
    → (head : Bytes) × (passed order (u ++ v) ≡ head ++ v)
unfolding passed
passed-append order u v h = elim (Bool-cases (leb (length (u ++ v)) hold_back)) [
  | inl e ↦ (u, rw e)
  | inr e ↦
      let k : ℕ = length (u ++ v) - hold_back in
      (
        restore order (take k (u ++ v)) ++ drop k u,
        rw e (
            ap (◌++◌ (restore order (take k (u ++ v))))
              (drop-append k u v (omega (arith, length-append u v)))
            ∙ sym (append_assoc (restore order (take k (u ++ v))) (drop k u) v)),
      )
]

short_token : (id : ℕ) → id < 10 ^ 6 → length (token id) ≤ hold_back
unfolding token
short_token id h = omega (arith, length-append (decimal6 id) token_suffix, length-decimal6 id h)

-- A token that ends a chunk which is not the last reaches the client as the token, whatever stands
-- before it in the chunk, whatever comes after the chunk, and whatever the map says, for every
-- token with a number below a million.
pub token_at_end_leaks :
    (orders : ℕ → Dict) (before : Bytes) (id : ℕ) (src : List Event) (fuel p : ℕ)
    → id < 10 ^ 6
    → 0 < p
    → rounds (new_restoring_reader (chunk (before ++ token id) ∷ src) orders) ≤ fuel
    → (head rest : Bytes) × (ending : Ending) × (pump fuel p
          (new_restoring_reader (chunk (before ++ token id) ∷ src) orders)
          []
        ≡ some ((head ++ token id) ++ rest, ending))
unfolding pending rest_of
token_at_end_leaks orders before id src fuel p small h enough =
    let r = new_restoring_reader (chunk (before ++ token id) ∷ src) orders in
    let (head, e) = passed-append (orders (length src)) before (token id) (short_token id small) in
    let (ending, done) = pump-pending fuel p r [] h enough in
    (head, rest_of orders src, ending, done ∙ ap (λ x. some (x ++ rest_of orders src, ending)) e)

-- The bytes of the events, up to the end or the first error and with what comes together with it.
abbrev pub bytes_of : List Event → Bytes
bytes_of [] = []
bytes_of (chunk c ∷ src) = c ++ bytes_of src
bytes_of (last c ∷ src) = c
bytes_of (broken c ∷ src) = c

abbrev pub IsClean : Event → Type 0
IsClean (chunk c) = contains token_prefix c ≡ false
IsClean (last c) = contains token_prefix c ≡ false
IsClean (broken c) = c ≡ []

passed-clean :
    (order : Dict) (c : Bytes)
    → All (λ e. IsToken e.0) order
    → contains token_prefix c ≡ false
    → passed order c ≡ c
unfolding passed
passed-clean order c tokens clean = elim (Bool-cases (leb (length c) hold_back)) [
  | inl e ↦ rw e
  | inr e ↦
      let k : ℕ = length c - hold_back in
      rw e (
        ap (λ x. x ++ drop k c)
          (restore-clean order (take k c) tokens (contains-take 0xC2 _ c k clean))
        ∙ take-append-drop k c)
]

rest_of-clean :
    (orders : ℕ → Dict) (src : List Event)
    → ((n : ℕ) → All (λ e. IsToken e.0) (orders n))
    → All IsClean src
    → rest_of orders src ≡ bytes_of src
unfolding rest_of
rest_of-clean orders [] tokens clean = refl
rest_of-clean orders (chunk c ∷ src) tokens (h, hs) =
    ap (λ x. x ++ rest_of orders src) (passed-clean (orders (length src)) c (tokens (length src)) h)
    ∙ ap (◌++◌ c) (rest_of-clean orders src tokens hs)
rest_of-clean orders (last c ∷ src) tokens (h, hs) =
    restore-clean (orders (length src)) c (tokens (length src)) h
rest_of-clean orders (broken c ∷ src) tokens (h, hs) = sym h

-- A stream whose pieces hold no beginning of a token, and which ends without an error or with one
-- that comes without bytes, reaches the client unchanged, byte for byte
-- and in order, however the bytes are cut into chunks and whatever the size of the buffer.
pub pump-clean :
    (orders : ℕ → Dict) (src : List Event) (fuel p : ℕ)
    → ((n : ℕ) → All (λ e. IsToken e.0) (orders n))
    → All IsClean src
    → 0 < p
    → rounds (new_restoring_reader src orders) ≤ fuel
    → (ending : Ending) × (pump fuel p (new_restoring_reader src orders) []
        ≡ some (bytes_of src, ending))
unfolding pending
pump-clean orders src fuel p tokens clean h enough =
    let (ending, done) = pump-pending fuel p (new_restoring_reader src orders) [] h enough in
    (ending, done ∙ ap (λ x. some (x, ending)) (rest_of-clean orders src tokens clean))
