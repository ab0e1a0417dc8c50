-- ===== src/Tests/Streams.antt =====
-- The restoring reader at short streams.
use opengnk.Prelude.{List, [], ◌∷◌, ◌++◌, some, inl, ◌≡◌, refl, arith, All}
use opengnk.Text.{Bytes, codes, contains, starts_with, replace_all, replace_skip}
use opengnk.Text.Decimal.{decimal6}
use opengnk.Text.Dict.{Dict}
use opengnk.Sanitize.Token.{token}
use opengnk.Sanitize.TokenMap.{restore}
use mathlib.Core.List.Perm
use opengnk.Sanitize.TokenMap.{State}
use opengnk.Sanitize.TokenMap.Invariant.{IsValid, IsRegistered}
use opengnk.Sanitize.TokenMap.Pieces.{Piece, byte, mark, render, expand}
use opengnk.Sanitize.Redact.RoundTrip.{restore-Stands}
use opengnk.Sanitize.TokenMap.Restore.{IsToken}
use opengnk.Sanitize.Stream.{
  Event, chunk, last, Reader, Ending, finished, pump, read, read_on, enter, drain, held_tail,
  deliver, new_restoring_reader,
}
use opengnk.Sanitize.Stream.Held.{bytes_of, token_at_end_leaks, pump-clean}
use opengnk.Sanitize.Stream.Pending.{pending, rest_of, passed}
use opengnk.Sanitize.Stream.Pump.{rounds, pump-pending}

abbrev order : Dict
order = (token 1, codes "Bob") ∷ []

abbrev hello : List Event
hello = chunk (codes "data: hello there, how are you") ∷ last (codes "?") ∷ []

abbrev hello_reader : Reader
hello_reader = new_restoring_reader hello (λ n. order)

hello_rounds : rounds hello_reader ≡ 35
unfolding pending rest_of passed restore replace_all replace_skip starts_with token decimal6
hello_rounds = refl

pump-pending_example :
    (ending : Ending) × (pump 100 4 hello_reader [] ≡ some ([] ++ pending hello_reader, ending))
pump-pending_example =
    pump-pending 100 4 hello_reader [] (omega arith) (omega (arith, hello_rounds))

is_token : All (λ e. IsToken e.0) order
is_token = (record { id = 1; fits = omega arith; is_token = refl }, tt)

pump-clean_example :
    (ending : Ending) × (pump 100 4 hello_reader [] ≡ some (bytes_of hello, ending))
unfolding contains starts_with
pump-clean_example =
    pump-clean (λ n. order) hello 100 4 (λ n. is_token) (refl, (refl, tt)) (omega arith)
      (omega (arith, hello_rounds))

abbrev split_token : Reader
split_token = new_restoring_reader (chunk (codes "hi " ++ token 1) ∷ last [] ∷ []) (λ n. order)

split_rounds : rounds split_token ≡ 23
unfolding pending rest_of passed restore replace_all replace_skip starts_with token decimal6
split_rounds = refl

token_at_end_leaks_example :
    (head rest : Bytes) × (ending : Ending) × (pump 100 4 split_token []
      ≡ some ((head ++ token 1) ++ rest, ending))
token_at_end_leaks_example =
    token_at_end_leaks (λ n. order) (codes "hi ") 1 (last [] ∷ []) 100 4 (omega arith) (omega arith)
      (omega (arith, split_rounds))

-- The token is in the map, it arrives whole in the first chunk, and it is not restored.
leaks : pump 100 4096 split_token [] ≡ some (codes "hi " ++ token 1, finished)
unfolding pump read read_on enter drain held_tail deliver restore replace_all replace_skip
    starts_with token decimal6
leaks = refl

abbrev bob : State
bob = record {
  counter = 1;
  map = record { to_token = (codes "Bob", token 1) ∷ []; from_token = order };
}

bob-IsRegistered : IsRegistered order 1 (codes "Bob") (token 1)
bob-IsRegistered = record {
  id = 1;
  issued = omega arith;
  is_token = refl;
  present = inl refl;
  means = ((λ _. refl), tt);
}

bob-IsValid : IsValid bob
bob-IsValid = record {
  in_range = omega arith;
  forward = (bob-IsRegistered, tt);
  backward = (record { id = 1; issued = omega arith; is_token = refl }, tt);
}

abbrev answer : List Piece
answer = mark 1 (codes "Bob") ∷ byte b'!' ∷ mark 1 (codes "Bob") ∷ []

restore-Stands_example : restore order (render answer) ≡ expand answer
unfolding contains starts_with expand
restore-Stands_example =
    restore-Stands bob answer order bob-IsValid (Perm.refl order)
      ((bob-IsRegistered, omega arith), ((bob-IsRegistered, omega arith), tt)) refl
