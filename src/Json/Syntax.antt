-- ===== src/Json/Syntax.antt =====
-- The scanner of encoding/json: a state machine that reads one byte at a time.
use opengnk.Prelude.{
  ℕ, ◌-◌, Bool, true, false, ◌&&◌, ◌||◌, List, [], ◌∷◌, Option, none, some, ltb, leb, ◌==◌,
  if◌then◌else◌, length,
}
use opengnk.Text.{Bytes, codes}

-- Where the scanner stands. The flag of a string says that it is a key; `word` has the letters of
-- `true`, `false` or `null` that are still to come.
pub data Mode : Type 0 where
  begin_value first_item first_key next_key colon after_value : Mode
  in_text escaped : Bool → Mode
  hex : Bool → ℕ → Mode
  minus lone_zero digits point fraction exponent exponent_sign exponent_digits : Mode
  word : Bytes → Mode

-- The open objects (`true`) and arrays (`false`), the innermost first.
pub record Scan : Type 0 where
  pub mode : Mode
  pub stack : List Bool

abbrev at : Mode → List Bool → Option Scan
at m stack = some (record { mode = m; stack = stack })

abbrev pub is_space : ℕ → Bool
is_space c = c == 32 || c == 9 || c == 10 || c == 13

abbrev is_digit : ℕ → Bool
is_digit c = leb 48 c && leb c 57

abbrev pub is_hex : ℕ → Bool
is_hex c = leb 48 c && leb c 57 || leb 97 c && leb c 102 || leb 65 c && leb c 70

-- No more than ten thousand levels.
push : Bool → Mode → List Bool → Option Scan
push object m stack = if leb 10000 (length stack) then none else at m (object ∷ stack)

start_value : ℕ → List Bool → Option Scan
start_value c stack =
    if c == b'{'
    then push true first_key stack
    else if c == b'['
    then push false first_item stack
    else if c == 34
    then at (in_text false) stack
    else if c == b'-'
    then at minus stack
    else if c == 48
    then at lone_zero stack
    else if is_digit c
    then at digits stack
    else if c == b't'
    then at (word (codes "rue")) stack
    else if c == b'f'
    then at (word (codes "alse")) stack
    else if c == b'n'
    then at (word (codes "ull")) stack
    else none

-- What may follow a value.
finish : ℕ → List Bool → Option Scan
finish c [] = if is_space c then at after_value [] else none
finish c (true ∷ stack) =
    if is_space c
    then at after_value (true ∷ stack)
    else if c == b','
    then at next_key (true ∷ stack)
    else if c == b'}'
    then at after_value stack
    else none
finish c (false ∷ stack) =
    if is_space c
    then at after_value (false ∷ stack)
    else if c == b','
    then at begin_value (false ∷ stack)
    else if c == b']'
    then at after_value stack
    else none

abbrev pop : List Bool → List Bool
pop [] = []
pop (k ∷ stack) = stack

end_text : Bool → List Bool → Option Scan
end_text true stack = at colon stack
end_text false stack = at after_value stack

is_escape : ℕ → Bool
is_escape c =
    c == 34 || c == 92 || c == 47 || c == b'b' || c == b'f' || c == b'n' || c == b'r' || c == b't'

-- Behind a digit, with the modes that a point and an exponent lead to.
number : ℕ → Bool → Bool → List Bool → Option Scan
number c with_point with_exponent stack =
    if with_point && c == b'.'
    then at point stack
    else if with_exponent && (c == b'e' || c == b'E')
    then at exponent stack
    else finish c stack

step : ℕ → Mode → List Bool → Option Scan
unfolding push start_value finish end_text is_escape number
step c begin_value stack = if is_space c then at begin_value stack else start_value c stack
step c first_item stack =
    if is_space c
    then at first_item stack
    else if c == b']'
    then at after_value (pop stack)
    else start_value c stack
step c first_key stack =
    if is_space c
    then at first_key stack
    else if c == b'}'
    then at after_value (pop stack)
    else if c == 34
    then at (in_text true) stack
    else none
step c next_key stack =
    if is_space c then at next_key stack else if c == 34 then at (in_text true) stack else none
step c colon stack =
    if is_space c then at colon stack else if c == b':' then at begin_value stack else none
step c after_value stack = finish c stack
step c (in_text key) stack =
    if c == 34
    then end_text key stack
    else if c == 92
    then at (escaped key) stack
    else if ltb c 32
    then none
    else at (in_text key) stack
step c (escaped key) stack =
    if c == b'u' then at (hex key 4) stack else if is_escape c then at (in_text key) stack else none
step c (hex key n) stack =
    if is_hex c
    then (if leb n 1 then at (in_text key) stack else at (hex key (n - 1)) stack)
    else none
step c minus stack =
    if c == 48 then at lone_zero stack else if is_digit c then at digits stack else none
step c lone_zero stack = number c true true stack
step c digits stack = if is_digit c then at digits stack else number c true true stack
step c point stack = if is_digit c then at fraction stack else none
step c fraction stack = if is_digit c then at fraction stack else number c false true stack
step c exponent stack =
    if c == b'+' || c == b'-'
    then at exponent_sign stack
    else if is_digit c
    then at exponent_digits stack
    else none
step c exponent_sign stack = if is_digit c then at exponent_digits stack else none
step c exponent_digits stack =
    if is_digit c then at exponent_digits stack else number c false false stack
step c (word []) stack = finish c stack
step c (word (d ∷ ds)) stack = if c == d then at (word ds) stack else none

is_over : Option Scan → Bool
is_over none = false
is_over (some s) = elim s.mode [ after_value ↦ leb (length s.stack) 0 | _ ↦ false ]

run : Bytes → Option Scan → Option Scan
unfolding step
run [] s = s
run (c ∷ text) none = none
run (c ∷ text) (some s) = run text (step c s.mode s.stack)

-- `checkValid`: the end of the text counts as a space.
unfoldable pub valid : Bytes → Bool
unfolding run step is_over push start_value finish end_text is_escape number
valid text = is_over (run (32 ∷ []) (run text (at begin_value [])))
