-- ===== src/Sanitize/TokenMap.antt =====
-- `TokenMap`: the two maps of one request, and the process-wide counter that numbers the tokens.
pub mod Invariant
pub mod Pieces
pub mod Restore
use opengnk.Prelude.{
  ℕ, ◌+◌, ◌%◌, ◌^◌, Bool, true, false, List, [], ◌∷◌, Option, none, some, length, ◌==◌,
}
use opengnk.Text.{Bytes, replace_all}
use opengnk.Text.Dict.{Dict, lookup, insert}
use opengnk.Sanitize.Token.{token}

pub record TokenMap : Type 0 where
  pub to_token : Dict
  pub from_token : Dict

abbrev pub new_token_map : TokenMap
new_token_map = record { to_token = []; from_token = [] }

-- `globalCounter`, and the map of the request. Requests that run beside this one may advance the
-- counter between two calls; the invariant holds for every later value of it.
pub record State : Type 0 where
  pub counter : ℕ
  pub map : TokenMap

-- `globalCounter.Add(1)`: an atomic add on a `uint64`.
abbrev pub next_id : ℕ → ℕ
next_id counter = (counter + 1) % 2 ^ 64

-- The part of `register` behind the lookup.
assign : Bytes → State → Bytes × State
assign original s =
    let id = next_id s.counter in
    let tok = token id in
    (
      tok,
      record {
        counter = id;
        map = record {
          to_token = insert original tok s.map.to_token;
          from_token = insert tok original s.map.from_token;
        };
      },
    )

unfoldable pub register : Bytes → State → Bytes × State
unfolding assign
register original s = elim (lookup original s.map.to_token) [
  | some tok ↦ (tok, s)
  | none ↦ assign original s
]

-- The loop of `Restore`. Go's order of iteration over a map is arbitrary, so the entries come as
-- a list, in the order in which the loop meets them.
unfoldable pub restore : Dict → Bytes → Bytes
restore [] text = text
restore ((tok, orig) ∷ order) text = restore order (replace_all text tok orig)

unfoldable pub is_empty : TokenMap → Bool
is_empty m = length m.to_token == 0

pub count : TokenMap → ℕ
count m = length m.to_token
