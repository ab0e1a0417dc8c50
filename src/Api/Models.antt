-- ===== src/Api/Models.antt =====
-- The list of models: `loadModels`, which fetches it once, and `listModels`, which shows it.
pub mod Listed
pub mod Loaded
use opengnk.Prelude.{
  ℕ, zero, suc, ◌+◌, ◌*◌, List, [], ◌∷◌, ◌++◌, Option, none, some, leb, if◌then◌else◌, ◌>>=◌,
  length,
}
use opengnk.Text.{Bytes, codes}
use opengnk.Text.Decimal.{decimal}
use opengnk.Json.Strings.{marshal_string}
use opengnk.Json.Encode.{braces, brackets}
use opengnk.Json.Decode.{unmarshal_struct}
use opengnk.ToolSim.{string_of}
use opengnk.Wallet.{Pool}
use opengnk.Upstream.{Client}
use opengnk.Upstream.Models.{Call, Fetched, models, error, panicked, Fetch, fetch_models}
use opengnk.Api.Response.{Reply, field, write_json}

-- The id of a raw model; `none` is an error.
unfoldable pub id_of : Bytes → Option Bytes
id_of raw = do ms ← unmarshal_struct raw; string_of (codes "id") ms

pub record ModelEntry : Type 0 where
  pub id : Bytes
  pub object : Bytes
  pub created : ℕ
  pub owned_by : Bytes

abbrev pub entry : Bytes → ModelEntry
entry id = record {
  id = id;
  object = codes "model";
  created = 1677610602;
  owned_by = codes "gonka";
}

-- A model with an id that is not empty.
unfoldable pub add_entry : Option Bytes → List ModelEntry → List ModelEntry
add_entry none rest = rest
add_entry (some id) rest = if leb (length id) 0 then rest else entry id ∷ rest

unfoldable pub entries_of : List Bytes → List ModelEntry
entries_of [] = []
entries_of (raw ∷ raws) = add_entry (id_of raw) (entries_of raws)

or_default : List ModelEntry → List ModelEntry
or_default [] = entry (codes "gonka-model") ∷ []
or_default (e ∷ es) = e ∷ es

-- The entries that `listModels` shows.
unfoldable pub shown : List Bytes → List ModelEntry
unfolding or_default
shown raws = or_default (entries_of raws)

unfoldable pub marshal_entries : List ModelEntry → List Bytes
marshal_entries [] = []
marshal_entries (e ∷ es) =
    braces (
      field (codes "id") (marshal_string e.id)
      ∷ field (codes "object") (marshal_string e.object)
      ∷ field (codes "created") (decimal e.created)
      ∷ field (codes "owned_by") (marshal_string e.owned_by)
      ∷ [])
    ∷ marshal_entries es

-- `listModels`.
unfoldable pub list_models : List Bytes → Option Reply
list_models raws = write_json 200 (
    braces (
      field (codes "data") (brackets (marshal_entries (shown raws)))
      ∷ field (codes "object") (marshal_string (codes "list"))
      ∷ []))

-- What `loadModels` leaves: the models of the handler, the pool, the calls that it has made and the
-- seconds that it has slept; or a panic, in which no models are there.
pub record Load : Type 0 where
  pub models : Option (List Bytes)
  pub pool : Pool
  pub calls : ℕ
  pub slept : ℕ

-- One round more, behind which `loadModels` sleeps.
abbrev pub again : ℕ → Load → Load
again attempt l = record l { calls = l.calls + 1; slept = attempt * 2 + l.slept }

-- What follows a call; `rest` is the rest of the loop.
unfoldable pub on_fetch : ℕ → Load → Fetch → Load
on_fetch attempt rest f = elim f.result [
  | models ms ↦ record { models = some ms; pool = f.pool; calls = 1; slept = 0 }
  | error ↦ again attempt rest
  | panicked ↦ record { models = none; pool = f.pool; calls = 1; slept = 0 }
]

-- The loop of `loadModels`, with `left` rounds to go and the models that the handler has.
unfoldable pub load_from : (ℕ → Call) → ℕ → ℕ → Client → List Bytes → Load
load_from world zero attempt c old = record {
  models = some old;
  pool = c.pool;
  calls = 0;
  slept = 0;
}
load_from world (suc left) attempt c old =
    let f = fetch_models (world attempt) c in
    on_fetch attempt (load_from world left (attempt + 1) (record c { pool = f.pool }) old) f

abbrev pub load_models : (ℕ → Call) → Client → List Bytes → Load
load_models world c old = load_from world 3 1 c old
