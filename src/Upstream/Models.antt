-- ===== src/Upstream/Models.antt =====
-- `FetchModels` of internal/upstream/client.go.
use opengnk.Prelude.{ℕ, List, [], Option, none, some, leb, if◌then◌else◌}
use opengnk.Text.{Bytes}
use opengnk.Wallet.{Wallet, Pool, next}
use opengnk.Upstream.{Endpoint, Client, pick_endpoint_excluding}

-- What a request for the models comes to: no response, or a status with what the decoder makes of
-- the body, which is none where it fails. A model is its raw JSON text.
pub data Answer : Type 0 where
  no_answer : Answer
  answer : ℕ → Option (List Bytes) → Answer

-- What the world does in one call: the number that `rand.Intn` draws, and the answer to a request
-- to an endpoint, signed by a wallet.
pub record Call : Type 0 where
  pub draw : ℕ
  pub reply : Endpoint → Wallet → Answer

-- A call returns the models or an error, or panics.
pub data Fetched : Type 0 where
  models : List Bytes → Fetched
  error panicked : Fetched

-- What a call comes to, and the pool behind it.
pub record Fetch : Type 0 where
  pub result : Fetched
  pub pool : Pool

decoded : Option (List Bytes) → Fetched
decoded none = error
decoded (some ms) = models ms

unfoldable pub on_answer : Answer → Fetched
unfolding decoded
on_answer no_answer = error
on_answer (answer status body) = if leb 400 status then error else decoded body

unfoldable pub fetch_models : Call → Client → Fetch
fetch_models call c = elim (pick_endpoint_excluding c.endpoints [] call.draw) [
  | none ↦ record { result = error; pool = c.pool }
  | some ep ↦ elim (next c.pool).0 [
    | none ↦ record { result = panicked; pool = (next c.pool).1 }
    | some w ↦ record { result = on_answer (call.reply ep w); pool = (next c.pool).1 }
  ]
]
