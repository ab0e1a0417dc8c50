-- ===== src/Api/Models/Loaded.antt =====
-- What `loadModels` leaves.
use opengnk.Prelude.{ℕ, zero, suc, ◌+◌, ◌*◌, ◌<◌, List, [], some, ◌≡◌, ◌⊎◌}
use opengnk.Text.{Bytes}
use opengnk.Wallet.{Wallet}
use opengnk.Wallet.Fairness.{IsValid}
use opengnk.Upstream.{Endpoint}
use opengnk.Upstream.Pick.{IsChoice}
use opengnk.Upstream.Models.{answer, Call, Fetched, models, error, panicked, Fetch}
use opengnk.Api.Models.{Load}

-- An endpoint of the client offers these models, under a status below 400.
pub record IsOffer (call : Call) (eps : List Endpoint) (ms : List Bytes) : Type 0 where
  pub endpoint : Endpoint
  pub wallet : Wallet
  pub status : ℕ
  pub chosen : IsChoice eps [] endpoint
  pub below : status < 400
  pub offered : call.reply endpoint wallet ≡ answer status (some ms)

-- A call that does not panic returns an offer or an error.
abbrev IsResult : Call → List Endpoint → Fetched → Type 0
IsResult call eps (models ms) = IsOffer call eps ms
IsResult call eps error = Unit
IsResult call eps panicked = ⊥

abbrev IsFetch : Call → List Endpoint → Fetch → Type 0
IsFetch call eps f = IsResult call eps f.result × IsValid f.pool

-- The seconds that `n` pauses take, from round `attempt` on.
abbrev pub pauses : ℕ → ℕ → ℕ
pauses attempt zero = 0
pauses attempt (suc n) = attempt * 2 + pauses (attempt + 1) n

-- The models come from the last call, or all the calls have failed and the models are the old ones.
abbrev pub IsLoaded : (ℕ → Call) → List Endpoint → ℕ → ℕ → List Bytes → Load → Type 0
IsLoaded world eps left attempt old l =
    IsValid l.pool
    × (((k : ℕ) × (ms : List Bytes) × (l.models ≡ some ms)
          × (l.calls ≡ k + 1)
          × (k < left)
          × (l.slept ≡ pauses attempt k)
          × IsOffer (world (attempt + k)) eps ms)
        ⊎ ((l.models ≡ some old) × (l.calls ≡ left) × (l.slept ≡ pauses attempt left)))
