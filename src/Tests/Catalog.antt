-- ===== src/Tests/Catalog.antt =====
-- The list of models on small inputs.
use opengnk.Prelude.{ℕ, ◌<◌, List, [], ◌∷◌, some, ◌≡◌, refl, ◌⊎◌, length, leb, if◌then◌else◌}
use opengnk.Text.{Bytes, codes, equal, starts_with}
use opengnk.Text.Trim.{reverse_onto}
use opengnk.Json.Syntax.{valid}
use opengnk.Json.Split.{skip_spaces, trim, cut, trim_all, items, halve, members}
use opengnk.Json.Strings.{rune_width, unescape, unquote}
use opengnk.Json.Decode.{shape, fold_key, field_values, unmarshal_struct, string_field}
use opengnk.ToolSim.{string_of}
use opengnk.Wallet.{next, next_index}
use opengnk.Wallet.Fairness
use opengnk.Upstream.{
  Endpoint, Client, pick_endpoint_excluding, candidates, draw_from, fall_back, member,
}
use opengnk.Upstream.Models.{no_answer, answer, Call, on_answer, fetch_models}
use opengnk.Api.Models.{
  entry, id_of, add_entry, entries_of, shown, load_from, on_fetch, load_models,
}
use opengnk.Api.Models.Listed.{AreEntries, shown-AreEntries}

abbrev raws : List Bytes
raws = codes "{\"id\":\"qwen\"}" ∷ codes "{\"id\":\"\"}" ∷ codes "{\"id\":7}" ∷ []

abbrev node : Endpoint
node = record { url = codes "http://a/v1"; address = codes "a" }

abbrev client : Client
client = record {
  source_url = codes "http://node";
  pool = record { wallets = record { signer = 11; address = codes "gonka1a" } ∷ []; counter = 0 };
  endpoints = node ∷ [];
}

-- The first call is lost, and the second one brings the models.
abbrev late : ℕ → Call
late n = record { draw = 0; reply = λ ep w. if leb 2 n then answer 200 (some raws) else no_answer }

loads_late :
    ((load_models late client []).models ≡ some raws)
    × ((load_models late client []).calls ≡ 2)
    × ((load_models late client []).slept ≡ 2)
unfolding load_from on_fetch fetch_models on_answer pick_endpoint_excluding candidates draw_from
    fall_back member equal next next_index
loads_late = (refl, refl, refl)

shown-AreEntries_example :
    (AreEntries raws (shown raws) × (0 < length (shown raws)))
    ⊎ (AreEntries raws [] × (shown raws ≡ entry (codes "gonka-model") ∷ []))
shown-AreEntries_example = shown-AreEntries raws

shows : shown raws ≡ entry (codes "qwen") ∷ []
unfolding shown entries_of add_entry id_of string_of string_field field_values fold_key
    unmarshal_struct shape valid trim skip_spaces reverse_onto items members halve trim_all cut
    unquote unescape rune_width equal starts_with
shows = refl
