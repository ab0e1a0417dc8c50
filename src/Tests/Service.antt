-- ===== src/Tests/Service.antt =====
-- The statistics behind one request, the wallets of a small environment, and a short signature.
use opengnk.Prelude.{◌+◌, [], ◌∷◌, none, some, ◌≡◌, refl, arith}
use opengnk.Prelude.{length, take, drop}
use opengnk.Text.{codes, starts_with}
use opengnk.Text.Trim.{index, trim_space, trim_front, width, reverse_onto}
use opengnk.Quality.{
  Middleware, Served, Phase, serving, timed, judged, counted, done, System, start, arrives,
  proceeds, Reaches, at_start, Follows, here, next, arrive, proceed, at_once, stats,
}
use opengnk.Quality.Counters.{IsCounted}
use opengnk.Quality.Reachable.{
  Reaches-IsCounted, Reaches-Follows, IsSound, stats-IsSound, stats_settled,
}
use opengnk.Config.{Env, wallets, load_wallets, parse_multi_wallets, parse_from, split, read_entry}
use opengnk.Config.Wallets.{IsUsable, load_wallets-IsUsable}
use opengnk.Signer.{low_s, big_bytes, set_bytes, encode}
use opengnk.Signer.Encoding.{encode_lem}
use opengnk.Prelude.Int.{pos}
use opengnk.Ner.{spans, convert, classify}

abbrev request : Served
request = record { headers = 200 ∷ []; cache = codes "HIT"; feedback = none; latency = 12 }

-- The system with the request alone, in a phase.
abbrev alone : Middleware → Phase → System
alone m p = record { middleware = m; threads = record { phase = p; served = request } ∷ [] }

abbrev m1 : Middleware
m1 = (arrive request start).middleware

abbrev m2 : Middleware
m2 = (proceed serving request m1).1

abbrev m3 : Middleware
m3 = (proceed timed request m2).1

abbrev m4 : Middleware
m4 = (proceed judged request m3).1

abbrev m5 : Middleware
m5 = (proceed counted request m4).1

settled : Follows start (alone m5 done)
unfolding proceed
settled =
    next
      (next
        (next (next (next here (arrives request)) (proceeds m1 [] [] serving request))
          (proceeds m2 [] [] timed request))
        (proceeds m3 [] [] judged request))
      (proceeds m4 [] [] counted request)

settles : Reaches (alone m5 done)
settles = Reaches-Follows at_start settled

Reaches-IsCounted_example : IsCounted m5 (record { phase = done; served = request } ∷ [])
Reaches-IsCounted_example = Reaches-IsCounted (alone m5 done) settles

-- The total is loaded before the request comes in, and all else behind it: one hit of none.
stats-IsSound_example :
    IsSound
      (stats (record {
        at_total = start.middleware;
        at_hits = m5;
        at_misses = m5;
        at_completions = m5;
        at_feedback_ok = m5;
        at_feedback_no = m5;
      }))
      0
      1
      1
stats-IsSound_example =
    stats-IsSound start (alone m5 done) (alone m5 done) (alone m5 done) (alone m5 done)
      (alone m5 done) at_start settled here here (omega arith)

stats_settled_example : (stats (at_once m5)).cache_hits + (stats (at_once m5)).cache_misses ≡ 1
stats_settled_example = stats_settled (alone m5 done) settles (omega arith) (refl, tt)

abbrev env : Env
env = record {
  gonka_wallets = codes " k1:a1, ,k2";
  gonka_private_key = codes "k0";
  gonka_address = [];
}

load_wallets-IsUsable_example : IsUsable (load_wallets env)
load_wallets-IsUsable_example = load_wallets-IsUsable env

-- The list wins over the single key, and blank entries are skipped.
loads :
    load_wallets env
    ≡ wallets (
        record { private_key = codes "k1"; address = codes "a1" }
        ∷ record { private_key = codes "k2"; address = [] }
        ∷ [])
unfolding load_wallets parse_multi_wallets parse_from split read_entry index starts_with trim_space
    trim_front width reverse_onto
loads = refl

-- The offsets of the sidecar are taken over as they are.
converts :
    classify
      (λ s. spans (record { start = pos 0; stop = pos 3; label = codes "PER"; text = s } ∷ []))
      (codes "Bob")
    ≡ some (record { start = pos 0; stop = pos 3; label = codes "PER"; score = 100 } ∷ [])
unfolding classify convert
converts = refl

halves : low_s 11 7 ≡ 4
unfolding low_s
halves = refl

encode_lem_example :
    (length (encode 258 7) ≡ 64)
    × (set_bytes 0 (take 32 (encode 258 7)) ≡ 258)
    × (set_bytes 0 (drop 32 (encode 258 7)) ≡ 7)
encode_lem_example = encode_lem 258 7 (omega arith) (omega arith)

minimal : big_bytes 32 258 ≡ 1 ∷ 2 ∷ []
unfolding big_bytes
minimal = refl
