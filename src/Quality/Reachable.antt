-- ===== src/Quality/Reachable.antt =====
-- The statistics at every moment.
use opengnk.Prelude.{
  ℕ, ◌+◌, ◌&&◌, if◌then◌else◌, length-append, ◌^◌, ◌≤◌, ◌<◌, Bool, List, [], ◌∷◌, ◌≡◌, refl, arith,
  length, All,
}
use opengnk.Quality.{
  Middleware, Served, is_hit, Phase, serving, timed, judged, counted, done, Thread, System, Step,
  proceed, arrives, proceeds, Reaches, at_start, further, Follows, here, next, EpochSummary,
  at_once, stats,
}
use opengnk.Quality.Counters.{
  IsCounted, IsCounted-proceed, IsCounted-arrive, at, tally, tally-append, is_counted,
  has_completed, has_hit, has_missed,
}

-- At every moment, however the requests interleave, the counters of requests, completions, hits and
-- misses are, modulo 2 ^ 64, the numbers of requests that have passed the operation that counts
-- them and that it applies to, and there is one latency for each request that has recorded its own.
pub Reaches-IsCounted : (s : System) → Reaches s → IsCounted s.middleware s.threads
Reaches-IsCounted _ at_start = record {
  total = refl;
  latencies = refl;
  completions = refl;
  hits = refl;
  misses = refl;
}
Reaches-IsCounted _ (further before (arrives {s} r)) =
    IsCounted-arrive r s (Reaches-IsCounted s before)
Reaches-IsCounted _ (further before (proceeds m earlier later p r)) =
    IsCounted-proceed m earlier later p r (Reaches-IsCounted _ before)

tally_cache : (ts : List Thread) → tally has_hit ts + tally has_missed ts ≤ length ts
tally_cache [] = omega arith
tally_cache (t ∷ ts) = ground (arith, tally_cache ts)

tally-length : (test : Thread → Bool) (ts : List Thread) → tally test ts ≤ length ts
tally-length test [] = omega arith
tally-length test (t ∷ ts) = ground (arith, tally-length test ts)

tally_done :
    (ts : List Thread)
    → All (λ t. t.phase ≡ done) ts
    → tally has_hit ts + tally has_missed ts ≡ length ts
tally_done [] h = omega arith
tally_done (t ∷ ts) h = ground (arith, tally_done ts h.1)

pub Reaches-Follows : {s t : System} → Reaches s → Follows s t → Reaches t
Reaches-Follows reached here = reached
Reaches-Follows reached (next before step) = further (Reaches-Follows reached before) step

abbrev hit_at : Phase → Served → ℕ
hit_at p r = if is_counted p && is_hit r then 1 else 0

hit_at-proceed : (p : Phase) (r : Served) (m : Middleware) → hit_at p r ≤ hit_at (proceed p r m).0 r
unfolding proceed
hit_at-proceed serving r m = omega arith
hit_at-proceed timed r m = omega arith
hit_at-proceed judged r m = omega arith
hit_at-proceed counted r m = omega arith
hit_at-proceed done r m = omega arith

-- From one state to the other the requests, and the hits among them, become no fewer.
abbrev IsGrown : System → System → Type 0
IsGrown s t =
    (length s.threads ≤ length t.threads) × (tally has_hit s.threads ≤ tally has_hit t.threads)

Step-IsGrown : {s t : System} → Step s t → IsGrown s t
Step-IsGrown (arrives r) = (omega arith, omega arith)
Step-IsGrown (proceeds m earlier later p r) =
    let q : Phase = (proceed p r m).0 in
    (
      omega (arith, length-append earlier (at p r ∷ later), length-append earlier (at q r ∷ later)),
      omega (
        arith,
        tally-append has_hit earlier (at p r ∷ later),
        tally-append has_hit earlier (at q r ∷ later),
        hit_at-proceed p r m,
      ),
    )

Follows-IsGrown : {s t : System} → Follows s t → IsGrown s t
Follows-IsGrown here = (omega arith, omega arith)
Follows-IsGrown (next before step) =
    let (a, b) = Follows-IsGrown before in
    let (c, d) = Step-IsGrown step in (omega (arith, a, c), omega (arith, b, d))

-- What the summary says: `first` requests had come in when the total was loaded, `second` when the
-- misses were, and `third` when the completions were.
pub record IsSound (e : EpochSummary) (first second third : ℕ) : Type 0 where
  pub total_is : e.total_requests ≡ first
  pub cache_bound : e.cache_hits + e.cache_misses ≤ second
  pub hit_rate_bound : e.hit_rate.0 + first ≤ e.hit_rate.1 + second
  pub completion_rate_bound : e.completion_rate.0 + first ≤ e.completion_rate.1 + third

-- However the requests go on between the loads of `Stats`, and before 2 ^ 63 requests: the total is
-- the number of requests that had come in at its load, the hits and the misses are together no more
-- than the requests that had come in when the misses were loaded, and the completions no more than
-- those that had come in at theirs. The numerator of a rate exceeds its denominator by no more than
-- the requests that came in between the load of the total and that of the misses, or that of the
-- completions.
pub stats-IsSound :
    (s1 s2 s3 s4 s5 s6 : System)
    → Reaches s1
    → Follows s1 s2
    → Follows s2 s3
    → Follows s3 s4
    → length s4.threads < 2 ^ 63
    → IsSound
        (stats (record {
          at_total = s1.middleware;
          at_hits = s2.middleware;
          at_misses = s3.middleware;
          at_completions = s4.middleware;
          at_feedback_ok = s5.middleware;
          at_feedback_no = s6.middleware;
        }))
        (length s1.threads)
        (length s3.threads)
        (length s4.threads)
unfolding stats
stats-IsSound s1 s2 s3 s4 s5 s6 reached a b c few =
    let r2 = Reaches-Follows reached a in
    let r3 = Reaches-Follows r2 b in
    let v1 = Reaches-IsCounted s1 reached in
    let v2 = Reaches-IsCounted s2 r2 in
    let v3 = Reaches-IsCounted s3 r3 in
    let v4 = Reaches-IsCounted s4 (Reaches-Follows r3 c) in
    let (g1, _) = Follows-IsGrown a in
    let (g2, h2) = Follows-IsGrown b in
    let (g3, _) = Follows-IsGrown c in
    let cache = tally_cache s3.threads in
    let completed = tally-length has_completed s4.threads in
    let total : s1.middleware.total ≡ length s1.threads =
      omega (arith, v1.total, few, g1, g2, g3) in
    let hits : s2.middleware.hits + s3.middleware.misses ≤ length s3.threads =
      omega (arith, v2.hits, v3.misses, cache, few, g3, h2) in
    let completions : s4.middleware.completions ≤ length s4.threads =
      omega (arith, v4.completions, completed) in
    record {
      total_is = total;
      cache_bound = hits;
      hit_rate_bound = ground (arith, total, hits);
      completion_rate_bound = ground (arith, total, completions);
    }

-- When all requests are done, and there were fewer than 2 ^ 63, every request was a hit or a miss.
pub stats_settled :
    (s : System)
    → Reaches s
    → length s.threads < 2 ^ 63
    → All (λ t. t.phase ≡ done) s.threads
    → (stats (at_once s.middleware)).cache_hits + (stats (at_once s.middleware)).cache_misses
      ≡ length s.threads
unfolding stats
stats_settled s reached few h =
    let v = Reaches-IsCounted s reached in omega (arith, v.hits, v.misses, tally_done s.threads h)
