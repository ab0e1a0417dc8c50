-- ===== src/Quality.antt =====
-- internal/quality/middleware.go: the counters around every request. The atomic operations of the
-- requests that are served at the same time interleave; each one is a step. A counter is an
-- `int64`, given here by its rest modulo 2 ^ 64.
pub mod Counters
pub mod Reachable
use opengnk.Prelude.{
  ℕ, zero, suc, ◌+◌, ◌%◌, ◌^◌, Bool, true, false, ◌&&◌, List, [], ◌∷◌, ◌++◌, Option, none, some,
  leb, ltb, if◌then◌else◌, length,
}
use opengnk.Text.{Bytes, codes, equal}

pub record Middleware : Type 0 where
  pub hits : ℕ
  pub misses : ℕ
  pub total : ℕ
  pub completions : ℕ
  pub feedback_ok : ℕ
  pub feedback_no : ℕ
  pub latencies : List ℕ

abbrev pub new : Middleware
new = record {
  hits = 0;
  misses = 0;
  total = 0;
  completions = 0;
  feedback_ok = 0;
  feedback_no = 0;
  latencies = [];
}

-- `counter.Add(1)`.
abbrev pub bump : ℕ → ℕ
bump n = (n + 1) % 2 ^ 64

-- What the middleware sees of a request: the calls of `WriteHeader`, the response's `X-Cache`, the
-- outcome in the request's `X-Inference-Feedback`, which is none where that header is not there or
-- does not decode, and the milliseconds that it took.
pub record Served : Type 0 where
  pub headers : List ℕ
  pub cache : Bytes
  pub feedback : Option Bytes
  pub latency : ℕ

-- `recorder`: the status behind the calls of `WriteHeader`.
unfoldable pub recorded : ℕ → List ℕ → ℕ
recorded status [] = status
recorded status (code ∷ codes) = recorded code codes

abbrev pub is_completion : Served → Bool
is_completion r = leb 200 (recorded 200 r.headers) && ltb (recorded 200 r.headers) 400

abbrev pub is_hit : Served → Bool
is_hit r = equal r.cache (codes "HIT")

-- Where the goroutine of a request stands in `Wrap`.
pub data Phase : Type 0 where
  serving timed judged counted done : Phase

pub record Thread : Type 0 where
  pub phase : Phase
  pub served : Served

-- Behind the handler: the latency, the completion, the cache and the feedback, each under its lock
-- or as an atomic add.
add_latency : Served → Middleware → Middleware
add_latency r m = record m { latencies = m.latencies ++ r.latency ∷ [] }

add_completion : Served → Middleware → Middleware
add_completion r m = if is_completion r then record m { completions = bump m.completions } else m

add_cache : Served → Middleware → Middleware
add_cache r m =
    if is_hit r then record m { hits = bump m.hits } else record m { misses = bump m.misses }

add_feedback : Option Bytes → Middleware → Middleware
add_feedback none m = m
add_feedback (some outcome) m =
    if equal outcome (codes "resolved")
    then record m { feedback_ok = bump m.feedback_ok }
    else record m { feedback_no = bump m.feedback_no }

-- The next atomic operation of a request.
unfoldable pub proceed : Phase → Served → Middleware → Phase × Middleware
unfolding add_latency add_completion add_cache add_feedback
proceed serving r m = (timed, add_latency r m)
proceed timed r m = (judged, add_completion r m)
proceed judged r m = (counted, add_cache r m)
proceed counted r m = (done, add_feedback r.feedback m)
proceed done r m = (done, m)

-- The middleware and the requests, the newest one first.
pub record System : Type 0 where
  pub middleware : Middleware
  pub threads : List Thread

abbrev pub start : System
start = record { middleware = new; threads = [] }

-- `m.total.Add(1)`, as a request comes in.
abbrev pub arrive : Served → System → System
arrive r s = record {
  middleware = record s.middleware { total = bump s.middleware.total };
  threads = record { phase = serving; served = r } ∷ s.threads;
}

-- One step of the server: a request comes in, or one of the requests does its next operation.
pub data Step : System → System → Type 0 where
  arrives : {s : System} (r : Served) → Step s (arrive r s)
  proceeds :
      (m : Middleware) (earlier later : List Thread) (p : Phase) (r : Served)
      → Step
          (record { middleware = m; threads = earlier ++ record { phase = p; served = r } ∷ later })
          (record {
            middleware = (proceed p r m).1;
            threads = earlier ++ record { phase = (proceed p r m).0; served = r } ∷ later;
          })

pub data Reaches : System → Type 0 where
  at_start : Reaches start
  further : {s t : System} → Reaches s → Step s t → Reaches t

-- The steps from one state to a later one.
pub data Follows (s : System) : System → Type 0 where
  here : Follows s s
  next : {t u : System} → Follows s t → Step t u → Follows s u

-- The counters of `Stats`, and the rates as fractions: the numerator and the denominator.
pub record EpochSummary : Type 0 where
  pub total_requests : ℕ
  pub cache_hits : ℕ
  pub cache_misses : ℕ
  pub hit_rate : ℕ × ℕ
  pub completion_rate : ℕ × ℕ
  pub feedback_resolved : ℕ
  pub feedback_unresolved : ℕ

abbrev rate : ℕ → ℕ → ℕ × ℕ
rate n total = if ltb 0 total then (n, total) else (0, 1)

-- The middleware as each of the loads of `Stats` meets it, in their order; the requests go on
-- between the loads.
pub record Loads : Type 0 where
  pub at_total : Middleware
  pub at_hits : Middleware
  pub at_misses : Middleware
  pub at_completions : Middleware
  pub at_feedback_ok : Middleware
  pub at_feedback_no : Middleware

-- All the loads meet the same.
abbrev pub at_once : Middleware → Loads
at_once m = record {
  at_total = m;
  at_hits = m;
  at_misses = m;
  at_completions = m;
  at_feedback_ok = m;
  at_feedback_no = m;
}

-- `Stats`.
unfoldable pub stats : Loads → EpochSummary
stats l = record {
  total_requests = l.at_total.total;
  cache_hits = l.at_hits.hits;
  cache_misses = l.at_misses.misses;
  hit_rate = rate l.at_hits.hits l.at_total.total;
  completion_rate = rate l.at_completions.completions l.at_total.total;
  feedback_resolved = l.at_feedback_ok.feedback_ok;
  feedback_unresolved = l.at_feedback_no.feedback_no;
}
