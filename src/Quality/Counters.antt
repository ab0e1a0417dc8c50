-- ===== src/Quality/Counters.antt =====
-- The counters count the requests that have done the operation.
use opengnk.Prelude.{
  ℕ, suc, ◌+◌, ◌%◌, ◌^◌, Bool, true, false, not, ◌&&◌, List, [], ◌∷◌, ◌++◌, Option, none, some, ◌≡◌,
  sym, ◌∙◌, ap, arith, inl, inr, Bool-cases, if◌then◌else◌, length, length-append,
}
use opengnk.Text.{Bytes, codes, equal}
use opengnk.Quality.{
  Middleware, Served, is_completion, is_hit, Phase, serving, timed, judged, counted, done, Thread,
  add_latency, add_completion, add_cache, add_feedback, proceed, System, arrive,
}

-- How many requests pass the test.
abbrev pub tally : (Thread → Bool) → List Thread → ℕ
tally test [] = 0
tally test (t ∷ ts) = (if test t then 1 else 0) + tally test ts

pub tally-append :
    (test : Thread → Bool) (xs ys : List Thread)
    → tally test (xs ++ ys) ≡ tally test xs + tally test ys
tally-append test [] ys = omega arith
tally-append test (x ∷ xs) ys = omega (arith, tally-append test xs ys)

abbrev pub is_timed : Phase → Bool
is_timed serving = false
is_timed _ = true

abbrev pub is_judged : Phase → Bool
is_judged serving = false
is_judged timed = false
is_judged _ = true

abbrev pub is_counted : Phase → Bool
is_counted serving = false
is_counted timed = false
is_counted judged = false
is_counted _ = true

-- The requests that stand behind an operation, and to which it applies.
abbrev pub has_latency : Thread → Bool
has_latency t = is_timed t.phase

abbrev pub has_completed : Thread → Bool
has_completed t = is_judged t.phase && is_completion t.served

abbrev pub has_hit : Thread → Bool
has_hit t = is_counted t.phase && is_hit t.served

abbrev pub has_missed : Thread → Bool
has_missed t = is_counted t.phase && not (is_hit t.served)

pub record IsCounted (m : Middleware) (ts : List Thread) : Type 0 where
  pub total : m.total ≡ length ts % 2 ^ 64
  pub latencies : length m.latencies ≡ tally has_latency ts
  pub completions : m.completions ≡ tally has_completed ts % 2 ^ 64
  pub hits : m.hits ≡ tally has_hit ts % 2 ^ 64
  pub misses : m.misses ≡ tally has_missed ts % 2 ^ 64

abbrev pub at : Phase → Served → Thread
at p r = record { phase = p; served = r }

-- A request that changes its phase changes the tallies by its own part.
tally_at :
    (test : Thread → Bool) (earlier later : List Thread) (t : Thread)
    → tally test (earlier ++ t ∷ later)
      ≡ (if test t then 1 else 0) + (tally test earlier + tally test later)
tally_at test earlier later t = omega (arith, tally-append test earlier (t ∷ later))

-- The latencies, completions, hits and misses of the other requests, and of the one at hand.
abbrev Counts : Middleware → ℕ → ℕ → ℕ → ℕ → ℕ → Phase → Served → Type 0
Counts m n a b c d p r =
    (m.total ≡ n % 2 ^ 64)
    × (length m.latencies ≡ (if is_timed p then 1 else 0) + a)
    × (m.completions ≡ ((if is_judged p && is_completion r then 1 else 0) + b) % 2 ^ 64)
    × (m.hits ≡ ((if is_counted p && is_hit r then 1 else 0) + c) % 2 ^ 64)
    × (m.misses ≡ ((if is_counted p && not (is_hit r) then 1 else 0) + d) % 2 ^ 64)

Counts-feedback :
    (m : Middleware) (n a b c d : ℕ) (r : Served) (f : Option Bytes)
    → Counts m n a b c d counted r
    → Counts (add_feedback f m) n a b c d done r
unfolding add_feedback
Counts-feedback m n a b c d r none h = h
Counts-feedback m n a b c d r (some outcome) h =
    elim (Bool-cases (equal outcome (codes "resolved"))) [ inl e ↦ rw e h | inr e ↦ rw e h ]

Counts-proceed :
    (m : Middleware) (n a b c d : ℕ) (p : Phase) (r : Served)
    → Counts m n a b c d p r
    → Counts (proceed p r m).1 n a b c d (proceed p r m).0 r
unfolding proceed add_latency add_completion add_cache add_feedback
Counts-proceed m n a b c d serving r (h0, h1, h2, h3, h4) =
    (h0, omega (arith, length-append m.latencies (r.latency ∷ []), h1), h2, h3, h4)
Counts-proceed m n a b c d timed r (h0, h1, h2, h3, h4) = elim (Bool-cases (is_completion r)) [
  | inl e ↦ rw e (h0, h1, omega arith, h3, h4)
  | inr e ↦ rw e (h0, h1, h2, h3, h4)
]
Counts-proceed m n a b c d judged r (h0, h1, h2, h3, h4) = elim (Bool-cases (is_hit r)) [
  | inl e ↦ rw e (h0, h1, h2, omega arith, h4)
  | inr e ↦ rw e (h0, h1, h2, h3, omega arith)
]
Counts-proceed m n a b c d counted r h = Counts-feedback m n a b c d r r.feedback h
Counts-proceed m n a b c d done r h = h

-- Every step keeps the counters right.
pub IsCounted-proceed :
    (m : Middleware) (earlier later : List Thread) (p : Phase) (r : Served)
    → IsCounted m (earlier ++ at p r ∷ later)
    → IsCounted (proceed p r m).1 (earlier ++ at (proceed p r m).0 r ∷ later)
IsCounted-proceed m earlier later p r v =
    let others : (Thread → Bool) → ℕ = λ test. tally test earlier + tally test later in
    let size : (q : Phase)
        → length (earlier ++ at q r ∷ later) ≡ suc (length earlier + length later) =
      λ q. omega (arith, length-append earlier (at q r ∷ later)) in
    let (h0, h1, h2, h3, h4) =
      Counts-proceed m (suc (length earlier + length later)) (others has_latency)
        (others has_completed) (others has_hit) (others has_missed) p r
        (
          v.total ∙ ap (λ k. k % 2 ^ 64) (size p),
          v.latencies ∙ tally_at has_latency earlier later (at p r),
          v.completions ∙ ap (λ k. k % 2 ^ 64) (tally_at has_completed earlier later (at p r)),
          v.hits ∙ ap (λ k. k % 2 ^ 64) (tally_at has_hit earlier later (at p r)),
          v.misses ∙ ap (λ k. k % 2 ^ 64) (tally_at has_missed earlier later (at p r)),
        ) in
    let q : Phase = (proceed p r m).0 in
    record {
      total = h0 ∙ sym (ap (λ k. k % 2 ^ 64) (size q));
      latencies = h1 ∙ sym (tally_at has_latency earlier later (at q r));
      completions = h2 ∙ sym (ap (λ k. k % 2 ^ 64) (tally_at has_completed earlier later (at q r)));
      hits = h3 ∙ sym (ap (λ k. k % 2 ^ 64) (tally_at has_hit earlier later (at q r)));
      misses = h4 ∙ sym (ap (λ k. k % 2 ^ 64) (tally_at has_missed earlier later (at q r)));
    }

pub IsCounted-arrive :
    (r : Served) (s : System)
    → IsCounted s.middleware s.threads
    → IsCounted (arrive r s).middleware (arrive r s).threads
IsCounted-arrive r s v = record {
  total = omega (arith, v.total);
  latencies = omega (arith, v.latencies);
  completions = omega (arith, v.completions);
  hits = omega (arith, v.hits);
  misses = omega (arith, v.misses);
}
