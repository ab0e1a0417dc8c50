-- ===== src/Upstream/Streaming/Steps.antt =====
-- A round of `DoStream`, in front of the rounds behind it or as the last one.
use opengnk.Prelude.{
  ℕ, suc, ◌+◌, List, [], ◌∷◌, none, some, ◌≡◌, refl, ◌∙◌, ap, inl, inr, arith, length,
}
use opengnk.Text.{Bytes}
use opengnk.Wallet.{Wallet, Pool, next}
use opengnk.Wallet.Fairness.{IsValid}
use opengnk.Upstream.{Endpoint}
use opengnk.Upstream.Pick.{IsChoice}
use opengnk.Upstream.Retry.{next_counter}
use opengnk.Upstream.Request.{
  Reply, response, World, Sent, Outcome, answered, failed, panicked, Run, stop, sending,
}
use opengnk.Upstream.Streaming.{Memory, IsRejected, none_sent, IsLast, Ends, IsGood}

-- A request in vain in front of others.
abbrev pub IsStep : World → ℕ → Sent → Memory → Memory → Type 0
IsStep world n x m m1 =
    (xs : List Sent) (new : Memory)
    → IsRejected world (n + 1) xs m1 new
    → IsRejected world n (x ∷ xs) m new

abbrev pub IsLast-one_more :
    (world : World) (n : ℕ) (m m1 : Memory) (x : Sent) (r : Reply) (sent : List Sent)
    → IsStep world n x m m1
    → IsLast world (n + 1) sent m1 r
    → IsLast world n (x ∷ sent) m r
IsLast-one_more world n m m1 x r sent step a =
    let back : n + length (x ∷ a.earlier) ≡ n + 1 + length a.earlier = omega arith in
    record {
      earlier = x ∷ a.earlier;
      final = a.final;
      all_sent = ap (◌∷◌ x) a.all_sent;
      memory = a.memory;
      in_vain = step a.earlier a.memory a.in_vain;
      replied = ap (λ k. (world k).reply a.final.endpoint a.final.wallet) back ∙ a.replied;
    }

Ends-one_more :
    (world : World) (left n : ℕ) (m m1 : Memory) (x : Sent) (o : Outcome) (sent : List Sent)
    → IsStep world n x m m1
    → Ends world left (n + 1) m1 o sent
    → Ends world (suc left) n m o (x ∷ sent)
Ends-one_more world left n m m1 x (answered s b err) sent step (a, low, few) =
    (IsLast-one_more world n m m1 x (response s b err) sent step a, low, omega arith)
Ends-one_more world left n m m1 x (failed none) sent step h = absurd h
Ends-one_more world left n m m1 x (failed (some f)) sent step (inl h) = inl (record {
  memory = h.memory;
  in_vain = step sent h.memory h.in_vain;
  all_sent = omega (arith, h.all_sent);
  last_error = h.last_error;
})
Ends-one_more world left n m m1 x (failed (some f)) sent step (inr h) = inr (record {
  status = h.status;
  body = h.body;
  err = h.err;
  last = IsLast-one_more world n m m1 x (response h.status h.body h.err) sent step h.last;
  server_error = h.server_error;
  same_body = h.same_body;
  not_first = omega arith;
  returned = h.returned;
  few = omega (arith, h.few);
})
Ends-one_more world left n m m1 x panicked sent step h = absurd h

-- A round in vain in front of a good run.
pub IsGood-one_more :
    (world : World) (eps : List Endpoint) (left n : ℕ) (pool : Pool) (tried : List Bytes)
    (m m1 : Memory) (ep : Endpoint) (w : Wallet) (r : Run)
    → IsChoice eps tried ep
    → IsStep world n (record { endpoint = ep; wallet = w }) m m1
    → IsGood world eps left (n + 1) (next pool).1 (ep.address ∷ tried) m1 r
    → IsGood world eps (suc left) n pool tried m (sending ep w r)
IsGood-one_more world eps left n pool tried m m1 ep w r choice step good = record {
  ends =
      Ends-one_more world left n m m1 (record { endpoint = ep; wallet = w }) r.outcome r.sent step
        good.ends;
  spread = (choice, good.spread);
  turned = omega (arith, good.turned, next_counter pool);
  valid = good.valid;
}

-- A round that ends the loop.
pub IsGood-final :
    (world : World) (eps : List Endpoint) (left n : ℕ) (pool : Pool) (tried : List Bytes)
    (m : Memory) (ep : Endpoint) (w : Wallet) (o : Outcome)
    → IsChoice eps tried ep
    → IsValid (next pool).1
    → Ends world (suc left) n m o (record { endpoint = ep; wallet = w } ∷ [])
    → IsGood world eps (suc left) n pool tried m (sending ep w (stop o (next pool).1))
IsGood-final world eps left n pool tried m ep w o choice v ends = record {
  ends = ends;
  spread = (choice, tt);
  turned = omega (arith, next_counter pool);
  valid = v;
}

abbrev pub IsLast-only :
    (world : World) (n : ℕ) (m : Memory) (x : Sent) (r : Reply)
    → (world n).reply x.endpoint x.wallet ≡ r
    → IsLast world n (x ∷ []) m r
IsLast-only world n m x r eq =
    let back : n + 0 ≡ n = omega arith in
    record {
      earlier = [];
      final = x;
      all_sent = refl;
      memory = m;
      in_vain = none_sent;
      replied = ap (λ k. (world k).reply x.endpoint x.wallet) back ∙ eq;
    }
