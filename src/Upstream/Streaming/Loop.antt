-- ===== src/Upstream/Streaming/Loop.antt =====
-- The loop of `DoStream`.
use mathlib.Core.Path.{subst}
use opengnk.Prelude.{
  ℕ, zero, suc, ◌+◌, ◌≤◌, ◌<◌, true, false, ◌&&◌, List, [], ◌∷◌, Option, none, some, ◌≡◌, ◌≢◌, refl,
  sym, ap, ◌⊎◌, inl, inr, arith, length, leb, ltb, Bool-cases,
}
use opengnk.Text.{Bytes, equal}
use opengnk.Wallet.{Wallet, Pool, next}
use opengnk.Wallet.Fairness.{IsValid, next_total}
use opengnk.Upstream.{Endpoint, Client, pick_endpoint_excluding}
use opengnk.Upstream.Pick.{IsChoice, pick_endpoint_excluding-IsChoice}
use opengnk.Upstream.Request.{
  Reply, no_reply, response, World, Sent, Failure, transport, upstream, answered, failed, Run, stop,
  sending, on_stream_reply, do_stream_from, do_stream,
}
use opengnk.Upstream.Streaming.{Memory, none_sent, lost, rejected, IsGood}
use opengnk.Text.Search.{equal→eq, equal_refl}
use opengnk.Upstream.Streaming.Steps.{IsGood-one_more, IsGood-final, IsLast-only}

rejected_again :
    (n : ℕ) (again : Option Failure → Bytes → Run) (last_body : Bytes) (pool : Pool) (status : ℕ)
    (body : Bytes) (err : Option Bytes)
    → leb 500 status ≡ true
    → ltb 0 n && equal body last_body ≡ false
    → on_stream_reply again n last_body pool (response status body err)
      ≡ again (some (upstream status body)) body
unfolding on_stream_reply
rejected_again n again last_body pool status body err high new = rw (high, new) refl

rejected_twice :
    (n : ℕ) (again : Option Failure → Bytes → Run) (last_body : Bytes) (pool : Pool) (status : ℕ)
    (body : Bytes) (err : Option Bytes)
    → leb 500 status ≡ true
    → ltb 0 n && equal body last_body ≡ true
    → on_stream_reply again n last_body pool (response status body err)
      ≡ stop (failed (some (upstream status body))) pool
unfolding on_stream_reply
rejected_twice n again last_body pool status body err high same = rw (high, same) refl

accepted :
    (n : ℕ) (again : Option Failure → Bytes → Run) (last_body : Bytes) (pool : Pool) (status : ℕ)
    (body : Bytes) (err : Option Bytes)
    → leb 500 status ≡ false
    → on_stream_reply again n last_body pool (response status body err)
      ≡ stop (answered status body err) pool
unfolding on_stream_reply
accepted n again last_body pool status body err low = rw low refl

same_again :
    (n : ℕ) (body last_body : Bytes)
    → ltb 0 n && equal body last_body ≡ true
    → (0 < n) × (body ≡ last_body)
same_again n body last_body e = (ground arith, equal→eq body last_body (ground arith))

other_body :
    (n : ℕ) (body last_body : Bytes)
    → ltb 0 n && equal body last_body ≡ false
    → (n ≡ 0) ⊎ (body ≢ last_body)
other_body zero body last_body e = inl refl
other_body (suc n) body last_body e =
    inr (λ same. absurd (ground (arith, equal_refl body, ap (equal body) same)))

reply-IsGood :
    (world : World) (eps : List Endpoint) (left n : ℕ) (pool : Pool) (tried : List Bytes)
    (m : Memory) (ep : Endpoint) (w : Wallet) (again : Option Failure → Bytes → Run) (r : Reply)
    → IsChoice eps tried ep
    → IsValid (next pool).1
    → ((k : Memory)
        → IsGood world eps left (n + 1) (next pool).1 (ep.address ∷ tried) k (again k.error k.body))
    → (world n).reply ep w ≡ r
    → IsGood world eps
        (suc left)
        n
        pool
        tried
        m
        (sending ep w (on_stream_reply again n m.body (next pool).1 r))
reply-IsGood world eps left n pool tried m ep w again (no_reply e) choice v good eq =
    unfold on_stream_reply in
    IsGood-one_more world eps left n pool tried m
      (record { error = some (transport e); body = m.body }) ep w
      (again (some (transport e)) m.body) choice (λ xs new h. lost e eq h)
      (good (record { error = some (transport e); body = m.body }))
reply-IsGood world eps left n pool tried m ep w again (response s b err) choice v good eq =
    let Goal : Run → Type 0 = λ r. IsGood world eps (suc left) n pool tried m (sending ep w r) in
    let x : Sent = record { endpoint = ep; wallet = w } in
    elim (Bool-cases (leb 500 s)) [
      | inr low ↦ subst Goal (sym (accepted n again m.body (next pool).1 s b err low)) (
          IsGood-final world eps left n pool tried m ep w (answered s b err) choice v
            (IsLast-only world n m x (response s b err) eq, ground arith, omega arith))
      | inl high ↦
          let at_least : 500 ≤ s = ground arith in
          elim (Bool-cases (ltb 0 n && equal b m.body)) [
            | inr new ↦
                let k : Memory = record { error = some (upstream s b); body = b } in
                subst Goal (sym (rejected_again n again m.body (next pool).1 s b err high new)) (
                  IsGood-one_more world eps left n pool tried m k ep w (again k.error k.body) choice
                    (λ xs new2 h. rejected s b err eq at_least (other_body n b m.body new) h)
                    (good k))
            | inl same ↦
                let (later, same_body) = same_again n b m.body same in
                subst Goal (sym (rejected_twice n again m.body (next pool).1 s b err high same)) (
                  IsGood-final world eps left n pool tried m ep w (failed (some (upstream s b)))
                    choice v
                    (inr (record {
                      status = s;
                      body = b;
                      err = err;
                      last = IsLast-only world n m x (response s b err) eq;
                      server_error = at_least;
                      same_body = same_body;
                      not_first = omega arith;
                      returned = refl;
                      few = omega arith;
                    })))
          ]
    ]

do_stream_from-suc :
    (world : World) (eps : List Endpoint) (left n : ℕ) (pool : Pool) (tried : List Bytes)
    (last : Option Failure) (last_body : Bytes) (ep : Endpoint) (w : Wallet)
    → pick_endpoint_excluding eps tried (world n).draw ≡ some ep
    → (next pool).0 ≡ some w
    → do_stream_from world eps (suc left) n pool tried last last_body
      ≡ sending ep w (
          on_stream_reply
            (do_stream_from world eps left (n + 1) (next pool).1 (ep.address ∷ tried))
            n
            last_body
            (next pool).1
            ((world n).reply ep w))
unfolding do_stream_from
do_stream_from-suc world eps left n pool tried last last_body ep w picked got =
    rw (do_stream_from, picked, got) refl

do_stream_from-IsGood :
    (world : World) (eps : List Endpoint) (left n : ℕ) (pool : Pool) (tried : List Bytes)
    (m : Memory)
    → 0 < length eps
    → IsValid pool
    → IsGood world eps left n pool tried m
        (do_stream_from world eps left n pool tried m.error m.body)
unfolding do_stream_from
do_stream_from-IsGood world eps zero n pool tried m some_eps v = record {
  ends = inl (record { memory = m; in_vain = none_sent; all_sent = refl; last_error = refl });
  spread = tt;
  turned = omega (arith, v.in_range);
  valid = v;
}
do_stream_from-IsGood world eps (suc left) n pool tried m some_eps v =
    let (ep, picked, choice) = pick_endpoint_excluding-IsChoice eps tried (world n).draw some_eps in
    let (w, got, _, v1) = next_total pool v in
    subst (IsGood world eps (suc left) n pool tried m)
      (sym (do_stream_from-suc world eps left n pool tried m.error m.body ep w picked got))
      (reply-IsGood world eps left n pool tried m ep w
        (do_stream_from world eps left (n + 1) (next pool).1 (ep.address ∷ tried))
        ((world n).reply ep w) choice v1
        (λ k.
          do_stream_from-IsGood world eps left (n + 1) (next pool).1 (ep.address ∷ tried) k some_eps
            v1)
        refl)

-- With an endpoint and a wallet at hand, `DoStream` returns either a response with a status below
-- 500, to the last request it sent, or an error: that of the last of three requests that were all
-- without reply or rejected with a status of 500 or more, or that of a rejection with the body of
-- the rejection before it, or with an empty body where no request before it was rejected. It sends
-- three requests at most, never panics, asks no endpoint twice while there is one that it has not
-- asked, and takes one wallet in turn for each request.
pub do_stream-IsGood :
    (world : World) (c : Client)
    → 0 < length c.endpoints
    → IsValid c.pool
    → IsGood world c.endpoints 3 0 c.pool []
        (record { error = none; body = [] })
        (do_stream world c)
do_stream-IsGood world c some_eps v =
    do_stream_from-IsGood world c.endpoints 3 0 c.pool [] (record { error = none; body = [] })
      some_eps v
