-- ===== src/Breaker/Calls/Accounting.antt =====
-- The breaker's slots and counters against the calls in flight.
use uam_backend.Prelude.{
  refl, List, ℕ, ◌++◌, ◌≡◌, ◌∷◌, [], get_elem?, ◌+◌, some, arith, none, set, suc, zero, ◌<◌, ◌^◌,
  Bool, Option-cases, if◌then◌else◌, All, inr, inl, ◌-◌, true, false, ◌≤◌, max, get_elem?-set_self,
}
use uam_backend.Breaker.Calls.{
  System, Call, CallResult, Event, outcome_of, arrive, finish, step, classify_redis_error,
  Settlement, arrives, settles, fulfilled, rejected, deadline, acquire, run, start,
  CircuitBreakerConfig, timeout, round_us, settle_call, redis_error, result_of,
}
use uam_backend.Breaker.Machine.Invariant.{
  IsValid, acquire-IsValid, release-IsValid, new_breaker-IsValid,
}
use uam_backend.Breaker.Machine.Slots.{
  IsCounted, IsReal, acquire-IsCounted, acquire-inflight, acquire-requests, release-inflight,
  release-requests, release-IsCounted, new_breaker_counts,
}

if-IsReal : (b : Bool) → IsReal (if b then timeout else redis_error)
if-IsReal true = tt
if-IsReal false = tt

module _ {V : Type 0} where
  -- The calls that have not settled, and those that have.
  abbrev pub pending : List (Call V) → ℕ
  pending [] = 0
  pending (c ∷ cs) = elim c.result [ none ↦ 1 | some r ↦ 0 ] + pending cs

  abbrev pub settled : List (Call V) → ℕ
  settled [] = 0
  settled (c ∷ cs) = elim c.result [ none ↦ 0 | some r ↦ 1 ] + settled cs

  pending-append :
      (cs : List (Call V)) (c : Call V) → pending (cs ++ c ∷ []) ≡ pending cs + pending (c ∷ [])
  pending-append [] c = omega arith
  pending-append (d ∷ cs) c = omega (arith, pending-append cs c)

  settled-append :
      (cs : List (Call V)) (c : Call V) → settled (cs ++ c ∷ []) ≡ settled cs + settled (c ∷ [])
  settled-append [] c = omega arith
  settled-append (d ∷ cs) c = omega (arith, settled-append cs c)

  -- Settling a pending call moves it from one count to the other.
  counts-set :
      (cs : List (Call V)) (i : ℕ) (c : Call V) (r : CallResult V)
      → get_elem? cs i ≡ some c
      → c.result ≡ none
      → let cs' = set cs i (record c { result = some r }) in
        (pending cs ≡ pending cs' + 1) × (settled cs' ≡ settled cs + 1)
  counts-set [] i c r e n = cc
  counts-set (d ∷ cs) zero c r e n = (ground arith, ground arith)
  counts-set (d ∷ cs) (suc i) c r e n =
      (omega (arith, counts-set cs i c r e n), omega (arith, counts-set cs i c r e n))

  -- The slots in use are the calls in flight, and the requests counted are the calls that settled.
  pub record IsAccounted (s : System V) : Type 0 where
    pub valid : IsValid s.breaker
    pub slots : s.breaker.inflight ≡ pending s.calls
    pub requests : s.breaker.requests_total ≡ settled s.calls
    pub outcomes : IsCounted s.breaker

  abbrev pub HasDraw : Event V → Type 0
  HasDraw (arrives now draw at_ns) = draw < 2 ^ 53
  HasDraw (settles index how now draw at_ns) = draw < 2 ^ 53

  outcome_of-IsReal : (how : Settlement V) → IsReal (outcome_of how)
  unfolding outcome_of classify_redis_error
  outcome_of-IsReal (fulfilled v) = tt
  outcome_of-IsReal (rejected e) = if-IsReal _
  outcome_of-IsReal deadline = tt

  arrive-IsAccounted :
      (s : System V) (now draw at_ns : ℕ)
      → draw < 2 ^ 53
      → IsAccounted s
      → IsAccounted (arrive s now draw at_ns).0
  unfolding arrive
  arrive-IsAccounted s now draw at_ns d v =
      let b = (acquire s.breaker now draw).0 in
      let valid : IsValid b = acquire-IsValid s.breaker now draw d v.valid in
      let outcomes : IsCounted b = acquire-IsCounted s.breaker now draw v.outcomes in
      elim (Option-cases (acquire s.breaker now draw).1) [
        | inl e ↦
            rw (e, arrive)
              (record {
                valid = valid;
                slots = omega (
                  arith,
                  rw e at (acquire-inflight s.breaker now draw),
                  pending-append s.calls (record { start_ns = at_ns; result = none }),
                );
                requests = omega (
                  arith,
                  acquire-requests s.breaker now draw,
                  settled-append s.calls (record { start_ns = at_ns; result = none }),
                );
                outcomes = outcomes;
              })
        | inr (o, e) ↦
            rw (e, arrive)
              (record {
                valid = valid;
                slots = omega (arith, rw e at (acquire-inflight s.breaker now draw));
                requests = omega (arith, acquire-requests s.breaker now draw);
                outcomes = outcomes;
              })
      ]

  finish-IsAccounted :
      (s : System V) (i : ℕ) (c : Call V) (how : Settlement V) (now draw at_ns : ℕ)
      → draw < 2 ^ 53
      → get_elem? s.calls i ≡ some c
      → IsAccounted s
      → IsAccounted (finish s i c how now draw at_ns)
  unfolding finish
  finish-IsAccounted s i c how now draw at_ns d e v = elim (Option-cases c.result) [
    | inr (r, q) ↦ rw (q, finish) v
    | inl q ↦
        let l = round_us (at_ns - c.start_ns) in
        let counts = counts-set s.calls i c (result_of how) e q in
        rw (q, finish)
          (record {
            valid = release-IsValid s.breaker (outcome_of how) l now draw d v.valid;
            slots = omega (arith, release-inflight s.breaker (outcome_of how) l now draw, counts);
            requests =
                omega (arith, release-requests s.breaker (outcome_of how) l now draw, counts);
            outcomes =
                release-IsCounted s.breaker (outcome_of how) l now draw (outcome_of-IsReal how)
                  v.outcomes;
          })
  ]

  step-IsAccounted :
      (s : System V) (e : Event V) → HasDraw e → IsAccounted s → IsAccounted (step s e)
  unfolding step
  step-IsAccounted s (arrives now draw at_ns) d v = arrive-IsAccounted s now draw at_ns d v
  step-IsAccounted s (settles i how now draw at_ns) d v =
      elim (Option-cases (get_elem? s.calls i)) [
        | inl e ↦ rw (e, settle_call) v
        | inr (c, e) ↦ rw (e, settle_call) (finish-IsAccounted s i c how now draw at_ns d e v)
      ]

  pub run-IsAccounted :
      (s : System V) (es : List (Event V)) → All HasDraw es → IsAccounted s → IsAccounted (run s es)
  unfolding run
  run-IsAccounted s [] d v = v
  run-IsAccounted s (e ∷ es) d v = run-IsAccounted (step s e) es d.1 (step-IsAccounted s e d.0 v)

  start-IsAccounted : (c : CircuitBreakerConfig) → IsAccounted (start c)
  unfolding start
  start-IsAccounted c = record {
    valid = new_breaker-IsValid c;
    slots = (new_breaker_counts c).0;
    requests = (new_breaker_counts c).1;
    outcomes = (new_breaker_counts c).2;
  }

  -- From a new breaker, whatever calls arrive and in whatever order they settle, time out or settle
  -- late (each with a random draw below 2^53): the slots in use are the calls in flight; no more
  -- calls are in flight than the larger of the two limits; the requests counted are the calls that
  -- settled; and they are the successes, errors and timeouts counted.
  pub run-accounting :
      (c : CircuitBreakerConfig) (es : List (Event V))
      → All HasDraw es
      → let s = run (start c) es in
        (s.breaker.inflight ≡ pending s.calls)
        × (pending s.calls ≤ max s.breaker.config.max_inflight s.breaker.config.half_open_probes)
        × (s.breaker.requests_total ≡ settled s.calls)
        × IsCounted s.breaker
  run-accounting c es d =
      let v = run-IsAccounted (start c) es d (start-IsAccounted c) in
      (v.slots, omega (arith, v.slots, v.valid.bounded), v.requests, v.outcomes)

  -- Settling a call that has already settled changes nothing, neither its result nor the breaker.
  pub settle_call_again :
      (s : System V) (i : ℕ) (c : Call V) (r : CallResult V) (how : Settlement V)
      (now draw at_ns : ℕ)
      → get_elem? s.calls i ≡ some c
      → c.result ≡ some r
      → settle_call s i how now draw at_ns ≡ s
  unfolding settle_call finish
  settle_call_again s i c r how now draw at_ns e q = rw (e, settle_call) (rw (q, finish) refl)

  -- Of a call in flight, whatever settles it first, the timer or the command, decides its result and
  -- gives back one slot, and one call fewer is in flight.
  pub settle_call_first :
      (s : System V) (i : ℕ) (c : Call V) (how : Settlement V) (now draw at_ns : ℕ)
      → get_elem? s.calls i ≡ some c
      → c.result ≡ none
      → let s' = settle_call s i how now draw at_ns in
        (get_elem? s'.calls i ≡ some (record c { result = some (result_of how) }))
        × (s'.breaker.inflight ≡ s.breaker.inflight - 1)
        × (pending s.calls ≡ pending s'.calls + 1)
  unfolding settle_call finish
  settle_call_first s i c how now draw at_ns e q =
      rw (e, settle_call)
        (rw (q, finish)
          (
            get_elem?-set_self s.calls i (record c { result = some (result_of how) }) c e,
            release-inflight s.breaker (outcome_of how) (round_us (at_ns - c.start_ns)) now draw,
            (counts-set s.calls i c (result_of how) e q).0,
          ))
