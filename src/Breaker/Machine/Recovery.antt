-- ===== src/Breaker/Machine/Recovery.antt =====
-- That the circuit does not stay open for ever, and what counts as recovery.
use uam_backend.Prelude.{
  ℕ, ◌≡◌, ◌⊎◌, ◌<◌, none, ◌^◌, ◌+◌, arith, ◌≤◌, inl, inr, ◌↔◌, refl, true, ap,
}
use uam_backend.Breaker.Machine.{
  CircuitBreaker, CircuitState, release, after_success, closed, probe_succeeded, acquire, settle,
  start_probing, acquire_half_open, opened, count_success, trip_open, half_open, stats_at, success,
  jitter_ms, is_recovered,
}
use uam_backend.Breaker.Machine.Invariant.{IsValid, acquire-IsValid, jitter_ms-le}

module _ (b : CircuitBreaker) (now draw : ℕ) (v : IsValid b) where
  -- Once the cooldown has passed, a call goes through as a probe if a probe's slot is free.
  probe_admitted :
      b.state ≡ opened
      → b.opened_at_ms + b.cooldown_ms ≤ now
      → b.inflight < b.config.half_open_probes
      → (acquire b now draw).1 ≡ none
  unfolding acquire start_probing acquire_half_open
  probe_admitted o late free = ground arith

  -- A circuit that has probed for too long is opened anew.
  rearmed :
      b.state ≡ half_open
      → b.half_open_started_at_ms + b.config.half_open_max_ms ≤ now
      → let b' = (acquire b now draw).0 in
        (b'.state ≡ opened)
        × (b'.opened_at_ms ≡ now)
        × (b'.config ≡ b.config)
        × (b'.inflight ≡ b.inflight)
        × (b'.cooldown_ms ≡ b.config.open_cooldown_ms + jitter_ms b.config draw)
  unfolding acquire acquire_half_open trip_open
  rearmed o late = ground arith

  admitted_closed :
      b.state ≡ closed → b.inflight < b.config.max_inflight → (acquire b now draw).1 ≡ none
  unfolding acquire
  admitted_closed c free = ground arith

state_cases : (s : CircuitState) → (s ≡ closed) ⊎ (s ≡ opened) ⊎ (s ≡ half_open)
state_cases closed = inl refl
state_cases opened = inr (inl refl)
state_cases half_open = inr (inr refl)

-- From any valid state whose slots in use are below both limits, take a call made once the cooldown
-- and the probing deadline have passed, and another made a full cooldown (with its largest jitter)
-- later or after: one of the two is let through to Redis.
pub acquire_twice :
    (b : CircuitBreaker) (now later draw draw' : ℕ)
    → IsValid b
    → draw < 2 ^ 53
    → b.inflight < b.config.half_open_probes
    → b.inflight < b.config.max_inflight
    → b.opened_at_ms + b.cooldown_ms ≤ now
    → b.half_open_started_at_ms + b.config.half_open_max_ms ≤ now
    → now + b.config.open_cooldown_ms + b.config.cooldown_jitter_ms ≤ later
    → ((acquire b now draw).1 ≡ none) ⊎ ((acquire (acquire b now draw).0 later draw').1 ≡ none)
acquire_twice b now later draw draw' v d p q o s l = elim (state_cases b.state) [
  | inl c ↦ inl (admitted_closed b now draw v c q)
  | inr (inl e) ↦ inl (probe_admitted b now draw v e o p)
  | inr (inr e) ↦
      let (state, at, config, slots, cooldown) = rearmed b now draw v e s in
      inr (
        probe_admitted (acquire b now draw).0 later draw' (acquire-IsValid b now draw d v) state
          (omega (arith, at, cooldown, jitter_ms-le b.config draw d))
          (omega (arith, slots, ap (λ c. c.half_open_probes) config, p)))
]

-- While probing, a success closes the circuit exactly when it completes the required number and
-- the window, with that call in it, is within the recovery thresholds; else probing goes on.
pub release_success_iff :
    (b : CircuitBreaker) (latency_us now draw : ℕ)
    → b.state ≡ half_open
    → let b' = release b success latency_us now draw in
      ((b'.state ≡ closed) ↔ (
        (b.config.recovery_successes ≤ b.half_open_successes + 1)
        × (is_recovered b.config (stats_at b' now) ≡ true)))
      × ((b'.state ≡ closed) ⊎ (b'.state ≡ half_open))
unfolding release after_success probe_succeeded settle count_success stats_at
release_success_iff b latency_us now draw h = ground arith
