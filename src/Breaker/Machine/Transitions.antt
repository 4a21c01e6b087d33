-- ===== src/Breaker/Machine/Transitions.antt =====
-- Which changes of state the operations make.
use uam_backend.Prelude.{ℕ, ◌≡◌, ◌≢◌, arith, ◌+◌, ◌≤◌, true, ◌∙◌, sym, ◌<◌, some, refl}
use uam_backend.Breaker.Window.{success, redis_error, timeout}
use uam_backend.Breaker.Machine.{
  acquire, release, CircuitBreaker, acquire_half_open, start_probing, RedisCallOutcome, trip_open,
  opened, half_open, closed, is_recovered, stats_at, check_statistical_open, probe_succeeded,
  after_success, after_timeout, after_error, settle, count_success, count_timeout, circuit_open,
  count_error,
}
use uam_backend.Breaker.Machine.Invariant.{IsValid}

-- What one operation at `now` may do to the circuit: leave it as it is; open it; start probing,
-- once the cooldown has passed; or close it, once enough probes succeeded and the window, with
-- the last of them in it, is within the recovery thresholds.
pub data Move (now : ℕ) (b b' : CircuitBreaker) : Type 0 where
  keep :
      b'.state ≡ b.state
      → b'.opened_at_ms ≡ b.opened_at_ms
      → b'.cooldown_ms ≡ b.cooldown_ms
      → Move now b b'
  trip : b.state ≢ opened → b'.state ≡ opened → b'.opened_at_ms ≡ now → Move now b b'
  probe :
      b.state ≡ opened
      → b.opened_at_ms + b.cooldown_ms ≤ now
      → b'.state ≡ half_open
      → b'.half_open_started_at_ms ≡ now
      → Move now b b'
  recover :
      b.state ≡ half_open
      → b'.state ≡ closed
      → b'.config.recovery_successes ≤ b'.half_open_successes
      → is_recovered b'.config (stats_at b' now) ≡ true
      → Move now b b'

-- What `acquire` does to the circuit of a valid breaker is one of these: leave its state and deadline
-- as they are; open it, from another state, at `now`; start probing, once the cooldown has passed;
-- or close it, from probing, once enough probes succeeded and the window is within the recovery
-- thresholds.
pub acquire-Move :
    (b : CircuitBreaker) (now draw : ℕ) → IsValid b → Move now b (acquire b now draw).0
unfolding acquire acquire_half_open start_probing trip_open
acquire-Move b now draw v = grind (arith, keep, trip, probe)

trip_open-Move : (b : CircuitBreaker) (now draw : ℕ) → Move now b (trip_open b now draw)
unfolding trip_open
trip_open-Move b now draw = grind (arith, keep, trip)

check_statistical_open-Move :
    (b : CircuitBreaker) (now draw : ℕ) → Move now b (check_statistical_open b now draw)
unfolding check_statistical_open
check_statistical_open-Move b now draw = grind (arith, keep, trip_open-Move b now draw)

probe_succeeded-Move :
    (b : CircuitBreaker) (now : ℕ) → b.state ≡ half_open → Move now b (probe_succeeded b now)
unfolding probe_succeeded stats_at
probe_succeeded-Move b now h = grind (arith, keep, recover)

after_success-Move : (b : CircuitBreaker) (now draw : ℕ) → Move now b (after_success b now draw)
unfolding after_success
after_success-Move b now draw =
    ground (arith, probe_succeeded-Move b now, check_statistical_open-Move b now draw)

after_timeout-Move : (b : CircuitBreaker) (now draw : ℕ) → Move now b (after_timeout b now draw)
unfolding after_timeout
after_timeout-Move b now draw =
    ground (arith, trip_open-Move b now draw, check_statistical_open-Move b now draw)

after_error-Move : (b : CircuitBreaker) (now draw : ℕ) → Move now b (after_error b now draw)
unfolding after_error
after_error-Move b now draw =
    ground (arith, trip_open-Move b now draw, check_statistical_open-Move b now draw)

-- A move from a breaker that agrees on the circuit's fields is a move.
Move-from :
    {now : ℕ} {a b b' : CircuitBreaker}
    → a.state ≡ b.state
    → a.opened_at_ms ≡ b.opened_at_ms
    → a.cooldown_ms ≡ b.cooldown_ms
    → Move now a b'
    → Move now b b'
Move-from s o c (keep s' o' c') = keep (s' ∙ s) (o' ∙ o) (c' ∙ c)
Move-from s o c (trip n s' o') = trip (λ e. n (s ∙ e)) s' o'
Move-from s o c (probe e l s' t) = probe (sym s ∙ e) (omega arith) s' t
Move-from s o c (recover e s' r w) = recover (sym s ∙ e) s' r w

-- What `release` does to the circuit, for every outcome, latency and time, is one of these: leave its
-- state and deadline as they are; open it, from another state, at `now`; start probing, once the
-- cooldown has passed; or close it, from probing, once enough probes succeeded and the window is
-- within the recovery thresholds.
pub release-Move :
    (b : CircuitBreaker) (outcome : RedisCallOutcome) (latency_us now draw : ℕ)
    → Move now b (release b outcome latency_us now draw)
unfolding release
release-Move b success latency_us now draw =
    Move-from {a = count_success (settle b success latency_us now)} refl refl refl
      (after_success-Move _ now draw)
release-Move b timeout latency_us now draw =
    Move-from {a = count_timeout (settle b timeout latency_us now)} refl refl refl
      (after_timeout-Move _ now draw)
release-Move b redis_error latency_us now draw =
    Move-from {a = count_error (settle b redis_error latency_us now)} refl refl refl
      (after_error-Move _ now draw)
release-Move b outcome latency_us now draw = keep refl refl refl

-- While a circuit is open, `release` changes neither its state nor its deadline.
pub release_while_open :
    (b : CircuitBreaker) (outcome : RedisCallOutcome) (latency_us now draw : ℕ)
    → b.state ≡ opened
    → let b' = release b outcome latency_us now draw in
      (b'.state ≡ opened) × (b'.opened_at_ms ≡ b.opened_at_ms) × (b'.cooldown_ms ≡ b.cooldown_ms)
unfolding release after_success after_timeout after_error check_statistical_open trip_open settle
    count_success count_timeout count_error
release_while_open b success latency_us now draw h = ground arith
release_while_open b timeout latency_us now draw h = ground arith
release_while_open b redis_error latency_us now draw h = ground arith
release_while_open b outcome latency_us now draw h = ground arith

-- Before its cooldown has passed, an open circuit rejects every call, and changes nothing but the
-- count of rejections.
pub acquire_while_open :
    (b : CircuitBreaker) (now draw : ℕ)
    → b.state ≡ opened
    → now < b.opened_at_ms + b.cooldown_ms
    → acquire b now draw
      ≡ (record b { circuit_rejected_total = b.circuit_rejected_total + 1 }, some circuit_open)
unfolding acquire
acquire_while_open b now draw h early = ground arith
