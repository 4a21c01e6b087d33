-- ===== src/Breaker/Machine/Invariant.antt =====
-- The invariant of the breaker, kept by every operation.
use uam_backend.Prelude.{ℕ, ◌+◌, ◌*◌, ◌^◌, ◌≤◌, ◌<◌, ◌≡◌, ◌∙◌, max, length, All, arith}
use uam_backend.Breaker.Config.{CircuitBreakerConfig}
use uam_backend.Breaker.Config.Bounds.{IsClamped, clamp_config-IsClamped}
use uam_backend.Breaker.Window.{RedisCallOutcome, success, redis_error, timeout}
use uam_backend.Breaker.Window.Shape.{
  IsSoundBucket, create-IsSound, length-create, record_call-IsSound, length-record_call,
  reset_window-IsSound, length-reset_window,
}
use uam_backend.Breaker.Machine.{
  CircuitBreaker, opened, new_breaker, jitter_ms, trip_open, acquire_half_open, acquire,
  check_statistical_open, release, reset, start_probing, settle, count_success, count_timeout,
  count_error, probe_succeeded, after_success, after_timeout, after_error,
}

-- Slots in use never pass the larger of the two limits; probes never pass theirs; the cooldown of
-- an open circuit lies in its configured range.
pub record IsValid (b : CircuitBreaker) : Type 0 where
  pub clamped : IsClamped b.config
  pub sized : length b.window ≡ b.config.window_secs
  pub sound : All IsSoundBucket b.window
  pub bounded : b.inflight ≤ max b.config.max_inflight b.config.half_open_probes
  pub probed : b.probes_dispatched ≤ b.config.half_open_probes
  pub cooled :
      b.state ≡ opened
      → (b.config.open_cooldown_ms ≤ b.cooldown_ms)
        × (b.cooldown_ms ≤ b.config.open_cooldown_ms + b.config.cooldown_jitter_ms)

pub new_breaker-IsValid : (c : CircuitBreakerConfig) → IsValid (new_breaker c)
unfolding new_breaker
new_breaker-IsValid c = record {
  clamped = clamp_config-IsClamped c;
  sized = omega (arith, length-create (new_breaker c).config.window_secs, clamp_config-IsClamped c);
  sound = create-IsSound _;
  bounded = omega arith;
  probed = omega arith;
  cooled = λ e. cc;
}

pub jitter_ms-le :
    (c : CircuitBreakerConfig) (draw : ℕ) → draw < 2 ^ 53 → jitter_ms c draw ≤ c.cooldown_jitter_ms
unfolding jitter_ms
jitter_ms-le c draw h =
    let p : draw * c.cooldown_jitter_ms ≤ 2 ^ 53 * c.cooldown_jitter_ms = grind arith in omega arith

pub trip_open-IsValid :
    (b : CircuitBreaker) (now draw : ℕ) → draw < 2 ^ 53 → IsValid b → IsValid (trip_open b now draw)
unfolding trip_open
trip_open-IsValid b now draw h v = ground (arith, jitter_ms-le b.config draw h)

acquire_half_open-IsValid :
    (b : CircuitBreaker) (now draw : ℕ)
    → draw < 2 ^ 53
    → IsValid b
    → IsValid (acquire_half_open b now draw).0
unfolding acquire_half_open
acquire_half_open-IsValid b now draw h v = ground (arith, trip_open-IsValid b now draw h)

start_probing-IsValid : (b : CircuitBreaker) (now : ℕ) → IsValid b → IsValid (start_probing b now)
unfolding start_probing
start_probing-IsValid b now v = ground arith

-- `acquire` keeps the invariant on every branch, for a random draw below 2^53.
pub acquire-IsValid :
    (b : CircuitBreaker) (now draw : ℕ) → draw < 2 ^ 53 → IsValid b → IsValid (acquire b now draw).0
unfolding acquire
acquire-IsValid b now draw h v = ground (
  arith,
  acquire_half_open-IsValid b now draw h v,
  acquire_half_open-IsValid (start_probing b now) now draw h (start_probing-IsValid b now v),
)

check_statistical_open-IsValid :
    (b : CircuitBreaker) (now draw : ℕ)
    → draw < 2 ^ 53
    → IsValid b
    → IsValid (check_statistical_open b now draw)
unfolding check_statistical_open
check_statistical_open-IsValid b now draw h v = ground (arith, trip_open-IsValid b now draw h v)

settle-IsValid :
    (b : CircuitBreaker) (outcome : RedisCallOutcome) (latency_us now : ℕ)
    → IsValid b
    → IsValid (settle b outcome latency_us now)
unfolding settle
settle-IsValid b outcome latency_us now v = record {
  clamped = v.clamped;
  sized = length-record_call _ outcome latency_us b.window ∙ v.sized;
  sound = record_call-IsSound _ outcome latency_us b.window v.sound;
  bounded = omega (arith, v.bounded);
  probed = v.probed;
  cooled = v.cooled;
}

count_success-IsValid : (b : CircuitBreaker) → IsValid b → IsValid (count_success b)
unfolding count_success
count_success-IsValid b v = ground arith

count_timeout-IsValid : (b : CircuitBreaker) → IsValid b → IsValid (count_timeout b)
unfolding count_timeout
count_timeout-IsValid b v = ground arith

count_error-IsValid : (b : CircuitBreaker) → IsValid b → IsValid (count_error b)
unfolding count_error
count_error-IsValid b v = ground arith

module _ (b : CircuitBreaker) (now draw : ℕ) (h : draw < 2 ^ 53) (v : IsValid b) where
  probe_succeeded-IsValid : IsValid (probe_succeeded b now)
  unfolding probe_succeeded
  probe_succeeded-IsValid = ground arith

  after_success-IsValid : IsValid (after_success b now draw)
  unfolding after_success
  after_success-IsValid =
      ground (arith, probe_succeeded-IsValid, check_statistical_open-IsValid b now draw h v)

  after_timeout-IsValid : IsValid (after_timeout b now draw)
  unfolding after_timeout
  after_timeout-IsValid =
      ground
        (arith, trip_open-IsValid b now draw h v, check_statistical_open-IsValid b now draw h v)

  after_error-IsValid : IsValid (after_error b now draw)
  unfolding after_error
  after_error-IsValid =
      ground
        (arith, trip_open-IsValid b now draw h v, check_statistical_open-IsValid b now draw h v)

-- `release` keeps the invariant for every outcome, latency and time, for a random draw below 2^53.
pub release-IsValid :
    (b : CircuitBreaker) (outcome : RedisCallOutcome) (latency_us now draw : ℕ)
    → draw < 2 ^ 53
    → IsValid b
    → IsValid (release b outcome latency_us now draw)
unfolding release
release-IsValid b success latency_us now draw h v =
    after_success-IsValid _ now draw h
      (count_success-IsValid _ (settle-IsValid b success latency_us now v))
release-IsValid b timeout latency_us now draw h v =
    after_timeout-IsValid _ now draw h
      (count_timeout-IsValid _ (settle-IsValid b timeout latency_us now v))
release-IsValid b redis_error latency_us now draw h v =
    after_error-IsValid _ now draw h
      (count_error-IsValid _ (settle-IsValid b redis_error latency_us now v))
release-IsValid b outcome latency_us now draw h v = settle-IsValid b outcome latency_us now v

pub reset-IsValid : (b : CircuitBreaker) → IsValid b → IsValid (reset b)
unfolding reset
reset-IsValid b v = record {
  clamped = v.clamped;
  sized = length-reset_window b.window ∙ v.sized;
  sound = reset_window-IsSound b.window;
  bounded = omega arith;
  probed = omega arith;
  cooled = λ e. cc;
}
