-- ===== src/Breaker/Machine.antt =====
-- The state machine of the breaker (class CircuitBreaker): acquire, release, reset, and the
-- metrics. A handler runs at one reading `now` of the clock in milliseconds; `draw` stands for
-- Math.random() * 2^53. Log lines are left out.
pub mod Invariant
pub mod Transitions
pub mod Detection
pub mod Recovery
pub mod Slots
use uam_backend.Prelude.{
  ℕ, ◌+◌, ◌-◌, ◌*◌, ◌/◌, ◌^◌, Bool, true, false, ◌&&◌, ◌||◌, List, Option, none, some, ltb, leb,
  if◌then◌else◌,
}
use uam_backend.Breaker.Config.{CircuitBreakerConfig, clamp_config}
use uam_backend.Breaker.Window.{
  RedisCallOutcome, success, redis_error, timeout, circuit_open, concurrency_rejected, TimeBucket,
  WindowStats, Rate, create, record_call, aggregate, reset_window, percentile_us, error_rate,
  timeout_rate, rate_ge, rate_le,
}

pub data CircuitState : Type 0 where
  closed opened half_open : CircuitState

pub record CircuitBreaker : Type 0 where
  pub config : CircuitBreakerConfig
  pub state : CircuitState
  pub opened_at_ms : ℕ
  pub cooldown_ms : ℕ
  pub consecutive_fail : ℕ
  pub consecutive_timeout : ℕ
  pub probes_dispatched : ℕ
  pub half_open_successes : ℕ
  pub half_open_started_at_ms : ℕ
  pub inflight : ℕ
  pub window : List TimeBucket
  pub requests_total : ℕ
  pub success_total : ℕ
  pub errors_total : ℕ
  pub timeouts_total : ℕ
  pub circuit_open_total : ℕ
  pub circuit_half_open_total : ℕ
  pub circuit_rejected_total : ℕ

unfoldable pub new_breaker : CircuitBreakerConfig → CircuitBreaker
new_breaker c =
    let config = clamp_config c in
    record {
      config = config;
      state = closed;
      opened_at_ms = 0;
      cooldown_ms = 0;
      consecutive_fail = 0;
      consecutive_timeout = 0;
      probes_dispatched = 0;
      half_open_successes = 0;
      half_open_started_at_ms = 0;
      inflight = 0;
      window = create config.window_secs;
      requests_total = 0;
      success_total = 0;
      errors_total = 0;
      timeouts_total = 0;
      circuit_open_total = 0;
      circuit_half_open_total = 0;
      circuit_rejected_total = 0;
    }

-- Date.now() / 1000, rounded down.
abbrev pub secs : ℕ → ℕ
secs now = now / 1_000

-- The statistics of the breaker's own window at `now`.
pub stats_at : CircuitBreaker → ℕ → WindowStats
stats_at b now = aggregate b.window b.config.window_secs (secs now)

pub is_closed : CircuitBreaker → Bool
is_closed b = elim b.state [ closed ↦ true | _ ↦ false ]

pub inflight_count : CircuitBreaker → ℕ
inflight_count b = b.inflight

pub p50_us : CircuitBreaker → ℕ → ℕ
p50_us b now = percentile_us (stats_at b now) 50

pub p95_us : CircuitBreaker → ℕ → ℕ
p95_us b now = percentile_us (stats_at b now) 95

pub p99_us : CircuitBreaker → ℕ → ℕ
p99_us b now = percentile_us (stats_at b now) 99

pub breaker_error_rate : CircuitBreaker → ℕ → Rate
breaker_error_rate b now = error_rate (stats_at b now)

-- Math.floor(Math.random() * cooldownJitterMs); it is 0 without jitter.
pub jitter_ms : CircuitBreakerConfig → ℕ → ℕ
jitter_ms c draw = draw * c.cooldown_jitter_ms / 2 ^ 53

pub trip_open : CircuitBreaker → ℕ → ℕ → CircuitBreaker
trip_open b now draw = elim b.state [
  | opened ↦ b
  | _ ↦ record b {
    state = opened;
    opened_at_ms = now;
    cooldown_ms = b.config.open_cooldown_ms + jitter_ms b.config draw;
    circuit_open_total = b.circuit_open_total + 1;
  }
]

abbrev pub reject : CircuitBreaker → RedisCallOutcome → CircuitBreaker × Option RedisCallOutcome
reject b outcome =
    (record b { circuit_rejected_total = b.circuit_rejected_total + 1 }, some outcome)

-- The two tests are of `now - t >= d`, where the source's difference may be negative.
pub acquire_half_open : CircuitBreaker → ℕ → ℕ → CircuitBreaker × Option RedisCallOutcome
acquire_half_open b now draw =
    if leb (b.half_open_started_at_ms + b.config.half_open_max_ms) now
    then reject (elim b.state [ half_open ↦ trip_open b now draw | _ ↦ b ]) circuit_open
    else if leb b.config.half_open_probes b.probes_dispatched
    then reject b circuit_open
    else if leb b.config.half_open_probes b.inflight
    then reject b concurrency_rejected
    else (record b { probes_dispatched = b.probes_dispatched + 1; inflight = b.inflight + 1 }, none)

start_probing : CircuitBreaker → ℕ → CircuitBreaker
start_probing b now = record b {
  state = half_open;
  probes_dispatched = 0;
  half_open_successes = 0;
  half_open_started_at_ms = now;
  circuit_half_open_total = b.circuit_half_open_total + 1;
}

-- `none` lets the call proceed; `some` is the reason for which it is rejected.
pub acquire : CircuitBreaker → ℕ → ℕ → CircuitBreaker × Option RedisCallOutcome
unfolding start_probing
acquire b now draw = elim b.state [
  | closed ↦
      if leb b.config.max_inflight b.inflight
      then reject b concurrency_rejected
      else (record b { inflight = b.inflight + 1 }, none)
  | opened ↦
      if leb (b.opened_at_ms + b.cooldown_ms) now
      then acquire_half_open (start_probing b now) now draw
      else reject b circuit_open
  | half_open ↦ acquire_half_open b now draw
]

-- The statistical detector's verdict on a window.
pub is_degraded : CircuitBreakerConfig → WindowStats → Bool
is_degraded c stats =
    leb c.min_samples stats.total
    && (rate_ge (error_rate stats) c.error_rate_open
        || rate_ge (timeout_rate stats) c.timeout_rate_open
        || leb c.p99_us_open (percentile_us stats 99))

pub check_statistical_open : CircuitBreaker → ℕ → ℕ → CircuitBreaker
check_statistical_open b now draw =
    if is_degraded b.config (stats_at b now) then trip_open b now draw else b

-- The recovery test of `release`, on the window that holds the call that has just ended.
pub is_recovered : CircuitBreakerConfig → WindowStats → Bool
is_recovered c stats =
    leb (percentile_us stats 99) c.p99_us_recovery
    && rate_le (error_rate stats) c.error_rate_recovery

-- What `release` does before it looks at the outcome.
settle : CircuitBreaker → RedisCallOutcome → ℕ → ℕ → CircuitBreaker
settle b outcome latency_us now = record b {
  inflight = b.inflight - 1;
  window = record_call (secs now) outcome latency_us b.window;
  requests_total = b.requests_total + 1;
}

probe_succeeded : CircuitBreaker → ℕ → CircuitBreaker
probe_succeeded b now =
    let b' = record b { half_open_successes = b.half_open_successes + 1 } in
    if leb b'.config.recovery_successes b'.half_open_successes
      && is_recovered b'.config (stats_at b' now)
    then record b' { state = closed }
    else b'

count_success : CircuitBreaker → CircuitBreaker
count_success b = record b {
  success_total = b.success_total + 1;
  consecutive_fail = 0;
  consecutive_timeout = 0;
}

count_timeout : CircuitBreaker → CircuitBreaker
count_timeout b = record b {
  timeouts_total = b.timeouts_total + 1;
  consecutive_fail = b.consecutive_fail + 1;
  consecutive_timeout = b.consecutive_timeout + 1;
}

count_error : CircuitBreaker → CircuitBreaker
count_error b = record b {
  errors_total = b.errors_total + 1;
  consecutive_fail = b.consecutive_fail + 1;
}

-- The three branches of `release` after the counters are set.
after_success : CircuitBreaker → ℕ → ℕ → CircuitBreaker
unfolding probe_succeeded
after_success b now draw = elim b.state [
  | half_open ↦ probe_succeeded b now
  | _ ↦ check_statistical_open b now draw
]

after_timeout : CircuitBreaker → ℕ → ℕ → CircuitBreaker
after_timeout b now draw = elim b.state [
  | half_open ↦ trip_open b now draw
  | _ ↦
      if leb b.config.consecutive_timeout_open b.consecutive_timeout
        || leb b.config.consecutive_fail_open b.consecutive_fail
      then trip_open b now draw
      else check_statistical_open b now draw
]

after_error : CircuitBreaker → ℕ → ℕ → CircuitBreaker
after_error b now draw = elim b.state [
  | half_open ↦ trip_open b now draw
  | _ ↦
      if leb b.config.consecutive_fail_open b.consecutive_fail
      then trip_open b now draw
      else check_statistical_open b now draw
]

-- Outcomes that stand for a rejected call are never passed in; they would fall through.
pub release : CircuitBreaker → RedisCallOutcome → ℕ → ℕ → ℕ → CircuitBreaker
unfolding settle count_success count_timeout count_error after_success after_timeout after_error
release b success latency_us now draw =
    after_success (count_success (settle b success latency_us now)) now draw
release b timeout latency_us now draw =
    after_timeout (count_timeout (settle b timeout latency_us now)) now draw
release b redis_error latency_us now draw =
    after_error (count_error (settle b redis_error latency_us now)) now draw
release b outcome latency_us now draw = settle b outcome latency_us now

pub reset : CircuitBreaker → CircuitBreaker
reset b = record b {
  state = closed;
  consecutive_fail = 0;
  consecutive_timeout = 0;
  probes_dispatched = 0;
  half_open_successes = 0;
  half_open_started_at_ms = 0;
  inflight = 0;
  window = reset_window b.window;
}
