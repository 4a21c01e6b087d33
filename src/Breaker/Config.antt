-- ===== src/Breaker/Config.antt =====
-- The breaker's configuration and its clamping (CircuitBreakerConfig, clampConfig).
-- Rates are parts per million of 1; a negative number from the environment stands as 0 here,
-- since every lower bound is at least 0 and so both are clamped alike.
pub mod Bounds
use uam_backend.Prelude.{ℕ, min, max, ltb, if◌then◌else◌}

-- The number 1, as a rate.
abbrev pub rate_one : ℕ
rate_one = 1_000_000

pub record CircuitBreakerConfig : Type 0 where
  pub window_secs : ℕ
  pub min_samples : ℕ
  pub consecutive_fail_open : ℕ
  pub consecutive_timeout_open : ℕ
  pub error_rate_open : ℕ
  pub timeout_rate_open : ℕ
  pub p99_us_open : ℕ
  pub p99_us_recovery : ℕ
  pub error_rate_recovery : ℕ
  pub open_cooldown_ms : ℕ
  pub cooldown_jitter_ms : ℕ
  pub half_open_probes : ℕ
  pub recovery_successes : ℕ
  pub max_inflight : ℕ
  pub half_open_max_ms : ℕ
  pub operation_timeout_ms : ℕ

-- Math.min(hi, Math.max(lo, x))
abbrev pub clamp : ℕ → ℕ → ℕ → ℕ
clamp lo hi x = min hi (max lo x)

clamp_ranges : CircuitBreakerConfig → CircuitBreakerConfig
clamp_ranges c = record {
  window_secs = clamp 1 60 c.window_secs;
  min_samples = clamp 5 1_000 c.min_samples;
  consecutive_fail_open = clamp 1 100 c.consecutive_fail_open;
  consecutive_timeout_open = clamp 1 100 c.consecutive_timeout_open;
  error_rate_open = clamp 0 rate_one c.error_rate_open;
  timeout_rate_open = clamp 0 rate_one c.timeout_rate_open;
  p99_us_open = clamp 1_000 60_000_000 c.p99_us_open;
  p99_us_recovery = clamp 1_000 60_000_000 c.p99_us_recovery;
  error_rate_recovery = clamp 0 rate_one c.error_rate_recovery;
  open_cooldown_ms = clamp 100 300_000 c.open_cooldown_ms;
  cooldown_jitter_ms = clamp 0 60_000 c.cooldown_jitter_ms;
  half_open_probes = clamp 1 20 c.half_open_probes;
  recovery_successes = clamp 1 20 c.recovery_successes;
  max_inflight = clamp 1 10_000 c.max_inflight;
  half_open_max_ms = clamp 1_000 600_000 c.half_open_max_ms;
  operation_timeout_ms = clamp 100 60_000 c.operation_timeout_ms;
}

-- The two further warnings of the source only print.
unfoldable pub clamp_config : CircuitBreakerConfig → CircuitBreakerConfig
unfolding clamp_ranges
clamp_config c =
    let clamped = clamp_ranges c in
    if ltb clamped.half_open_probes clamped.recovery_successes
    then record clamped { recovery_successes = clamped.half_open_probes }
    else clamped
