-- ===== src/Breaker/Config/Bounds.antt =====
-- What a clamped configuration guarantees to the breaker.
use uam_backend.Prelude.{◌≤◌, ◌≡◌, arith}
use uam_backend.Breaker.Config.{CircuitBreakerConfig, clamp_config, rate_one}

-- Every field lies in its range, and recovery is possible within one round of probes.
pub record IsClamped (c : CircuitBreakerConfig) : Type 0 where
  pub window_low : 1 ≤ c.window_secs
  pub window_high : c.window_secs ≤ 60
  pub samples_low : 5 ≤ c.min_samples
  pub samples_high : c.min_samples ≤ 1_000
  pub fail_low : 1 ≤ c.consecutive_fail_open
  pub fail_high : c.consecutive_fail_open ≤ 100
  pub timeout_low : 1 ≤ c.consecutive_timeout_open
  pub timeout_high : c.consecutive_timeout_open ≤ 100
  pub error_rate_high : c.error_rate_open ≤ rate_one
  pub timeout_rate_high : c.timeout_rate_open ≤ rate_one
  pub p99_low : 1_000 ≤ c.p99_us_open
  pub p99_high : c.p99_us_open ≤ 60_000_000
  pub recovery_low : 1_000 ≤ c.p99_us_recovery
  pub recovery_high : c.p99_us_recovery ≤ 60_000_000
  pub recovery_rate_high : c.error_rate_recovery ≤ rate_one
  pub cooldown_low : 100 ≤ c.open_cooldown_ms
  pub cooldown_high : c.open_cooldown_ms ≤ 300_000
  pub jitter_high : c.cooldown_jitter_ms ≤ 60_000
  pub probes_low : 1 ≤ c.half_open_probes
  pub probes_high : c.half_open_probes ≤ 20
  pub successes_low : 1 ≤ c.recovery_successes
  pub successes_high : c.recovery_successes ≤ c.half_open_probes
  pub inflight_low : 1 ≤ c.max_inflight
  pub inflight_high : c.max_inflight ≤ 10_000
  pub half_open_low : 1_000 ≤ c.half_open_max_ms
  pub half_open_high : c.half_open_max_ms ≤ 600_000
  pub operation_low : 100 ≤ c.operation_timeout_ms
  pub operation_high : c.operation_timeout_ms ≤ 60_000

-- A clamped configuration has every field in its range, whatever it was before, and never asks for
-- more successes than it allows probes.
pub clamp_config-IsClamped : (c : CircuitBreakerConfig) → IsClamped (clamp_config c)
unfolding clamp_config
clamp_config-IsClamped c = ground arith

-- A configuration that is already in range, with no more successes asked for than probes allowed,
-- is left as it is.
pub clamp_config-eq_self : (c : CircuitBreakerConfig) → IsClamped c → clamp_config c ≡ c
unfolding clamp_config
clamp_config-eq_self c h = ground arith
