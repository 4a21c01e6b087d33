-- ===== src/Breaker/Tests.antt =====
-- The breaker's theorems at concrete inputs: the default configuration, and short runs.
use uam_backend.Prelude.{
  List, ◌≡◌, ◌∷◌, ◌≤◌, ℕ, replicate, [], arith, some, none, max, refl, ◌⊎◌, inr,
}
use uam_backend.Breaker.Config.{CircuitBreakerConfig, clamp_config}
use uam_backend.Breaker.Machine.{CircuitBreaker, release, acquire, new_breaker, opened, half_open}
use uam_backend.Breaker.Window.{
  WindowStats, percentile_us, aggregate, target_of, timeout, success, redis_error, hist_bounds_us,
  error_count, timeout_count,
}
use uam_backend.Breaker.Window.Percentile.{IsRank, percentile_us-IsRank}
use uam_backend.Breaker.Window.Retention.{aggregate-window_of}
use uam_backend.Breaker.Machine.Invariant.{
  IsValid, acquire-IsValid, release-IsValid, new_breaker-IsValid,
}
use uam_backend.Breaker.Machine.Transitions.{Move, release-Move}
use uam_backend.Breaker.Machine.Detection.{Failure, release_all, release_all-opened}
use uam_backend.Breaker.Calls.{
  run, Call, System, Event, start, fulfilled, arrives, settles, failed, deadline,
}
use uam_backend.Breaker.Calls.Accounting.{pending, settled, run-accounting}
use uam_backend.Breaker.Machine.Slots.{IsCounted}
use uam_backend.Breaker.Machine.Recovery.{acquire_twice}
use uam_backend.Breaker.Window.Log.{window_of, Entry}

abbrev defaults : CircuitBreakerConfig
defaults = record {
  window_secs = 10;
  min_samples = 20;
  consecutive_fail_open = 5;
  consecutive_timeout_open = 3;
  error_rate_open = 500_000;
  timeout_rate_open = 300_000;
  p99_us_open = 500_000;
  p99_us_recovery = 250_000;
  error_rate_recovery = 100_000;
  open_cooldown_ms = 10_000;
  cooldown_jitter_ms = 2_000;
  half_open_probes = 3;
  recovery_successes = 3;
  max_inflight = 500;
  half_open_max_ms = 30_000;
  operation_timeout_ms = 5_000;
}

abbrev fresh : CircuitBreaker
fresh = new_breaker defaults

abbrev open_since_1000 : CircuitBreaker
open_since_1000 = record fresh { state = opened; opened_at_ms = 1_000; cooldown_ms = 10_000 }

abbrev probing : CircuitBreaker
probing = record fresh {
  state = half_open;
  half_open_started_at_ms = 1_000;
  half_open_successes = 2;
  probes_dispatched = 3;
}

abbrev some_stats : WindowStats
some_stats = record { total = 3; errors = 1; timeouts = 1; hist = 1 ∷ 0 ∷ 2 ∷ replicate 15 0 }

percentile_us-IsRank_example :
    IsRank (target_of 3 50) 0 (percentile_us some_stats 50) some_stats.hist hist_bounds_us
percentile_us-IsRank_example =
    percentile_us-IsRank some_stats 50
      (record { bands = refl; counted = refl; failed = omega arith }) (omega arith) (omega arith)
      (omega arith)

abbrev newest : Entry
newest = record { ts = 7; outcome = timeout; latency_us = 900 }

abbrev older : List Entry
older = record { ts = 5; outcome = success; latency_us = 300 } ∷ []

aggregate-window_of_example :
    let stats = aggregate (window_of 2 (newest ∷ older)) 2 7 in
    (stats.total ≡ 1) × (stats.errors ≡ 0) × (stats.timeouts ≡ 1)
unfolding error_count timeout_count
aggregate-window_of_example =
    aggregate-window_of 2 newest older (omega arith) (omega arith) (omega arith, tt)

acquire-IsValid_example : IsValid (acquire fresh 5 0).0
acquire-IsValid_example = acquire-IsValid fresh 5 0 (omega arith) (new_breaker-IsValid defaults)

release-IsValid_example : IsValid (release fresh timeout 900 5 0)
release-IsValid_example =
    release-IsValid fresh timeout 900 5 0 (omega arith) (new_breaker-IsValid defaults)

release-Move_example : Move 5_000 probing (release probing success 300 5_000 0)
release-Move_example = release-Move probing success 300 5_000 0

abbrev failing : Failure
failing = record { outcome = redis_error; latency_us = 900; now = 5; draw = 0 }

release_all-opened_example :
    (release_all fresh (failing ∷ failing ∷ failing ∷ failing ∷ failing ∷ [])).state ≡ opened
unfolding new_breaker clamp_config
release_all-opened_example =
    release_all-opened fresh (failing ∷ failing ∷ failing ∷ failing ∷ failing ∷ [])
      (inr refl, (inr refl, (inr refl, (inr refl, (inr refl, tt))))) (omega arith) (omega arith)

acquire_twice_example :
    ((acquire fresh 50_000 0).1 ≡ none) ⊎ ((acquire (acquire fresh 50_000 0).0 70_000 0).1 ≡ none)
unfolding new_breaker clamp_config
acquire_twice_example =
    acquire_twice fresh 50_000 70_000 0 0 (new_breaker-IsValid defaults) (omega arith) (omega arith)
      (omega arith) (omega arith) (omega arith) (omega arith)

abbrev two_calls : List (Event ℕ)
two_calls =
    arrives 5 0 100
    ∷ arrives 6 0 200
    ∷ settles 0 deadline 9 0 900
    ∷ settles 0 (fulfilled 3) 9 0 950
    ∷ []

run-accounting_example :
    let s = run (start defaults) two_calls in
    (s.breaker.inflight ≡ pending s.calls)
    × (pending s.calls ≤ max s.breaker.config.max_inflight s.breaker.config.half_open_probes)
    × (s.breaker.requests_total ≡ settled s.calls)
    × IsCounted s.breaker
run-accounting_example =
    run-accounting defaults two_calls (omega arith, (omega arith, (omega arith, (omega arith, tt))))

abbrev settled_call : Call ℕ
settled_call = record { start_ns = 100; result = some (failed timeout) }

abbrev open_call : Call ℕ
open_call = record { start_ns = 200; result = none }

abbrev two_in_system : System ℕ
two_in_system = record { breaker = fresh; calls = settled_call ∷ open_call ∷ [] }
