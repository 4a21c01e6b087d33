-- ===== src/Breaker/Machine/Slots.antt =====
-- How acquire and release account for slots and for outcomes.
use uam_backend.Prelude.{Option, ℕ, ◌≡◌, ◌+◌, arith, some, none, ◌-◌}
use uam_backend.Breaker.Machine.{
  acquire_half_open, acquire, release, CircuitBreaker, trip_open, start_probing, after_success,
  after_timeout, after_error, check_statistical_open, settle, count_success, count_timeout,
  count_error, new_breaker, CircuitBreakerConfig,
}
use uam_backend.Breaker.Window.{
  RedisCallOutcome, success, timeout, redis_error, circuit_open, concurrency_rejected,
}

-- The slots that an answer of `acquire` takes.
abbrev pub taken : Option RedisCallOutcome → ℕ
taken none = 1
taken (some o) = 0

acquire_half_open-inflight :
    (b : CircuitBreaker) (now draw : ℕ)
    → (acquire_half_open b now draw).0.inflight
      ≡ b.inflight + taken (acquire_half_open b now draw).1
unfolding acquire_half_open trip_open
acquire_half_open-inflight b now draw = ground arith

-- A call takes one slot if it is let through, and none if it is rejected.
pub acquire-inflight :
    (b : CircuitBreaker) (now draw : ℕ)
    → (acquire b now draw).0.inflight ≡ b.inflight + taken (acquire b now draw).1
unfolding acquire start_probing
acquire-inflight b now draw = ground (
  arith,
  acquire_half_open-inflight b now draw,
  acquire_half_open-inflight (start_probing b now) now draw,
)

-- A release gives one slot back, whatever it does to the circuit.
pub release-inflight :
    (b : CircuitBreaker) (outcome : RedisCallOutcome) (latency_us now draw : ℕ)
    → (release b outcome latency_us now draw).inflight ≡ b.inflight - 1
unfolding release after_success after_timeout after_error check_statistical_open trip_open settle
    count_success count_timeout count_error
release-inflight b success latency_us now draw = ground arith
release-inflight b timeout latency_us now draw = ground arith
release-inflight b redis_error latency_us now draw = ground arith
release-inflight b outcome latency_us now draw = ground arith

-- Every request is counted once, by its outcome.
abbrev pub IsCounted : CircuitBreaker → Type 0
IsCounted b = b.requests_total ≡ b.success_total + b.errors_total + b.timeouts_total

acquire_half_open-totals :
    (b : CircuitBreaker) (now draw : ℕ) → IsCounted b → IsCounted (acquire_half_open b now draw).0
unfolding acquire_half_open trip_open
acquire_half_open-totals b now draw h = ground arith

pub acquire-IsCounted :
    (b : CircuitBreaker) (now draw : ℕ) → IsCounted b → IsCounted (acquire b now draw).0
unfolding acquire start_probing
acquire-IsCounted b now draw h = ground (
  arith,
  acquire_half_open-totals b now draw,
  acquire_half_open-totals (start_probing b now) now draw,
)

-- The outcomes of a call that reached Redis.
abbrev pub IsReal : RedisCallOutcome → Type 0
IsReal success = Unit
IsReal timeout = Unit
IsReal redis_error = Unit
IsReal _ = ⊥

pub release-IsCounted :
    (b : CircuitBreaker) (outcome : RedisCallOutcome) (latency_us now draw : ℕ)
    → IsReal outcome
    → IsCounted b
    → IsCounted (release b outcome latency_us now draw)
unfolding release after_success after_timeout after_error check_statistical_open trip_open settle
    count_success count_timeout count_error
release-IsCounted b success latency_us now draw r h = ground arith
release-IsCounted b timeout latency_us now draw r h = ground arith
release-IsCounted b redis_error latency_us now draw r h = ground arith
release-IsCounted b circuit_open latency_us now draw r h = absurd r
release-IsCounted b concurrency_rejected latency_us now draw r h = absurd r

acquire_half_open-requests :
    (b : CircuitBreaker) (now draw : ℕ)
    → (acquire_half_open b now draw).0.requests_total ≡ b.requests_total
unfolding acquire_half_open trip_open
acquire_half_open-requests b now draw = ground arith

pub acquire-requests :
    (b : CircuitBreaker) (now draw : ℕ) → (acquire b now draw).0.requests_total ≡ b.requests_total
unfolding acquire start_probing
acquire-requests b now draw = ground (
  arith,
  acquire_half_open-requests b now draw,
  acquire_half_open-requests (start_probing b now) now draw,
)

pub release-requests :
    (b : CircuitBreaker) (outcome : RedisCallOutcome) (latency_us now draw : ℕ)
    → (release b outcome latency_us now draw).requests_total ≡ b.requests_total + 1
unfolding release after_success after_timeout after_error check_statistical_open trip_open settle
    count_success count_timeout count_error
release-requests b success latency_us now draw = ground arith
release-requests b timeout latency_us now draw = ground arith
release-requests b redis_error latency_us now draw = ground arith
release-requests b outcome latency_us now draw = ground arith

pub new_breaker_counts :
    (c : CircuitBreakerConfig)
    → ((new_breaker c).inflight ≡ 0)
      × ((new_breaker c).requests_total ≡ 0)
      × IsCounted (new_breaker c)
unfolding new_breaker
new_breaker_counts c = omega arith
