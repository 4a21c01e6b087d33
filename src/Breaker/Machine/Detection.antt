-- ===== src/Breaker/Machine/Detection.antt =====
-- The fast detector: an unbroken row of failures opens the circuit.
use uam_backend.Prelude.{
  ◌≡◌, ℕ, List, ◌⊎◌, All, ◌<◌, length, ◌≤◌, ◌+◌, arith, ◌∷◌, inl, inr, ap, [],
}
use uam_backend.Breaker.Window.{RedisCallOutcome}
use uam_backend.Breaker.Machine.{
  CircuitBreaker, release, timeout, after_success, after_timeout, opened, redis_error, after_error,
  check_statistical_open, trip_open, settle, count_success, count_timeout, count_error, closed,
}
use uam_backend.Breaker.Machine.Transitions.{release_while_open}

-- A run of failed calls, each with its latency and its reading of the clock and of the random source.
pub record Failure : Type 0 where
  pub outcome : RedisCallOutcome
  pub latency_us : ℕ
  pub now : ℕ
  pub draw : ℕ

abbrev pub IsFailure : Failure → Type 0
IsFailure f = (f.outcome ≡ timeout) ⊎ (f.outcome ≡ redis_error)

-- The breaker after a run of releases, with no success among them.
pub release_all : CircuitBreaker → List Failure → CircuitBreaker
release_all b [] = b
release_all b (f ∷ fs) = release_all (release b f.outcome f.latency_us f.now f.draw) fs

-- A failed call leaves the circuit open, or leaves it closed with the row one longer and still
-- below the threshold.
failed_once :
    (b : CircuitBreaker) (f : Failure)
    → IsFailure f
    → let b' = release b f.outcome f.latency_us f.now f.draw in
      (b'.state ≡ opened)
      ⊎ ((b.state ≡ closed)
          × (b'.state ≡ closed)
          × (b'.config ≡ b.config)
          × (b'.consecutive_fail ≡ b.consecutive_fail + 1)
          × (b'.consecutive_fail < b.config.consecutive_fail_open))
unfolding release after_success after_timeout after_error check_statistical_open trip_open settle
    count_success count_timeout count_error
failed_once b f (inl e) = rw e (ground arith)
failed_once b f (inr e) = rw e (ground arith)

stays_opened :
    (b : CircuitBreaker) (fs : List Failure) → b.state ≡ opened → (release_all b fs).state ≡ opened
unfolding release_all
stays_opened b [] h = h
stays_opened b (f ∷ fs) h =
    stays_opened (release b f.outcome f.latency_us f.now f.draw) fs
      (release_while_open b f.outcome f.latency_us f.now f.draw h).0

-- A row of errors and timeouts, at least one, that together with the failures already counted in a
-- row reaches `consecutive_fail_open`, leaves the circuit open, whatever its state was before and
-- whatever the rolling statistics say.
pub release_all-opened :
    (b : CircuitBreaker) (fs : List Failure)
    → All IsFailure fs
    → 0 < length fs
    → b.config.consecutive_fail_open ≤ b.consecutive_fail + length fs
    → (release_all b fs).state ≡ opened
unfolding release_all
release_all-opened b [] a p h = absurd (omega arith)
release_all-opened b (f ∷ fs) a p h = elim (failed_once b f a.0) [
  | inl e ↦ stays_opened _ fs e
  | inr (_, _, k, n, l) ↦
      release_all-opened (release b f.outcome f.latency_us f.now f.draw) fs a.1
        (omega (arith, n, l, h)) (omega (arith, n, h, ap (λ c. c.consecutive_fail_open) k))
]
