-- ===== src/Breaker/Calls.antt =====
-- Guarded calls (classifyRedisError, withCircuitBreaker): many calls in flight at once, each
-- settled by the command's promise or by the breaker's timer, whichever comes first. A system is
-- the breaker and the calls that it let through, in their order of arrival; what the event loop
-- runs next is an event. An error is its message (its text, if it has none) and its code.
pub mod Accounting
use Prim.Native.String.{String}
use Prim.Native.Char.{code}
use uam_backend.Prelude.{
  List, Option, ℕ, Bool, [], if◌then◌else◌, ◌∷◌, leb, true, ◌||◌, false, ◌&&◌, ◌==◌, some, ◌+◌,
  none, ◌/◌, get_elem?, ◌++◌, ◌-◌, set, Text, to_lower, text_eq, includes, text,
}
use uam_backend.Breaker.Window.{RedisCallOutcome, timeout, success, redis_error}
use uam_backend.Breaker.Machine.{CircuitBreaker, acquire, release, new_breaker}
use uam_backend.Breaker.Config.{CircuitBreakerConfig}

pub record RedisError : Type 0 where
  pub message : List ℕ
  pub code : Option Text

abbrev is_code : Option Text → Text → Bool
is_code none s = false
is_code (some t) s = text_eq t s

pub classify_redis_error : RedisError → RedisCallOutcome
unfolding to_lower includes
classify_redis_error e =
    let message = to_lower e.message in
    if includes (text "timed out") message
      || includes (text "wouldblock") message
      || includes (text "timeout") message
      || is_code e.code (text "ETIMEDOUT")
    then timeout
    else redis_error

-- How a call ends: the command's promise is fulfilled or rejected, or the timer fires.
pub data Settlement (V : Type 0) : Type 0 where
  fulfilled : V → Settlement V
  rejected : RedisError → Settlement V
  deadline : Settlement V

pub data CallResult (V : Type 0) : Type 0 where
  ok : V → CallResult V
  failed : RedisCallOutcome → CallResult V

-- `none` as a result means that the call is not settled.
pub record Call (V : Type 0) : Type 0 where
  pub start_ns : ℕ
  pub result : Option (CallResult V)

pub record System (V : Type 0) : Type 0 where
  pub breaker : CircuitBreaker
  pub calls : List (Call V)

-- A call arrives, or one of the two settles call number `index`. Each event comes with the clock's
-- reading `now` in milliseconds, the random draw, and the reading `at_ns` of the fine clock.
pub data Event (V : Type 0) : Type 0 where
  arrives : (now draw at_ns : ℕ) → Event V
  settles : (index : ℕ) → Settlement V → (now draw at_ns : ℕ) → Event V

-- Math.round(ns / 1e3)
abbrev pub round_us : ℕ → ℕ
round_us ns = (ns + 500) / 1_000

module _ {V : Type 0} where
  pub outcome_of : Settlement V → RedisCallOutcome
  outcome_of (fulfilled v) = success
  outcome_of (rejected e) = classify_redis_error e
  outcome_of deadline = timeout

  pub result_of : Settlement V → CallResult V
  result_of (fulfilled v) = ok v
  result_of (rejected e) = failed (classify_redis_error e)
  result_of deadline = failed timeout

  -- The start of a call: its result at once if the breaker rejects it, and else a call in flight.
  pub arrive : System V → ℕ → ℕ → ℕ → System V × Option (CallResult V)
  arrive s now draw at_ns =
      let (b, answer) = acquire s.breaker now draw in
      elim answer [
        | some outcome ↦ (record s { breaker = b }, some (failed outcome))
        | none ↦ (
          record s {
            breaker = b;
            calls = s.calls ++ record { start_ns = at_ns; result = none } ∷ [];
          },
          none,
        )
      ]

  -- `finish`, for the call itself: a call that has settled ignores what comes later.
  pub finish : System V → ℕ → Call V → Settlement V → ℕ → ℕ → ℕ → System V
  finish s index call how now draw at_ns = elim call.result [
    | some r ↦ s
    | none ↦ record s {
      breaker = release s.breaker (outcome_of how) (round_us (at_ns - call.start_ns)) now draw;
      calls = set s.calls index (record call { result = some (result_of how) });
    }
  ]

  pub settle_call : System V → ℕ → Settlement V → ℕ → ℕ → ℕ → System V
  unfolding finish
  settle_call s index how now draw at_ns = elim (get_elem? s.calls index) [
    | none ↦ s
    | some call ↦ finish s index call how now draw at_ns
  ]

  pub step : System V → Event V → System V
  unfolding arrive settle_call
  step s (arrives now draw at_ns) = (arrive s now draw at_ns).0
  step s (settles index how now draw at_ns) = settle_call s index how now draw at_ns

  pub run : System V → List (Event V) → System V
  run s [] = s
  run s (e ∷ es) = run (step s e) es

  pub start : CircuitBreakerConfig → System V
  start c = record { breaker = new_breaker c; calls = [] }
