-- ===== src/RateLimit/Robust/Distributed.antt =====
-- Counting in Redis: strict mode, the life of a counter, and resetting it.
use uam_backend.Prelude.{
  ℕ, Text, List, Bool, ◌≤◌, ◌≡◌, ◌∷◌, ◌<◌, false, ◌+◌, true, All, length, arith, [], text, ◌++◌,
  ◌≢◌, ap, length-append, suc, ◌∙◌, if◌then◌else◌, ◌||◌, refl,
}
use uam_backend.RateLimit.Robust.{
  Counters, check_limit, RobustRateLimiter, Outcome, distributed_rate_limit, reset_limit,
  degrade_to_local, RateLimitResult, result_of, returned, PipelineFate, executed, redis_key,
  aligned_reset, expire_second, no_results, first_failed, unavailable, not_a_number, threw,
  redis_threw, LimiterConfig,
}

length-redis_key :
    (config : LimiterConfig) (client : Text)
    → length (redis_key config client) ≡ length config.key_prefix + suc (length client)
unfolding redis_key
length-redis_key config client =
    length-append (config.key_prefix ++ text ":") client
    ∙ omega (arith, length-append config.key_prefix (text ":"))

other_key :
    (config : LimiterConfig) (client : Text)
    → 10 < length config.key_prefix
    → text "rate_limit:" ++ client ≢ redis_key config client
other_key config client h e = absurd (omega (arith, ap length e, length-redis_key config client))

-- What a limiter that may not fall back answers, by what became of the pipeline.
abbrev pub StrictAnswer : LimiterConfig → ℕ → ℕ → PipelineFate → Outcome RateLimitResult → Type 0
StrictAnswer c now count executed answer =
    answer ≡ returned (result_of c count (aligned_reset c now))
StrictAnswer c now count no_results answer = answer ≡ unavailable
StrictAnswer c now count first_failed answer = answer ≡ unavailable
StrictAnswer c now count not_a_number answer =
    answer ≡ returned (record { allowed = false; remaining = 0; reset_at = aligned_reset c now })
StrictAnswer c now count threw answer = answer ≡ redis_threw

-- Each time comes less than a window after the one before it.
abbrev pub Steady : ℕ → ℕ → List ℕ → Type 0
Steady window prev [] = Unit
Steady window prev (now ∷ times) = (now < prev + window) × Steady window now times

abbrev pub IsDenied : Outcome RateLimitResult → Type 0
IsDenied (returned r) = r.allowed ≡ false
IsDenied _ = ⊥

module _ (redis : Counters) where
  open redis use {State}

  -- A limiter that may not fall back, and has not, never counts in memory and never changes: it
  -- answers by the shared counter; it fails the request when Redis gives no result or an error of
  -- the first command; it denies the request when the count is no number; and what the pipeline
  -- throws goes on to the caller.
  pub check_limit_strict :
      (l : RobustRateLimiter) (s : State) (client : Text) (pong : Bool) (fate : PipelineFate)
      (applied : Bool) (now : ℕ)
      → l.allow_fallback ≡ false
      → l.fallback ≡ false
      → ((check_limit redis l s client pong fate applied now).0 ≡ l)
        × StrictAnswer l.config now
            (redis.count s now (redis_key l.config client) + 1)
            fate
            (check_limit redis l s client pong fate applied now).2
  unfolding check_limit distributed_rate_limit degrade_to_local
  check_limit_strict l s client pong executed applied now a f = ground arith
  check_limit_strict l s client pong no_results applied now a f = ground arith
  check_limit_strict l s client pong first_failed applied now a f = ground arith
  check_limit_strict l s client pong not_a_number applied now a f = ground arith
  check_limit_strict l s client pong threw applied now a f = ground arith

  -- A client's requests at the given times, while Redis executes every pipeline.
  pub run_distributed : RobustRateLimiter → State → Text → List ℕ → List (Outcome RateLimitResult)
  run_distributed l s client [] = []
  run_distributed l s client (now ∷ times) =
      let (l', s', r) = check_limit redis l s client false executed true now in
      r ∷ run_distributed l' s' client times

  check_limit-executed :
      (l : RobustRateLimiter) (s : State) (client : Text) (now : ℕ)
      → l.fallback ≡ false
      → let key = redis_key l.config client in
        check_limit redis l s client false executed true now ≡ (
          l,
          redis.incr s now key (expire_second l.config now),
          returned (result_of l.config (redis.count s now key + 1) (aligned_reset l.config now)),
        )
  unfolding check_limit distributed_rate_limit
  check_limit-executed l s client now f = simp f refl

  -- On a limiter that is not in fallback mode, and while Redis executes the pipeline of every
  -- request: a client whose counter stands at `max_requests` or above, and that goes on asking with
  -- less than a window between two requests, is denied each time, for as long as it goes on: every
  -- request moves the counter's expiry.
  pub run_distributed-IsDenied :
      (l : RobustRateLimiter) (s : State) (client : Text) (now : ℕ) (times : List ℕ)
      → l.fallback ≡ false
      → l.config.max_requests ≤ redis.count s now (redis_key l.config client)
      → Steady l.config.window_ms now times
      → All IsDenied (run_distributed l s client (now ∷ times))
  unfolding run_distributed result_of
  run_distributed-IsDenied l s client now [] f over g =
      rw (check_limit-executed l s client now f) (ground arith, tt)
  run_distributed-IsDenied l s client now (later ∷ times) f over g =
      rw (check_limit-executed l s client now f) (
        ground arith,
        run_distributed-IsDenied l
            (redis.incr s now (redis_key l.config client) (expire_second l.config now)) client later
            times f
            (omega (
              arith,
              over,
              redis.count-incr_live s now later (redis_key l.config client)
                  (expire_second l.config now) (omega arith),
            ))
            g.1,
      )

  -- Resetting a client, on a limiter whose key prefix is longer than `rate_limit`, leaves the
  -- client's counter in Redis as it was, whatever becomes of the DEL. It reports success in fallback
  -- mode and where the DEL succeeded; where the DEL failed, it reports failure, or throws if there
  -- may be no fallback.
  pub reset_limit_misses :
      (l : RobustRateLimiter) (s : State) (client : Text) (deleted : Bool) (now : ℕ)
      → 10 < length l.config.key_prefix
      → let (l', s', answer) = reset_limit redis l s client deleted in
        (redis.count s' now (redis_key l.config client)
          ≡ redis.count s now (redis_key l.config client))
        × (answer ≡ (
            if l.fallback || deleted
            then returned true
            else if l.allow_fallback
            then returned false
            else unavailable))
  unfolding reset_limit
  reset_limit_misses l s client deleted now h = ground (
    arith,
    redis.count-del_ne s now (text "rate_limit:" ++ client) (redis_key l.config client)
        (other_key l.config client h),
  )
