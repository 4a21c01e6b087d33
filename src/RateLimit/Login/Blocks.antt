-- ===== src/RateLimit/Login/Blocks.antt =====
-- What a failed login brings upon the next attempt, and what production refuses.
use uam_backend.Prelude.{
  Text, ℕ, ◌≢◌, ◌≡◌, [], true, some, ◌<◌, ◌&&◌, ◌+◌, ◌∷◌, arith, ◌||◌, false, not, refl, none,
  lookup-insert_self, ◌∙◌,
}
use uam_backend.Cache.{RedisStore, answered, is_answered}
use uam_backend.OneTime.Store.{Json}
use uam_backend.RateLimit.Login.{
  LoginRecord, check_value, advanced_login_limiter, check_blocked, LoginWorld, handle_login_failure,
  block_end, LoginStore, limit_unavailable, failure_ttl_secs, proceeds,
}

module _ (redis : RedisStore) (json : Json LoginRecord) where
  open redis use {State}

  check_value_text :
      (w : LoginWorld) (key fallback_key t : Text) (r : LoginRecord) (s : LoginStore State)
      → t ≢ []
      → json.parse t ≡ some r
      → check_value redis json w key fallback_key (some t) s ≡ check_blocked w.now key r
  unfolding check_value
  check_value_text w key fallback_key [] r s n e = absurd (n refl)
  check_value_text w key fallback_key (c ∷ cs) r s n e = ground arith

  -- A failed login that was recorded (in Redis, which answered; or in memory, where Redis is away and
  -- not required), and an attempt under the same key within 8100 seconds that reads the same one of
  -- the two (and Redis answers): the attempt is judged by a record with one failure more, and with
  -- the block that this number of failures brings.
  pub advanced_login_limiter-failure :
      (w w' : LoginWorld) (key fallback_key : Text) (attempts : ℕ) (s : LoginStore State)
      → w'.available ≡ w.available
      → w.fate ≡ answered
      → w'.fate ≡ answered
      → w'.now < w.now + 8_100_000
      → w'.required ≡ w.required
      → (w.available || not w.required) ≡ true
      → advanced_login_limiter redis json w' key fallback_key
          (handle_login_failure redis json w key attempts s).0
        ≡ check_blocked w'.now key
            (record { count = attempts + 1; block_until = block_end (attempts + 1) w.now })
  unfolding advanced_login_limiter handle_login_failure
  advanced_login_limiter-failure w w' key fallback_key attempts s a f f' h q o =
      let r : LoginRecord = record {
        count = attempts + 1;
        block_until = block_end (attempts + 1) w.now;
      } in
      ground (
        arith,
        redis.get-setex_live s.cache w.now w'.now key failure_ttl_secs (json.stringify r) h,
        check_value_text w' key fallback_key (json.stringify r) r
            (handle_login_failure redis json w key attempts s).0 (json.stringify-ne-nil r)
            (json.parse-stringify r),
        lookup-insert_self key r s.memory,
      )

  -- Two requests passed the limiter with the same number of attempts, less than five, and both fail.
  -- If the second failure is recorded (in Redis, which answered; or in memory, where Redis is away
  -- and not required), and the next attempt under the same key comes within 8100 seconds of it, reads
  -- the same one of the two, and Redis answers: that attempt passes with one failure more, not two.
  pub advanced_login_limiter_raced :
      (w w' w'' : LoginWorld) (key fallback_key : Text) (attempts : ℕ) (s : LoginStore State)
      → w''.available ≡ w'.available
      → w'.fate ≡ answered
      → w''.fate ≡ answered
      → w''.now < w'.now + 8_100_000
      → w''.required ≡ w'.required
      → (w'.available || not w'.required) ≡ true
      → attempts < 5
      → advanced_login_limiter redis json w'' key fallback_key
          (handle_login_failure redis json w' key attempts
            (handle_login_failure redis json w key attempts s).0).0
        ≡ proceeds key (attempts + 1)
  unfolding check_blocked block_end
  advanced_login_limiter_raced w w' w'' key fallback_key attempts s a f f' h q o few =
      advanced_login_limiter-failure w' w'' key fallback_key attempts
        (handle_login_failure redis json w key attempts s).0 a f f' h q o
      ∙ ground arith

  -- Where production requires Redis, and it is not available or gives no answer: every attempt is
  -- turned away, and a failure tells of no block and leaves the memory as it is.
  pub advanced_login_limiter_strict :
      (w : LoginWorld) (key fallback_key : Text) (attempts : ℕ) (s : LoginStore State)
      → w.required ≡ true
      → (w.available && is_answered w.fate) ≡ false
      → (advanced_login_limiter redis json w key fallback_key s ≡ limit_unavailable)
        × ((handle_login_failure redis json w key attempts s).1 ≡ none)
        × ((handle_login_failure redis json w key attempts s).0.memory ≡ s.memory)
  unfolding advanced_login_limiter handle_login_failure
  advanced_login_limiter_strict w key fallback_key attempts s q o = ground arith
