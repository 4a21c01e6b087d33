-- ===== src/RateLimit/Robust.antt =====
-- The limiter that counts in Redis and falls back to memory (src/robustRateLimiter.ts).
-- The Redis server is a parameter: a state with counters, whose pipeline INCR, EXPIREAT, GET adds 1
-- to a counter and sets the second at which it expires. What a command answers (or that it fails)
-- is an argument of the handler that sends it. Each handler runs at one reading of the clock.
pub mod Local
pub mod Quota
pub mod Distributed
pub mod Tests
use uam_backend.Prelude.{
  ℕ, Bool, List, Option, Text, ◌<◌, [], text, ◌++◌, leb, if◌then◌else◌, ◌+◌, lookup, ◌/◌, delete,
  false, not, suc, some, ◌*◌, ◌-◌, ltb, insert, true, ◌&&◌, ◌∷◌, zero, none, ◌≡◌, text_eq, length,
  ◌||◌, ◌≤◌, retain, ◌≢◌, to_lower, trim,
}

-- Counters of a Redis server; `count` is 0 for a key that is absent or has expired.
pub record Counters : Type 1 where
  pub State : Type 0
  pub count : State → ℕ → Text → ℕ
  pub incr : State → ℕ → Text → ℕ → State
  pub del : State → Text → State
  pub count-incr_live :
      (s : State) (now now' : ℕ) (k : Text) (expires_s : ℕ)
      → now' < expires_s * 1_000
      → count (incr s now k expires_s) now' k ≡ count s now k + 1
  pub count-incr_expired :
      (s : State) (now now' : ℕ) (k : Text) (expires_s : ℕ)
      → expires_s * 1_000 ≤ now'
      → count (incr s now k expires_s) now' k ≡ 0
  pub count-incr_ne :
      (s : State) (now now' : ℕ) (k j : Text) (expires_s : ℕ)
      → k ≢ j
      → count (incr s now k expires_s) now' j ≡ count s now' j
  pub count-del_self : (s : State) (now : ℕ) (k : Text) → count (del s k) now k ≡ 0
  pub count-del_ne :
      (s : State) (now : ℕ) (k j : Text) → k ≢ j → count (del s k) now j ≡ count s now j

pub record RateLimitRecord : Type 0 where
  pub count : ℕ
  pub reset_at : ℕ
  pub last_reset : ℕ
  pub max_requests : ℕ
  pub window_ms : ℕ

pub record RateLimitResult : Type 0 where
  pub allowed : Bool
  pub remaining : ℕ
  pub reset_at : ℕ

pub record LimiterConfig : Type 0 where
  pub window_ms : ℕ
  pub max_requests : ℕ
  pub key_prefix : Text

pub record RobustRateLimiter : Type 0 where
  pub config : LimiterConfig
  pub local_cache : List (Text × RateLimitRecord)
  pub fallback : Bool
  pub initialized : Bool
  pub allow_fallback : Bool
  pub last_recovery_probe_ms : ℕ
  pub last_sweep_ms : ℕ

-- An answer, or an exception: the limiter's own, or what the Redis client threw.
pub data Outcome (A : Type 0) : Type 0 where
  returned : A → Outcome A
  unavailable : Outcome A
  redis_threw : Outcome A

-- What happened to a pipeline: executed, with the first command's count; executed, with no
-- results or an error of the first command; executed, with a first result that is no number; or
-- rejected as a whole. In the last three the server may or may not have been reached.
pub data PipelineFate : Type 0 where
  executed no_results first_failed not_a_number threw : PipelineFate

pub local_fallback_enabled : Option Text → Bool
local_fallback_enabled variable = elim variable [
  | none ↦ true
  | some value ↦
      let raw = to_lower (trim value) in
      not (text_eq raw (text "0") || text_eq raw (text "false") || text_eq raw (text "off"))
]

pub new_limiter : LimiterConfig → Bool → RobustRateLimiter
new_limiter config allow = record {
  config = config;
  local_cache = [];
  fallback = false;
  initialized = false;
  allow_fallback = allow;
  last_recovery_probe_ms = 0;
  last_sweep_ms = 0;
}

pub local_key : Text → Text
local_key client = text "rate_limit:local:" ++ client

pub redis_key : LimiterConfig → Text → Text
redis_key config client = config.key_prefix ++ text ":" ++ client

pub result_of : LimiterConfig → ℕ → ℕ → RateLimitResult
result_of config count reset_at = record {
  allowed = leb count config.max_requests;
  remaining = config.max_requests - count;
  reset_at = reset_at;
}

pub sweep_expired_windows : RobustRateLimiter → ℕ → RobustRateLimiter
sweep_expired_windows l now =
    if ltb (length l.local_cache) 4_096 || ltb now (l.last_sweep_ms + 60_000) then l else record l {
      last_sweep_ms = now;
      local_cache = retain (λ r. not (ltb r.reset_at now)) l.local_cache;
    }

abbrev or_else : ℕ → ℕ → ℕ
or_else zero d = d
or_else (suc n) d = suc n

pub new_record : LimiterConfig → ℕ → RateLimitRecord
new_record config now = record {
  count = 0;
  reset_at = now + config.window_ms;
  last_reset = now;
  max_requests = or_else config.max_requests 10;
  window_ms = or_else config.window_ms 60_000;
}

-- The entry of the client, with its window begun anew if it has expired, and the request counted.
pub count_request : LimiterConfig → ℕ → RateLimitRecord → RateLimitRecord
count_request config now r =
    if ltb r.reset_at now
    then record r { count = 1; reset_at = now + config.window_ms; last_reset = now }
    else record r { count = r.count + 1 }

abbrev get_or_new : LimiterConfig → ℕ → Option RateLimitRecord → RateLimitRecord
get_or_new config now none = new_record config now
get_or_new config now (some r) = r

pub local_rate_limit : RobustRateLimiter → Text → ℕ → RobustRateLimiter × RateLimitResult
local_rate_limit l client now =
    let swept = sweep_expired_windows l now in
    let entry =
      count_request l.config now
        (get_or_new l.config now (lookup (local_key client) swept.local_cache)) in
    (
      record swept { local_cache = insert (local_key client) entry swept.local_cache },
      result_of l.config entry.count entry.reset_at,
    )

abbrev answer : RobustRateLimiter × RateLimitResult → RobustRateLimiter × Outcome RateLimitResult
answer (l, r) = (l, returned r)

pub degrade_to_local : RobustRateLimiter → Text → ℕ → RobustRateLimiter × Outcome RateLimitResult
degrade_to_local l client now =
    if l.allow_fallback
    then answer (local_rate_limit (record l { fallback = true }) client now)
    else (l, unavailable)

-- Once every 30 seconds; `pong` is whether the ping was answered in time.
pub try_recover_from_fallback : RobustRateLimiter → Bool → ℕ → RobustRateLimiter
try_recover_from_fallback l pong now =
    if ltb now (l.last_recovery_probe_ms + 30_000)
    then l
    else record l { last_recovery_probe_ms = now; fallback = not pong }

-- Math.floor(now / windowMs) * windowMs + windowMs
abbrev pub aligned_reset : LimiterConfig → ℕ → ℕ
aligned_reset config now = now / config.window_ms * config.window_ms + config.window_ms

-- Math.ceil((now + windowMs) / 1000)
abbrev pub expire_second : LimiterConfig → ℕ → ℕ
expire_second config now = (now + config.window_ms + 999) / 1_000

-- A handler that did not reach the server, or did nothing more to it.
abbrev with_server {ℓ} :
    {S : Type ℓ} {A : Type 0}
    → S
    → RobustRateLimiter × Outcome A
    → RobustRateLimiter × S × Outcome A
with_server s (l, r) = (l, s, r)

module _ (redis : Counters) where
  open redis use {State}

  pub distributed_rate_limit :
      RobustRateLimiter
      → State
      → Text
      → PipelineFate
      → Bool
      → ℕ
      → RobustRateLimiter × State × Outcome RateLimitResult
  distributed_rate_limit l s client fate applied now =
      let key = redis_key l.config client in
      let s' = redis.incr s now key (expire_second l.config now) in
      let touched = if applied then s' else s in
      elim fate [
        | executed ↦ (
          l,
          s',
          returned (result_of l.config (redis.count s now key + 1) (aligned_reset l.config now)),
        )
        | no_results ↦ with_server touched (degrade_to_local l client now)
        | first_failed ↦ with_server touched (degrade_to_local l client now)
        | not_a_number ↦ (
          l,
          touched,
          returned
              (record { allowed = false; remaining = 0; reset_at = aligned_reset l.config now }),
        )
        | threw ↦ (l, touched, redis_threw)
      ]

  pub check_limit :
      RobustRateLimiter
      → State
      → Text
      → Bool
      → PipelineFate
      → Bool
      → ℕ
      → RobustRateLimiter × State × Outcome RateLimitResult
  check_limit l s client pong fate applied now =
      let l' = try_recover_from_fallback l pong now in
      if not l.fallback
      then distributed_rate_limit l s client fate applied now
      else if not l.allow_fallback
      then (l, s, unavailable)
      else if l'.fallback
      then with_server s (answer (local_rate_limit l' client now))
      else distributed_rate_limit l' s client fate applied now

  -- `deleted` is whether the DEL succeeded.
  pub reset_limit :
      RobustRateLimiter → State → Text → Bool → RobustRateLimiter × State × Outcome Bool
  reset_limit l s client deleted =
      let forgotten = delete (local_key client) l.local_cache in
      if l.fallback
      then (record l { local_cache = forgotten }, s, returned true)
      else if deleted
      then (l, redis.del s (text "rate_limit:" ++ client), returned true)
      else if l.allow_fallback
      then (record l { fallback = true; local_cache = forgotten }, s, returned false)
      else (l, s, unavailable)

-- The health check at startup: the first of five pings that is answered ends it well. `exits` is
-- process.exit(1).
pub data InitOutcome : Type 0 where
  ready exits threw_last_error : InitOutcome

any_pong : ℕ → List Bool → Bool
any_pong zero pongs = false
any_pong (suc attempts) [] = false
any_pong (suc attempts) (pong ∷ pongs) = pong || any_pong attempts pongs

pub init : RobustRateLimiter → List Bool → RobustRateLimiter × InitOutcome
unfolding any_pong
init l pongs =
    if l.initialized
    then (l, ready)
    else if any_pong 5 pongs
    then (record l { initialized = true; fallback = false }, ready)
    else if l.allow_fallback
    then (record l { initialized = true; fallback = true }, threw_last_error)
    else (record l { initialized = true }, exits)

pub redis_available : RobustRateLimiter → Bool
redis_available l = not l.fallback && l.initialized
