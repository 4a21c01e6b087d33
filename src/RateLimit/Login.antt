-- ===== src/RateLimit/Login.antt =====
-- The login limiter with its growing blocks (src/middleware/advancedLimiter.ts). Records go to Redis
-- as JSON, or to a map in memory. A handler runs at one reading of the clock; HTTP answers are values.
pub mod Blocks
pub mod Tests
use uam_backend.Prelude.{
  ℕ, Bool, List, Text, Option, text, if◌then◌else◌, retain, some, ◌++◌, leb, ltb, not, lookup, ◌+◌,
  ◌∷◌, none, ◌==◌, ◌-◌, ◌&&◌, insert, [], ◌/◌, delete,
}
use uam_backend.Cache.{RedisStore, Fate, is_answered, takes_effect}
use uam_backend.OneTime.Store.{Json}

-- What is stored of a client's failed attempts; a `block_until` of 0 is no block.
pub record LoginRecord : Type 0 where
  pub count : ℕ
  pub block_until : ℕ

-- Whether Redis is available, whether production requires it, the clock, and the command's fate.
pub record LoginWorld : Type 0 where
  pub available : Bool
  pub required : Bool
  pub now : ℕ
  pub fate : Fate

pub record LoginStore (S : Type 0) : Type 0 where
  pub cache : S
  pub memory : List (Text × LoginRecord)

-- 503; or 429 with the minutes and milliseconds that remain; or the next handler, with the key and
-- the attempts so far attached to the request.
pub data LoginAnswer : Type 0 where
  limit_unavailable : LoginAnswer
  blocked : (minutes remaining_ms : ℕ) → LoginAnswer
  proceeds : (key : Text) (attempts : ℕ) → LoginAnswer

abbrev pub allowed_attempts : ℕ
allowed_attempts = 5

abbrev pub step1 : ℕ
step1 = 300_000

abbrev pub step2 : ℕ
step2 = 1_500_000

abbrev pub step3 : ℕ
step3 = 7_500_000

abbrev pub login_key : Text → Option Text → Text
login_key ip none = text "login_attempt:" ++ ip ++ text "_unknown"
login_key ip (some email) = text "login_attempt:" ++ ip ++ text "_" ++ email

abbrev no_record : LoginRecord
no_record = record { count = 0; block_until = 0 }

abbrev or_no_record : Option LoginRecord → LoginRecord
or_no_record none = no_record
or_no_record (some r) = r

-- When the block of the failure number `count` ends.
pub block_end : ℕ → ℕ → ℕ
block_end count now =
    if leb count allowed_attempts
    then 0
    else if count == allowed_attempts + 1
    then now + step1
    else if count == allowed_attempts + 2
    then now + step2
    else now + step3

pub check_blocked : ℕ → Text → LoginRecord → LoginAnswer
check_blocked now key r =
    if ltb now r.block_until
    then blocked ((r.block_until - now + 59_999) / 60_000) (r.block_until - now)
    else proceeds key r.count

-- The periodic removal of blocks that have ended.
pub clean_up : ℕ → List (Text × LoginRecord) → List (Text × LoginRecord)
clean_up now memory = retain (λ r. not (ltb 0 r.block_until && ltb r.block_until now)) memory

-- ttl = ceil(step3 / 1000) + 600
abbrev pub failure_ttl_secs : ℕ
failure_ttl_secs = 8_100

module _ (redis : RedisStore) (json : Json LoginRecord) where
  open redis use {State}

  -- The handler's `catch`: the record in memory under the address that Express sees.
  login_fallback : LoginWorld → Text → LoginStore State → LoginAnswer
  login_fallback w fallback_key s =
      if w.required
      then limit_unavailable
      else check_blocked w.now fallback_key (or_no_record (lookup fallback_key s.memory))

  -- A value that Redis answered: absent or empty, no JSON, or a record.
  pub check_value : LoginWorld → Text → Text → Option Text → LoginStore State → LoginAnswer
  unfolding login_fallback
  check_value w key fallback_key none s = check_blocked w.now key no_record
  check_value w key fallback_key (some []) s = check_blocked w.now key no_record
  check_value w key fallback_key (some (c ∷ cs)) s = elim (json.parse (c ∷ cs)) [
    | none ↦ login_fallback w fallback_key s
    | some r ↦ check_blocked w.now key r
  ]

  pub advanced_login_limiter : LoginWorld → Text → Text → LoginStore State → LoginAnswer
  unfolding check_value
  advanced_login_limiter w key fallback_key s =
      if w.available
      then (if is_answered w.fate
          then check_value w key fallback_key (redis.get s.cache w.now key) s
          else if w.required
          then limit_unavailable
          else check_blocked w.now key no_record)
      else if w.required
      then limit_unavailable
      else check_blocked w.now key (or_no_record (lookup key s.memory))

  -- A failed login of a request that passed the limiter under `key`, with `attempts` before it. The
  -- answer is the end of the block, if the failure was recorded and brings one.
  pub handle_login_failure : LoginWorld → Text → ℕ → LoginStore State → LoginStore State × Option ℕ
  handle_login_failure w key attempts s =
      let until = block_end (attempts + 1) w.now in
      let r : LoginRecord = record { count = attempts + 1; block_until = until } in
      let cached =
        if takes_effect w.fate
        then redis.setex s.cache w.now key failure_ttl_secs (json.stringify r)
        else s.cache in
      let told = if ltb 0 until then some until else none in
      if w.available
      then (if is_answered w.fate
          then (record s { cache = cached }, told)
          else if w.required
          then (record s { cache = cached }, none)
          else (record { cache = cached; memory = insert key r s.memory }, told))
      else if w.required
      then (s, none)
      else (record s { memory = insert key r s.memory }, told)

  pub reset_login_attempts : LoginWorld → Text → LoginStore State → LoginStore State
  reset_login_attempts w key s =
      let cached = if takes_effect w.fate then redis.del s.cache key else s.cache in
      if w.available
      then record {
        cache = cached;
        memory =
            if not (is_answered w.fate) && not w.required then delete key s.memory else s.memory;
      }
      else record s { memory = delete key s.memory }
