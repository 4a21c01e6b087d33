-- ===== src/Cache.antt =====
-- The cache commands that the services share (cacheSet, cacheGet, cacheDel of src/config/redis.ts).
-- The Redis server is a parameter with the documented meaning of GET, SET, SETEX and DEL; what
-- becomes of a command under the circuit breaker is an argument.
pub mod Table
use uam_backend.Prelude.{
  ℕ, Bool, Text, true, Option, false, if◌then◌else◌, ◌≡◌, not, some, none, ◌≢◌, suc, ◌<◌, ◌+◌, ◌*◌,
  ◌≤◌, zero,
}

pub record RedisStore : Type 1 where
  pub State : Type 0
  pub get : State → ℕ → Text → Option Text
  pub set : State → Text → Text → State
  pub setex : State → ℕ → Text → ℕ → Text → State
  pub del : State → Text → State
  pub get-set_self : (s : State) (now : ℕ) (k v : Text) → get (set s k v) now k ≡ some v
  pub get-set_ne :
      (s : State) (now : ℕ) (k j v : Text) → k ≢ j → get (set s k v) now j ≡ get s now j
  pub get-setex_live :
      (s : State) (t now : ℕ) (k : Text) (ttl : ℕ) (v : Text)
      → now < t + ttl * 1_000
      → get (setex s t k ttl v) now k ≡ some v
  pub get-setex_expired :
      (s : State) (t now : ℕ) (k : Text) (ttl : ℕ) (v : Text)
      → t + ttl * 1_000 ≤ now
      → get (setex s t k ttl v) now k ≡ none
  pub get-setex_ne :
      (s : State) (t now : ℕ) (k j : Text) (ttl : ℕ) (v : Text)
      → k ≢ j
      → get (setex s t k ttl v) now j ≡ get s now j
  pub get-del_self : (s : State) (now : ℕ) (k : Text) → get (del s k) now k ≡ none
  pub get-del_ne : (s : State) (now : ℕ) (k j : Text) → k ≢ j → get (del s k) now j ≡ get s now j

-- A command is answered; or the breaker refuses it; or its answer is lost, by an error or a
-- timeout, after the server has applied it or before.
pub data Fate : Type 0 where
  answered refused : Fate
  lost : (applied : Bool) → Fate

abbrev pub takes_effect : Fate → Bool
takes_effect answered = true
takes_effect refused = false
takes_effect (lost applied) = applied

abbrev pub is_answered : Fate → Bool
is_answered answered = true
is_answered _ = false

module _ (redis : RedisStore) where
  open redis use {State}

  unfoldable pub cache_set : State → Bool → Fate → ℕ → Text → Text → Option ℕ → State
  cache_set s available fate now key value ttl =
      if not available
      then s
      else if takes_effect fate
      then elim ttl [
        | none ↦ redis.set s key value
        | some zero ↦ redis.set s key value
        | some (suc n) ↦ redis.setex s now key (suc n) value
      ]
      else s

  unfoldable pub cache_get : State → Bool → Fate → ℕ → Text → Option Text
  cache_get s available fate now key =
      if not available then none else if is_answered fate then redis.get s now key else none

  unfoldable pub cache_del : State → Bool → Fate → Text → State
  cache_del s available fate key =
      if not available then s else if takes_effect fate then redis.del s key else s
