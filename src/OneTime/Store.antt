-- ===== src/OneTime/Store.antt =====
-- What the services have in common: a code's record goes to Redis as JSON with a lifetime, or to a
-- map in memory with its time of expiry; it is read back from the one that is in use, and removed.
-- JSON and the random codes are parameters. Each handler runs at one reading of the clock.
pub mod Laws
pub mod Once
use uam_backend.Prelude.{
  Text, ℕ, Bool, List, Option, retain, ◌≡◌, ltb, if◌then◌else◌, some, ◌≢◌, ◌++◌, none, delete, [],
  insert, lookup, ◌∷◌, ◌+◌, ◌*◌,
}
use uam_backend.Cache.{RedisStore, Fate, cache_get, cache_set, cache_del}

-- JSON.stringify and JSON.parse at records of type `R`; `none` is an exception, or null.
pub record Json (R : Type 0) : Type 0 where
  pub stringify : R → Text
  pub parse : Text → Option R
  pub parse-stringify : (r : R) → parse (stringify r) ≡ some r
  pub stringify-ne-nil : (r : R) → stringify r ≢ []

pub record Entry (R : Type 0) : Type 0 where
  pub record' : R
  pub exp : ℕ

-- The circumstances of a handler: whether Redis is available, whether this is production, the
-- clock, and the fates of a read or write and of a removal.
pub record World : Type 0 where
  pub available : Bool
  pub production : Bool
  pub now : ℕ
  pub fate : Fate
  pub del_fate : Fate

pub record Store (S R : Type 0) : Type 0 where
  pub cache : S
  pub memory : List (Text × Entry R)

module _ {R : Type 0} where
  pub prune : List (Text × Entry R) → ℕ → List (Text × Entry R)
  prune memory now = retain (λ e. ltb now e.exp) memory

-- A code must have the length of 32 bytes in hexadecimal.
abbrev pub code_bytes : ℕ
code_bytes = 32

module _ (redis : RedisStore) {R : Type 0} (json : Json R) where
  open redis use {State}

  -- `none` is the exception "Redis required in production".
  unfoldable pub put : Text → ℕ → World → Text → R → Store State R → Option (Store State R)
  put prefix ttl w code r s =
      if w.available
      then some (record s {
        cache =
            cache_set redis s.cache w.available w.fate w.now (prefix ++ code) (json.stringify r)
              (some ttl);
      })
      else if w.production
      then none
      else some (record s {
        memory =
            insert code (record { record' = r; exp = w.now + ttl * 1_000 }) (prune s.memory w.now);
      })

  -- The read of a code in Redis, up to the first `await`, and what follows it.
  pub read_raw : Text → World → Text → Store State R → Option Text
  read_raw prefix w code s = cache_get redis s.cache w.available w.fate w.now (prefix ++ code)

  pub finish_read : Text → World → Text → Option Text → Store State R → Store State R × Option R
  finish_read prefix w code none s = (s, none)
  finish_read prefix w code (some []) s = (s, none)
  finish_read prefix w code (some (c ∷ cs)) s = (
    record s { cache = cache_del redis s.cache w.available w.del_fate (prefix ++ code) },
    json.parse (c ∷ cs),
  )

  abbrev pub live_record : ℕ → Option (Entry R) → Option R
  live_record now none = none
  live_record now (some e) = if ltb e.exp now then none else some e.record'

  unfoldable pub take : Text → World → Text → Store State R → Store State R × Option R
  take prefix w code s =
      if w.available
      then finish_read prefix w code (read_raw prefix w code s) s
      else (record s { memory = delete code s.memory }, live_record w.now (lookup code s.memory))
