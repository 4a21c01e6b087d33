-- ===== src/OneTime/Store/Laws.antt =====
-- A code can be read back within its lifetime, once, and not after.
use uam_backend.Prelude.{
  Text, ℕ, ◌≢◌, ◌<◌, [], ◌≡◌, some, false, insert, delete, ◌+◌, ◌++◌, ◌*◌, lookup, Bool-cases, none,
  ◌∷◌, arith, inl, refl, ap, ◌∙◌, inr, lookup-insert_self, true, Option,
}
use uam_backend.Cache.{RedisStore, cache_get, answered, cache_del, cache_set}
use uam_backend.OneTime.Store.{
  Json, finish_read, World, Store, put, take, read_raw, live_record, prune,
}

Option_known {ℓ} : {A : Type ℓ} (o : Option A) → o ≢ none → (a : A) × (o ≡ some a)
Option_known none n = absurd (n refl)
Option_known (some a) n = (a, refl)

module _ (redis : RedisStore) {R : Type 0} (json : Json R) where
  open redis use {State}

  pub finish_read_text :
      (prefix : Text) (w : World) (code t : Text) (s : Store State R)
      → t ≢ []
      → finish_read redis json prefix w code (some t) s ≡ (
        record s { cache = cache_del redis s.cache w.available w.del_fate (prefix ++ code) },
        json.parse t,
      )
  unfolding finish_read
  finish_read_text prefix w code [] s n = absurd (n refl)
  finish_read_text prefix w code (c ∷ cs) s n = refl

  module _ (prefix : Text) (ttl : ℕ) (w : World) (code : Text) (r : R) (s : Store State R)
      {s' : Store State R} (e : put redis json prefix ttl w code r s ≡ some s') where
    put_cached :
        w.available ≡ true
        → w.fate ≡ answered
        → 0 < ttl
        → s'.cache ≡ redis.setex s.cache w.now (prefix ++ code) ttl (json.stringify r)
    unfolding put cache_set
    put_cached a f z = ground arith

    put_memory :
        w.available ≡ false
        → s'.memory
          ≡ insert code (record { record' = r; exp = w.now + ttl * 1_000 }) (prune s.memory w.now)
    unfolding put
    put_memory a = ground arith

  module _ (prefix : Text) (w : World) (code : Text) (s : Store State R) where
    pub take_cached :
        (r : R)
        → w.available ≡ true
        → w.fate ≡ answered
        → redis.get s.cache w.now (prefix ++ code) ≡ some (json.stringify r)
        → take redis json prefix w code s
          ≡ (record s { cache = cache_del redis s.cache true w.del_fate (prefix ++ code) }, some r)
    unfolding take read_raw cache_get
    take_cached r a f e = ground (
      arith,
      finish_read_text prefix w code (json.stringify r) s (json.stringify-ne-nil r),
      json.parse-stringify r,
    )

    pub take_nothing :
        w.available ≡ true
        → redis.get s.cache w.now (prefix ++ code) ≡ none
        → (take redis json prefix w code s).1 ≡ none
    unfolding take read_raw cache_get finish_read
    take_nothing a e = ground arith

    pub take_memory :
        w.available ≡ false
        → take redis json prefix w code s ≡ (
          record s { memory = delete code s.memory },
          live_record redis json w.now (lookup code s.memory),
        )
    unfolding take
    take_memory a = ground arith

  -- A code that was stored with a positive lifetime is read back with its record while the lifetime
  -- lasts, if writing and reading used the same one of Redis and memory, and Redis answered both.
  pub take-put :
      (prefix : Text) (ttl : ℕ) (w w' : World) (code : Text) (r : R) (s s' : Store State R)
      → 0 < ttl
      → w'.available ≡ w.available
      → w.fate ≡ answered
      → w'.fate ≡ answered
      → w'.now < w.now + ttl * 1_000
      → put redis json prefix ttl w code r s ≡ some s'
      → (take redis json prefix w' code s').1 ≡ some r
  take-put prefix ttl w w' code r s s' z a f f' h e = elim (Bool-cases w.available) [
    | inl on ↦
        let stored = put_cached prefix ttl w code r s e on f z in
        let found : redis.get s'.cache w'.now (prefix ++ code) ≡ some (json.stringify r) =
          rw stored
            (redis.get-setex_live s.cache w.now w'.now (prefix ++ code) ttl (json.stringify r) h) in
        ap (λ p. p.1) (take_cached prefix w' code s' r (a ∙ on) f' found)
    | inr off ↦
        let stored = put_memory prefix ttl w code r s e off in
        ground (
          arith,
          stored,
          take_memory prefix w' code s' (a ∙ off),
          lookup-insert_self code (record { record' = r; exp = w.now + ttl * 1_000 })
              (prune s.memory w.now),
        )
  ]

  -- A code that was stored with a positive lifetime gives nothing after it, if writing and reading
  -- used the same one of Redis and memory, and Redis answered the write.
  pub take-put_expired :
      (prefix : Text) (ttl : ℕ) (w w' : World) (code : Text) (r : R) (s s' : Store State R)
      → 0 < ttl
      → w'.available ≡ w.available
      → w.fate ≡ answered
      → w.now + ttl * 1_000 < w'.now
      → put redis json prefix ttl w code r s ≡ some s'
      → (take redis json prefix w' code s').1 ≡ none
  take-put_expired prefix ttl w w' code r s s' z a f h e = elim (Bool-cases w.available) [
    | inl on ↦
        let stored = put_cached prefix ttl w code r s e on f z in
        take_nothing prefix w' code s' (a ∙ on) (
          rw stored (
            redis.get-setex_expired s.cache w.now w'.now (prefix ++ code) ttl (json.stringify r)
              (omega arith)))
    | inr off ↦
        let stored = put_memory prefix ttl w code r s e off in
        ground (
          arith,
          stored,
          take_memory prefix w' code s' (a ∙ off),
          lookup-insert_self code (record { record' = r; exp = w.now + ttl * 1_000 })
              (prune s.memory w.now),
        )
  ]

  -- Outside production a code is always stored somewhere.
  pub put_open :
      (prefix : Text) (ttl : ℕ) (w : World) (code : Text) (r : R) (s : Store State R)
      → w.production ≡ false
      → (s' : Store State R) × (put redis json prefix ttl w code r s ≡ some s')
  unfolding put
  put_open prefix ttl w code r s p =
      Option_known (put redis json prefix ttl w code r s) (ground arith)
