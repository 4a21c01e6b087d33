-- ===== src/OneTime/Store/Once.antt =====
-- How often a code can be read.
use uam_backend.Prelude.{
  Text, ◌≡◌, true, some, false, ◌++◌, none, Bool-cases, inl, inr, arith, ap, Option, ◌∙◌, ◌∷◌,
  delete, [], lookup-delete_self, refl,
}
use uam_backend.Cache.{RedisStore, cache_get, takes_effect, answered, cache_del}
use uam_backend.OneTime.Store.{Json, read_raw, World, Store, take, finish_read}
use uam_backend.OneTime.Store.Laws.{take_nothing, take_cached, finish_read_text, take_memory}

module _ (redis : RedisStore) {R : Type 0} (json : Json R) where
  open redis use {State}

  module _ (prefix : Text) (w : World) (code : Text) (s : Store State R)
      (a : w.available ≡ true) where
    finish_gone :
        (r : R) (raw : Option Text)
        → takes_effect w.del_fate ≡ true
        → (finish_read redis json prefix w code raw s).1 ≡ some r
        → (finish_read redis json prefix w code raw s).0.cache ≡ redis.del s.cache (prefix ++ code)
    unfolding finish_read cache_del
    finish_gone r none d e = cc
    finish_gone r (some []) d e = cc
    finish_gone r (some (c ∷ cs)) d e = ground arith

    finish_kept :
        (raw : Option Text)
        → takes_effect w.del_fate ≡ false
        → (finish_read redis json prefix w code raw s).0.cache ≡ s.cache
    unfolding finish_read cache_del
    finish_kept none d = refl
    finish_kept (some []) d = refl
    finish_kept (some (c ∷ cs)) d = ground arith

    take_finish :
        take redis json prefix w code s
        ≡ finish_read redis json prefix w code (read_raw redis json prefix w code s) s
    unfolding take
    take_finish = ground arith

    read_found :
        (t : Text)
        → w.fate ≡ answered
        → redis.get s.cache w.now (prefix ++ code) ≡ some t
        → read_raw redis json prefix w code s ≡ some t
    unfolding read_raw cache_get
    read_found t f e = ground arith

  -- A code that was given out, and whose removal took effect, gives nothing to a second reading, at
  -- any time, that uses the same one of Redis and memory.
  pub take_again :
      (prefix : Text) (w w' : World) (code : Text) (r : R) (s : Store State R)
      → w'.available ≡ w.available
      → takes_effect w.del_fate ≡ true
      → (take redis json prefix w code s).1 ≡ some r
      → (take redis json prefix w' code (take redis json prefix w code s).0).1 ≡ none
  take_again prefix w w' code r s a d e = elim (Bool-cases w.available) [
    | inl on ↦
        let gone =
          finish_gone prefix w code s on r _ d (rw (take_finish prefix w code s on) at e) in
        take_nothing redis json prefix w' code (take redis json prefix w code s).0 (a ∙ on) (
          rw (take_finish prefix w code s on, gone)
            (redis.get-del_self s.cache w'.now (prefix ++ code)))
    | inr off ↦ ground (
      arith,
      take_memory redis json prefix w code s off,
      take_memory redis json prefix w' code (record s { memory = delete code s.memory }) (a ∙ off),
      lookup-delete_self code s.memory,
    )
  ]

  -- With Redis available: if the removal of a reading took no effect, a later reading that is
  -- answered, and before which the code has not expired, is given the record too.
  pub take_replayed :
      (prefix : Text) (w w' : World) (code : Text) (r : R) (s : Store State R)
      → w.available ≡ true
      → w'.available ≡ true
      → w'.fate ≡ answered
      → takes_effect w.del_fate ≡ false
      → redis.get s.cache w'.now (prefix ++ code) ≡ some (json.stringify r)
      → (take redis json prefix w' code (take redis json prefix w code s).0).1 ≡ some r
  take_replayed prefix w w' code r s a a' f d e =
      let kept = finish_kept prefix w code s a (read_raw redis json prefix w code s) d in
      let cache : (take redis json prefix w code s).0.cache ≡ s.cache =
        rw (take_finish prefix w code s a) kept in
      ap (λ p. p.1)
        (take_cached redis json prefix w' code (take redis json prefix w code s).0 r a' f
          (rw cache e))

  -- With Redis available: if two requests read a code that Redis holds before either has removed it,
  -- both are given its record. Each waits between the reading and the removal.
  pub take_raced :
      (prefix : Text) (w w' : World) (code : Text) (r : R) (s : Store State R)
      → w.available ≡ true
      → w'.available ≡ true
      → w.fate ≡ answered
      → w'.fate ≡ answered
      → redis.get s.cache w.now (prefix ++ code) ≡ some (json.stringify r)
      → redis.get s.cache w'.now (prefix ++ code) ≡ some (json.stringify r)
      → let first = read_raw redis json prefix w code s in
        let second = read_raw redis json prefix w' code s in
        let (s', given) = finish_read redis json prefix w code first s in
        (given ≡ some r) × ((finish_read redis json prefix w' code second s').1 ≡ some r)
  take_raced prefix w w' code r s a a' f f' e e' =
      rw
        (
          read_found prefix w code s a (json.stringify r) f e,
          read_found prefix w' code s a' (json.stringify r) f' e',
        )
        (given w s, given w' _)
    where
      given :
          (v : World) (t : Store State R)
          → (finish_read redis json prefix v code (some (json.stringify r)) t).1 ≡ some r
      given v t =
          ap (λ p. p.1)
            (finish_read_text redis json prefix v code (json.stringify r) t
              (json.stringify-ne-nil r))
          ∙ json.parse-stringify r
