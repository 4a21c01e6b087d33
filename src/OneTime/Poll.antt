-- ===== src/OneTime/Poll.antt =====
-- Verification poll tokens (src/services/verification-poll.service.ts). They are read without
-- being removed.
use uam_backend.Prelude.{
  ℕ, Text, text, Option, ◌++◌, ◌+◌, if◌then◌else◌, delete, ◌≡◌, ◌*◌, some, none, ltb, ◌<◌, true,
  insert, lookup, false, arith, lookup-insert_self, lookup-delete_self,
}
use uam_backend.Cache.{RedisStore, cache_set, cache_get, cache_del, answered, takes_effect}
use uam_backend.OneTime.Store.{World, Entry, Store, prune}
use uam_backend.OneTime.Exchange.{is_malformed, is_empty}

abbrev pub poll_ttl_secs : ℕ
poll_ttl_secs = 86_400

abbrev pub poll_key : Text → Text
poll_key token = text "uam:verify-poll:" ++ token

abbrev poll_entry : Text → ℕ → Entry Text
poll_entry id now = record { record' = id; exp = now + poll_ttl_secs * 1_000 }

module _ (redis : RedisStore) where
  open redis use {State}

  -- `token` is the random token; `none` is an exception.
  unfoldable pub create_poll_token :
      World → Text → Text → Store State Text → Option (Store State Text)
  create_poll_token w token id s =
      if w.available
      then some (record s {
        cache =
            cache_set redis s.cache w.available w.fate w.now (poll_key token) id
              (some poll_ttl_secs);
      })
      else if w.production
      then none
      else some (record s { memory = insert token (poll_entry id w.now) (prune s.memory w.now) })

  resolve_entry : ℕ → Text → Option (Entry Text) → Store State Text → Store State Text × Option Text
  resolve_entry now token none s = (record s { memory = delete token s.memory }, none)
  resolve_entry now token (some e) s =
      if ltb e.exp now
      then (record s { memory = delete token s.memory }, none)
      else (s, some e.record')

  pub resolve_poll_token : World → Text → Store State Text → Store State Text × Option Text
  unfolding resolve_entry
  resolve_poll_token w token s =
      if is_malformed token
      then (s, none)
      else if w.available
      then (s, cache_get redis s.cache w.available w.fate w.now (poll_key token))
      else resolve_entry w.now token (lookup token s.memory) s

  pub revoke_poll_token : World → Text → Store State Text → Store State Text
  revoke_poll_token w token s =
      if is_empty token
      then s
      else if w.available
      then record s { cache = cache_del redis s.cache w.available w.del_fate (poll_key token) }
      else record s { memory = delete token s.memory }

  -- A token of the right length answers with its user for a day, and asking changes nothing; if
  -- writing and reading used the same one of Redis and memory, and Redis answered both.
  pub resolve-create :
      (w w' : World) (token id : Text) (s s' : Store State Text)
      → w'.available ≡ w.available
      → w.fate ≡ answered
      → w'.fate ≡ answered
      → w'.now < w.now + 86_400_000
      → is_malformed token ≡ false
      → create_poll_token w token id s ≡ some s'
      → resolve_poll_token w' token s' ≡ (s', some id)
  unfolding create_poll_token resolve_poll_token cache_set cache_get
  resolve-create w w' token id s s' a f f' h m e = ground (
    arith,
    redis.get-setex_live s.cache w.now w'.now (poll_key token) poll_ttl_secs id,
    lookup-insert_self token (poll_entry id w.now) (prune s.memory w.now),
  )

  -- A token whose revocation took effect answers nothing to a reading that uses the same one of
  -- Redis and memory.
  pub resolve-revoke :
      (w w' : World) (token : Text) (s : Store State Text)
      → w'.available ≡ w.available
      → takes_effect w.del_fate ≡ true
      → (resolve_poll_token w' token (revoke_poll_token w token s)).1 ≡ none
  unfolding resolve_poll_token revoke_poll_token cache_get cache_del
  resolve-revoke w w' token s a d =
      ground (
        arith,
        redis.get-del_self s.cache w'.now (poll_key token),
        lookup-delete_self token s.memory,
      )
