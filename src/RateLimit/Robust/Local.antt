-- ===== src/RateLimit/Robust/Local.antt =====
-- Counting in memory.
use uam_backend.Prelude.{
  Text, ℕ, Distinct, ◌≡◌, lookup, arith, none, Distinct-insert, lookup-retain, Distinct-retain, ◌≤◌,
  some, ◌≢◌, not, ◌+◌, ltb, lookup-insert_self, lookup-insert_ne, sym, ◌∙◌,
}
use uam_backend.RateLimit.Robust.{
  local_rate_limit, sweep_expired_windows, count_request, new_record, RobustRateLimiter, local_key,
  get_or_new, result_of, RateLimitRecord,
}

-- In a map with one entry for each key, the sweep does not change what any client is told: the
-- answer is that of the client's own entry, or of a new one, as it was before the sweep.
pub local_rate_limit_sweep :
    (l : RobustRateLimiter) (client : Text) (now : ℕ)
    → Distinct l.local_cache
    → (local_rate_limit l client now).1 ≡ (
        let r = lookup (local_key client) l.local_cache in
        let entry = count_request l.config now (get_or_new l.config now r) in
        result_of l.config entry.count entry.reset_at)
unfolding local_rate_limit sweep_expired_windows count_request new_record
local_rate_limit_sweep l client now d =
    ground (arith, lookup-retain (λ r. not (ltb r.reset_at now)) (local_key client) l.local_cache d)

local_key_injective : (a b : Text) → local_key a ≡ local_key b → a ≡ b
unfolding local_key
local_key_injective a b e = cc

-- What a request leaves behind: the configuration, one entry for each key, the client's own entry
-- counted, and the running windows of the others.
module _ (l : RobustRateLimiter) (now : ℕ) (d : Distinct l.local_cache) where
  sweep-config : (sweep_expired_windows l now).config ≡ l.config
  unfolding sweep_expired_windows
  sweep-config = ground arith

  sweep-Distinct : Distinct (sweep_expired_windows l now).local_cache
  unfolding sweep_expired_windows
  sweep-Distinct = ground (arith, Distinct-retain (λ r. not (ltb r.reset_at now)) l.local_cache d)

  sweep_running :
      (k : Text) (r : RateLimitRecord)
      → now ≤ r.reset_at
      → lookup k l.local_cache ≡ some r
      → lookup k (sweep_expired_windows l now).local_cache ≡ some r
  unfolding sweep_expired_windows
  sweep_running k r h e =
      ground (arith, lookup-retain (λ r. not (ltb r.reset_at now)) k l.local_cache d)

  sweep_none :
      (k : Text)
      → lookup k l.local_cache ≡ none
      → lookup k (sweep_expired_windows l now).local_cache ≡ none
  unfolding sweep_expired_windows
  sweep_none k e = ground (arith, lookup-retain (λ r. not (ltb r.reset_at now)) k l.local_cache d)

  module _ (client : Text) where
    abbrev pub served : RobustRateLimiter
    served = (local_rate_limit l client now).0

    pub served-config : served.config ≡ l.config
    unfolding local_rate_limit
    served-config = sweep-config

    pub served-Distinct : Distinct served.local_cache
    unfolding local_rate_limit
    served-Distinct = Distinct-insert _ _ _ sweep-Distinct

    -- In a running window the count goes up by one, and the window stays.
    pub served_running :
        (r : RateLimitRecord)
        → now ≤ r.reset_at
        → lookup (local_key client) l.local_cache ≡ some r
        → (lookup (local_key client) served.local_cache ≡ some (record r { count = r.count + 1 }))
          × ((local_rate_limit l client now).1 ≡ result_of l.config (r.count + 1) r.reset_at)
    unfolding local_rate_limit count_request
    served_running r h e =
        let found = sweep_running (local_key client) r h e in
        ground (
          arith,
          found,
          sweep-config,
          lookup-insert_self (local_key client) (record r { count = r.count + 1 })
              (sweep_expired_windows l now).local_cache,
        )

    pub served_first :
        lookup (local_key client) l.local_cache ≡ none
        → (lookup (local_key client) served.local_cache
            ≡ some (record (new_record l.config now) { count = 1 }))
          × ((local_rate_limit l client now).1 ≡ result_of l.config 1 (now + l.config.window_ms))
    unfolding local_rate_limit count_request new_record
    served_first e =
        let found = sweep_none (local_key client) e in
        ground (
          arith,
          found,
          sweep-config,
          lookup-insert_self (local_key client) (record (new_record l.config now) { count = 1 })
              (sweep_expired_windows l now).local_cache,
        )

    pub served_other :
        (other : Text) (r : RateLimitRecord)
        → other ≢ client
        → now ≤ r.reset_at
        → lookup (local_key other) l.local_cache ≡ some r
        → lookup (local_key other) served.local_cache ≡ some r
    unfolding local_rate_limit
    served_other other r n h e =
        lookup-insert_ne (local_key client) (local_key other) _ _
          (λ q. n (local_key_injective other client (sym q)))
        ∙ sweep_running (local_key other) r h e
