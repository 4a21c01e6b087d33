-- ===== src/RateLimit/Robust/Quota.antt =====
-- How many requests of a client memory grants within one window, among those of other clients.
use mathlib.Core.Path.{subst}
use uam_backend.Prelude.{
  Text, ℕ, List, ◌≡◌, Distinct, leb, lookup, refl, some, min, ◌-◌, arith, none, ◌∷◌, if◌then◌else◌,
  ◌≤◌, Bool-cases, ◌+◌, text_eq, [], ◌&&◌, inr, ◌≢◌, text_eq_refl, inl, sym, text_eq_iff,
}
use uam_backend.RateLimit.Robust.{
  RobustRateLimiter, result_of, LimiterConfig, RateLimitRecord, RateLimitResult, local_key,
  local_rate_limit, new_record,
}
use uam_backend.RateLimit.Robust.Local.{
  served_first, served-Distinct, served_other, served-config, served_running,
}

-- Requests of clients at times, and the answers to them.
pub run_local : RobustRateLimiter → List (Text × ℕ) → List (Text × RateLimitResult)
run_local l [] = []
run_local l ((client, now) ∷ reqs) =
    (client, (local_rate_limit l client now).1) ∷ run_local (local_rate_limit l client now).0 reqs

abbrev pub asked : Text → List (Text × ℕ) → ℕ
asked c [] = 0
asked c ((d, now) ∷ reqs) = (if text_eq d c then 1 else 0) + asked c reqs

abbrev pub granted : Text → List (Text × RateLimitResult) → ℕ
granted c [] = 0
granted c ((d, r) ∷ rs) = (if text_eq d c && r.allowed then 1 else 0) + granted c rs

abbrev pub Before : ℕ → List (Text × ℕ) → Type 0
Before t [] = Unit
Before t ((d, now) ∷ reqs) = (now ≤ t) × Before t reqs

allowed_is :
    (config : LimiterConfig) (n t : ℕ) → (result_of config n t).allowed ≡ leb n config.max_requests
unfolding result_of
allowed_is config n t = refl

granted_running :
    (l : RobustRateLimiter) (c : Text) (r : RateLimitRecord) (reqs : List (Text × ℕ))
    → Distinct l.local_cache
    → lookup (local_key c) l.local_cache ≡ some r
    → Before r.reset_at reqs
    → granted c (run_local l reqs) ≡ min (asked c reqs) (l.config.max_requests - r.count)
unfolding run_local
granted_running l c r [] d e b = omega arith
granted_running l c r ((x, now) ∷ reqs) d e b = elim (Bool-cases (text_eq x c)) [
  | inr other ↦
      let n : c ≢ x = λ q. cc (text_eq_refl c, other, q) in
      let ih =
        granted_running (local_rate_limit l x now).0 c r reqs (served-Distinct l now d x)
          (served_other l now d x c r n b.0 e) b.1 in
      ground (arith, ih, served-config l now d x)
  | inl same ↦
      let (kept, told) = served_running l now d c r b.0 e in
      let ih =
        granted_running (local_rate_limit l c now).0 c (record r { count = r.count + 1 }) reqs
          (served-Distinct l now d c) kept b.1 in
      subst
        (λ y.
          granted c (run_local l ((y, now) ∷ reqs))
          ≡ min (asked c ((y, now) ∷ reqs)) (l.config.max_requests - r.count))
        (sym ((text_eq_iff x c).0 same))
        (ground (
          arith,
          ih,
          told,
          text_eq_refl c,
          allowed_is l.config (r.count + 1) r.reset_at,
          served-config l now d c,
        ))
]

-- Counting in memory, in a map with one entry for each key: a client that has no entry is granted,
-- of its request at `now` and all its later ones up to the end of that window, exactly
-- `max_requests`, or all if they are fewer, whatever other clients ask in between.
pub granted_first_window :
    (l : RobustRateLimiter) (c : Text) (now : ℕ) (reqs : List (Text × ℕ))
    → Distinct l.local_cache
    → lookup (local_key c) l.local_cache ≡ none
    → Before (now + l.config.window_ms) reqs
    → granted c (run_local l ((c, now) ∷ reqs)) ≡ min (1 + asked c reqs) l.config.max_requests
unfolding run_local new_record
granted_first_window l c now reqs d e b =
    let (kept, told) = served_first l now d c e in
    let ih =
      granted_running (local_rate_limit l c now).0 c
        (record (new_record l.config now) { count = 1 }) reqs (served-Distinct l now d c) kept b in
    ground (
      arith,
      ih,
      told,
      text_eq_refl c,
      allowed_is l.config 1 (now + l.config.window_ms),
      served-config l now d c,
    )
