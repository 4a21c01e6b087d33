-- ===== src/RateLimit/Robust/Tests.antt =====
-- The limiter's theorems at concrete inputs, over a server that is an association list.
-- A counter with the millisecond at which it expires.
use uam_backend.Prelude.{
  List, ℕ, Text, text_eq, Option, lookup, insert, ◌<◌, ◌*◌, delete, text, [], ◌≡◌, ◌∷◌, ◌+◌, ◌≤◌,
  ap, false, true, arith, some, if◌then◌else◌, lookup-insert_self, lookup-insert_ne, ltb, none,
  lookup-delete_self, lookup-delete_ne, text_eq_refl, All, refl,
}
use uam_backend.RateLimit.Robust.{
  Counters, LimiterConfig, RobustRateLimiter, redis_key, reset_limit, returned,
}
use uam_backend.RateLimit.Robust.Distributed.{
  run_distributed-IsDenied, reset_limit_misses, IsDenied, run_distributed,
}
use uam_backend.RateLimit.Robust.Quota.{granted, run_local, granted_first_window}

abbrev Table : Type 0
Table = List (Text × (ℕ × ℕ))

abbrev live_count : ℕ → Option (ℕ × ℕ) → ℕ
live_count now none = 0
live_count now (some (n, expires)) = if ltb now expires then n else 0

abbrev count_of : Table → ℕ → Text → ℕ
count_of s now k = live_count now (lookup k s)

abbrev add_one : Table → ℕ → Text → ℕ → Table
add_one s now k expires_s = insert k (count_of s now k + 1, expires_s * 1_000) s

count-add_one_live :
    (s : Table) (now now' : ℕ) (k : Text) (expires_s : ℕ)
    → now' < expires_s * 1_000
    → count_of (add_one s now k expires_s) now' k ≡ count_of s now k + 1
count-add_one_live s now now' k expires_s h =
    ground (arith, lookup-insert_self k (count_of s now k + 1, expires_s * 1_000) s)

count-add_one_expired :
    (s : Table) (now now' : ℕ) (k : Text) (expires_s : ℕ)
    → expires_s * 1_000 ≤ now'
    → count_of (add_one s now k expires_s) now' k ≡ 0
count-add_one_expired s now now' k expires_s h =
    ground (arith, lookup-insert_self k (count_of s now k + 1, expires_s * 1_000) s)

abbrev counters : Counters
counters = record {
  State = Table;
  count = count_of;
  incr = add_one;
  del = λ s k. delete k s;
  count-incr_live = count-add_one_live;
  count-incr_expired = count-add_one_expired;
  count-incr_ne = λ s now now' k j expires_s n. ap (live_count now') (lookup-insert_ne k j _ s n);
  count-del_self = λ s now k. ap (live_count now) (lookup-delete_self k s);
  count-del_ne = λ s now k j n. ap (live_count now) (lookup-delete_ne k j s n);
}

abbrev three_per_minute : LimiterConfig
three_per_minute = record {
  window_ms = 60_000;
  max_requests = 3;
  key_prefix = text "rate_limit:api";
}

abbrev limiter : RobustRateLimiter
limiter = record {
  config = three_per_minute;
  local_cache = [];
  fallback = false;
  initialized = true;
  allow_fallback = false;
  last_recovery_probe_ms = 0;
  last_sweep_ms = 0;
}

abbrev alice : Text
alice = text "alice"

abbrev bob : Text
bob = text "bob"

granted_first_window_example :
    granted alice (run_local limiter ((alice, 5) ∷ (bob, 6) ∷ (alice, 7) ∷ [])) ≡ 2
unfolding text_eq lookup
granted_first_window_example =
    granted_first_window limiter alice 5 ((bob, 6) ∷ (alice, 7) ∷ []) tt refl
      (omega arith, (omega arith, tt))

abbrev used_up : Table
used_up = (redis_key three_per_minute alice, (3, 60_000)) ∷ []

used_up-count : count_of used_up 59_000 (redis_key three_per_minute alice) ≡ 3
unfolding lookup
used_up-count = ground (arith, text_eq_refl (redis_key three_per_minute alice))

run_distributed-IsDenied_example :
    All IsDenied (run_distributed counters limiter used_up alice (59_000 ∷ 100_000 ∷ 150_000 ∷ []))
run_distributed-IsDenied_example =
    run_distributed-IsDenied counters limiter used_up alice 59_000 (100_000 ∷ 150_000 ∷ []) refl
      (omega (arith, used_up-count)) (omega arith, (omega arith, tt))

reset_limit_misses_example :
    let (l', s', answer) = reset_limit counters limiter used_up alice true in
    (count_of s' 5 (redis_key three_per_minute alice)
      ≡ count_of used_up 5 (redis_key three_per_minute alice))
    × (answer ≡ returned true)
reset_limit_misses_example = reset_limit_misses counters limiter used_up alice true 5 (omega arith)
