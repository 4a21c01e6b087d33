-- ===== src/Breaker/Window.antt =====
-- The rolling window of the breaker (RollingWindow, errorRate, timeoutRate, percentileUs).
-- Times are seconds of the clock that the caller passes in; a rate is a fraction with its
-- numerator and denominator kept, so that no rounding takes place.
pub mod Shape
pub mod Percentile
pub mod Log
pub mod Retention
use uam_backend.Prelude.{
  ℕ, suc, ◌+◌, ◌*◌, ◌/◌, ◌%◌, min, max, Bool, ◌||◌, List, [], ◌∷◌, length, get_or, set, replicate,
  ltb, leb, ◌==◌, if◌then◌else◌,
}
use uam_backend.Breaker.Config.{rate_one}

pub data RedisCallOutcome : Type 0 where
  success redis_error timeout circuit_open concurrency_rejected : RedisCallOutcome

abbrev pub hist_bands : ℕ
hist_bands = 18

-- The upper bound (us) of each band but the last, which is open-ended.
abbrev pub hist_bounds_us : List ℕ
hist_bounds_us =
    500 ∷ 1_000 ∷ 2_000 ∷ 4_000 ∷ 8_000 ∷ 16_000 ∷ 32_000 ∷ 64_000 ∷ 100_000 ∷ 150_000 ∷ 200_000
    ∷ 300_000 ∷ 400_000 ∷ 500_000 ∷ 750_000 ∷ 1_000_000 ∷ 2_000_000 ∷ []

abbrev pub max_window_buckets : ℕ
max_window_buckets = 64

-- Number.MAX_SAFE_INTEGER
abbrev pub max_safe_integer : ℕ
max_safe_integer = 9_007_199_254_740_991

pub record TimeBucket : Type 0 where
  pub ts : ℕ
  pub total : ℕ
  pub errors : ℕ
  pub timeouts : ℕ
  pub latency_sum : ℕ
  pub hist : List ℕ

pub record WindowStats : Type 0 where
  pub total : ℕ
  pub errors : ℕ
  pub timeouts : ℕ
  pub hist : List ℕ

-- A bucket of a second in which nothing has happened yet.
abbrev pub fresh_bucket : ℕ → TimeBucket
fresh_bucket ts = record {
  ts = ts;
  total = 0;
  errors = 0;
  timeouts = 0;
  latency_sum = 0;
  hist = replicate hist_bands 0;
}

pub create : ℕ → List TimeBucket
create size = replicate (min max_window_buckets (max 1 size)) (fresh_bucket 0)

-- The first band whose bound is not exceeded, counted from `i`; the last band if there is none.
pub band_from : ℕ → ℕ → List ℕ → ℕ
band_from latency_us i [] = i
band_from latency_us i (bound ∷ bounds) =
    let rest = band_from latency_us (i + 1) bounds in if leb latency_us bound then i else rest

abbrev pub band_of : ℕ → ℕ
band_of latency_us = band_from latency_us 0 hist_bounds_us

-- h[i] += 1
pub bump : ℕ → List ℕ → List ℕ
bump i h = set h i (get_or h i 0 + 1)

unfoldable pub error_count : RedisCallOutcome → ℕ
error_count redis_error = 1
error_count _ = 0

unfoldable pub timeout_count : RedisCallOutcome → ℕ
timeout_count timeout = 1
timeout_count _ = 0

pub record_in : RedisCallOutcome → ℕ → TimeBucket → TimeBucket
record_in outcome latency_us b = record b {
  total = b.total + 1;
  errors = b.errors + error_count outcome;
  timeouts = b.timeouts + timeout_count outcome;
  latency_sum = b.latency_sum + latency_us;
  hist = bump (band_of latency_us) b.hist;
}

-- The bucket of second `ts`, emptied first if it still holds another second.
pub bucket_at : ℕ → TimeBucket → TimeBucket
bucket_at ts b = if b.ts == ts then b else fresh_bucket ts

pub record_call : ℕ → RedisCallOutcome → ℕ → List TimeBucket → List TimeBucket
record_call ts outcome latency_us buckets =
    let i = ts % length buckets in
    set buckets i (record_in outcome latency_us (bucket_at ts (get_or buckets i (fresh_bucket 0))))

pub add_hist : List ℕ → List ℕ → List ℕ
add_hist (a ∷ as') (b ∷ bs) = (a + b) ∷ add_hist as' bs
add_hist [] bs = []
add_hist (a ∷ as') [] = a ∷ as'

pub add_bucket : WindowStats → TimeBucket → WindowStats
add_bucket stats b = record {
  total = stats.total + b.total;
  errors = stats.errors + b.errors;
  timeouts = stats.timeouts + b.timeouts;
  hist = add_hist stats.hist b.hist;
}

-- `b.ts < now - window || b.ts > now`, where the source's difference may be negative.
pub is_outside : ℕ → ℕ → TimeBucket → Bool
is_outside window_secs now_ts b = ltb (b.ts + window_secs) now_ts || ltb now_ts b.ts

pub aggregate_from : WindowStats → ℕ → ℕ → List TimeBucket → WindowStats
aggregate_from stats window_secs now_ts [] = stats
aggregate_from stats window_secs now_ts (b ∷ bs) =
    aggregate_from (if is_outside window_secs now_ts b then stats else add_bucket stats b)
      window_secs now_ts bs

abbrev pub no_stats : WindowStats
no_stats = record { total = 0; errors = 0; timeouts = 0; hist = replicate hist_bands 0 }

pub aggregate : List TimeBucket → ℕ → ℕ → WindowStats
aggregate buckets window_secs now_ts = aggregate_from no_stats window_secs now_ts buckets

pub reset_window : List TimeBucket → List TimeBucket
reset_window [] = []
reset_window (b ∷ bs) = fresh_bucket 0 ∷ reset_window bs

pub record Rate : Type 0 where
  pub num : ℕ
  pub den : ℕ

abbrev pub rate_of : ℕ → ℕ → Rate
rate_of total part =
    if total == 0 then record { num = 0; den = 1 } else record { num = part; den = total }

pub error_rate : WindowStats → Rate
error_rate stats = rate_of stats.total stats.errors

pub timeout_rate : WindowStats → Rate
timeout_rate stats = rate_of stats.total stats.timeouts

-- rate >= threshold, and rate <= threshold.
pub rate_ge : Rate → ℕ → Bool
rate_ge r threshold = leb (threshold * r.den) (r.num * rate_one)

pub rate_le : Rate → ℕ → Bool
rate_le r threshold = leb (r.num * rate_one) (threshold * r.den)

-- The loop of `percentileUs` over the bands that are left and their bounds.
pub percentile_from : ℕ → ℕ → List ℕ → List ℕ → ℕ
percentile_from target cumulative [] bounds = max_safe_integer
percentile_from target cumulative (h ∷ hs) [] =
    let rest = percentile_from target (cumulative + h) hs [] in
    if leb target (cumulative + h) then max_safe_integer else rest
percentile_from target cumulative (h ∷ hs) (bound ∷ bounds) =
    let rest = percentile_from target (cumulative + h) hs bounds in
    if leb target (cumulative + h) then bound else rest

-- Math.ceil(total * pct / 100)
abbrev pub target_of : ℕ → ℕ → ℕ
target_of total pct = (total * pct + 99) / 100

pub percentile_us : WindowStats → ℕ → ℕ
percentile_us stats pct =
    if stats.total == 0
    then 0
    else percentile_from (target_of stats.total pct) 0 stats.hist hist_bounds_us
