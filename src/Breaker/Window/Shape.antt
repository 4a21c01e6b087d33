-- ===== src/Breaker/Window/Shape.antt =====
-- The shape of the window's buckets, kept by every operation.
use uam_backend.Prelude.{
  ℕ, zero, suc, ◌+◌, ◌≤◌, ◌<◌, ◌≡◌, refl, ap, ◌∙◌, min, max, List, [], ◌∷◌, length, length-set,
  length-replicate, All, All-set, All-get_or, All-replicate, arith, if◌then◌else◌,
}
use uam_backend.Breaker.Window.{
  TimeBucket, WindowStats, RedisCallOutcome, hist_bands, hist_bounds_us, fresh_bucket, band_from,
  band_of, bump, error_count, timeout_count, record_in, bucket_at, record_call, add_hist,
  add_bucket, aggregate_from, aggregate, no_stats, reset_window, create, is_outside,
  max_window_buckets,
}

abbrev pub sum : List ℕ → ℕ
sum [] = 0
sum (x ∷ xs) = x + sum xs

-- Every recorded call stands in one band of the histogram, and counts as an error, as a timeout,
-- or as neither.
pub record IsSound (total errors timeouts : ℕ) (hist : List ℕ) : Type 0 where
  pub bands : length hist ≡ hist_bands
  pub counted : sum hist ≡ total
  pub failed : errors + timeouts ≤ total

abbrev pub IsSoundBucket : TimeBucket → Type 0
IsSoundBucket b = IsSound b.total b.errors b.timeouts b.hist

abbrev pub IsSoundStats : WindowStats → Type 0
IsSoundStats s = IsSound s.total s.errors s.timeouts s.hist

pub fresh_bucket-IsSound : (ts : ℕ) → IsSoundBucket (fresh_bucket ts)
fresh_bucket-IsSound ts = record { bands = refl; counted = refl; failed = omega arith }

band_from-le : (l i : ℕ) (bounds : List ℕ) → band_from l i bounds ≤ i + length bounds
unfolding band_from
band_from-le l i [] = omega arith
band_from-le l i (b ∷ bs) = ground (arith, band_from-le l (i + 1) bs)

length-bump : (i : ℕ) (h : List ℕ) → length (bump i h) ≡ length h
unfolding bump
length-bump i h = length-set h i _

sum-bump : (i : ℕ) (h : List ℕ) → i < length h → sum (bump i h) ≡ sum h + 1
unfolding bump
sum-bump i [] p = absurd (omega arith)
sum-bump zero (x ∷ xs) p = omega arith
sum-bump (suc i) (x ∷ xs) p = omega (arith, sum-bump i xs)

counts-le : (o : RedisCallOutcome) → error_count o + timeout_count o ≤ 1
unfolding error_count timeout_count
counts-le o = ground arith

record_in-IsSound :
    (outcome : RedisCallOutcome) (latency_us : ℕ) (b : TimeBucket)
    → IsSoundBucket b
    → IsSoundBucket (record_in outcome latency_us b)
unfolding record_in
record_in-IsSound outcome latency_us b h = record {
  bands = length-bump (band_of latency_us) b.hist ∙ h.bands;
  counted = omega (
    arith,
    h.counted,
    sum-bump (band_of latency_us) b.hist
        (omega (arith, h.bands, band_from-le latency_us 0 hist_bounds_us)),
  );
  failed = omega (arith, h.failed, counts-le outcome);
}

bucket_at-IsSound : (ts : ℕ) (b : TimeBucket) → IsSoundBucket b → IsSoundBucket (bucket_at ts b)
unfolding bucket_at
bucket_at-IsSound ts b h = ground (arith, fresh_bucket-IsSound ts)

pub record_call-IsSound :
    (ts : ℕ) (outcome : RedisCallOutcome) (latency_us : ℕ) (bs : List TimeBucket)
    → All IsSoundBucket bs
    → All IsSoundBucket (record_call ts outcome latency_us bs)
unfolding record_call
record_call-IsSound ts outcome latency_us bs h = All-set IsSoundBucket bs _ _ h (
    record_in-IsSound outcome latency_us _ (
      bucket_at-IsSound ts _
        (All-get_or IsSoundBucket bs _ (fresh_bucket 0) h (fresh_bucket-IsSound 0))))

pub length-record_call :
    (ts : ℕ) (outcome : RedisCallOutcome) (latency_us : ℕ) (bs : List TimeBucket)
    → length (record_call ts outcome latency_us bs) ≡ length bs
unfolding record_call
length-record_call ts outcome latency_us bs = length-set bs _ _

length-add_hist : (xs ys : List ℕ) → length ys ≤ length xs → length (add_hist xs ys) ≡ length xs
unfolding add_hist
length-add_hist [] ys h = omega arith
length-add_hist (x ∷ xs) [] h = refl
length-add_hist (x ∷ xs) (y ∷ ys) h = ap suc (length-add_hist xs ys (omega arith))

sum-add_hist : (xs ys : List ℕ) → length ys ≤ length xs → sum (add_hist xs ys) ≡ sum xs + sum ys
unfolding add_hist
sum-add_hist [] [] h = refl
sum-add_hist [] (y ∷ ys) h = absurd (omega arith)
sum-add_hist (x ∷ xs) [] h = omega arith
sum-add_hist (x ∷ xs) (y ∷ ys) h = omega (arith, sum-add_hist xs ys (omega arith))

add_bucket-IsSound :
    (s : WindowStats) (b : TimeBucket)
    → IsSoundStats s
    → IsSoundBucket b
    → IsSoundStats (add_bucket s b)
unfolding add_bucket
add_bucket-IsSound s b h k =
    let fits : length b.hist ≤ length s.hist = omega (arith, h.bands, k.bands) in
    record {
      bands = length-add_hist s.hist b.hist fits ∙ h.bands;
      counted = omega (arith, sum-add_hist s.hist b.hist fits, h.counted, k.counted);
      failed = omega (arith, h.failed, k.failed);
    }

aggregate_from-IsSound :
    (s : WindowStats) (w now : ℕ) (bs : List TimeBucket)
    → IsSoundStats s
    → All IsSoundBucket bs
    → IsSoundStats (aggregate_from s w now bs)
unfolding aggregate_from
aggregate_from-IsSound s w now [] h k = h
aggregate_from-IsSound s w now (b ∷ bs) h k =
    aggregate_from-IsSound (if is_outside w now b then s else add_bucket s b) w now bs next k.1
  where
    next : IsSoundStats (if is_outside w now b then s else add_bucket s b)
    next = ground (arith, add_bucket-IsSound s b h k.0)

-- If every bucket counts each of its calls in one band, and has no more errors and timeouts than
-- calls, then so do the statistics of the window, whatever its width and the time.
pub aggregate-IsSound :
    (bs : List TimeBucket) (w now : ℕ) → All IsSoundBucket bs → IsSoundStats (aggregate bs w now)
unfolding aggregate
aggregate-IsSound bs w now h =
    aggregate_from-IsSound no_stats w now bs
      (record { bands = refl; counted = refl; failed = omega arith }) h

pub create-IsSound : (size : ℕ) → All IsSoundBucket (create size)
unfolding create
create-IsSound size = All-replicate IsSoundBucket _ (fresh_bucket 0) (fresh_bucket-IsSound 0)

pub length-create : (size : ℕ) → length (create size) ≡ min max_window_buckets (max 1 size)
unfolding create
length-create size = length-replicate _ (fresh_bucket 0)

pub reset_window-IsSound : (bs : List TimeBucket) → All IsSoundBucket (reset_window bs)
unfolding reset_window
reset_window-IsSound [] = tt
reset_window-IsSound (b ∷ bs) = (fresh_bucket-IsSound 0, reset_window-IsSound bs)

pub length-reset_window : (bs : List TimeBucket) → length (reset_window bs) ≡ length bs
unfolding reset_window
length-reset_window [] = refl
length-reset_window (b ∷ bs) = ap suc (length-reset_window bs)
