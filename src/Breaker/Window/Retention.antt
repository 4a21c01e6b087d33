-- ===== src/Breaker/Window/Retention.antt =====
-- Which calls the statistics see just after a call has been recorded, as the breaker reads them.
use mathlib.Core.Path.{subst}
use uam_backend.Prelude.{
  ℕ, List, refl, ◌<◌, ◌+◌, ◌∷◌, ◌≢◌, inl, ◌≡◌, ◌⊎◌, arith, set, ◌%◌, suc, inr, ◌-◌, [], zero, sym,
  ◌∙◌, ◌≤◌, length,
}
use uam_backend.Breaker.Window.{
  add_bucket, record_in, error_count, timeout_count, TimeBucket, aggregate, max_window_buckets,
  record_call, no_stats,
}
use uam_backend.Breaker.Window.Log.{
  Measure, AllHome, held, IsHome, Entry, InOrder, window_of, counted, length-window_of,
  window_of-AllHome, aggregate_from-held, held-window_of, bucket_ts,
}

calls : Measure
unfolding add_bucket record_in
calls = record {
  of_bucket = λ b. b.total;
  of_call = λ o. 1;
  of_stats = λ s. s.total;
  of_fresh = λ ts. refl;
  of_none = refl;
  of_add = λ s b. refl;
  of_record = λ o l b. refl;
}

failed_calls : Measure
unfolding add_bucket record_in
failed_calls = record {
  of_bucket = λ b. b.errors;
  of_call = error_count;
  of_stats = λ s. s.errors;
  of_fresh = λ ts. refl;
  of_none = refl;
  of_add = λ s b. refl;
  of_record = λ o l b. refl;
}

timed_out_calls : Measure
unfolding add_bucket record_in
timed_out_calls = record {
  of_bucket = λ b. b.timeouts;
  of_call = timeout_count;
  of_stats = λ s. s.timeouts;
  of_fresh = λ ts. refl;
  of_none = refl;
  of_add = λ s b. refl;
  of_record = λ o l b. refl;
}

-- The bucket at index `i` is the current second's.
abbrev HasCurrent : ℕ → ℕ → ℕ → List TimeBucket → Type 0
HasCurrent i now k [] = Unit
HasCurrent i now k (b ∷ bs) = ((k ≢ i) ⊎ (b.ts ≡ now)) × HasCurrent i now (suc k) bs

HasCurrent-past : (i now k : ℕ) (bs : List TimeBucket) → i < k → HasCurrent i now k bs
HasCurrent-past i now k [] h = tt
HasCurrent-past i now k (b ∷ bs) h =
    (inl (omega arith), HasCurrent-past i now (suc k) bs (omega arith))

HasCurrent-set :
    (i now k j : ℕ) (bs : List TimeBucket) (b' : TimeBucket)
    → k + j ≡ i
    → b'.ts ≡ now
    → HasCurrent i now k (set bs j b')
HasCurrent-set i now k j [] b' e t = tt
HasCurrent-set i now k zero (b ∷ bs) b' e t =
    (inr t, HasCurrent-past i now (suc k) bs (omega arith))
HasCurrent-set i now k (suc j) (b ∷ bs) b' e t =
    (inl (omega arith), HasCurrent-set i now (suc k) j bs b' (omega arith) t)

one_ring_on : (n a b : ℕ) → a + n ≡ b → 0 < n → a % n ≡ b % n
one_ring_on n a b e z = grind arith

reach_head :
    (m : Measure) (n now k : ℕ) (b : TimeBucket)
    → 0 < n
    → IsHome m n now k b
    → (k ≢ now % n) ⊎ (b.ts ≡ now)
    → held m (now - n) (b ∷ []) ≡ held m (now + 1 - n) (b ∷ [])
reach_head m n now k b z (inl e, l) c = ground arith
reach_head m n now k b z (inr e, l) (inr t) = ground arith
reach_head m n now k b z (inr e, l) (inl d) =
    let apart : b.ts + n ≢ now = λ q. d (sym e ∙ one_ring_on n b.ts now q z) in ground arith

-- A second that is a whole ring old has been overwritten, so it may be left out.
held_reach :
    (m : Measure) (n now k : ℕ) (bs : List TimeBucket)
    → 0 < n
    → AllHome m n now k bs
    → HasCurrent (now % n) now k bs
    → held m (now - n) bs ≡ held m (now + 1 - n) bs
held_reach m n now k [] z h c = refl
held_reach m n now k (b ∷ bs) z h c =
    omega (arith, held_reach m n now (suc k) bs z h.1 c.1, reach_head m n now k b z h.0 c.0)

current :
    (size : ℕ) (e : Entry) (es : List Entry)
    → 0 < size
    → size ≤ max_window_buckets
    → HasCurrent (e.ts % size) e.ts 0 (window_of size (e ∷ es))
unfolding window_of record_call
current size e es z h =
    let n : length (window_of size es) ≡ size = omega (arith, length-window_of size es) in
    HasCurrent-set (e.ts % size) e.ts 0 (e.ts % length (window_of size es)) (window_of size es) _
      (rw n (omega arith)) (bucket_ts e.ts e.latency_us e.outcome _)

-- What the statistics hold just after call `e`, in a window of `size` buckets: what the log has of
-- the last `size` seconds.
aggregate-counted :
    (m : Measure) (size : ℕ) (e : Entry) (es : List Entry)
    → 0 < size
    → size ≤ max_window_buckets
    → InOrder e.ts es
    → m.of_stats (aggregate (window_of size (e ∷ es)) size e.ts)
      ≡ counted m.of_call (e.ts + 1 - size) (e ∷ es)
unfolding aggregate
aggregate-counted m size e es z h o =
    let bs = window_of size (e ∷ es) in
    let n : length bs ≡ size = omega (arith, length-window_of size (e ∷ es)) in
    let home : AllHome m size e.ts 0 bs =
      subst (λ k. AllHome m k e.ts 0 bs) n
        (window_of-AllHome m size e.ts (e ∷ es) (omega arith, o)) in
    omega (
      arith,
      m.of_none,
      aggregate_from-held m no_stats size e.ts size 0 bs home,
      held_reach m size e.ts 0 bs z home (current size e es z h),
      held-window_of m size (e.ts + 1 - size) e.ts (e ∷ es) (omega arith, o) (omega (arith, n)),
    )

-- Just after a call at second `ts`, in a window of 1 to 64 buckets and under a clock that does not
-- go back, the statistics count exactly the calls, the errors and the timeouts of the last
-- `size` seconds, that one included: nothing older, and nothing lost.
pub aggregate-window_of :
    (size : ℕ) (e : Entry) (es : List Entry)
    → 0 < size
    → size ≤ max_window_buckets
    → InOrder e.ts es
    → let stats = aggregate (window_of size (e ∷ es)) size e.ts in
      let since = e.ts + 1 - size in
      (stats.total ≡ counted (λ o. 1) since (e ∷ es))
      × (stats.errors ≡ counted error_count since (e ∷ es))
      × (stats.timeouts ≡ counted timeout_count since (e ∷ es))
unfolding calls failed_calls timed_out_calls
aggregate-window_of size e es z h o = (
  aggregate-counted calls size e es z h o,
  aggregate-counted failed_calls size e es z h o,
  aggregate-counted timed_out_calls size e es z h o,
)
