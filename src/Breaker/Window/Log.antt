-- ===== src/Breaker/Window/Log.antt =====
-- The ring of buckets against the log of all calls: what the ring holds from a second on.
use mathlib.Core.Path.{subst}
use native.Mathlib.Decide.{ℕ_discrete}
use uam_backend.Prelude.{
  ℕ, List, ◌<◌, ◌≡◌, ◌%◌, ◌⊎◌, ◌≤◌, length, ◌+◌, ◌∷◌, if◌then◌else◌, suc, arith, get_or, set, [],
  leb, zero, inr, ◌≢◌, inl, replicate, ◌-◌, refl, min, sym, max, ◌∙◌,
}
use uam_backend.Breaker.Window.{
  TimeBucket, RedisCallOutcome, create, fresh_bucket, record_call, record_in, bucket_at,
  WindowStats, aggregate_from, no_stats, add_bucket, is_outside, max_window_buckets,
}
use uam_backend.Breaker.Window.Shape.{length-record_call, length-create}

-- The calls that were recorded, the newest first.
pub record Entry : Type 0 where
  pub ts : ℕ
  pub outcome : RedisCallOutcome
  pub latency_us : ℕ

-- The window after those calls.
unfoldable pub window_of : ℕ → List Entry → List TimeBucket
window_of size [] = create size
window_of size (e ∷ es) = record_call e.ts e.outcome e.latency_us (window_of size es)

-- The clock does not go back: no call is newer than `hi`, nor than one recorded after it.
abbrev pub InOrder : ℕ → List Entry → Type 0
InOrder hi [] = Unit
InOrder hi (e ∷ es) = (e.ts ≤ hi) × InOrder e.ts es

-- The sum of `weight` over the calls of second `lo` and later.
abbrev pub counted : (RedisCallOutcome → ℕ) → ℕ → List Entry → ℕ
counted weight lo [] = 0
counted weight lo (e ∷ es) = (if leb lo e.ts then weight e.outcome else 0) + counted weight lo es

same_index : (n a b : ℕ) → 0 < n → a < b → a % n ≡ b % n → a + n ≤ b
same_index n a b p l e = grind arith

-- A quantity that a bucket accumulates: the count of all calls, of errors, or of timeouts.
pub record Measure : Type 0 where
  pub of_bucket : TimeBucket → ℕ
  pub of_call : RedisCallOutcome → ℕ
  pub of_fresh : (ts : ℕ) → of_bucket (fresh_bucket ts) ≡ 0
  pub of_stats : WindowStats → ℕ
  pub of_none : of_stats no_stats ≡ 0
  pub of_add :
      (s : WindowStats) (b : TimeBucket) → of_stats (add_bucket s b) ≡ of_stats s + of_bucket b
  pub of_record :
      (o : RedisCallOutcome) (l : ℕ) (b : TimeBucket)
      → of_bucket (record_in o l b) ≡ of_bucket b + of_call o

pub length-window_of :
    (size : ℕ) (es : List Entry) → length (window_of size es) ≡ min max_window_buckets (max 1 size)
unfolding window_of
length-window_of size [] = length-create size
length-window_of size (e ∷ es) =
    length-record_call e.ts e.outcome e.latency_us (window_of size es) ∙ length-window_of size es

bucket_at_same : (ts : ℕ) (b : TimeBucket) → b.ts ≡ ts → bucket_at ts b ≡ b
unfolding bucket_at
bucket_at_same ts b e = ground arith

bucket_at_other : (ts : ℕ) (b : TimeBucket) → b.ts ≢ ts → bucket_at ts b ≡ fresh_bucket ts
unfolding bucket_at
bucket_at_other ts b e = ground arith

pub bucket_ts :
    (ts l : ℕ) (o : RedisCallOutcome) (b : TimeBucket) → (record_in o l (bucket_at ts b)).ts ≡ ts
unfolding record_in bucket_at
bucket_ts ts l o b = ground arith

module _ (m : Measure) where
  open m use {of_bucket, of_call, of_fresh, of_record, of_stats, of_none, of_add}

  -- What the buckets of second `lo` and later hold.
  abbrev pub held : ℕ → List TimeBucket → ℕ
  held lo [] = 0
  held lo (b ∷ bs) = (if leb lo b.ts then of_bucket b else 0) + held lo bs

  -- Bucket `k` holds a second that belongs there, or nothing; and no second after `hi`.
  abbrev pub IsHome : ℕ → ℕ → ℕ → TimeBucket → Type 0
  IsHome n hi k b = ((of_bucket b ≡ 0) ⊎ (b.ts % n ≡ k)) × (b.ts ≤ hi)

  abbrev pub AllHome : ℕ → ℕ → ℕ → List TimeBucket → Type 0
  AllHome n hi k [] = Unit
  AllHome n hi k (b ∷ bs) = IsHome n hi k b × AllHome n hi (suc k) bs

  AllHome-mono :
      (n hi hi' k : ℕ) (bs : List TimeBucket) → hi ≤ hi' → AllHome n hi k bs → AllHome n hi' k bs
  AllHome-mono n hi hi' k [] l h = tt
  AllHome-mono n hi hi' k (b ∷ bs) l h =
      ((h.0.0, omega arith), AllHome-mono n hi hi' (suc k) bs l h.1)

  AllHome-get :
      (n hi k i : ℕ) (bs : List TimeBucket) (d : TimeBucket)
      → i < length bs
      → AllHome n hi k bs
      → IsHome n hi (k + i) (get_or bs i d)
  AllHome-get n hi k i [] d l h = absurd (omega arith)
  AllHome-get n hi k zero (b ∷ bs) d l h = subst (λ j. IsHome n hi j b) (omega arith) h.0
  AllHome-get n hi k (suc i) (b ∷ bs) d l h =
      subst (λ j. IsHome n hi j (get_or bs i d)) (omega arith)
        (AllHome-get n hi (suc k) i bs d (omega arith) h.1)

  AllHome-set :
      (n hi k i : ℕ) (bs : List TimeBucket) (b' : TimeBucket)
      → AllHome n hi k bs
      → IsHome n hi (k + i) b'
      → AllHome n hi k (set bs i b')
  AllHome-set n hi k i [] b' h p = tt
  AllHome-set n hi k zero (b ∷ bs) b' h p = (subst (λ j. IsHome n hi j b') (omega arith) p, h.1)
  AllHome-set n hi k (suc i) (b ∷ bs) b' h p =
      (h.0, AllHome-set n hi (suc k) i bs b' h.1 (subst (λ j. IsHome n hi j b') (omega arith) p))

  held-set :
      (lo i : ℕ) (bs : List TimeBucket) (d b' : TimeBucket)
      → i < length bs
      → held lo (set bs i b') + held lo (get_or bs i d ∷ []) ≡ held lo bs + held lo (b' ∷ [])
  held-set lo i [] d b' l = absurd (omega arith)
  held-set lo zero (b ∷ bs) d b' l = omega arith
  held-set lo (suc i) (b ∷ bs) d b' l = omega (arith, held-set lo i bs d b')

  record_call-AllHome :
      (hi ts l : ℕ) (o : RedisCallOutcome) (bs : List TimeBucket)
      → hi ≤ ts
      → AllHome (length bs) hi 0 bs
      → AllHome (length bs) ts 0 (record_call ts o l bs)
  unfolding record_call
  record_call-AllHome hi ts l o bs p h =
      AllHome-set (length bs) ts 0 (ts % length bs) bs _ (AllHome-mono (length bs) hi ts 0 bs p h) (
        inr (rw (bucket_ts ts l o (get_or bs (ts % length bs) (fresh_bucket 0))) (omega arith)),
        omega (arith, bucket_ts ts l o (get_or bs (ts % length bs) (fresh_bucket 0))),
      )

  stale_empty :
      (n lo hi ts : ℕ) (b : TimeBucket)
      → 0 < n
      → hi ≤ ts
      → ts < lo + n
      → b.ts ≢ ts
      → IsHome n hi (ts % n) b
      → held lo (b ∷ []) ≡ 0
  stale_empty n lo hi ts b z p q d (inl e, l) = ground arith
  stale_empty n lo hi ts b z p q d (inr e, l) =
      let old : b.ts + n ≤ ts = same_index n b.ts ts z (omega arith) e in ground arith

  -- The bucket's part in what is held goes up by the call, and what it drops was too old to count.
  bucket_step :
      (n lo hi ts l : ℕ) (o : RedisCallOutcome) (b : TimeBucket)
      → 0 < n
      → hi ≤ ts
      → ts < lo + n
      → IsHome n hi (ts % n) b
      → held lo (record_in o l (bucket_at ts b) ∷ [])
        ≡ held lo (b ∷ []) + (if leb lo ts then of_call o else 0)
  bucket_step n lo hi ts l o b z p q h = elim (ℕ_discrete b.ts ts) [
    | yes e ↦ ground (arith, bucket_at_same ts b e, of_record o l b, bucket_ts ts l o b)
    | no d ↦ ground (
      arith,
      bucket_at_other ts b d,
      of_record o l (fresh_bucket ts),
      of_fresh ts,
      bucket_ts ts l o b,
      stale_empty n lo hi ts b z p q d h,
    )
  ]

  held-record_call :
      (lo hi ts l : ℕ) (o : RedisCallOutcome) (bs : List TimeBucket)
      → 0 < length bs
      → hi ≤ ts
      → ts < lo + length bs
      → AllHome (length bs) hi 0 bs
      → held lo (record_call ts o l bs) ≡ held lo bs + (if leb lo ts then of_call o else 0)
  unfolding record_call
  held-record_call lo hi ts l o bs z p q h =
      let i = ts % length bs in
      let b = get_or bs i (fresh_bucket 0) in
      let inside : i < length bs = omega arith in
      let home : IsHome (length bs) hi (0 + i) b =
        AllHome-get (length bs) hi 0 i bs (fresh_bucket 0) inside h in
      omega (
        arith,
        held-set lo i bs (fresh_bucket 0) (record_in o l (bucket_at ts b)) inside,
        bucket_step (length bs) lo hi ts l o b z p q
            (subst (λ j. IsHome (length bs) hi j b) (omega arith) home),
      )

  AllHome-create : (n k i : ℕ) → AllHome n 0 k (replicate i (fresh_bucket 0))
  AllHome-create n k zero = tt
  AllHome-create n k (suc i) = ((inl (of_fresh 0), omega arith), AllHome-create n (suc k) i)

  held-create : (lo i : ℕ) → held lo (replicate i (fresh_bucket 0)) ≡ 0
  held-create lo zero = refl
  held-create lo (suc i) = ground (arith, of_fresh 0, held-create lo i)

  pub window_of-AllHome :
      (size hi : ℕ) (es : List Entry)
      → InOrder hi es
      → AllHome (length (window_of size es)) hi 0 (window_of size es)
  unfolding window_of create
  window_of-AllHome size hi [] o = AllHome-mono _ 0 hi 0 _ (omega arith) (AllHome-create _ 0 _)
  window_of-AllHome size hi (e ∷ es) o =
      subst (λ n. AllHome n hi 0 (window_of size (e ∷ es)))
        (sym (length-record_call e.ts e.outcome e.latency_us (window_of size es)))
        (AllHome-mono _ e.ts hi 0 _ o.0 (
          record_call-AllHome e.ts e.ts e.latency_us e.outcome (window_of size es) (omega arith)
            (window_of-AllHome size e.ts es o.1)))

  -- What is held from second `lo` on is what the log has, if `lo` lies within the ring's reach.
  pub held-window_of :
      (size lo hi : ℕ) (es : List Entry)
      → InOrder hi es
      → hi < lo + length (window_of size es)
      → held lo (window_of size es) ≡ counted of_call lo es
  unfolding window_of create
  held-window_of size lo hi [] o p = held-create lo _
  held-window_of size lo hi (e ∷ es) o p =
      let n = length-window_of size es in
      let n' = length-window_of size (e ∷ es) in
      omega (
        arith,
        held-record_call lo e.ts e.ts e.latency_us e.outcome (window_of size es) (omega (arith, n))
            (omega arith) (omega (arith, n, n', o.0, p)) (window_of-AllHome size e.ts es o.1),
        held-window_of size lo e.ts es o.1 (omega (arith, n, n', o.0, p)),
      )

  -- The statistics hold what stands in the range that `aggregate` reads.
  pub aggregate_from-held :
      (s : WindowStats) (w now n k : ℕ) (bs : List TimeBucket)
      → AllHome n now k bs
      → of_stats (aggregate_from s w now bs) ≡ of_stats s + held (now - w) bs
  unfolding aggregate_from is_outside
  aggregate_from-held s w now n k [] h = omega arith
  aggregate_from-held s w now n k (b ∷ bs) h = omega (
    arith,
    aggregate_from-held (if is_outside w now b then s else add_bucket s b) w now n (suc k) bs h.1,
    head,
  )
    where
      head :
          of_stats (if is_outside w now b then s else add_bucket s b)
          ≡ of_stats s + (if leb (now - w) b.ts then of_bucket b else 0)
      head = ground (arith, of_add s b)
