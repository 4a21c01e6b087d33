-- ===== src/Breaker/Window/Percentile.antt =====
-- What `percentileUs` returns, against a count of the calls under a latency.
use mathlib.Core.Path.{subst}
use native.Mathlib.Decide.{dec_lt}
use uam_backend.Prelude.{
  ℕ, ◌+◌, ◌*◌, ◌≤◌, ◌<◌, ◌≡◌, refl, sym, List, [], ◌∷◌, arith, ltb, leb, if◌then◌else◌,
}
use uam_backend.Breaker.Window.{
  WindowStats, percentile_from, percentile_us, target_of, max_safe_integer, hist_bounds_us,
}
use uam_backend.Breaker.Window.Shape.{sum, IsSoundStats}

-- The calls in bands whose upper bound is at most `v`, and below `v`; past the bounds given, the
-- band's bound is `max_safe_integer`.
abbrev pub calls_upto : ℕ → List ℕ → List ℕ → ℕ
calls_upto v [] bounds = 0
calls_upto v (h ∷ hs) [] = (if leb max_safe_integer v then h else 0) + calls_upto v hs []
calls_upto v (h ∷ hs) (b ∷ bs) = (if leb b v then h else 0) + calls_upto v hs bs

abbrev pub calls_below : ℕ → List ℕ → List ℕ → ℕ
calls_below v [] bounds = 0
calls_below v (h ∷ hs) [] = (if ltb max_safe_integer v then h else 0) + calls_below v hs []
calls_below v (h ∷ hs) (b ∷ bs) = (if ltb b v then h else 0) + calls_below v hs bs

-- The bounds rise from above `lo` and stay below `max_safe_integer`.
abbrev Rising : ℕ → List ℕ → Type 0
Rising lo [] = lo < max_safe_integer
Rising lo (b ∷ bs) = (lo < b) × Rising b bs

Rising-below : (lo : ℕ) (bs : List ℕ) → Rising lo bs → lo < max_safe_integer
Rising-below lo [] r = r
Rising-below lo (b ∷ bs) r = omega (arith, Rising-below b bs r.1)

Rising-mono : (lo hi : ℕ) (bs : List ℕ) → lo ≤ hi → Rising hi bs → Rising lo bs
Rising-mono lo hi [] h r = omega arith
Rising-mono lo hi (b ∷ bs) h r = (omega arith, r.1)

calls_below-zero : (v : ℕ) (hs bs : List ℕ) → Rising v bs → calls_below v hs bs ≡ 0
calls_below-zero v [] bs r = refl
calls_below-zero v (h ∷ hs) [] r = ground (arith, calls_below-zero v hs [])
calls_below-zero v (h ∷ hs) (b ∷ bs) r =
    ground (arith, calls_below-zero v hs bs, Rising-mono v b bs)

calls_below_top : (hs : List ℕ) → calls_below max_safe_integer hs [] ≡ 0
calls_below_top [] = refl
calls_below_top (h ∷ hs) = ground (arith, calls_below_top hs)

lt-percentile_from :
    (target cum lo : ℕ) (hs bs : List ℕ) → Rising lo bs → lo < percentile_from target cum hs bs
unfolding percentile_from
lt-percentile_from target cum lo [] bs r = Rising-below lo bs r
lt-percentile_from target cum lo (h ∷ hs) [] r =
    ground (arith, lt-percentile_from target (cum + h) lo hs [])
lt-percentile_from target cum lo (h ∷ hs) (b ∷ bs) r =
    ground (arith, lt-percentile_from target (cum + h) b hs bs)

percentile_from_top :
    (target cum : ℕ) (hs : List ℕ) → percentile_from target cum hs [] ≡ max_safe_integer
unfolding percentile_from
percentile_from_top target cum [] = refl
percentile_from_top target cum (h ∷ hs) = ground (arith, percentile_from_top target (cum + h) hs)

calls_upto_top : (hs : List ℕ) → calls_upto max_safe_integer hs [] ≡ sum hs
calls_upto_top [] = refl
calls_upto_top (h ∷ hs) = ground (arith, calls_upto_top hs)

-- The value that a rank of `target` calls deserves: that many calls are at most it, fewer below it.
abbrev pub IsRank : ℕ → ℕ → ℕ → List ℕ → List ℕ → Type 0
IsRank target cum v hs bs =
    (target ≤ cum + calls_upto v hs bs) × (cum + calls_below v hs bs < target)

top-IsRank :
    (target cum : ℕ) (hs : List ℕ)
    → cum < target
    → target ≤ cum + sum hs
    → IsRank target cum max_safe_integer hs []
top-IsRank target cum hs p q = (omega (arith, calls_upto_top hs), omega (arith, calls_below_top hs))

percentile_from-IsRank :
    (target cum lo : ℕ) (hs bs : List ℕ)
    → Rising lo bs
    → cum < target
    → target ≤ cum + sum hs
    → IsRank target cum (percentile_from target cum hs bs) hs bs
unfolding percentile_from
percentile_from-IsRank target cum lo [] bs r p q = absurd (omega arith)
percentile_from-IsRank target cum lo (h ∷ hs) [] r p q =
    subst (λ v. IsRank target cum v (h ∷ hs) []) (sym (percentile_from_top target cum (h ∷ hs)))
      (top-IsRank target cum (h ∷ hs) p q)
percentile_from-IsRank target cum lo (h ∷ hs) (b ∷ bs) r p q = ground (
  arith,
  calls_below-zero b hs bs,
  lt-percentile_from target (cum + h) b hs bs,
  percentile_from-IsRank target (cum + h) b hs bs,
)

hist_bounds_us-Rising : Rising 0 hist_bounds_us
hist_bounds_us-Rising = omega arith

percentile_us_of_pos :
    (s : WindowStats) (pct : ℕ)
    → 0 < s.total
    → percentile_us s pct ≡ percentile_from (target_of s.total pct) 0 s.hist hist_bounds_us
unfolding percentile_us
percentile_us_of_pos s pct h = ground arith

target_of-pos : (total pct : ℕ) → 0 < total → 0 < pct → 0 < target_of total pct
target_of-pos total pct h k = let p : 0 < total * pct = grind arith in omega arith

target_of-le : (total pct : ℕ) → pct ≤ 100 → target_of total pct ≤ total
target_of-le total pct h = let p : total * pct ≤ total * 100 = grind arith in omega arith

target_of_mono : (total p q : ℕ) → p ≤ q → target_of total p ≤ target_of total q
target_of_mono total p q h = let k : total * p ≤ total * q = grind arith in omega arith

-- For statistics that count each call in one band and have counted one, and a percentage from 1 to
-- 100: at least that percentage of the calls (rounded up) lie in bands bounded by the value
-- returned, and fewer lie in bands bounded by less.
pub percentile_us-IsRank :
    (s : WindowStats) (pct : ℕ)
    → IsSoundStats s
    → 0 < s.total
    → 0 < pct
    → pct ≤ 100
    → IsRank (target_of s.total pct) 0 (percentile_us s pct) s.hist hist_bounds_us
percentile_us-IsRank s pct sound some_calls low high =
    subst (λ v. IsRank (target_of s.total pct) 0 v s.hist hist_bounds_us)
      (sym (percentile_us_of_pos s pct some_calls))
      (percentile_from-IsRank (target_of s.total pct) 0 0 s.hist hist_bounds_us
        hist_bounds_us-Rising (target_of-pos s.total pct some_calls low)
        (omega (arith, target_of-le s.total pct high, sound.counted)))

percentile_from_mono :
    (t u cum lo : ℕ) (hs bs : List ℕ)
    → Rising lo bs
    → t ≤ u
    → percentile_from t cum hs bs ≤ percentile_from u cum hs bs
unfolding percentile_from
percentile_from_mono t u cum lo [] bs r h = omega arith
percentile_from_mono t u cum lo (x ∷ hs) [] r h =
    omega (arith, percentile_from_top t cum (x ∷ hs), percentile_from_top u cum (x ∷ hs))
percentile_from_mono t u cum lo (x ∷ hs) (b ∷ bs) r h =
    ground
      (arith, lt-percentile_from u (cum + x) b hs bs, percentile_from_mono t u (cum + x) b hs bs)

-- A higher percentile is never a lower latency.
pub percentile_us_mono : (s : WindowStats) (p q : ℕ) → p ≤ q → percentile_us s p ≤ percentile_us s q
unfolding percentile_us
percentile_us_mono s p q h = elim (dec_lt 0 s.total) [
  | yes some_calls ↦
      rw (percentile_us_of_pos s p some_calls, percentile_us_of_pos s q some_calls)
        (percentile_from_mono (target_of s.total p) (target_of s.total q) 0 0 s.hist hist_bounds_us
          hist_bounds_us-Rising (target_of_mono s.total p q h))
  | no none_yet ↦ ground arith
]
