-- ===== src/Daemon/Store/Durations.antt =====
-- crates/lightwatch-daemon/src/store.rs: the total of a distribution of durations, from its samples and
-- from its buckets.
use lightwatch.Base.{
  ℕ, ◌+◌, ◌*◌, ◌^◌, ◌≤◌, ◌<◌, ◌≡◌, sym, ◌∙◌, List, [], ◌∷◌, inl, inr, Bool-cases, ltb, arith,
  length, All, min,
}
use lightwatch.Proto.Dist.{raw, buckets, Buckets, bucket_of, bucket_range, to_buckets}
use lightwatch.Proto.Dist.Range.{bucket_of-Within}
use lightwatch.Proto.Dist.Precision.{midpoint, midpoint_error}
use lightwatch.Proto.Dist.Merge.{
  weigh, weigh_samples, total, total-weigh, samples-weight, to_buckets-weight,
}
use lightwatch.Daemon.Store.Totals.{middle, sum_samples, sum_midpoints, duration_total}

abbrev pub sum : List ℕ → ℕ
sum [] = 0
sum (x ∷ v) = x + sum v

abbrev pub Durations : List ℕ → Type 0
Durations v = All (λ x. x < 2 ^ 64) v

range_fits : (i : ℕ) → i ≤ 975 → (bucket_range i).1 < 2 ^ 64
unfolding bucket_range
range_fits i low = elim (Bool-cases (ltb i 32)) [
  | inl small ↦ rw small (omega arith)
  | inr big ↦ rw big (omega arith)
]

-- On a range that does not wrap around, `middle` is the midpoint.
middle_is : (r : ℕ × ℕ) → r.0 ≤ r.1 → r.1 < 2 ^ 64 → middle r ≡ midpoint r
middle_is (lo, hi) low fits = omega (arith, low, fits)

middle_error :
    (x : ℕ)
    → x < 2 ^ 64
    → (32 * middle (bucket_range (bucket_of x)) ≤ 33 * x)
      × (31 * x ≤ 32 * middle (bucket_range (bucket_of x)))
middle_error x fits =
    let w = bucket_of-Within x fits in
    let inside = w.0 in
    let is =
      middle_is (bucket_range (bucket_of x)) (omega (arith, inside))
        (range_fits (bucket_of x) w.1) in
    let e = midpoint_error (bucket_of x) x w.1 inside in rw is (omega (arith, e), omega (arith, e))

abbrev mid : ℕ → ℕ
mid i = middle (bucket_range i)

near :
    (v : List ℕ)
    → Durations v
    → (32 * weigh_samples mid v ≤ 33 * sum v) × (31 * sum v ≤ 32 * weigh_samples mid v)
near [] h = (omega arith, omega arith)
near (x ∷ v) h =
    let one = middle_error x h.0 in
    let rest = near v h.1 in (omega (arith, one, rest), omega (arith, one, rest))

sum_samples-sum : (acc : ℕ) (v : List ℕ) → acc + sum v < 2 ^ 64 → sum_samples acc v ≡ acc + sum v
unfolding sum_samples
sum_samples-sum acc [] h = omega arith
sum_samples-sum acc (x ∷ v) h =
    let fits : min (acc + x) 0xffff_ffff_ffff_ffff ≡ acc + x = omega (arith, h) in
    rw fits (sum_samples-sum (acc + x) v (omega (arith, h)) ∙ omega arith)

sum_midpoints-weigh :
    (acc : ℕ) (b : Buckets) → acc + weigh mid b < 2 ^ 64 → sum_midpoints acc b ≡ acc + weigh mid b
unfolding sum_midpoints
sum_midpoints-weigh acc [] h = omega arith
sum_midpoints-weigh acc ((i, n) ∷ b) h =
    let product : min (mid i * n) 0xffff_ffff_ffff_ffff ≡ mid i * n = omega (arith, h) in
    let fits : min (acc + mid i * n) 0xffff_ffff_ffff_ffff ≡ acc + mid i * n = omega (arith, h) in
    rw (product, fits) (sum_midpoints-weigh (acc + mid i * n) b (omega (arith, h)) ∙ omega arith)

-- The buckets that the samples make, merged once more by whoever receives them.
twice_merged :
    (v : List ℕ)
    → length v < 2 ^ 32
    → weigh mid (to_buckets (buckets (to_buckets (raw v)))) ≡ weigh_samples mid v
twice_merged v few =
    let once : total (to_buckets (raw v)) ≡ length v =
      total-weigh (to_buckets (raw v))
      ∙ to_buckets-weight (λ _. 1) (raw v) few
      ∙ sym (samples-weight (raw v)) in
    to_buckets-weight mid (buckets (to_buckets (raw v))) (omega (arith, once, few))
    ∙ to_buckets-weight mid (raw v) few

-- For fewer than 2 ^ 32 durations of 64 bits whose sum leaves a thirty-second of room below 2 ^ 64: the
-- total is the exact sum where the samples themselves arrive, and where the buckets of the same
-- durations arrive it is within a thirty-second (3.125%) of that sum, to both sides.
pub duration_total_error :
    (v : List ℕ)
    → Durations v
    → length v < 2 ^ 32
    → 33 * sum v < 32 * 2 ^ 64
    → (let sent = buckets (to_buckets (raw v)) in
        let estimate = duration_total sent (to_buckets sent) in
        (duration_total (raw v) (to_buckets (raw v)) ≡ sum v)
        × (32 * estimate ≤ 33 * sum v)
        × (31 * sum v ≤ 32 * estimate))
unfolding duration_total
duration_total_error v h few room =
    let sent = buckets (to_buckets (raw v)) in
    let bounds = near v h in
    let merged = twice_merged v few in
    let is : sum_midpoints 0 (to_buckets sent) ≡ weigh_samples mid v =
      sum_midpoints-weigh 0 (to_buckets sent) (omega (arith, bounds, merged, room))
      ∙ omega (arith, merged) in
    rw is (sum_samples-sum 0 v (omega (arith, room)) ∙ omega arith, bounds.0, bounds.1)
