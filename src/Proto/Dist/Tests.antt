-- ===== src/Proto/Dist/Tests.antt =====
-- crates/lightwatch-proto/src/dist.rs: the statements at concrete values.
use lightwatch.Base.{◌≡◌, ◌↔◌, refl, [], ◌∷◌, arith}
use lightwatch.Proto.Dist.{
  Dist, raw, buckets, bucket_of, bucket_range, to_buckets, count, place, sort_by_index, fold_sorted,
  fold_from, leading_zeros,
}
use lightwatch.Proto.Dist.Range.{Within, bucket_of_iff}
use lightwatch.Proto.Dist.Fold.{Rises, to_buckets-Rises}
use lightwatch.Proto.Dist.Merge.{weigh, weight, to_buckets-weight, count-to_buckets}

-- A hostile list: out of order, one index twice.
abbrev hostile : Dist
hostile = buckets ((40, 2) ∷ (7, 1) ∷ (40, 3) ∷ [])

abbrev durations : Dist
durations = raw (1000 ∷ 31 ∷ 1001 ∷ [])

merged_hostile : to_buckets hostile ≡ (7, 1) ∷ (40, 5) ∷ []
unfolding to_buckets sort_by_index place fold_sorted fold_from
merged_hostile = refl

bucket_of_thousand : bucket_of 1000 ≡ 111
unfolding bucket_of leading_zeros
bucket_of_thousand = refl

range_of_thousand : bucket_range 111 ≡ (992, 1023)
unfolding bucket_range
range_of_thousand = refl

bucket_of_iff_example : (bucket_of 1000 ≡ 111) ↔ Within 1000 (bucket_range 111)
bucket_of_iff_example = bucket_of_iff 111 1000 (omega arith) (omega arith)

to_buckets-Rises_example : Rises 0 (to_buckets hostile)
to_buckets-Rises_example = to_buckets-Rises hostile

to_buckets-weight_example : weigh (λ i. i) (to_buckets durations) ≡ weight (λ i. i) durations
to_buckets-weight_example = to_buckets-weight (λ i. i) durations (omega arith)

count-to_buckets_example : count (buckets (to_buckets hostile)) ≡ count hostile
count-to_buckets_example = count-to_buckets hostile (omega arith)
