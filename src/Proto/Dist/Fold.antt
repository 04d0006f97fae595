-- ===== src/Proto/Dist/Fold.antt =====
-- `to_buckets` sorts and merges, and loses no sample.
use lightwatch.Base.{ℕ, ◌+◌, ◌≤◌, [], ◌∷◌, map, arith, add32}
use lightwatch.Proto.Dist.{
  Dist, raw, buckets, Buckets, place, sort_by_index, fold_from, fold_sorted, to_buckets, bucket_of,
}

-- Strictly rising indices, all of them above or at `low`.
abbrev pub Rises : ℕ → Buckets → Type 0
Rises low [] = Unit {0}
Rises low ((i, n) ∷ b) = (low ≤ i) × Rises (i + 1) b

abbrev Sorted : ℕ → Buckets → Type 0
Sorted low [] = Unit {0}
Sorted low ((i, n) ∷ b) = (low ≤ i) × Sorted i b

place-Sorted :
    (low : ℕ) (p : ℕ × ℕ) (b : Buckets) → low ≤ p.0 → Sorted low b → Sorted low (place p b)
unfolding place
place-Sorted low (i, n) [] h s = (h, tt)
place-Sorted low (i, n) ((j, m) ∷ b) h s = ground (arith, place-Sorted j (i, n) b)

sort-Sorted : (b : Buckets) → Sorted 0 (sort_by_index b)
unfolding sort_by_index
sort-Sorted [] = tt
sort-Sorted (p ∷ b) = place-Sorted 0 p (sort_by_index b) (omega arith) (sort-Sorted b)

fold_from-Rises :
    (low i r : ℕ) (b : Buckets) → low ≤ i → Sorted i b → Rises low (fold_from (i, r) b)
unfolding fold_from
fold_from-Rises low i r [] h s = (h, tt)
fold_from-Rises low i r ((j, n) ∷ b) h s =
    ground (arith, fold_from-Rises low i (add32 r n) b, fold_from-Rises (i + 1) j n b)

fold_sorted-Rises : (b : Buckets) → Sorted 0 b → Rises 0 (fold_sorted b)
unfolding fold_sorted
fold_sorted-Rises [] s = tt
fold_sorted-Rises ((i, n) ∷ b) s = fold_from-Rises 0 i n b s.0 s.1

merged-Rises : (b : Buckets) → Rises 0 (fold_sorted (sort_by_index b))
merged-Rises b = fold_sorted-Rises (sort_by_index b) (sort-Sorted b)

-- Whatever the client sent, the buckets come out in the order of their indices, each index once.
pub to_buckets-Rises : (d : Dist) → Rises 0 (to_buckets d)
unfolding to_buckets
to_buckets-Rises (raw v) = merged-Rises (map (λ value. (bucket_of value, 1)) v)
to_buckets-Rises (buckets b) = merged-Rises b
