-- ===== src/Proto/Dist/Merge.antt =====
-- What a sum over the buckets says of the samples that went in.
use lightwatch.Base.{
  ℕ, ◌+◌, ◌*◌, ◌%◌, ◌^◌, ◌<◌, ◌≡◌, refl, ◌∙◌, ap, List, [], ◌∷◌, map, ◌==◌, ==_iff, inl, inr,
  Bool-cases, arith, length, add32,
}
use lightwatch.Proto.Dist.{
  Dist, raw, buckets, Buckets, place, sort_by_index, fold_from, fold_sorted, to_buckets, bucket_of,
  count, sum64,
}

-- Each sample counted with the weight of its bucket.
abbrev pub weigh : (ℕ → ℕ) → Buckets → ℕ
weigh w [] = 0
weigh w ((i, n) ∷ b) = w i * n + weigh w b

abbrev pub total : Buckets → ℕ
total [] = 0
total ((i, n) ∷ b) = n + total b

weigh-place : (w : ℕ → ℕ) (p : ℕ × ℕ) (b : Buckets) → weigh w (place p b) ≡ w p.0 * p.1 + weigh w b
unfolding place
weigh-place w (i, n) [] = refl
weigh-place w (i, n) ((j, m) ∷ b) = ground (arith, weigh-place w (i, n) b)

total-place : (p : ℕ × ℕ) (b : Buckets) → total (place p b) ≡ p.1 + total b
unfolding place
total-place (i, n) [] = refl
total-place (i, n) ((j, m) ∷ b) = ground (arith, total-place (i, n) b)

weigh-sort : (w : ℕ → ℕ) (b : Buckets) → weigh w (sort_by_index b) ≡ weigh w b
unfolding sort_by_index
weigh-sort w [] = refl
weigh-sort w ((i, n) ∷ b) = omega (arith, weigh-place w (i, n) (sort_by_index b), weigh-sort w b)

total-sort : (b : Buckets) → total (sort_by_index b) ≡ total b
unfolding sort_by_index
total-sort [] = refl
total-sort ((i, n) ∷ b) = omega (arith, total-place (i, n) (sort_by_index b), total-sort b)

weigh-fold_from :
    (w : ℕ → ℕ) (i r : ℕ) (b : Buckets)
    → r + total b < 2 ^ 32
    → weigh w (fold_from (i, r) b) ≡ w i * r + weigh w b
unfolding fold_from
weigh-fold_from w i r [] h = refl
weigh-fold_from w i r ((j, n) ∷ b) h = elim (Bool-cases (i == j)) [
  | inl same ↦
      let e = (==_iff i j).0 same in
      let fits : add32 r n ≡ r + n = omega arith in
      rw (same, fits)
        (omega (arith, weigh-fold_from w i (r + n) b (omega arith), ap (λ (t : ℕ). w t * n) e))
  | inr other ↦ rw other (omega (arith, weigh-fold_from w j n b (omega arith)))
]

weigh-fold_sorted :
    (w : ℕ → ℕ) (b : Buckets) → total b < 2 ^ 32 → weigh w (fold_sorted b) ≡ weigh w b
unfolding fold_sorted
weigh-fold_sorted w [] h = refl
weigh-fold_sorted w ((i, n) ∷ b) h = weigh-fold_from w i n b h

weigh_merged :
    (w : ℕ → ℕ) (b : Buckets)
    → total b < 2 ^ 32
    → weigh w (fold_sorted (sort_by_index b)) ≡ weigh w b
weigh_merged w b h =
    weigh-fold_sorted w (sort_by_index b) (omega (arith, total-sort b)) ∙ weigh-sort w b

-- The samples of a distribution, one weight each.
abbrev pub weigh_samples : (ℕ → ℕ) → List ℕ → ℕ
weigh_samples w [] = 0
weigh_samples w (x ∷ v) = w (bucket_of x) + weigh_samples w v

weigh_singles :
    (w : ℕ → ℕ) (v : List ℕ) → weigh w (map (λ value. (bucket_of value, 1)) v) ≡ weigh_samples w v
weigh_singles w [] = refl
weigh_singles w (x ∷ v) = omega (arith, weigh_singles w v)

total_singles : (v : List ℕ) → total (map (λ value. (bucket_of value, 1)) v) ≡ length v
total_singles [] = refl
total_singles (x ∷ v) = omega (arith, total_singles v)

-- What a distribution stands for under a weight of the buckets, before any merging.
abbrev pub weight : (ℕ → ℕ) → Dist → ℕ
weight w (raw v) = weigh_samples w v
weight w (buckets b) = weigh w b

abbrev pub samples : Dist → ℕ
samples (raw v) = length v
samples (buckets b) = total b

-- With fewer than 2 ^ 32 samples, merging adds up under every weight of the buckets to what went
-- in: no sample is lost, doubled or moved to another bucket.
pub to_buckets-weight :
    (w : ℕ → ℕ) (d : Dist) → samples d < 2 ^ 32 → weigh w (to_buckets d) ≡ weight w d
unfolding to_buckets
to_buckets-weight w (raw v) h =
    weigh_merged w (map (λ value. (bucket_of value, 1)) v) (omega (arith, total_singles v))
    ∙ weigh_singles w v
to_buckets-weight w (buckets b) h = weigh_merged w b h

sum64-total : (b : Buckets) → sum64 (map (λ p. p.1) b) ≡ total b % 2 ^ 64
unfolding sum64
sum64-total [] = refl
sum64-total ((i, n) ∷ b) = omega (arith, sum64-total b)

pub total-weigh : (b : Buckets) → total b ≡ weigh (λ _. 1) b
total-weigh [] = refl
total-weigh ((i, n) ∷ b) = omega (arith, total-weigh b)

pub samples-weight : (d : Dist) → samples d ≡ weight (λ _. 1) d
samples-weight (raw []) = refl
samples-weight (raw (x ∷ v)) = omega (arith, samples-weight (raw v))
samples-weight (buckets b) = total-weigh b

count-samples : (d : Dist) → count d ≡ samples d % 2 ^ 64
unfolding count
count-samples (raw v) = refl
count-samples (buckets b) = sum64-total b

-- The raw and the bucketed form of fewer than 2 ^ 32 samples report the same count.
pub count-to_buckets : (d : Dist) → samples d < 2 ^ 32 → count (buckets (to_buckets d)) ≡ count d
count-to_buckets d h = omega (
  arith,
  count-samples d,
  count-samples (buckets (to_buckets d)),
  total-weigh (to_buckets d),
  to_buckets-weight (λ _. 1) d h,
  samples-weight d,
)
