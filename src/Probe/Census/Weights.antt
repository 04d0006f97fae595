-- ===== src/Probe/Census/Weights.antt =====
-- Sums over the buckets of a histogram, each count times a weight of its index.
use lightwatch.Base.{
  Bool, ℕ, zero, suc, ◌+◌, ◌*◌, ◌≤◌, ◌%◌, ◌^◌, ◌≡◌, refl, sym, ◌∙◌, ap, true, false, ◌&&◌, List, [],
  ◌∷◌, Option, none, some, ◌==◌, if◌then◌else◌, length, leb, ltb, arith, inl, inr, Bool-cases, All,
}
use lightwatch.Proto.Dist.{bucket_of, bucket_range}
use lightwatch.Proto.Dist.Range.{bucket_of-Within}
use lightwatch.Proto.Dist.Precision.{midpoint}
use lightwatch.Probe.Census.{bucket_count, sparse_from, bytes_from_buckets}
use lightwatch.Probe.Census.Counters.{table}
use lightwatch.Probe.Census.Tally.{Instance, total, bucket_of_size, sized, is_alive, held}
use lightwatch.Probe.Census.Refine.{Fits}

-- The counts, each times a weight of its index.
abbrev pub dot : (ℕ → ℕ) → ℕ → List ℕ → ℕ
dot f i [] = 0
dot f i (n ∷ counts) = f i * n + dot f (suc i) counts

abbrev among : ℕ → ℕ → ℕ → Bool
among from n k = leb from k && ltb k (from + n)

dot-spread :
    (f g : ℕ → ℕ) (k x from n : ℕ)
    → dot f from (table (λ b. (if b == k then x else 0) + g b) from n)
      ≡ (if among from n k then f k * x else 0) + dot f from (table g from n)
dot-spread f g k x from zero = ground arith
dot-spread f g k x from (suc n) = elim (Bool-cases (from == k)) [
  | inl hit ↦
      let key : from ≡ k = ground arith in
      let inside : among from (suc n) k ≡ true = ground arith in
      let behind : among (suc from) n k ≡ false = ground arith in
      let rest : dot f (suc from) (table (λ b. (if b == k then x else 0) + g b) (suc from) n)
          ≡ 0 + dot f (suc from) (table g (suc from) n) =
        rw behind at (dot-spread f g k x (suc from) n) in
      rw (hit, inside, rest, sym key) (grind arith)
  | inr miss ↦
      let same : among from (suc n) k ≡ among (suc from) n k = ground arith in
      rw (miss, same) (omega (arith, dot-spread f g k x (suc from) n))
]

-- What an instance adds to a weighted sum over the buckets of its type.
abbrev pub weighed : (ℕ → ℕ) → ℕ → Instance → ℕ
weighed f a item = f (bucket_of_size item.size) * is_alive a item

in_place :
    (f : ℕ → ℕ) (a slot : ℕ) (size : Option ℕ)
    → Fits size
    → (if among 0 bucket_count (bucket_of_size size)
        then f (bucket_of_size size) * sized a slot size
        else 0)
      ≡ f (bucket_of_size size) * sized a slot size
in_place f a slot none fit = ground arith
in_place f a slot (some n) fit =
    let w = bucket_of-Within n fit in
    let inside : among 0 bucket_count (bucket_of n) ≡ true = ground arith in rw inside refl

dot_zero : (f : ℕ → ℕ) (from n : ℕ) → dot f from (table (λ b. 0) from n) ≡ 0
dot_zero f from zero = refl
dot_zero f from (suc n) = omega (arith, dot_zero f (suc from) n)

pub dot-held :
    (f : ℕ → ℕ) (a : ℕ) (items : List Instance)
    → All (λ item. Fits item.size) items
    → dot f 0 (table (λ b. held a b items) 0 bucket_count) ≡ total (weighed f a) items
dot-held f a [] h = dot_zero f 0 bucket_count
dot-held f a (item ∷ items) h =
    dot-spread f (λ b. held a b items) (bucket_of_size item.size) (is_alive a item) 0 bucket_count
    ∙ rw (in_place f a item.slot item.size h.0, dot-held f a items h.1) refl

-- The number of instances in the buckets of a histogram.
abbrev pub bucket_sum : List (ℕ × ℕ) → ℕ
bucket_sum [] = 0
bucket_sum ((index, count) ∷ buckets) = count + bucket_sum buckets

pub sparse-sum :
    (i : ℕ) (counts : List ℕ) → bucket_sum (sparse_from i counts) ≡ dot (λ b. 1) i counts
unfolding sparse_from
sparse-sum i [] = refl
sparse-sum i (n ∷ counts) = elim (Bool-cases (n == 0)) [
  | inl empty ↦
      let key : n ≡ 0 = ground arith in rw empty (omega (arith, sparse-sum (suc i) counts))
  | inr full ↦ rw full (omega (arith, sparse-sum (suc i) counts))
]

abbrev pub mid_of : ℕ → ℕ
mid_of b = midpoint (bucket_range b)

pub bytes-sparse :
    (i : ℕ) (counts : List ℕ)
    → i + length counts ≤ 2 ^ 16
    → bytes_from_buckets (sparse_from i counts) ≡ dot mid_of i counts % 2 ^ 64
unfolding sparse_from bytes_from_buckets
bytes-sparse i [] h = refl
bytes-sparse i (n ∷ counts) h =
    let rest = bytes-sparse (suc i) counts (omega arith) in
    elim (Bool-cases (n == 0)) [
      | inl empty ↦
          let key : n ≡ 0 = ground arith in
          let skip : mid_of i * n ≡ 0 = rw key (omega arith) in
          rw empty (rest ∙ ap (λ (c : ℕ). c % 2 ^ 64) (omega (arith, skip)))
      | inr full ↦
          let index : i % 2 ^ 16 ≡ i = omega arith in rw (full, index) (omega (arith, rest))
    ]
