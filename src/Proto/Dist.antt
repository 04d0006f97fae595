-- ===== src/Proto/Dist.antt =====
-- crates/lightwatch-proto/src/dist.rs: log-linear buckets and the distributions made of them.
-- A u16 bucket index and a u32 count are numbers; `as` casts and `+=` wrap.
pub mod Log
pub mod Range
pub mod Precision
pub mod Fold
pub mod Merge
mod Tests
use lightwatch.Base.{
  ℕ, zero, suc, ◌+◌, ◌-◌, ◌*◌, ◌/◌, ◌%◌, ◌^◌, Bool, true, false, List, [], ◌∷◌, map, ltb, ◌==◌,
  if◌then◌else◌, length, add64, sub64, add32, shl64,
}

abbrev pub linear_limit : ℕ
linear_limit = 32

abbrev pub sub_buckets : ℕ
sub_buckets = 16

abbrev pub sub_bits : ℕ
sub_bits = 4

abbrev pub max_bucket : ℕ
max_bucket = 975

abbrev pub max_raw_samples : ℕ
max_raw_samples = 1024

-- The zero bits above the highest one bit of a word of `w` bits.
unfoldable pub leading_zeros : ℕ → ℕ → ℕ
leading_zeros zero v = 0
leading_zeros (suc w) v = if ltb v (2 ^ w) then suc (leading_zeros w v) else 0

unfoldable pub bucket_of : ℕ → ℕ
bucket_of v =
    if ltb v linear_limit
    then v % 2 ^ 16
    else (let octave : ℕ = 63 - leading_zeros 64 v in
        let sub : ℕ = v / 2 ^ (octave - sub_bits) - sub_buckets in
        (linear_limit + (octave - 5) * sub_buckets + sub) % 2 ^ 16)

unfoldable pub bucket_range : ℕ → ℕ × ℕ
bucket_range i =
    if ltb i linear_limit
    then (i, i)
    else (let j : ℕ = i - linear_limit in
        let octave : ℕ = 5 + j / sub_buckets in
        let sub : ℕ = j % sub_buckets in
        let shift : ℕ = octave - sub_bits in
        let lo : ℕ = shl64 (sub_buckets + sub) shift in (lo, add64 lo (sub64 (shl64 1 shift) 1)))

-- Sparse buckets: an index and a count.
abbrev pub Buckets : Type 0
Buckets = List (ℕ × ℕ)

pub data Dist : Type 0 where
  raw : List ℕ → Dist
  buckets : Buckets → Dist

abbrev pub empty : Dist
empty = buckets []

unfoldable pub sum64 : List ℕ → ℕ
sum64 [] = 0
sum64 (x ∷ xs) = add64 x (sum64 xs)

unfoldable pub is_empty : Dist → Bool
is_empty (raw []) = true
is_empty (raw (x ∷ v)) = false
is_empty (buckets []) = true
is_empty (buckets (x ∷ b)) = false

unfoldable pub count : Dist → ℕ
unfolding sum64
count (raw v) = length v % 2 ^ 64
count (buckets b) = sum64 (map (λ p. p.1) b)

-- The sort's result is the input in the order of the indices; equal indices are merged afterwards.
unfoldable pub place : ℕ × ℕ → Buckets → Buckets
place p [] = p ∷ []
place p (q ∷ b) = if ltb q.0 p.0 then q ∷ place p b else p ∷ q ∷ b

unfoldable pub sort_by_index : Buckets → Buckets
unfolding place
sort_by_index [] = []
sort_by_index (p ∷ b) = place p (sort_by_index b)

-- The loop of `to_buckets`: `last` is the entry that `folded.last_mut()` holds.
unfoldable pub fold_from : ℕ × ℕ → Buckets → Buckets
fold_from last [] = last ∷ []
fold_from (i, running) ((index, n) ∷ rest) =
    let merged = fold_from (i, add32 running n) rest in
    let pushed = (i, running) ∷ fold_from (index, n) rest in if i == index then merged else pushed

unfoldable pub fold_sorted : Buckets → Buckets
unfolding fold_from
fold_sorted [] = []
fold_sorted (p ∷ b) = fold_from p b

unfoldable pub to_buckets : Dist → Buckets
unfolding sort_by_index fold_sorted bucket_of
to_buckets (raw v) = fold_sorted (sort_by_index (map (λ value. (bucket_of value, 1)) v))
to_buckets (buckets b) = fold_sorted (sort_by_index b)
