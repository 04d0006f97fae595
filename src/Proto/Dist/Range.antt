-- ===== src/Proto/Dist/Range.antt =====
-- Where a value lands: `bucket_of` against `bucket_range`.
use native.Mathlib.Nat.{pow-suc}
use lightwatch.Base.{
  ℕ, ◌+◌, ◌-◌, ◌*◌, ◌/◌, ◌%◌, ◌^◌, ◌≤◌, ◌<◌, ◌≡◌, ◌↔◌, refl, ltb, le→ltb_false, inl, inr,
  Bool-cases, ltb→lt, ltb_false→le, arith,
}
use lightwatch.Proto.Dist.{max_bucket, bucket_of, bucket_range, leading_zeros}
use lightwatch.Proto.Dist.Log.{
  IsTopBit, top_bit, top_bit_unique, top_bit_ge, pow_le, pow_shift, pow_bound,
}

-- Above the exact values, `q` is the leading five bits of `v`, and `s` counts the bits below them.
record IsSplit (v s q : ℕ) : Type 0 where
  s_pos : 1 ≤ s
  s_le : s ≤ 59
  q_ge : 16 ≤ q
  q_lt : q < 32
  above : q * 2 ^ s ≤ v
  below : v < q * 2 ^ s + 2 ^ s

div_bounds : (v p : ℕ) → 16 * p ≤ v → v < 32 * p → (16 ≤ v / p) × (v / p < 32)
div_bounds v p h k = grind arith

div_around : (v p : ℕ) → 0 < p → (v / p * p ≤ v) × (v < v / p * p + p)
div_around v p h = grind arith

top_of : (v : ℕ) → 32 ≤ v → v < 2 ^ 64 → IsTopBit (63 - leading_zeros 64 v) v
top_of v h k = (top_bit 64 v (omega arith) k).1

IsSplit-shift : (v s : ℕ) → 1 ≤ s → s ≤ 59 → IsTopBit (s + 4) v → IsSplit v s (v / 2 ^ s)
IsSplit-shift v s h k t =
    let p : ℕ = 2 ^ s in
    let positive : 0 < p = (pow_bound s k).0 in
    let big : 16 * p ≤ v = rw (pow_shift s) at t.0 in
    let small : v < 32 * p = omega (arith, t.1, pow-suc 2 (s + 4), pow_shift s) in
    let (q_ge, q_lt) = div_bounds v p big small in
    let (above, below) = div_around v p positive in
    record { s_pos = h; s_le = k; q_ge = q_ge; q_lt = q_lt; above = above; below = below }

-- The exponent that `bucket_of` shifts by.
abbrev shift_of : ℕ → ℕ
shift_of v = 63 - leading_zeros 64 v - 4

IsSplit-of : (v : ℕ) → 32 ≤ v → v < 2 ^ 64 → IsSplit v (shift_of v) (v / 2 ^ shift_of v)
IsSplit-of v h k =
    let t = top_of v h k in
    let ge = top_bit_ge (63 - leading_zeros 64 v) 5 v t h in
    let e : 63 - leading_zeros 64 v ≡ shift_of v + 4 = omega arith in
    IsSplit-shift v (shift_of v) (omega arith) (omega arith) (rw e at t)

bucket_of-split : (v : ℕ) → 32 ≤ v → v < 2 ^ 64 → bucket_of v ≡ 16 * shift_of v + v / 2 ^ shift_of v
unfolding bucket_of
bucket_of-split v h k =
    let d = IsSplit-of v h k in
    rw (le→ltb_false v 32 h) (omega (arith, d.s_pos, d.s_le, d.q_ge, d.q_lt))

bucket_of-small : (v : ℕ) → v < 32 → bucket_of v ≡ v
unfolding bucket_of
bucket_of-small v h = ground arith

pub bucket_range-small : (i : ℕ) → i < 32 → bucket_range i ≡ (i, i)
unfolding bucket_range
bucket_range-small i h = ground arith

room : (p q : ℕ) → p ≤ 2 ^ 59 → q < 32 → q * p + p ≤ 2 ^ 64
room p q h k = grind arith

no_wrap :
    (p a : ℕ)
    → 1 ≤ p
    → p ≤ 2 ^ 59
    → a + p ≤ 2 ^ 64
    → ◌≡◌ {A = ℕ × ℕ}
        (a % 2 ^ 64, (a % 2 ^ 64 + (1 * p % 2 ^ 64 + 2 ^ 64 - 1) % 2 ^ 64) % 2 ^ 64)
        (a, a + (p - 1))
no_wrap p a h k l = ground arith

-- No shift and no sum of `bucket_range` wraps.
pub bucket_range-split :
    (s q : ℕ)
    → 1 ≤ s
    → s ≤ 59
    → 16 ≤ q
    → q < 32
    → bucket_range (16 * s + q) ≡ (q * 2 ^ s, q * 2 ^ s + (2 ^ s - 1))
unfolding bucket_range
bucket_range-split s q h k m l =
    let b = pow_bound s k in
    let shift : 5 + (16 * s + q - 32) / 16 - 4 ≡ s = omega arith in
    let low : 16 + (16 * s + q - 32) % 16 ≡ q = omega arith in
    let word : s % 64 ≡ s = omega arith in
    rw (le→ltb_false (16 * s + q) 32 (omega arith), shift, low, word)
      (no_wrap (2 ^ s) (q * 2 ^ s) b.0 b.1 (room (2 ^ s) q b.1 l))

-- Every index of `bucket_of`'s range above the exact ones splits so.
pub index_split :
    (i : ℕ)
    → 32 ≤ i
    → i ≤ 975
    → (s : ℕ) × (q : ℕ) × (1 ≤ s) × (s ≤ 59) × (16 ≤ q) × (q < 32) × (i ≡ 16 * s + q)
index_split i h k =
    ((i - 16) / 16, 16 + i % 16, omega arith, omega arith, omega arith, omega arith, omega arith)

-- `v` lies in the closed range.
abbrev pub Within : ℕ → ℕ × ℕ → Type 0
Within v r = (r.0 ≤ v) × (v ≤ r.1)

-- Every 64-bit value lies in its own bucket, whose index is at most `max_bucket`.
pub bucket_of-Within :
    (v : ℕ) → v < 2 ^ 64 → Within v (bucket_range (bucket_of v)) × (bucket_of v ≤ max_bucket)
bucket_of-Within v k = elim (Bool-cases (ltb v 32)) [
  | inl small ↦
      let h = ltb→lt v 32 small in
      rw (bucket_of-small v h, bucket_range-small v h) (omega arith, omega arith)
  | inr big ↦
      let h = ltb_false→le v 32 big in
      let d = IsSplit-of v h k in
      rw
        (
          bucket_of-split v h k,
          bucket_range-split (shift_of v) (v / 2 ^ shift_of v) d.s_pos d.s_le d.q_ge d.q_lt,
        )
        (
          (d.above, omega (arith, d.below, (pow_bound (shift_of v) d.s_le).0)),
          omega (arith, d.s_le, d.q_lt),
        )
]

div_unique : (v p q : ℕ) → q * p ≤ v → v < q * p + p → v / p ≡ q
div_unique v p q h k = grind arith

at_least_16 : (p q v : ℕ) → 16 ≤ q → q * p ≤ v → 16 * p ≤ v
at_least_16 p q v h k = grind arith

below_32 : (p q v : ℕ) → q < 32 → v < q * p + p → v < 32 * p
below_32 p q v h k = grind arith

-- The leading bits and their position are determined by the value.
split_unique : (v s q : ℕ) → IsSplit v s q → (bucket_of v ≡ 16 * s + q) × (32 ≤ v) × (v < 2 ^ 64)
split_unique v s q d =
    let p : ℕ = 2 ^ s in
    let b = pow_bound s d.s_le in
    let big : 16 * p ≤ v = at_least_16 p q v d.q_ge d.above in
    let small : v < 32 * p = below_32 p q v d.q_lt d.below in
    let two : 2 ≤ p = pow_le {i = 1} {j = s} d.s_pos in
    let ge : 32 ≤ v = omega arith in
    let lt : v < 2 ^ 64 = omega (arith, b.1) in
    let top : IsTopBit (s + 4) v =
      (omega (arith, pow_shift s), omega (arith, pow-suc 2 (s + 4), pow_shift s)) in
    let same : 63 - leading_zeros 64 v ≡ s + 4 = top_bit_unique _ _ v (top_of v ge lt) top in
    let shift : shift_of v ≡ s = omega arith in
    let quotient : v / 2 ^ s ≡ q = div_unique v p q d.above d.below in
    (rw (bucket_of-split v ge lt, shift, quotient) refl, ge, lt)

-- Conversely, a value within the range of an index that `bucket_of` can return has that index.
Within-bucket_of : (i v : ℕ) → i ≤ max_bucket → Within v (bucket_range i) → bucket_of v ≡ i
Within-bucket_of i v h w = elim (Bool-cases (ltb i 32)) [
  | inl small ↦
      let lt = ltb→lt i 32 small in
      let e : Within v (i, i) = rw (bucket_range-small i lt) at w in
      rw (bucket_of-small v (omega arith)) (omega arith)
  | inr big ↦
      let (s, q, s_pos, s_le, q_ge, q_lt, e) = index_split i (ltb_false→le i 32 big) h in
      let w' : Within v (bucket_range (16 * s + q)) = rw e at w in
      let w'' : Within v (q * 2 ^ s, q * 2 ^ s + (2 ^ s - 1)) =
        rw (bucket_range-split s q s_pos s_le q_ge q_lt) at w' in
      rw e
        (split_unique v s q (record {
          s_pos = s_pos;
          s_le = s_le;
          q_ge = q_ge;
          q_lt = q_lt;
          above = w''.0;
          below = omega (arith, w''.1, (pow_bound s s_le).0);
        })).0
]

-- The buckets partition the 64-bit values: a value lies in the range of an index exactly when
-- `bucket_of` returns that index.
pub bucket_of_iff :
    (i v : ℕ) → i ≤ max_bucket → v < 2 ^ 64 → (bucket_of v ≡ i) ↔ Within v (bucket_range i)
bucket_of_iff i v h k = (λ e. rw e at (bucket_of-Within v k).0, Within-bucket_of i v h)
