-- ===== src/Proto/Dist/Precision.antt =====
-- How wide a bucket is: no gap between neighbours, and a width of at most a sixteenth of the value.
use native.Mathlib.Nat.{pow-suc}
use lightwatch.Base.{
  ℕ, suc, ◌+◌, ◌-◌, ◌*◌, ◌/◌, ◌^◌, ◌≤◌, ◌<◌, ◌≡◌, refl, sym, ap, subst, ltb, ltb→lt, ltb_false→le,
  inl, inr, Bool-cases, arith,
}
use lightwatch.Proto.Dist.{max_bucket, bucket_range}
use lightwatch.Proto.Dist.Log.{pow_bound}
use lightwatch.Proto.Dist.Range.{Within, bucket_range-small, bucket_range-split, index_split}

-- A range above the exact ones, in terms of its width `p` and its leading bits `q`.
record Octave (r : ℕ × ℕ) (p q : ℕ) : Type 0 where
  p_pos : 1 ≤ p
  q_ge : 16 ≤ q
  lo_eq : r.0 ≡ q * p
  hi_eq : r.1 + 1 ≡ q * p + p

octave : (s q : ℕ) → 1 ≤ s → s ≤ 59 → 16 ≤ q → q < 32 → Octave (bucket_range (16 * s + q)) (2 ^ s) q
octave s q h k m l =
    let b = pow_bound s k in
    rw (bucket_range-split s q h k m l)
      (record { p_pos = b.0; q_ge = m; lo_eq = refl; hi_eq = omega (arith, b.0) })

Octave-of : (i : ℕ) → 32 ≤ i → i ≤ 975 → (p : ℕ) × (q : ℕ) × Octave (bucket_range i) p q
Octave-of i h k =
    let (s, q, s_pos, s_le, q_ge, q_lt, e) = index_split i h k in
    (
      2 ^ s,
      q,
      subst (λ j. Octave (bucket_range j) (2 ^ s) q) (sym e) (octave s q s_pos s_le q_ge q_lt),
    )

next_octave : (i : ℕ) → 32 ≤ i → i < 975 → (bucket_range (suc i)).0 ≡ (bucket_range i).1 + 1
next_octave i h k =
    let (s, q, s_pos, s_le, q_ge, q_lt, e) = index_split i h (omega arith) in
    let o = octave s q s_pos s_le q_ge q_lt in
    rw e (elim (Bool-cases (ltb q 31)) [
      | inl inside ↦
          let lt = ltb→lt q 31 inside in
          let e' : suc (16 * s + q) ≡ 16 * s + suc q = omega arith in
          let o' = octave s (suc q) s_pos s_le (omega arith) (omega arith) in
          rw e' (omega (arith, o.hi_eq, o'.lo_eq))
      | inr last ↦
          let ge = ltb_false→le q 31 last in
          let e' : suc (16 * s + q) ≡ 16 * suc s + 16 = omega arith in
          let o' = octave (suc s) 16 (omega arith) (omega arith) (omega arith) (omega arith) in
          let e31 : q ≡ 31 = omega arith in
          let top : (bucket_range (16 * s + q)).1 + 1 ≡ 32 * 2 ^ s =
            omega (arith, o.hi_eq, ap (λ (t : ℕ). t * 2 ^ s) e31) in
          rw e' (omega (arith, top, o'.lo_eq, pow-suc 2 s))
    ])

next_exact : (i : ℕ) → i < 32 → (bucket_range (suc i)).0 ≡ (bucket_range i).1 + 1
unfolding bucket_range
next_exact i h = elim (Bool-cases (ltb i 31)) [
  | inl small ↦
      let lt = ltb→lt i 31 small in
      rw (bucket_range-small (suc i) (omega arith), bucket_range-small i h) (omega arith)
  | inr last ↦ let ge = ltb_false→le i 31 last in let e : i ≡ 31 = omega arith in rw e refl
]

-- The ranges of the indices up to `max_bucket` follow one another with no gap and no overlap: the
-- first starts at 0, each next one starts behind the end of the one before, the last ends at 2 ^ 64 - 1.
pub bucket_range_contiguous :
    (i : ℕ)
    → i < max_bucket
    → ((bucket_range 0).0 ≡ 0)
      × ((bucket_range (suc i)).0 ≡ (bucket_range i).1 + 1)
      × ((bucket_range max_bucket).1 ≡ 0xffff_ffff_ffff_ffff)
unfolding bucket_range
bucket_range_contiguous i h = (refl, step, refl)
  where
    step : (bucket_range (suc i)).0 ≡ (bucket_range i).1 + 1
    step = elim (Bool-cases (ltb i 32)) [
      | inl small ↦ next_exact i (ltb→lt i 32 small)
      | inr big ↦ next_octave i (ltb_false→le i 32 big) h
    ]

-- Above the exact values a bucket is at most a sixteenth (6.25%) of its least value wide.
pub bucket_range_width :
    (i : ℕ)
    → 32 ≤ i
    → i ≤ max_bucket
    → 16 * ((bucket_range i).1 - (bucket_range i).0 + 1) ≤ (bucket_range i).0
bucket_range_width i h k =
    let (p, q, o) = Octave-of i h k in
    width p q (bucket_range i).0 (bucket_range i).1 o.p_pos o.q_ge o.lo_eq o.hi_eq
  where
    width :
        (p q lo hi : ℕ) → 1 ≤ p → 16 ≤ q → lo ≡ q * p → hi + 1 ≡ q * p + p → 16 * (hi - lo + 1) ≤ lo
    width p q lo hi a b c d = grind arith

-- The middle of a range, where nothing wraps around.
abbrev pub midpoint : ℕ × ℕ → ℕ
midpoint r = r.0 + (r.1 - r.0) / 2

-- Up to `max_bucket` a midpoint is off by at most a thirty-second (3.125%) of any value of its bucket.
pub midpoint_error :
    (i v : ℕ)
    → i ≤ max_bucket
    → Within v (bucket_range i)
    → (32 * (midpoint (bucket_range i) - v) ≤ v) × (32 * (v - midpoint (bucket_range i)) ≤ v)
midpoint_error i v k w = elim (Bool-cases (ltb i 32)) [
  | inl small ↦
      let e = bucket_range-small i (ltb→lt i 32 small) in
      let w' : Within v (i, i) = rw e at w in rw e (omega arith, omega arith)
  | inr big ↦
      let (p, q, o) = Octave-of i (ltb_false→le i 32 big) k in
      off p q (bucket_range i).0 (bucket_range i).1 o.p_pos o.q_ge o.lo_eq o.hi_eq w.0 w.1
]
  where
    off :
        (p q lo hi : ℕ)
        → 1 ≤ p
        → 16 ≤ q
        → lo ≡ q * p
        → hi + 1 ≡ q * p + p
        → lo ≤ v
        → v ≤ hi
        → (32 * (lo + (hi - lo) / 2 - v) ≤ v) × (32 * (v - (lo + (hi - lo) / 2)) ≤ v)
    off p q lo hi a b c d e f = let m : 16 * p ≤ q * p = grind arith in (omega arith, omega arith)
