-- ===== src/Proto/Dist/Log.antt =====
-- `63 - leading_zeros` is the position of the highest one bit.
use native.Mathlib.Nat.{pow-le-pow_right, pow-suc}
use native.Mathlib.Numerals.{towards_suc}
use lightwatch.Base.{
  ℕ, zero, suc, ◌+◌, ◌*◌, ◌-◌, ◌^◌, ◌≤◌, ◌<◌, ◌≡◌, ltb, ltb→lt, ltb_false→le, inl, inr, Bool-cases,
  arith,
}
use lightwatch.Proto.Dist.{leading_zeros}

abbrev pub IsTopBit : ℕ → ℕ → Type 0
IsTopBit o v = (2 ^ o ≤ v) × (v < 2 ^ suc o)

pub top_bit :
    (w v : ℕ) → 0 < v → v < 2 ^ w → (leading_zeros w v < w) × IsTopBit (w - 1 - leading_zeros w v) v
unfolding leading_zeros
top_bit zero v p h = absurd (omega arith)
top_bit (suc w) v p h = elim (Bool-cases (ltb v (2 ^ w))) [
  | inl small ↦
      let shift : suc w - 1 - suc (leading_zeros w v) ≡ w - 1 - leading_zeros w v = omega arith in
      let rest = top_bit w v p (ltb→lt v (2 ^ w) small) in rw (small, shift) (omega arith, rest.1)
  | inr big ↦
      let same : suc w - 1 - 0 ≡ w = omega arith in
      rw (big, same) (omega arith, (ltb_false→le v (2 ^ w) big, h))
]

pub pow_le : {i j : ℕ} → i ≤ j → 2 ^ i ≤ 2 ^ j
pow_le h = pow-le-pow_right (omega arith) h

not_above : (o p v : ℕ) → IsTopBit o v → IsTopBit p v → ¬ (o < p)
not_above o p v h k below = omega (arith, pow_le {i = suc o} {j = p} below)

-- A number has one highest one bit.
pub top_bit_unique : (o p v : ℕ) → IsTopBit o v → IsTopBit p v → o ≡ p
top_bit_unique o p v h k = omega (arith, not_above o p v h k, not_above p o v k h)

pub top_bit_ge : (o k v : ℕ) → IsTopBit o v → 2 ^ k ≤ v → k ≤ o
top_bit_ge o k v h b = omega (arith, below)
  where
    below : ¬ (o < k)
    below c = omega (arith, pow_le {i = suc o} {j = k} c)

pub pow_shift : (s : ℕ) → 2 ^ (s + 4) ≡ 16 * 2 ^ s
pow_shift s = simp towards_suc (simp pow-suc (omega arith))

pub pow_bound : (s : ℕ) → s ≤ 59 → (1 ≤ 2 ^ s) × (2 ^ s ≤ 2 ^ 59)
pow_bound s h = (pow_le {i = 0} {j = s} (omega arith), pow_le h)
