-- ===== src/Base/Bits.antt =====
-- Exclusive or, by its lowest digit.
use Prim.Native.Nat.{
  ℕ, zero, suc, ◌+◌, ◌*◌, ◌/◌, ◌%◌, ◌^◌, ◌≤◌, ◌<◌, bit_xor, digits, bit_xor-bitwise, differ,
}
use mathlib.Core.Path.{◌≡◌, refl, sym, ap, ◌∙◌}
use native.Mathlib.Omega.{arith}
use native.Mathlib.Nat.{pow-suc, div-div-eq-div-mul}

abbrev xor_digits : ℕ → ℕ → ℕ → ℕ
xor_digits n a b = digits (λ b. b) differ n a b

xor_digits_fuel : (n m a b : ℕ) → a ≤ n → a ≤ m → xor_digits n a b ≡ xor_digits m a b
xor_digits_fuel zero zero a b p q = refl
xor_digits_fuel zero (suc m) zero b p q = refl
xor_digits_fuel zero (suc m) (suc a) b p q = absurd (omega arith)
xor_digits_fuel (suc n) zero zero b p q = refl
xor_digits_fuel (suc n) zero (suc a) b p q = absurd (omega arith)
xor_digits_fuel (suc n) (suc m) zero b p q = refl
xor_digits_fuel (suc n) (suc m) (suc a) b p q =
    omega (arith, xor_digits_fuel n m (suc a / 2) (b / 2) (omega arith) (omega arith))

pub zero-bit_xor : (b : ℕ) → bit_xor 0 b ≡ b
zero-bit_xor b = bit_xor-bitwise 0 b

differ_mod : (x y : ℕ) → x < 2 → y < 2 → differ x y ≡ (x + y) % 2
differ_mod zero y p q = omega arith
differ_mod (suc zero) zero p q = refl
differ_mod (suc zero) (suc zero) p q = refl
differ_mod (suc zero) (suc (suc y)) p q = absurd (omega arith)
differ_mod (suc (suc x)) y p q = absurd (omega arith)

pub bit_xor_step : (a b : ℕ) → bit_xor a b ≡ bit_xor (a / 2) (b / 2) * 2 + (a % 2 + b % 2) % 2
bit_xor_step zero b = omega (arith, zero-bit_xor b, zero-bit_xor (b / 2))
bit_xor_step (suc a) b = omega (
  arith,
  bit_xor-bitwise (suc a) b,
  bit_xor-bitwise (suc a / 2) (b / 2),
  xor_digits_fuel a (suc a / 2) (suc a / 2) (b / 2) (omega arith) (omega arith),
  differ_mod (suc a % 2) (b % 2) (omega arith) (omega arith),
)

-- Either argument is determined by the other one and the result.
right_fuel : (n a v w : ℕ) → v ≤ n → w ≤ n → bit_xor a v ≡ bit_xor a w → v ≡ w
right_fuel zero a v w p q e = omega arith
right_fuel (suc n) a v w p q e =
    let s = bit_xor_step a v in
    let t = bit_xor_step a w in
    let high : bit_xor (a / 2) (v / 2) ≡ bit_xor (a / 2) (w / 2) = omega (arith, s, t, e) in
    let low : (a % 2 + v % 2) % 2 ≡ (a % 2 + w % 2) % 2 = omega (arith, s, t, e) in
    let rest = right_fuel n (a / 2) (v / 2) (w / 2) (omega arith) (omega arith) high in
    omega (arith, rest, low)

pub bit_xor_right : (a v w : ℕ) → bit_xor a v ≡ bit_xor a w → v ≡ w
bit_xor_right a v w e = right_fuel (v + w) a v w (omega arith) (omega arith) e

left_fuel : (n a v w : ℕ) → v ≤ n → w ≤ n → bit_xor v a ≡ bit_xor w a → v ≡ w
left_fuel zero a v w p q e = omega arith
left_fuel (suc n) a v w p q e =
    let s = bit_xor_step v a in
    let t = bit_xor_step w a in
    let high : bit_xor (v / 2) (a / 2) ≡ bit_xor (w / 2) (a / 2) = omega (arith, s, t, e) in
    let low : (v % 2 + a % 2) % 2 ≡ (w % 2 + a % 2) % 2 = omega (arith, s, t, e) in
    let rest = left_fuel n (a / 2) (v / 2) (w / 2) (omega arith) (omega arith) high in
    omega (arith, rest, low)

pub bit_xor_left : (a v w : ℕ) → bit_xor v a ≡ bit_xor w a → v ≡ w
bit_xor_left a v w e = left_fuel (v + w) a v w (omega arith) (omega arith) e

-- No digit beyond those of the arguments.
pub bit_xor_bound : (k a b : ℕ) → a < 2 ^ k → b < 2 ^ k → bit_xor a b < 2 ^ k
bit_xor_bound zero a b p q = let z : a ≡ 0 = omega arith in rw z (omega (arith, zero-bit_xor b))
bit_xor_bound (suc k) a b p q =
    let two = pow-suc 2 k in
    let rest = bit_xor_bound k (a / 2) (b / 2) (omega (arith, p, two)) (omega (arith, q, two)) in
    omega (arith, bit_xor_step a b, rest, two)

-- Shifting the result is shifting both.
pub bit_xor_shift : (k a b : ℕ) → bit_xor a b / 2 ^ k ≡ bit_xor (a / 2 ^ k) (b / 2 ^ k)
bit_xor_shift zero a b =
    let one : 2 ^ 0 ≡ 1 = refl in
    let same : (c : ℕ) → c / 1 ≡ c = (λ c. omega arith) in
    rw (one, same (bit_xor a b), same a, same b) refl
bit_xor_shift (suc k) a b =
    let halves : (c : ℕ) → c / 2 ^ suc k ≡ c / 2 ^ k / 2 =
      (λ c. ap (λ (d : ℕ). c / d) (pow-suc 2 k) ∙ sym (div-div-eq-div-mul c (2 ^ k) 2)) in
    let half : (c d : ℕ) → bit_xor c d / 2 ≡ bit_xor (c / 2) (d / 2) =
      (λ c d. omega (arith, bit_xor_step c d)) in
    halves (bit_xor a b)
    ∙ ap (λ (c : ℕ). c / 2) (bit_xor_shift k a b)
    ∙ half (a / 2 ^ k) (b / 2 ^ k)
    ∙ rw (halves a, halves b) refl

zero_fuel : (n a : ℕ) → a ≤ n → bit_xor a 0 ≡ a
zero_fuel zero a h = let z : a ≡ 0 = omega arith in rw z (zero-bit_xor 0)
zero_fuel (suc n) a h = omega (arith, bit_xor_step a 0, zero_fuel n (a / 2) (omega arith))

pub bit_xor-zero : (a : ℕ) → bit_xor a 0 ≡ a
bit_xor-zero a = zero_fuel a a (omega arith)
