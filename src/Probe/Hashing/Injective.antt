-- ===== src/Probe/Hashing/Injective.antt =====
-- crates/lightwatch-probe/src/hashing.rs: distinct ids have distinct hashes.
use lightwatch.Base.{
  ◌⊎◌, inl, inr, ℕ, ◌*◌, ◌/◌, ◌%◌, ◌^◌, ◌<◌, ◌≡◌, sym, ◌∙◌, ap, arith, bit_xor_right, bit_xor_left,
  bit_xor_bound, bit_xor_shift, bit_xor-zero,
}
use Prim.Native.Nat.{bit_xor}
use lightwatch.Probe.Hashing.{scatter, mix, finish, hash_id, hash_pair, write_value}

-- The inverse of the multiplier modulo 2 ^ 64.
abbrev gather : ℕ
gather = 17_428_512_612_931_826_493

gathered : (x : ℕ) → x < 2 ^ 64 → x * scatter % 2 ^ 64 * gather % 2 ^ 64 ≡ x
gathered x h = omega arith

pub mix_injective :
    (state v w : ℕ) → state < 2 ^ 64 → v < 2 ^ 64 → w < 2 ^ 64 → mix state v ≡ mix state w → v ≡ w
unfolding mix
mix_injective state v w p q r e =
    let back : bit_xor state v ≡ bit_xor state w =
      sym (gathered (bit_xor state v) (bit_xor_bound 64 state v p q))
      ∙ ap (λ (h : ℕ). h * gather % 2 ^ 64) e
      ∙ gathered (bit_xor state w) (bit_xor_bound 64 state w p r) in
    bit_xor_right state v w back

-- The state that a value was mixed into is determined too.
mix_state : (x y v : ℕ) → x < 2 ^ 64 → y < 2 ^ 64 → v < 2 ^ 64 → mix x v ≡ mix y v → x ≡ y
unfolding mix
mix_state x y v p q r e = bit_xor_left v x y (
    sym (gathered (bit_xor x v) (bit_xor_bound 64 x v p r))
    ∙ ap (λ (h : ℕ). h * gather % 2 ^ 64) e
    ∙ gathered (bit_xor y v) (bit_xor_bound 64 y v q r))

high_half : (x : ℕ) → x < 2 ^ 64 → finish x / 2 ^ 32 ≡ x / 2 ^ 32
unfolding finish
high_half x h =
    let none_left : x / 2 ^ 32 / 2 ^ 32 ≡ 0 = omega arith in
    bit_xor_shift 32 x (x / 2 ^ 32)
    ∙ ap (bit_xor (x / 2 ^ 32)) none_left
    ∙ bit_xor-zero (x / 2 ^ 32)

pub finish_injective : (x y : ℕ) → x < 2 ^ 64 → y < 2 ^ 64 → finish x ≡ finish y → x ≡ y
unfolding finish
finish_injective x y p q e =
    let high : x / 2 ^ 32 ≡ y / 2 ^ 32 =
      sym (high_half x p) ∙ ap (λ (h : ℕ). h / 2 ^ 32) e ∙ high_half y q in
    bit_xor_left (x / 2 ^ 32) x y (e ∙ ap (bit_xor y) (sym high))

-- No two distinct ids collapse onto each other: two 64-bit ids with the same hash are the same.
pub hash_id_injective : (a b : ℕ) → a < 2 ^ 64 → b < 2 ^ 64 → hash_id a ≡ hash_id b → a ≡ b
unfolding hash_id write_value mix
hash_id_injective a b p q e =
    mix_injective 0 a b (omega arith) p q
      (finish_injective (mix 0 a) (mix 0 b) (omega arith) (omega arith) e)

-- A pair of ids is told by its hash from every other pair that shares one of its two ids in the same
-- place.
pub hash_pair_injective :
    (a b c d : ℕ)
    → a < 2 ^ 64
    → b < 2 ^ 64
    → c < 2 ^ 64
    → d < 2 ^ 64
    → (a ≡ c) ⊎ (b ≡ d)
    → hash_pair (a, b) ≡ hash_pair (c, d)
    → (a ≡ c) × (b ≡ d)
unfolding hash_pair write_value mix
hash_pair_injective a b c d p q r s shared e =
    let same : mix (mix 0 a) b ≡ mix (mix 0 c) d =
      finish_injective (mix (mix 0 a) b) (mix (mix 0 c) d) (omega arith) (omega arith) e in
    elim shared [
      | inl first ↦
          let here : mix (mix 0 c) b ≡ mix (mix 0 c) d = rw first at same in
          (first, mix_injective (mix 0 c) b d (omega arith) q s here)
      | inr second ↦
          let here : mix (mix 0 a) d ≡ mix (mix 0 c) d = rw second at same in
          (
            mix_injective 0 a c (omega arith) p r
                (mix_state (mix 0 a) (mix 0 c) d (omega arith) (omega arith) s here),
            second,
          )
    ]
