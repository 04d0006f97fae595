-- ===== src/Probe/Hashing.antt =====
-- crates/lightwatch-probe/src/hashing.rs: the hasher of the probe's maps. Its state is a u64.
pub mod Injective
mod Tests
use lightwatch.Base.{ℕ, ◌*◌, ◌/◌, ◌%◌, ◌^◌, List, [], ◌∷◌}
use Prim.Native.Nat.{bit_xor}

abbrev pub scatter : ℕ
scatter = 0x9E37_79B9_7F4A_7C15

unfoldable pub mix : ℕ → ℕ → ℕ
mix state value = bit_xor state value * scatter % 2 ^ 64

unfoldable pub finish : ℕ → ℕ
finish state = bit_xor state (state / 2 ^ 32)

-- `write`, over the bytes.
unfoldable pub write_bytes : ℕ → List ℕ → ℕ
unfolding mix
write_bytes state [] = state
write_bytes state (byte ∷ bytes) = write_bytes (mix state byte) bytes

-- `write_u8` to `write_usize`: the value widened to a u64.
unfoldable pub write_value : ℕ → ℕ → ℕ
unfolding mix
write_value state value = mix state value

-- The hash of one id, from the default state.
unfoldable pub hash_id : ℕ → ℕ
unfolding write_value finish
hash_id id = finish (write_value 0 id)

-- The hash of a pair of ids.
unfoldable pub hash_pair : ℕ × ℕ → ℕ
unfolding write_value finish
hash_pair (a, b) = finish (write_value (write_value 0 a) b)
