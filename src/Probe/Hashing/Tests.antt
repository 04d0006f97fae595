-- ===== src/Probe/Hashing/Tests.antt =====
-- crates/lightwatch-probe/src/hashing.rs: the hashes of one id and of one pair.
use lightwatch.Base.{ℕ, ◌≡◌, refl, inl, arith}
use lightwatch.Probe.Hashing.Injective.{hash_pair_injective}

hash_pair_injective_example : (◌≡◌ {A = ℕ} 3 3) × (◌≡◌ {A = ℕ} 4 4)
hash_pair_injective_example =
    hash_pair_injective 3 4 3 4 (omega arith) (omega arith) (omega arith) (omega arith) (inl refl)
      refl
