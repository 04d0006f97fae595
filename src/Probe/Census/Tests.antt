-- ===== src/Probe/Census/Tests.antt =====
-- crates/lightwatch-probe/src/census.rs: the statements on two types.
use lightwatch.Base.{ℕ, ◌*◌, ◌≤◌, ◌≡◌, List, [], ◌∷◌, Text, arith}
use lightwatch.Probe.Census.{live_count, size_buckets, bytes_from_buckets}
use lightwatch.Probe.Census.Tally.{Step, build, blank, copy, release, take_steps, spec_steps}
use lightwatch.Probe.Census.Refine.{Refines}
use lightwatch.Probe.Census.Counted.{fresh_world, take_steps-Refines}
use lightwatch.Probe.Census.Weights.{bucket_sum}
use lightwatch.Probe.Census.Reported.{slot_then, take_steps-reported, take_steps-bytes}

abbrev no_text : ℕ → Text
no_text a = []

abbrev line_of : ℕ → ℕ
line_of a = a

-- Three of 40 bytes and one that counts nothing are left of type 0, and none of type 1.
abbrev some_steps : List Step
some_steps = build 0 40 ∷ build 1 7 ∷ copy 1 ∷ release 1 ∷ blank 0 ∷ release 3 ∷ copy 1 ∷ []

take_steps-Refines_example :
    Refines (take_steps some_steps (fresh_world no_text no_text line_of)) (spec_steps some_steps [])
take_steps-Refines_example = take_steps-Refines no_text no_text line_of some_steps

take_steps-reported_example :
    (live_count (slot_then no_text no_text line_of some_steps 0) ≡ 3)
    × (bucket_sum (size_buckets (slot_then no_text no_text line_of some_steps 0)) ≡ 3)
take_steps-reported_example = take_steps-reported no_text no_text line_of some_steps 0 (omega arith)

take_steps-bytes_example :
    (32 * bytes_from_buckets (size_buckets (slot_then no_text no_text line_of some_steps 0))
      ≤ 33 * 120)
    × (31 * 120
        ≤ 32 * bytes_from_buckets (size_buckets (slot_then no_text no_text line_of some_steps 0)))
take_steps-bytes_example =
    take_steps-bytes no_text no_text line_of some_steps 0 (omega arith) (omega arith)
