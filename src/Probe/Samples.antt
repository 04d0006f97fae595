-- ===== src/Probe/Samples.antt =====
-- crates/lightwatch-probe/src/calls.rs: `Samples`, `Accum` and their operations. The iteration order
-- of a hash map is the order of its keys here; no result below depends on it.
use lightwatch.Base.{
  ℕ, ◌+◌, Bool, List, [], ◌∷◌, ◌++◌, ltb, leb, if◌then◌else◌, length, add32, add64, nat_key, get,
  insert, Map,
}
use lightwatch.Proto.Dist.{bucket_of, max_raw_samples}
use lightwatch.Proto.Dist
use lightwatch.Daemon.Window.{or_default}

pub data Samples : Type 0 where
  raw : List ℕ → Samples
  buckets : Map ℕ ℕ → Samples

pub record StackStat : Type 0 where
  pub count : ℕ
  pub self_ns : ℕ

abbrev pub default_stat : StackStat
default_stat = record { count = 0; self_ns = 0 }

pub record CallStat : Type 0 where
  pub count : ℕ
  pub ns : Samples

abbrev pub default_call : CallStat
default_call = record { count = 0; ns = raw [] }

pub record Accum : Type 0 where
  pub calls : Map ℕ CallStat
  pub stacks : Map ℕ StackStat

abbrev pub empty_accum : Accum
empty_accum = record { calls = []; stacks = [] }

-- `*buckets.entry(index).or_insert(0) += count`.
unfoldable pub bump : ℕ → ℕ → Map ℕ ℕ → Map ℕ ℕ
bump index count m = insert index (add32 (or_default 0 (get index m)) count) m

unfoldable pub bucket_all : List ℕ → Map ℕ ℕ → Map ℕ ℕ
unfolding bump bucket_of
bucket_all [] m = m
bucket_all (value ∷ values) m = bucket_all values (bump (bucket_of value) 1 m)

unfoldable pub add : ℕ → Samples → Samples
unfolding bucket_all bump
add value (raw values) =
    if ltb (length values) max_raw_samples
    then raw (values ++ (value ∷ []))
    else buckets (bump (bucket_of value) 1 (bucket_all values []))
add value (buckets m) = buckets (bump (bucket_of value) 1 m)

unfoldable pub into_buckets : Samples → Map ℕ ℕ
unfolding bucket_all
into_buckets (raw values) = bucket_all values []
into_buckets (buckets m) = m

unfoldable pub bump_all : Map ℕ ℕ → Map ℕ ℕ → Map ℕ ℕ
unfolding bump
bump_all [] m = m
bump_all ((index, count) ∷ more) m = bump_all more (bump index count m)

abbrev pub folded : Samples → Samples → Samples
folded mine theirs = buckets (bump_all (into_buckets theirs) (into_buckets mine))

unfoldable pub absorb : Samples → Samples → Samples
unfolding bump_all into_buckets
absorb (raw mine) (raw theirs) =
    if leb (length mine + length theirs) max_raw_samples
    then raw (mine ++ theirs)
    else folded (raw mine) (raw theirs)
absorb (raw mine) (buckets theirs) = folded (raw mine) (buckets theirs)
absorb (buckets mine) theirs = folded (buckets mine) theirs

-- The map is already in the order of its indices.
unfoldable pub into_dist : Samples → Dist.Dist
into_dist (raw values) = Dist.raw values
into_dist (buckets m) = Dist.buckets m

unfoldable pub absorb_calls : Map ℕ CallStat → Map ℕ CallStat → Map ℕ CallStat
unfolding absorb
absorb_calls [] m = m
absorb_calls ((func, stat) ∷ more) m =
    let mine = or_default default_call (get func m) in
    absorb_calls more
      (insert func (record { count = add64 mine.count stat.count; ns = absorb mine.ns stat.ns }) m)

unfoldable pub absorb_stacks : Map ℕ StackStat → Map ℕ StackStat → Map ℕ StackStat
absorb_stacks [] m = m
absorb_stacks ((path, stat) ∷ more) m =
    let mine = or_default default_stat (get path m) in
    absorb_stacks more (
      insert path
        (record { count = add64 mine.count stat.count; self_ns = add64 mine.self_ns stat.self_ns })
        m)

unfoldable pub absorb_accum : Accum → Accum → Accum
unfolding absorb_calls absorb_stacks
absorb_accum mine other = record {
  calls = absorb_calls other.calls mine.calls;
  stacks = absorb_stacks other.stacks mine.stacks;
}

-- One thread's slot: what it holds, and whether its thread still runs (a second reference to it).
pub record ThreadSlot : Type 0 where
  pub accum : Accum
  pub is_live : Bool

-- What `drain` has gathered, and the slots that stay, emptied.
unfoldable pub drain_from : Accum → List ThreadSlot → Accum × List ThreadSlot
unfolding absorb_accum
drain_from merged [] = (merged, [])
drain_from merged (slot ∷ slots) =
    let (all, rest) = drain_from (absorb_accum merged slot.accum) slots in
    (all, (if slot.is_live then record slot { accum = empty_accum } ∷ rest else rest))

unfoldable pub drain : List ThreadSlot → Accum × List ThreadSlot
unfolding drain_from
drain slots = drain_from empty_accum slots

unfoldable pub snapshot_from : Accum → List ThreadSlot → Accum
unfolding absorb_accum
snapshot_from merged [] = merged
snapshot_from merged (slot ∷ slots) = snapshot_from (absorb_accum merged slot.accum) slots

unfoldable pub snapshot : List ThreadSlot → Accum
unfolding snapshot_from
snapshot slots = snapshot_from empty_accum slots
