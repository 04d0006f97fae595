-- ===== src/Probe/Census/Reported.antt =====
-- crates/lightwatch-probe/src/census.rs: what the emitter reads from a slot.
use lightwatch.Base.{
  ℕ, zero, suc, ◌*◌, ◌≤◌, ◌<◌, ◌%◌, ◌^◌, ◌≡◌, refl, ◌∙◌, ap, true, List, [], ◌∷◌, Option, none,
  some, ◌==◌, if◌then◌else◌, length, ltb, arith, inl, inr, Bool-cases, All, Text,
}
use lightwatch.Proto.Dist.{bucket_of}
use lightwatch.Proto.Dist.Range.{bucket_of-Within}
use lightwatch.Proto.Dist.Precision.{midpoint_error}
use lightwatch.Probe.Census.{
  TypeSlot, bucket_count, live_count, sparse_from, size_buckets, bytes_from_buckets,
}
use lightwatch.Probe.Census.Counters.{table, table_cong}
use lightwatch.Probe.Census.Tally.{
  Step, take_steps, Instance, spec_steps, total, bucket_of_size, sized, alive, held,
}
use lightwatch.Probe.Census.Refine.{Shows, Fits}
use lightwatch.Probe.Census.Weights.{
  dot, weighed, dot-held, bucket_sum, sparse-sum, mid_of, bytes-sparse,
}
use lightwatch.Probe.Census.Counted.{fresh_world, take_steps-Refines}

length-table : (f : ℕ → ℕ) (from n : ℕ) → length (table f from n) ≡ n
length-table f from zero = refl
length-table f from (suc n) = ap suc (length-table f (suc from) n)

held_le : (a b : ℕ) (items : List Instance) → held a b items ≤ alive a items
held_le a b [] = omega arith
held_le a b (item ∷ items) = ground (arith, held_le a b items)

plain_table :
    (a : ℕ) (items : List Instance)
    → alive a items < 2 ^ 32
    → table (λ b. held a b items % 2 ^ 32) 0 bucket_count
      ≡ table (λ b. held a b items) 0 bucket_count
plain_table a items h =
    table_cong (λ b. held a b items % 2 ^ 32) (λ b. held a b items) 0 bucket_count
      (λ b i j. omega (arith, held_le a b items))

abbrev pub sized_bytes : Option ℕ → ℕ
sized_bytes none = 0
sized_bytes (some n) = n

-- The bytes that the living counted instances of a type were built with.
abbrev pub own_size : ℕ → Instance → ℕ
own_size a item = if item.slot == a then sized_bytes item.size else 0

abbrev pub footprint : ℕ → List Instance → ℕ
footprint a items = total (own_size a) items

total_cong :
    (f g : Instance → ℕ) (items : List Instance)
    → ((i : Instance) → f i ≡ g i)
    → total f items ≡ total g items
total_cong f g [] h = refl
total_cong f g (i ∷ items) h = omega (arith, h i, total_cong f g items h)

near_one :
    (a slot : ℕ) (size : Option ℕ)
    → Fits size
    → (let est = mid_of (bucket_of_size size) * sized a slot size in
        let own : ℕ = (if slot == a then sized_bytes size else 0) in
        (32 * est ≤ 33 * own) × (31 * own ≤ 32 * est))
near_one a slot none fit = ground arith
near_one a slot (some n) fit =
    let w = bucket_of-Within n fit in
    let e = midpoint_error (bucket_of n) n w.1 w.0 in
    elim (Bool-cases (slot == a)) [
      | inl mine ↦ rw mine (omega (arith, e), omega (arith, e))
      | inr other ↦ rw other (omega arith, omega arith)
    ]

near :
    (a : ℕ) (items : List Instance)
    → All (λ item. Fits item.size) items
    → (32 * total (weighed mid_of a) items ≤ 33 * footprint a items)
      × (31 * footprint a items ≤ 32 * total (weighed mid_of a) items)
near a [] h = (omega arith, omega arith)
near a (item ∷ items) h =
    let one = near_one a item.slot item.size h.0 in
    let rest = near a items h.1 in (omega (arith, one, rest), omega (arith, one, rest))

signed_small :
    (counter n : ℕ)
    → counter ≡ n % 2 ^ 64
    → n < 2 ^ 32
    → (if ltb counter (2 ^ 63) then counter else 0) ≡ n
signed_small counter n e few =
    let is : counter ≡ n = omega arith in
    let low : ltb counter (2 ^ 63) ≡ true = ground arith in rw low is

Shows-reported :
    (slot : TypeSlot) (a : ℕ) (items : List Instance)
    → All (λ item. Fits item.size) items
    → alive a items < 2 ^ 32
    → Shows slot (alive a items) (λ b. held a b items)
    → (live_count slot ≡ alive a items) × (bucket_sum (size_buckets slot) ≡ alive a items)
unfolding live_count size_buckets
Shows-reported slot a items fits few h =
    let counts : slot.buckets ≡ table (λ b. held a b items) 0 bucket_count =
      h.buckets ∙ plain_table a items few in
    let ones : total (weighed (λ b. 1) a) items ≡ alive a items =
      total_cong _ _ items (λ i. omega arith) in
    (
      signed_small slot.live (alive a items) h.live few,
      sparse-sum 0 slot.buckets
          ∙ ap (dot (λ b. 1) 0) counts
          ∙ dot-held (λ b. 1) a items fits
          ∙ ones,
    )

Shows-bytes :
    (slot : TypeSlot) (a : ℕ) (items : List Instance)
    → All (λ item. Fits item.size) items
    → alive a items < 2 ^ 32
    → footprint a items < 2 ^ 63
    → Shows slot (alive a items) (λ b. held a b items)
    → (32 * bytes_from_buckets (size_buckets slot) ≤ 33 * footprint a items)
      × (31 * footprint a items ≤ 32 * bytes_from_buckets (size_buckets slot))
unfolding size_buckets
Shows-bytes slot a items fits few small h =
    let counts : slot.buckets ≡ table (λ b. held a b items) 0 bucket_count =
      h.buckets ∙ plain_table a items few in
    let long : length slot.buckets ≡ bucket_count =
      ap length counts ∙ length-table (λ b. held a b items) 0 bucket_count in
    let sum : dot mid_of 0 slot.buckets ≡ total (weighed mid_of a) items =
      ap (dot mid_of 0) counts ∙ dot-held mid_of a items fits in
    let bounds = near a items fits in
    let is : bytes_from_buckets (sparse_from 0 slot.buckets) ≡ total (weighed mid_of a) items =
      bytes-sparse 0 slot.buckets (omega (arith, long)) ∙ omega (arith, sum, bounds) in
    rw is bounds

module _ (name file : ℕ → Text) (line : ℕ → ℕ) (steps : List Step) (a : ℕ) where
  -- The slot of a type, and what is alive, once the steps are taken.
  abbrev pub slot_then : TypeSlot
  slot_then = (take_steps steps (fresh_world name file line)).types.slots a

  abbrev pub items_then : List Instance
  items_then = spec_steps steps []

  -- Whatever tokens are built, cloned and dropped, in any order, from new slots on, while fewer than
  -- 2 ^ 32 counted instances of the type live: `live` is the number of the living counted instances of
  -- the type, and so is the sum of its size buckets.
  pub take_steps-reported :
      alive a items_then < 2 ^ 32
      → (live_count slot_then ≡ alive a items_then)
        × (bucket_sum (size_buckets slot_then) ≡ alive a items_then)
  take_steps-reported few =
      let r = take_steps-Refines name file line steps in
      Shows-reported slot_then a items_then r.fits few (r.shows a)

  -- Under the same steps, while fewer than 2 ^ 32 counted instances of the type live, built with
  -- fewer than 2 ^ 63 bytes in all: the bytes reported from the size buckets are within a thirty-second
  -- (3.125%) of those bytes, to both sides.
  pub take_steps-bytes :
      alive a items_then < 2 ^ 32
      → footprint a items_then < 2 ^ 63
      → (32 * bytes_from_buckets (size_buckets slot_then) ≤ 33 * footprint a items_then)
        × (31 * footprint a items_then ≤ 32 * bytes_from_buckets (size_buckets slot_then))
  take_steps-bytes few small =
      let r = take_steps-Refines name file line steps in
      Shows-bytes slot_then a items_then r.fits few small (r.shows a)
