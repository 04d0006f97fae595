-- ===== src/Probe/Census.antt =====
-- crates/lightwatch-probe/src/census.rs, with `intern_type` of registry.rs: the counters of the
-- tracked types and the tokens that move them. A counter keeps the wrap-around of its atomic; `live` is
-- an AtomicI64, so that a value from 2 ^ 63 on stands for a negative one.
mod Counters
pub mod Tally
pub mod Refine
pub mod Counted
mod Weights
pub mod Reported
mod Tests
use lightwatch.Base.{
  ℕ, zero, suc, ◌+◌, ◌-◌, ◌*◌, ◌/◌, ◌%◌, ◌^◌, List, [], ◌∷◌, ◌++◌, Option, none, some, ltb, ◌==◌,
  if◌then◌else◌, length, Text, add64,
}
use lightwatch.Proto.Wire.{TypeId}
use lightwatch.Proto.Dist.{bucket_of, bucket_range, max_bucket}
use lightwatch.Probe.Statics.{Statics, write_static}

abbrev pub bucket_count : ℕ
bucket_count = max_bucket + 1

abbrev pub no_bucket : ℕ
no_bucket = 65_535

pub record TypeSlot : Type 0 where
  pub name : Text
  pub file : Text
  pub line : ℕ
  pub id : ℕ
  pub live : ℕ
  pub buckets : List ℕ

unfoldable pub zeros : ℕ → List ℕ
zeros zero = []
zeros (suc n) = 0 ∷ zeros n

unfoldable pub new_slot : Text → Text → ℕ → TypeSlot
unfolding zeros
new_slot name file line = record {
  name = name;
  file = file;
  line = line;
  id = 0;
  live = 0;
  buckets = zeros bucket_count;
}

abbrev pub type_interned_id : TypeSlot → Option TypeId
type_interned_id slot = if slot.id == 0 then none else some slot.id

-- `live`: the counter read as a signed number, and 0 in place of a negative one.
unfoldable pub live_count : TypeSlot → ℕ
live_count slot = if ltb slot.live (2 ^ 63) then slot.live else 0

-- The counters from index `i` on that are not 0, with their indices as u16.
unfoldable pub sparse_from : ℕ → List ℕ → List (ℕ × ℕ)
sparse_from i [] = []
sparse_from i (n ∷ counts) =
    let rest = sparse_from (suc i) counts in if n == 0 then rest else (i % 2 ^ 16, n) ∷ rest

unfoldable pub size_buckets : TypeSlot → List (ℕ × ℕ)
unfolding sparse_from
size_buckets slot = sparse_from 0 slot.buckets

unfoldable pub bytes_from_buckets : List (ℕ × ℕ) → ℕ
unfolding bucket_range
bytes_from_buckets [] = 0
bytes_from_buckets ((index, count) ∷ buckets) =
    let (lo, hi) = bucket_range index in
    add64 ((lo + (hi - lo) / 2) * count % 2 ^ 64) (bytes_from_buckets buckets)

-- `buckets[i].fetch_add(by)` on an AtomicU32; no counter is there behind the end, where the source
-- panics.
unfoldable pub add_at : ℕ → ℕ → List ℕ → List ℕ
add_at i by [] = []
add_at zero by (n ∷ counts) = (n + by) % 2 ^ 32 ∷ counts
add_at (suc i) by (n ∷ counts) = n ∷ add_at i by counts

unfoldable pub count_up : ℕ → TypeSlot → TypeSlot
unfolding add_at
count_up bucket slot = record slot {
  live = (slot.live + 1) % 2 ^ 64;
  buckets = add_at bucket 1 slot.buckets;
}

-- `fetch_sub(1)` adds the number that stands for -1.
unfoldable pub count_down : ℕ → TypeSlot → TypeSlot
unfolding add_at
count_down bucket slot = record slot {
  live = (slot.live + (2 ^ 64 - 1)) % 2 ^ 64;
  buckets = add_at bucket (2 ^ 32 - 1) slot.buckets;
}

-- The slots of the program's tracked types, and TYPES.
pub record Types : Type 0 where
  pub slots : Statics TypeSlot
  pub types : List ℕ

abbrev pub publish_type : ℕ → Types → Option TypeId → Types × TypeId
publish_type slot t (some existing) = (t, existing)
publish_type slot t none =
    let types = t.types ++ (slot ∷ []) in
    let id : ℕ = length types % 2 ^ 32 in
    (
      record {
        slots = write_static slot (record (t.slots slot) { id = id }) t.slots;
        types = types;
      },
      id,
    )

unfoldable pub intern_type : ℕ → Types → Types × TypeId
intern_type slot t = publish_type slot t (type_interned_id (t.slots slot))

abbrev pub slot_id_or : ℕ → Types → Option TypeId → Types × TypeId
slot_id_or slot t (some id) = (t, id)
slot_id_or slot t none = intern_type slot t

-- `TypeSlot::id`.
unfoldable pub slot_id : ℕ → Types → Types × TypeId
unfolding intern_type
slot_id slot t = slot_id_or slot t (type_interned_id (t.slots slot))

-- A token, with the slot of the type that it is a token of.
pub record Census : Type 0 where
  pub slot : ℕ
  pub bucket : ℕ

abbrev pub uncounted : ℕ → Census
uncounted slot = record { slot = slot; bucket = no_bucket }

unfoldable pub from_bytes : ℕ → ℕ → Types → Types × Census
unfolding bucket_of count_up slot_id
from_bytes slot bytes t =
    let bucket : ℕ = bucket_of (bytes % 2 ^ 64) in
    let counted = record t { slots = write_static slot (count_up bucket (t.slots slot)) t.slots } in
    ((slot_id slot counted).0, record { slot = slot; bucket = bucket })

unfoldable pub drop_census : Census → Types → Types
unfolding count_down
drop_census token t = if token.bucket == no_bucket then t else record t {
  slots = write_static token.slot (count_down token.bucket (t.slots token.slot)) t.slots;
}

unfoldable pub clone_census : Census → Types → Types × Census
unfolding count_up
clone_census token t = if token.bucket == no_bucket then (t, uncounted token.slot) else (
  record t { slots = write_static token.slot (count_up token.bucket (t.slots token.slot)) t.slots },
  token,
)
