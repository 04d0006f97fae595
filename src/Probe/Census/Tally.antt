-- ===== src/Probe/Census/Tally.antt =====
-- crates/lightwatch-probe/src/census.rs: instances that come and go, and the counters beside them.
use lightwatch.Base.{
  ℕ, zero, suc, ◌+◌, ◌%◌, ◌^◌, List, [], ◌∷◌, Option, none, some, ◌==◌, if◌then◌else◌, get_elem?,
}
use lightwatch.Proto.Dist.{bucket_of}
use lightwatch.Probe.Census.{
  Types, Census, no_bucket, uncounted, from_bytes, drop_census, clone_census,
}

pub data Step : Type 0 where
  build : ℕ → ℕ → Step
  blank : ℕ → Step
  copy : ℕ → Step
  release : ℕ → Step

abbrev pub without {ℓ} : {A : Type ℓ} → ℕ → List A → List A
without k [] = []
without zero (x ∷ xs) = xs
without (suc k) (x ∷ xs) = x ∷ without k xs

-- What the program holds: the counters, and its living tokens.
pub record World : Type 0 where
  pub types : Types
  pub tokens : List Census

abbrev pub take_token : World → Types × Census → World
take_token w (t, token) = record { types = t; tokens = token ∷ w.tokens }

abbrev pub copy_token : World → Option Census → World
copy_token w none = w
copy_token w (some token) = take_token w (clone_census token w.types)

abbrev pub release_token : World → ℕ → Option Census → World
release_token w k none = w
release_token w k (some token) = record {
  types = drop_census token w.types;
  tokens = without k w.tokens;
}

-- One construction, clone or drop. A step on a token that is not there does nothing.
abbrev pub take_step : Step → World → World
take_step (build slot bytes) w = take_token w (from_bytes slot bytes w.types)
take_step (blank slot) w = record w { tokens = uncounted slot ∷ w.tokens }
take_step (copy k) w = copy_token w (get_elem? w.tokens k)
take_step (release k) w = release_token w k (get_elem? w.tokens k)

abbrev pub take_steps : List Step → World → World
take_steps [] w = w
take_steps (s ∷ steps) w = take_steps steps (take_step s w)

-- What is to be counted: the living instances, each with its type and the size that it was built
-- with, which an uncounted one does not have.
pub record Instance : Type 0 where
  pub slot : ℕ
  pub size : Option ℕ

abbrev pub copied : List Instance → Option Instance → List Instance
copied items none = items
copied items (some item) = item ∷ items

abbrev pub spec_step : Step → List Instance → List Instance
spec_step (build slot bytes) items = record { slot = slot; size = some (bytes % 2 ^ 64) } ∷ items
spec_step (blank slot) items = record { slot = slot; size = none } ∷ items
spec_step (copy k) items = copied items (get_elem? items k)
spec_step (release k) items = without k items

abbrev pub spec_steps : List Step → List Instance → List Instance
spec_steps [] items = items
spec_steps (s ∷ steps) items = spec_steps steps (spec_step s items)

abbrev pub total {ℓ} : {A : Type ℓ} → (A → ℕ) → List A → ℕ
total w [] = 0
total w (x ∷ xs) = w x + total w xs

abbrev pub bucket_of_size : Option ℕ → ℕ
bucket_of_size none = no_bucket
bucket_of_size (some n) = bucket_of n

abbrev pub token_of : Instance → Census
token_of item = record { slot = item.slot; bucket = bucket_of_size item.size }

abbrev pub sized : ℕ → ℕ → Option ℕ → ℕ
sized a slot none = 0
sized a slot (some n) = if slot == a then 1 else 0

-- 1 for a counted instance of the type, and for one whose size is in the bucket too.
abbrev pub is_alive : ℕ → Instance → ℕ
is_alive a item = sized a item.slot item.size

abbrev pub in_bucket : ℕ → ℕ → Instance → ℕ
in_bucket a b item = if b == bucket_of_size item.size then is_alive a item else 0

abbrev pub alive : ℕ → List Instance → ℕ
alive a items = total (is_alive a) items

abbrev pub held : ℕ → ℕ → List Instance → ℕ
held a b items = total (in_bucket a b) items
