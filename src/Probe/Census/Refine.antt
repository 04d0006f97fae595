-- ===== src/Probe/Census/Refine.antt =====
-- crates/lightwatch-probe/src/census.rs: the counters are the counts of the living instances.
use lightwatch.Base.{
  ℕ, zero, suc, ◌+◌, ◌-◌, ◌<◌, ◌%◌, ◌^◌, ◌≡◌, refl, ◌∙◌, ap, subst, true, false, List, [], ◌∷◌, map,
  Option, none, some, ◌==◌, if◌then◌else◌, arith, inl, inr, Bool-cases, get_elem?, All,
}
use mathlib.Core.Option
use lightwatch.Proto.Dist.{bucket_of}
use lightwatch.Proto.Dist.Range.{bucket_of-Within}
use lightwatch.Probe.Statics.{Statics, write_static}
use lightwatch.Probe.Census.{
  TypeSlot, Types, add_at, bucket_count, no_bucket, count_up, count_down, slot_id, slot_id_or,
  intern_type, publish_type, type_interned_id,
}
use lightwatch.Probe.Census.Counters.{table, table_cong, added, add_at-table}
use lightwatch.Probe.Census.Tally.{World, without, Instance, total, token_of, alive, held}

-- The counters of a slot stand for a number of instances, and for one per bucket.
pub record Shows (slot : TypeSlot) (count : ℕ) (per : ℕ → ℕ) : Type 0 where
  pub live : slot.live ≡ count % 2 ^ 64
  pub buckets : slot.buckets ≡ table (λ b. per b % 2 ^ 32) 0 bucket_count

-- One more in a bucket.
abbrev more : ℕ → (ℕ → ℕ) → ℕ → ℕ
more bucket per b = (if b == bucket then 1 else 0) + per b

cell_up :
    (bucket : ℕ) (per : ℕ → ℕ) (i : ℕ)
    → added (0 + bucket) 1 (λ b. per b % 2 ^ 32) i ≡ more bucket per i % 2 ^ 32
cell_up bucket per i = ground arith

cell_down :
    (bucket : ℕ) (per : ℕ → ℕ) (i : ℕ)
    → added (0 + bucket) (2 ^ 32 - 1) (λ b. more bucket per b % 2 ^ 32) i ≡ per i % 2 ^ 32
cell_down bucket per i = ground arith

count_up-Shows :
    (slot : TypeSlot) (count bucket : ℕ) (per : ℕ → ℕ)
    → Shows slot count per
    → Shows (count_up bucket slot) (1 + count) (more bucket per)
unfolding count_up
count_up-Shows slot count bucket per h = record {
  live = rw h.live (omega arith);
  buckets =
      ap (add_at bucket 1) h.buckets
      ∙ add_at-table (λ b. per b % 2 ^ 32) 1 bucket 0 bucket_count
      ∙ table_cong _ (λ b. more bucket per b % 2 ^ 32) 0 bucket_count
          (λ i a b. cell_up bucket per i);
}

count_down-Shows :
    (slot : TypeSlot) (count bucket : ℕ) (per : ℕ → ℕ)
    → Shows slot (1 + count) (more bucket per)
    → Shows (count_down bucket slot) count per
unfolding count_down
count_down-Shows slot count bucket per h = record {
  live = rw h.live (omega arith);
  buckets =
      ap (add_at bucket (2 ^ 32 - 1)) h.buckets
      ∙ add_at-table (λ b. more bucket per b % 2 ^ 32) (2 ^ 32 - 1) bucket 0 bucket_count
      ∙ table_cong _ (λ b. per b % 2 ^ 32) 0 bucket_count (λ i a b. cell_down bucket per i);
}

-- The same numbers of instances, bucket by bucket.
pub Shows-cong :
    (slot : TypeSlot) (m n : ℕ) (f g : ℕ → ℕ)
    → m ≡ n
    → ((b : ℕ) → f b ≡ g b)
    → Shows slot m f
    → Shows slot n g
Shows-cong slot m n f g e same h = record {
  live = rw e at h.live;
  buckets =
      h.buckets ∙ table_cong _ _ 0 bucket_count (λ i a b. ap (λ (c : ℕ). c % 2 ^ 32) (same i));
}

abbrev pub Fits : Option ℕ → Type 0
Fits none = Unit {0}
Fits (some n) = n < 2 ^ 64

-- Every type's slot shows its instances, and the tokens are theirs.
pub record Refines (w : World) (items : List Instance) : Type 0 where
  pub fits : All (λ item. Fits item.size) items
  pub tokens : w.tokens ≡ map token_of items
  pub shows : (a : ℕ) → Shows (w.types.slots a) (alive a items) (λ b. held a b items)

-- Interning moves no counter.
publish-Shows :
    (slot a count : ℕ) (per : ℕ → ℕ) (t : Types) (o : Option ℕ)
    → Shows (t.slots a) count per
    → Shows ((publish_type slot t o).0.slots a) count per
publish-Shows slot a count per t (some id) h = h
publish-Shows slot a count per t none h = elim (Bool-cases (a == slot)) [
  | inl same ↦
      let key : a ≡ slot = ground arith in
      rw same (
        let h' : Shows (t.slots slot) count per = rw key at h in
        record { live = h'.live; buckets = h'.buckets })
  | inr other ↦ rw other h
]

pub slot_id-Shows :
    (slot a count : ℕ) (per : ℕ → ℕ) (t : Types)
    → Shows (t.slots a) count per
    → Shows ((slot_id slot t).0.slots a) count per
unfolding slot_id intern_type
slot_id-Shows slot a count per t h = at (type_interned_id (t.slots slot))
  where
    at : (o : Option ℕ) → Shows ((slot_id_or slot t o).0.slots a) count per
    at none = publish-Shows slot a count per t (type_interned_id (t.slots slot)) h
    at (some id) = h

pub total-without :
    {A : Type 0} (w : A → ℕ) (k : ℕ) (xs : List A) (x : A)
    → get_elem? xs k ≡ some x
    → total w xs ≡ w x + total w (without k xs)
total-without w k [] x e = cc
total-without w zero (y ∷ xs) x e = let is : y ≡ x = ground arith in rw is refl
total-without w (suc k) (y ∷ xs) x e = omega (arith, total-without w k xs x e)

pub map-without :
    {A B : Type 0} (f : A → B) (k : ℕ) (xs : List A) → without k (map f xs) ≡ map f (without k xs)
map-without f k [] = refl
map-without f zero (x ∷ xs) = refl
map-without f (suc k) (x ∷ xs) = ap (λ ys. f x ∷ ys) (map-without f k xs)

pub get-map :
    {A B : Type 0} (f : A → B) (k : ℕ) (xs : List A)
    → get_elem? (map f xs) k ≡ Option.map f (get_elem? xs k)
get-map f k [] = refl
get-map f zero (x ∷ xs) = refl
get-map f (suc k) (x ∷ xs) = get-map f k xs

pub All-without :
    {A : Type 0} (P : A → Type 0) (k : ℕ) (xs : List A) → All P xs → All P (without k xs)
All-without P k [] h = tt
All-without P zero (x ∷ xs) h = h.1
All-without P (suc k) (x ∷ xs) h = (h.0, All-without P k xs h.1)

pub All-at :
    {A : Type 0} (P : A → Type 0) (k : ℕ) (xs : List A) (x : A)
    → All P xs
    → get_elem? xs k ≡ some x
    → P x
All-at P k [] x h e = cc
All-at P zero (y ∷ xs) x h e = let is : y ≡ x = ground arith in subst P is h.0
All-at P (suc k) (y ∷ xs) x h e = All-at P k xs x h.1 e

pub real_bucket : (n : ℕ) → n < 2 ^ 64 → (bucket_of n == no_bucket) ≡ false
real_bucket n h = let w = bucket_of-Within n h in ground arith

-- Writing the slot of an instance that comes, and of one that goes.
pub up-Shows :
    (slots : Statics TypeSlot) (slot n a : ℕ) (items : List Instance)
    → ((c : ℕ) → Shows (slots c) (alive c items) (λ b. held c b items))
    → (let grown = record { slot = slot; size = some n } ∷ items in
        Shows
          (write_static slot (count_up (bucket_of n) (slots slot)) slots a)
          (alive a grown)
          (λ b. held a b grown))
up-Shows slots slot n a items h = elim (Bool-cases (a == slot)) [
  | inl same ↦
      let key : a ≡ slot = ground arith in
      let mine : (slot == a) ≡ true = ground arith in
      rw (same, mine)
        (Shows-cong _ _ _ _ _ (refl) (λ b. refl)
          (count_up-Shows (slots slot) (alive a items) (bucket_of n) (λ b. held a b items)
            (subst (λ c. Shows (slots c) (alive a items) (λ b. held a b items)) key (h a))))
  | inr other ↦
      let not_mine : (slot == a) ≡ false = ground arith in
      rw (other, not_mine) (Shows-cong _ _ _ _ _ (omega arith) (λ b. ground arith) (h a))
]

pub down-Shows :
    (slots : Statics TypeSlot) (slot n a : ℕ) (items : List Instance)
    → (let grown = record { slot = slot; size = some n } ∷ items in
        ((c : ℕ) → Shows (slots c) (alive c grown) (λ b. held c b grown))
        → Shows
            (write_static slot (count_down (bucket_of n) (slots slot)) slots a)
            (alive a items)
            (λ b. held a b items))
down-Shows slots slot n a items h = elim (Bool-cases (a == slot)) [
  | inl same ↦
      let key : a ≡ slot = ground arith in
      let mine : (slot == a) ≡ true = ground arith in
      rw same (
        (count_down-Shows (slots slot) (alive a items) (bucket_of n) (λ b. held a b items)
          (subst
            (λ c. Shows (slots c) (1 + alive a items) (more (bucket_of n) (λ b. held a b items)))
            key (rw mine at (h a)))))
  | inr other ↦
      let not_mine : (slot == a) ≡ false = ground arith in
      rw other (Shows-cong _ _ _ _ _ (omega arith) (λ b. ground arith) (rw not_mine at (h a)))
]
