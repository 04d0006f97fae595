-- ===== src/Probe/Registry/Growth.antt =====
-- crates/lightwatch-probe/src/registry.rs and census.rs: what a running program does to the tables
-- between two frames, and what that keeps.
use lightwatch.Base.{
  ℕ, ◌+◌, ◌^◌, ◌≤◌, ◌<◌, ◌≡◌, refl, ◌∙◌, inl, inr, List, [], ◌∷◌, ◌++◌, Option, none, some, ◌==◌,
  arith, Bool-cases, length, length-append, leb, get, pair_key, nat_key, ◌%◌, get_elem?,
  get_elem?-append,
}
use lightwatch.Daemon.Window.{or_default}
use lightwatch.Proto.Dist.{bucket_of}
use lightwatch.Probe.Statics.{Statics, write_static}
use lightwatch.Probe.Paths.{PathTable, Index, look_up, intern_path}
use lightwatch.Probe.Census.{
  TypeSlot, Types, Census, type_interned_id, publish_type, intern_type, slot_id, slot_id_or,
  count_up, count_down, from_bytes, clone_census, drop_census, no_bucket,
}
use lightwatch.Probe.Registry.{
  Site, Functions, interned_id, publish_id, push_site, intern_function, site_id, site_id_or,
}

-- A table of statics that has only grown: what was interned keeps its position and its name.
pub record Grown {ℓ} {A : Type ℓ} (name : A → List ℕ) (old : Statics A) (l : List ℕ)
    (new : Statics A) (l' : List ℕ) : Type ℓ where
  pub kept :
      (i a : ℕ) → get_elem? l i ≡ some a → (get_elem? l' i ≡ some a) × (name (new a) ≡ name (old a))
  pub longer : length l ≤ length l'
  pub by_one : length l' ≤ length l + 1

abbrev pub GrownFunctions : Functions → Functions → Type 0
GrownFunctions f f' = Grown (λ s. Site.name s) f.sites f.functions f'.sites f'.functions

abbrev pub GrownTypes : Types → Types → Type 0
GrownTypes t t' = Grown (λ s. TypeSlot.name s) t.slots t.types t'.slots t'.types

write-name {ℓ} :
    {A : Type ℓ} (name : A → List ℕ) (at : ℕ) (value : A) (statics : Statics A) (a : ℕ)
    → name value ≡ name (statics at)
    → name (write_static at value statics a) ≡ name (statics a)
write-name name at value statics a e = elim (Bool-cases (a == at)) [
  | inl same ↦ let key : a ≡ at = ground arith in rw (same, key) e
  | inr other ↦ rw other refl
]

push-Grown {ℓ} :
    {A : Type ℓ} (name : A → List ℕ) (at : ℕ) (value : A) (statics : Statics A) (l : List ℕ)
    → name value ≡ name (statics at)
    → Grown name statics l (write_static at value statics) (l ++ (at ∷ []))
push-Grown name at value statics l e = record {
  kept =
      λ i a there. (get_elem?-append l (at ∷ []) i a there, write-name name at value statics a e);
  longer = omega (arith, length-append l (at ∷ []));
  by_one = omega (arith, length-append l (at ∷ []));
}

write-Grown {ℓ} :
    {A : Type ℓ} (name : A → List ℕ) (at : ℕ) (value : A) (statics : Statics A) (l : List ℕ)
    → name value ≡ name (statics at)
    → Grown name statics l (write_static at value statics) l
write-Grown name at value statics l e = record {
  kept = λ i a there. (there, write-name name at value statics a e);
  longer = omega arith;
  by_one = omega arith;
}

pub same-Grown {ℓ} :
    {A : Type ℓ} (name : A → List ℕ) (statics : Statics A) (l : List ℕ)
    → Grown name statics l statics l
same-Grown name statics l = record {
  kept = λ i a there. (there, refl);
  longer = omega arith;
  by_one = omega arith;
}

pub site_id-Grown : (site : ℕ) (f : Functions) → GrownFunctions f (site_id site f).0
unfolding site_id intern_function publish_id
site_id-Grown site f = outer (interned_id (f.sites site))
  where
    inner : (o : Option ℕ) → GrownFunctions f (push_site site f o).0
    inner none = push-Grown (λ s. Site.name s) site _ f.sites f.functions refl
    inner (some id) = same-Grown (λ s. Site.name s) f.sites f.functions

    outer : (o : Option ℕ) → GrownFunctions f (site_id_or site f o).0
    outer none = inner (interned_id (f.sites site))
    outer (some id) = same-Grown (λ s. Site.name s) f.sites f.functions

slot_id-Grown : (slot : ℕ) (t : Types) → GrownTypes t (slot_id slot t).0
unfolding slot_id intern_type
slot_id-Grown slot t = outer (type_interned_id (t.slots slot))
  where
    inner : (o : Option ℕ) → GrownTypes t (publish_type slot t o).0
    inner none = push-Grown (λ s. TypeSlot.name s) slot _ t.slots t.types refl
    inner (some id) = same-Grown (λ s. TypeSlot.name s) t.slots t.types

    outer : (o : Option ℕ) → GrownTypes t (slot_id_or slot t o).0
    outer none = inner (type_interned_id (t.slots slot))
    outer (some id) = same-Grown (λ s. TypeSlot.name s) t.slots t.types

pub from_bytes-Grown : (slot bytes : ℕ) (t : Types) → GrownTypes t (from_bytes slot bytes t).0
unfolding from_bytes count_up
from_bytes-Grown slot bytes t =
    let one : TypeSlot = count_up (bucket_of (bytes % 2 ^ 64)) (t.slots slot) in
    let counted = write-Grown (λ s. TypeSlot.name s) slot one t.slots t.types refl in
    let named = slot_id-Grown slot (record t { slots = write_static slot one t.slots }) in
    record {
      kept = λ i a there.
          let first = counted.kept i a there in
          let second = named.kept i a first.0 in (second.0, second.1 ∙ first.1);
      longer = named.longer;
      by_one = named.by_one;
    }

pub clone-Grown : (token : Census) (t : Types) → GrownTypes t (clone_census token t).0
unfolding clone_census count_up
clone-Grown token t = elim (Bool-cases (token.bucket == no_bucket)) [
  | inl off ↦ rw off (same-Grown (λ s. TypeSlot.name s) t.slots t.types)
  | inr on ↦ rw on (write-Grown (λ s. TypeSlot.name s) token.slot _ t.slots t.types refl)
]

pub drop-Grown : (token : Census) (t : Types) → GrownTypes t (drop_census token t)
unfolding drop_census count_down
drop-Grown token t = elim (Bool-cases (token.bucket == no_bucket)) [
  | inl off ↦ rw off (same-Grown (λ s. TypeSlot.name s) t.slots t.types)
  | inr on ↦ rw on (write-Grown (λ s. TypeSlot.name s) token.slot _ t.slots t.types refl)
]

pub clone-types : (token : Census) (t : Types) → (clone_census token t).0.types ≡ t.types
unfolding clone_census
clone-types token t = elim (Bool-cases (token.bucket == no_bucket)) [
  | inl off ↦ rw off refl
  | inr on ↦ rw on refl
]

pub drop-types : (token : Census) (t : Types) → (drop_census token t).types ≡ t.types
unfolding drop_census
drop-types token t = elim (Bool-cases (token.bucket == no_bucket)) [
  | inl off ↦ rw off refl
  | inr on ↦ rw on refl
]

-- What interning a context does to the contexts: nothing, or one more within the cap.
pub data Interning (limit : ℕ) (pair : ℕ × ℕ) (old : List (ℕ × ℕ)) (new : List (ℕ × ℕ))
    : Type 0 where
  same : new ≡ old → Interning limit pair old new
  one_more : length old < limit → new ≡ old ++ (pair ∷ []) → Interning limit pair old new

pub intern_path-Interning :
    (limit parent func : ℕ) (t : PathTable)
    → Interning limit (parent, func) t.nodes (intern_path limit parent func t).0.nodes
unfolding intern_path
intern_path-Interning limit parent func t =
    at (or_default [] t.index) (get (parent, func) (or_default [] t.index))
  where
    at :
        (index : Index) (o : Option ℕ)
        → Interning limit (parent, func) t.nodes (look_up limit t index (parent, func) o).0.nodes
    at index (some id) = same refl
    at index none = elim (Bool-cases (leb limit (length t.nodes))) [
      | inl full ↦ rw full (same refl)
      | inr free ↦ rw free (one_more (ground arith) refl)
    ]
