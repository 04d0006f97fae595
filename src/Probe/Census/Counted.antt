-- ===== src/Probe/Census/Counted.antt =====
-- crates/lightwatch-probe/src/census.rs: constructions, clones and drops in any order.
use lightwatch.Base.{
  ℕ, zero, suc, ◌%◌, ◌^◌, ◌≡◌, refl, sym, ◌∙◌, ap, subst, List, [], ◌∷◌, Option, none, some, arith,
  get_elem?, Text,
}
use mathlib.Core.Option
use lightwatch.Proto.Dist.{bucket_of}
use lightwatch.Probe.Statics.{write_static}
use lightwatch.Probe.Census.{
  TypeSlot, Types, bucket_count, new_slot, uncounted, from_bytes, drop_census, clone_census,
  count_up,
}
use lightwatch.Probe.Census.Counters.{zeros-table}
use lightwatch.Probe.Census.Tally.{
  Step, build, blank, copy, release, World, take_token, copy_token, release_token, take_step,
  take_steps, without, Instance, copied, spec_step, spec_steps, token_of, is_alive, in_bucket,
  alive, held,
}
use lightwatch.Probe.Census.Refine.{
  Shows, Shows-cong, Refines, Fits, up-Shows, down-Shows, slot_id-Shows, total-without, map-without,
  get-map, All-without, All-at, real_bucket,
}

-- An uncounted instance is in no count.
blank-Shows :
    (slot : TypeSlot) (ty a : ℕ) (items : List Instance)
    → Shows slot (alive a items) (λ b. held a b items)
    → (let more = record { slot = ty; size = none } ∷ items in
        Shows slot (alive a more) (λ b. held a b more))
blank-Shows slot ty a items h = Shows-cong _ _ _ _ _ (omega arith) (λ b. ground arith) h

gone-Shows :
    (slot : TypeSlot) (k a : ℕ) (item : Instance) (items : List Instance)
    → get_elem? items k ≡ some item
    → Shows slot (alive a items) (λ b. held a b items)
    → Shows slot (alive a (item ∷ without k items)) (λ b. held a b (item ∷ without k items))
gone-Shows slot k a item items e h =
    Shows-cong _ _ _ _ _ (total-without (is_alive a) k items item e)
      (λ b. total-without (in_bucket a b) k items item e) h

build-Refines :
    (slot bytes : ℕ) (w : World) (items : List Instance)
    → Refines w items
    → Refines (take_step (build slot bytes) w) (spec_step (build slot bytes) items)
unfolding from_bytes
build-Refines slot bytes w items r = record {
  fits = (omega arith, r.fits);
  tokens = ap (λ ts. record { slot = slot; bucket = bucket_of (bytes % 2 ^ 64) } ∷ ts) r.tokens;
  shows = λ a.
      slot_id-Shows slot a _ _
        (record (w.types) {
          slots =
              write_static slot (count_up (bucket_of (bytes % 2 ^ 64)) (w.types.slots slot))
                w.types.slots;
        })
        (up-Shows w.types.slots slot (bytes % 2 ^ 64) a items r.shows);
}

blank-Refines :
    (slot : ℕ) (w : World) (items : List Instance)
    → Refines w items
    → Refines (take_step (blank slot) w) (spec_step (blank slot) items)
blank-Refines slot w items r = record {
  fits = (tt, r.fits);
  tokens = ap (λ ts. uncounted slot ∷ ts) r.tokens;
  shows = λ a. blank-Shows (w.types.slots a) slot a items (r.shows a);
}

clone-Refines :
    (slot : ℕ) (size : Option ℕ) (w : World) (items : List Instance)
    → Fits size
    → Refines w items
    → Refines
        (take_token w (clone_census (token_of (record { slot = slot; size = size })) w.types))
        (record { slot = slot; size = size } ∷ items)
unfolding clone_census
clone-Refines slot none w items fit r = record {
  fits = (tt, r.fits);
  tokens = ap (λ ts. uncounted slot ∷ ts) r.tokens;
  shows = λ a. blank-Shows (w.types.slots a) slot a items (r.shows a);
}
clone-Refines slot (some n) w items fit r = rw (real_bucket n fit) (record {
  fits = (fit, r.fits);
  tokens = ap (λ ts. record { slot = slot; bucket = bucket_of n } ∷ ts) r.tokens;
  shows = λ a. up-Shows w.types.slots slot n a items r.shows;
})

-- The token of an instance goes that is the first one, or any one once it is put first.
drop-Shows :
    (slot : ℕ) (size : Option ℕ) (t : Types) (a : ℕ) (items : List Instance)
    → Fits size
    → ((c : ℕ)
        → Shows
            (t.slots c)
            (alive c (record { slot = slot; size = size } ∷ items))
            (λ b. held c b (record { slot = slot; size = size } ∷ items)))
    → Shows
        ((drop_census (token_of (record { slot = slot; size = size })) t).slots a)
        (alive a items)
        (λ b. held a b items)
unfolding drop_census
drop-Shows slot none t a items fit h = Shows-cong _ _ _ _ _ (omega arith) (λ b. ground arith) (h a)
drop-Shows slot (some n) t a items fit h =
    rw (real_bucket n fit) (down-Shows t.slots slot n a items h)

copy-Refines :
    (w : World) (items : List Instance) (o : Option Instance)
    → ((item : Instance) → o ≡ some item → Fits item.size)
    → Refines w items
    → Refines (copy_token w (Option.map token_of o)) (copied items o)
copy-Refines w items none fit r = r
copy-Refines w items (some item) fit r = clone-Refines item.slot item.size w items (fit item refl) r

without_all : {A : Type 0} (k : ℕ) (xs : List A) → get_elem? xs k ≡ none → without k xs ≡ xs
without_all k [] e = refl
without_all zero (x ∷ xs) e = absurd (cc)
without_all (suc k) (x ∷ xs) e = ap (λ ys. x ∷ ys) (without_all k xs e)

release-Refines :
    (w : World) (k : ℕ) (items : List Instance) (o : Option Instance)
    → get_elem? items k ≡ o
    → Refines w items
    → Refines (release_token w k (Option.map token_of o)) (without k items)
release-Refines w k items none e r = subst (Refines w) (sym (without_all k items e)) r
release-Refines w k items (some item) e r = record {
  fits = All-without _ k items r.fits;
  tokens = ap (without k) r.tokens ∙ map-without token_of k items;
  shows = λ a.
      drop-Shows item.slot item.size w.types a (without k items) (All-at _ k items item r.fits e)
        (λ c. gone-Shows (w.types.slots c) k c item items e (r.shows c));
}

step-Refines :
    (s : Step) (w : World) (items : List Instance)
    → Refines w items
    → Refines (take_step s w) (spec_step s items)
step-Refines (build slot bytes) w items r = build-Refines slot bytes w items r
step-Refines (blank slot) w items r = blank-Refines slot w items r
step-Refines (copy k) w items r =
    let found : get_elem? w.tokens k ≡ Option.map token_of (get_elem? items k) =
      ap (λ ts. get_elem? ts k) r.tokens ∙ get-map token_of k items in
    subst (λ o. Refines (copy_token w o) (copied items (get_elem? items k))) (sym found)
      (copy-Refines w items (get_elem? items k) (λ item e. All-at _ k items item r.fits e) r)
step-Refines (release k) w items r =
    let found : get_elem? w.tokens k ≡ Option.map token_of (get_elem? items k) =
      ap (λ ts. get_elem? ts k) r.tokens ∙ get-map token_of k items in
    subst (λ o. Refines (release_token w k o) (without k items)) (sym found)
      (release-Refines w k items (get_elem? items k) refl r)

steps-Refines :
    (steps : List Step) (w : World) (items : List Instance)
    → Refines w items
    → Refines (take_steps steps w) (spec_steps steps items)
steps-Refines [] w items r = r
steps-Refines (s ∷ steps) w items r =
    steps-Refines steps (take_step s w) (spec_step s items) (step-Refines s w items r)

-- Types whose slots are new, and no token.
abbrev pub fresh_world : (ℕ → Text) → (ℕ → Text) → (ℕ → ℕ) → World
fresh_world name file line = record {
  types = record { slots = λ a. new_slot (name a) (file a) (line a); types = [] };
  tokens = [];
}

-- Whatever tokens are built, cloned and dropped, in any order, from new slots on: the slot of every
-- type shows exactly its living counted instances, its live counter their number modulo 2 ^ 64 and
-- each bucket's counter, modulo 2 ^ 32, the number of those that were built with a size in that bucket.
pub take_steps-Refines :
    (name file : ℕ → Text) (line : ℕ → ℕ) (steps : List Step)
    → Refines (take_steps steps (fresh_world name file line)) (spec_steps steps [])
unfolding new_slot
take_steps-Refines name file line steps =
    steps-Refines steps (fresh_world name file line) [] (record {
      fits = tt;
      tokens = refl;
      shows = λ a. record { live = refl; buckets = zeros-table 0 bucket_count };
    })
