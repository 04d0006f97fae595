-- ===== src/Probe/Registry/Taken.antt =====
-- crates/lightwatch-probe/src/registry.rs against crates/lightwatch-daemon/src/store.rs: the
-- registration of functions and types.
use lightwatch.Base.{
  ℕ, suc, ◌+◌, ◌<◌, ◌%◌, ◌^◌, ◌≡◌, refl, sym, ◌∙◌, ap, inl, inr, List, [], ◌∷◌, some, arith,
  Bool-cases, length, drop, get_elem?, get_elem?-drop, get-insert, key_eq, nat_key,
}
use lightwatch.Proto.Wire
use lightwatch.Daemon.Store.State.{ProcessState}
use lightwatch.Daemon.Store.Register.{register, register_all, register_function, register_type}
use lightwatch.Probe.Census.{TypeSlot, Types}
use lightwatch.Probe.Registry.{
  Site, Functions, function_register, type_register, function_registers, type_registers,
}
use lightwatch.Probe.Registry.Knows.{KnowsFunctions, KnowsTypes}

-- Registrations of functions: they count nothing and name neither a type nor a context.
pub record FunctionsTaken (f : Functions) (s s' : ProcessState) (n : ℕ) : Type 0 where
  pub uncounted : s'.counts.unknown_id ≡ s.counts.unknown_id
  pub same_paths : s'.paths ≡ s.paths
  pub same_types : s'.types ≡ s.types
  pub known : KnowsFunctions f s' n

pub record TypesTaken (types : Types) (s s' : ProcessState) (n : ℕ) : Type 0 where
  pub uncounted : s'.counts.unknown_id ≡ s.counts.unknown_id
  pub same_paths : s'.paths ≡ s.paths
  pub same_functions : s'.functions ≡ s.functions
  pub known : KnowsTypes types s' n

-- The list is what is left of a table behind `index`.
abbrev pub Rest {ℓ} : {A : Type ℓ} → List A → ℕ → List A → Type ℓ
Rest {A = A} all index l =
    (j : ℕ) (x : A) → get_elem? l j ≡ some x → get_elem? all (index + j) ≡ some x

pub Rest-tail {ℓ} :
    {A : Type ℓ} (all : List A) (index : ℕ) (x : A) (l : List A)
    → Rest all index (x ∷ l)
    → Rest all (suc index) l
Rest-tail all index x l at j y e =
    let step : suc index + j ≡ index + suc j = omega arith in rw step (at (suc j) y e)

pub Rest-head {ℓ} :
    {A : Type ℓ} (all : List A) (index : ℕ) (x : A) (l : List A)
    → Rest all index (x ∷ l)
    → get_elem? all index ≡ some x
Rest-head all index x l at = let here : index + 0 ≡ index = omega arith in rw here at (at 0 x refl)

pub drop-Rest {ℓ} : {A : Type ℓ} (all : List A) (n : ℕ) → Rest all n (drop n all)
drop-Rest all n j x e = sym (get_elem?-drop n all j) ∙ e

function-known :
    (f : Functions) (index site : ℕ) (s : ProcessState)
    → index + 1 < 2 ^ 32
    → get_elem? f.functions index ≡ some site
    → KnowsFunctions f s index
    → KnowsFunctions f (register s (function_register index (f.sites site))) (suc index)
unfolding register register_function
function-known f index site s few e k i other below at =
    let id : (index + 1) % 2 ^ 32 ≡ index + 1 = omega arith in
    elim (Bool-cases (key_eq (i + 1) (index + 1))) [
      | inl same ↦
          let key : i ≡ index = ground arith in
          let is : site ≡ other = ground (arith, ap (get_elem? f.functions) key, e, at) in
          rw (id, get-insert (index + 1) _ (i + 1) s.functions, same)
            (ap (λ a. some (Site.name (f.sites a))) is)
      | inr miss ↦
          rw (id, get-insert (index + 1) _ (i + 1) s.functions, miss) (k i other (ground arith) at)
    ]

pub functions-taken :
    (f : Functions) (index : ℕ) (l : List ℕ) (s : ProcessState)
    → index + length l < 2 ^ 32
    → Rest f.functions index l
    → KnowsFunctions f s index
    → FunctionsTaken f s (register_all s (function_registers f.sites index l)) (index + length l)
unfolding register_all function_registers register register_function
functions-taken f index [] s few at k = record {
  uncounted = refl;
  same_paths = refl;
  same_types = refl;
  known = λ i site below e. k i site (omega (arith, below)) e;
}
functions-taken f index (site ∷ l) s few at k =
    let name : Wire.Register = function_register index (f.sites site) in
    let one =
      function-known f index site s (omega arith) (Rest-head f.functions index site l at) k in
    let rest =
      functions-taken f (suc index) l (register s name) (omega arith)
        (Rest-tail f.functions index site l at) one in
    record {
      uncounted = rest.uncounted;
      same_paths = rest.same_paths;
      same_types = rest.same_types;
      known = λ i other below e. rest.known i other (omega (arith, below)) e;
    }

type-known :
    (types : Types) (index slot : ℕ) (s : ProcessState)
    → index + 1 < 2 ^ 32
    → get_elem? types.types index ≡ some slot
    → KnowsTypes types s index
    → KnowsTypes types (register s (type_register index (types.slots slot))) (suc index)
unfolding register register_type
type-known types index slot s few e k i other below at =
    let id : (index + 1) % 2 ^ 32 ≡ index + 1 = omega arith in
    elim (Bool-cases (key_eq (i + 1) (index + 1))) [
      | inl same ↦
          let key : i ≡ index = ground arith in
          let is : slot ≡ other = ground (arith, ap (get_elem? types.types) key, e, at) in
          rw (id, get-insert (index + 1) _ (i + 1) s.types, same)
            (ap (λ a. some (TypeSlot.name (types.slots a))) is)
      | inr miss ↦
          rw (id, get-insert (index + 1) _ (i + 1) s.types, miss) (k i other (ground arith) at)
    ]

pub types-taken :
    (types : Types) (index : ℕ) (l : List ℕ) (s : ProcessState)
    → index + length l < 2 ^ 32
    → Rest types.types index l
    → KnowsTypes types s index
    → TypesTaken types s (register_all s (type_registers types.slots index l)) (index + length l)
unfolding register_all type_registers register register_type
types-taken types index [] s few at k = record {
  uncounted = refl;
  same_paths = refl;
  same_functions = refl;
  known = λ i slot below e. k i slot (omega (arith, below)) e;
}
types-taken types index (slot ∷ l) s few at k =
    let name : Wire.Register = type_register index (types.slots slot) in
    let one =
      type-known types index slot s (omega arith) (Rest-head types.types index slot l at) k in
    let rest =
      types-taken types (suc index) l (register s name) (omega arith)
        (Rest-tail types.types index slot l at) one in
    record {
      uncounted = rest.uncounted;
      same_paths = rest.same_paths;
      same_functions = rest.same_functions;
      known = λ i other below e. rest.known i other (omega (arith, below)) e;
    }
