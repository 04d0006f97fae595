-- ===== src/Probe/Registry/Accepted.antt =====
-- crates/lightwatch-probe/src/registry.rs against crates/lightwatch-daemon/src/store.rs: what
-- `registers_since` sends is what `ProcessState::register` takes.
use lightwatch.Base.{
  ℕ, suc, ◌+◌, ◌-◌, ◌≤◌, ◌<◌, ◌%◌, ◌^◌, ◌≡◌, refl, sym, ◌∙◌, ap, inl, inr, List, [], ◌∷◌, ◌++◌,
  ◌==◌, arith, Bool-cases, length, drop, length-drop, nat_key,
}
use lightwatch.Proto.Wire
use lightwatch.Daemon.Store.State.{ProcessState}
use lightwatch.Daemon.Store.Register.{register, register_all, register_path}
use lightwatch.Probe.Registry.{
  Tables, Marks, function_registers, type_registers, path_registers, registers_since,
  max_registers_per_frame,
}
use lightwatch.Probe.Registry.Knows.{
  IsTree, KnowsFunctions, KnowsTypes, HasFunctions, KnowsFunctions-Has, KnowsPaths, Takes,
  path-Takes,
}
use lightwatch.Probe.Registry.Taken.{
  Rest, Rest-tail, Rest-head, drop-Rest, functions-taken, types-taken,
}

register_all-append :
    (s : ProcessState) (a b : List Wire.Register)
    → register_all s (a ++ b) ≡ register_all (register_all s a) b
unfolding register_all
register_all-append s [] b = refl
register_all-append s (r ∷ a) b = register_all-append (register s r) a b

pub KnowsPaths-cong :
    (nodes : List (ℕ × ℕ)) (s s' : ProcessState) (n : ℕ)
    → s'.paths ≡ s.paths
    → KnowsPaths nodes s n
    → KnowsPaths nodes s' n
KnowsPaths-cong nodes s s' n e k = record {
  sent = λ i pair below at. rw e (k.sent i pair below at);
  only = λ id node at. k.only id node (rw e at at);
}

-- The process has what the marks say was sent of the tables.
pub record Knows (t : Tables) (m : Marks) (s : ProcessState) : Type 0 where
  pub functions : KnowsFunctions t.functions s m.functions_sent
  pub types : KnowsTypes t.types s m.types_sent
  pub paths : KnowsPaths t.paths.nodes s m.paths_sent
  pub functions_in_range : m.functions_sent ≤ length t.functions.functions
  pub types_in_range : m.types_sent ≤ length t.types.types

module _ (nodes : List (ℕ × ℕ)) (functions : ℕ) (tree : IsTree nodes functions) where
  paths-Takes :
      (l : List (ℕ × ℕ)) (room now offset : ℕ) (s : ProcessState)
      → now ≡ offset
      → Rest nodes offset l
      → HasFunctions s functions
      → KnowsPaths nodes s offset
      → Takes nodes s
          (register_all s (path_registers room now offset l).0)
          (path_registers room now offset l).1
  unfolding register_all path_registers register
  paths-Takes [] room now offset s e at known k = record {
    uncounted = refl;
    same_functions = refl;
    same_types = refl;
    knows = rw e k;
  }
  paths-Takes ((parent, func) ∷ l) room now offset s e at known k = elim (Bool-cases (room == 0)) [
    | inl full ↦
        rw full
          (record { uncounted = refl; same_functions = refl; same_types = refl; knows = rw e k })
    | inr free ↦
        let mine = Rest-head nodes offset (parent, func) l at in
        let one = path-Takes nodes functions tree s offset parent func mine known k in
        let s1 = register_path s ((offset + 1) % 2 ^ 32) parent func in
        let next : suc offset ≡ offset + 1 = omega arith in
        let rest =
          paths-Takes l (room - 1) (offset + 1) (suc offset) s1 (sym next)
            (Rest-tail nodes offset (parent, func) l at)
            (λ i pos below. rw one.same_functions (known i pos below)) (rw next one.knows) in
        rw free (record {
          uncounted = rest.uncounted ∙ one.uncounted;
          same_functions = rest.same_functions ∙ one.same_functions;
          same_types = rest.same_types ∙ one.same_types;
          knows = rest.knows;
        })
  ]

-- The contexts form a tree, and all ids fit into 32 bits.
pub record IsSendable (t : Tables) : Type 0 where
  pub tree : IsTree t.paths.nodes (length t.functions.functions)
  pub few_types : length t.types.types < 2 ^ 32

-- From marks up to which a process knows the probe's tables, whose contexts form a tree and whose ids
-- fit into 32 bits: the process takes every register of `registers_since`, as none of them counts as an
-- unknown id, and afterwards it knows the tables up to the new marks, that is, every function and type
-- by its name and every context as it is.
pub registers_since-accepted :
    (t : Tables) (m : Marks) (s : ProcessState)
    → IsSendable t
    → Knows t m s
    → (let sent = registers_since t m in
        let s' = register_all s sent.0 in
        (s'.counts.unknown_id ≡ s.counts.unknown_id) × Knows t sent.1 s')
unfolding registers_since
registers_since-accepted t m s ok k =
    let functions = t.functions.functions in
    let types = t.types.types in
    let named =
      function_registers t.functions.sites m.functions_sent (drop m.functions_sent functions) in
    let typed = type_registers t.types.slots m.types_sent (drop m.types_sent types) in
    let room : ℕ = max_registers_per_frame - length (named ++ typed) in
    let left = drop m.paths_sent t.paths.nodes in
    let all : m.functions_sent + length (drop m.functions_sent functions) ≡ length functions =
      omega (arith, length-drop m.functions_sent functions, k.functions_in_range) in
    let all_types : m.types_sent + length (drop m.types_sent types) ≡ length types =
      omega (arith, length-drop m.types_sent types, k.types_in_range) in
    let s1 = register_all s named in
    let a =
      functions-taken t.functions m.functions_sent (drop m.functions_sent functions) s
        (omega (arith, all, ok.tree.few_functions)) (drop-Rest functions m.functions_sent)
        k.functions in
    let b =
      types-taken t.types m.types_sent (drop m.types_sent types) s1
        (omega (arith, all_types, ok.few_types)) (drop-Rest types m.types_sent)
        (λ i slot below e. rw a.same_types (k.types i slot below e)) in
    let s2 = register_all s1 typed in
    let known : KnowsFunctions t.functions s2 (length functions) =
      λ i site below e. rw b.same_functions (a.known i site (omega (arith, below, all)) e) in
    let c =
      paths-Takes t.paths.nodes (length functions) ok.tree left room m.paths_sent m.paths_sent s2
        refl (drop-Rest t.paths.nodes m.paths_sent) (KnowsFunctions-Has t.functions s2 known)
        (KnowsPaths-cong t.paths.nodes s s2 m.paths_sent (b.same_paths ∙ a.same_paths) k.paths) in
    let paths = path_registers room m.paths_sent m.paths_sent left in
    let split : register_all s ((named ++ typed) ++ paths.0) ≡ register_all s2 paths.0 =
      register_all-append s (named ++ typed) paths.0
      ∙ ap (λ q. register_all q paths.0) (register_all-append s named typed) in
    rw split (
      c.uncounted ∙ b.uncounted ∙ a.uncounted,
      record {
        functions = λ i site below e. rw c.same_functions (known i site below e);
        types =
            λ i slot below e. rw c.same_types (b.known i slot (omega (arith, below, all_types)) e);
        paths = c.knows;
        functions_in_range = omega arith;
        types_in_range = omega arith;
      },
    )
