-- ===== src/Probe/Registry/Tests.antt =====
-- crates/lightwatch-probe/src/registry.rs: the statements on a program with two functions and two
-- contexts.
use lightwatch.Base.{
  ℕ, zero, suc, ◌≡◌, ◌≤◌, refl, inl, inr, List, [], ◌∷◌, none, some, length, arith, Text,
}
use lightwatch.Proto.Wire.{new_hello}
use lightwatch.Daemon.Store.State.{ProcessState, new_state}
use lightwatch.Daemon.Store.Register.{register_all}
use lightwatch.Probe.Registry.{Functions, no_marks, new_site, site_id, registers_since}
use lightwatch.Probe.Registry.Interned.{IsInterned, Named, site_id-Named}
use lightwatch.Probe.Registry.Example.{two_tables, two-IsSendable}
use lightwatch.Probe.Registry.Accepted.{Knows, registers_since-accepted}

abbrev fresh_functions : Functions
fresh_functions = record { sites = λ a. new_site (b'f' ∷ []) [] [] a; functions = [] }

fresh-IsInterned : IsInterned fresh_functions
unfolding new_site
fresh-IsInterned = record { placed = λ i site e. absurd (cc); named = λ site. inl refl }

site_id-Named_example : Named (site_id 4 fresh_functions) (fresh_functions.sites 4).name
site_id-Named_example = site_id-Named fresh_functions 4 (omega arith) fresh-IsInterned

abbrev example_state : ProcessState
example_state = new_state [] (new_hello [] [] 7 1000)

new-Knows : Knows two_tables no_marks example_state
unfolding new_state lightwatch.Base.get
new-Knows = record {
  functions = λ i site below e. absurd (omega arith);
  types = λ i slot below e. absurd (omega arith);
  paths = record {
    sent = λ i pair below at. absurd (omega arith);
    only = λ i node at. absurd (cc);
  };
  functions_in_range = omega arith;
  types_in_range = omega arith;
}

registers_since-accepted_example :
    ((register_all example_state (registers_since two_tables no_marks).0).counts.unknown_id
      ≡ example_state.counts.unknown_id)
    × Knows two_tables
        (registers_since two_tables no_marks).1
        (register_all example_state (registers_since two_tables no_marks).0)
registers_since-accepted_example =
    registers_since-accepted two_tables no_marks example_state two-IsSendable new-Knows
