-- ===== src/Probe/Registry/Example.antt =====
-- crates/lightwatch-probe/src/registry.rs: the tables of a program with two functions and two contexts.
use lightwatch.Base.{ℕ, zero, suc, ◌≡◌, ◌≤◌, ◌<◌, [], ◌∷◌, none, some, length, get_elem?, arith}
use lightwatch.Probe.Census.{new_slot}
use lightwatch.Probe.Registry.{Tables, new_site}
use lightwatch.Probe.Registry.Knows.{IsTree}
use lightwatch.Probe.Registry.Accepted.{IsSendable}

-- Function 2 under function 1.
abbrev pub two_tables : Tables
two_tables = record {
  functions = record { sites = λ a. new_site (b'f' ∷ []) [] [] a; functions = 4 ∷ 7 ∷ [] };
  types = record { slots = λ a. new_slot (b't' ∷ []) [] a; types = 3 ∷ [] };
  paths = record { nodes = (0, 1) ∷ (1, 2) ∷ []; index = none; overflowed = 0 };
}

pub two-IsTree : IsTree two_tables.paths.nodes (length two_tables.functions.functions)
two-IsTree = record {
  nested = λ i parent func e. at i parent func e;
  few_nodes = omega arith;
  few_functions = omega arith;
}
  where
    at :
        (i parent func : ℕ)
        → get_elem? two_tables.paths.nodes i ≡ some (parent, func)
        → (parent ≤ i) × (0 < func) × (func ≤ 2)
    at zero parent func e =
        let p : 0 ≡ parent = ground arith in
        let f : 1 ≡ func = ground arith in (omega arith, omega arith, omega arith)
    at (suc zero) parent func e =
        let p : 1 ≡ parent = ground arith in
        let f : 2 ≡ func = ground arith in (omega arith, omega arith, omega arith)
    at (suc (suc i)) parent func e = absurd (cc)

pub two-IsSendable : IsSendable two_tables
two-IsSendable = record { tree = two-IsTree; few_types = omega arith }
