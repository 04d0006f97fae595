-- ===== src/Probe/Paths/Tests.antt =====
-- crates/lightwatch-probe/src/registry.rs: a table with one context.
use lightwatch.Base.{arith, get}
use lightwatch.Probe.Paths.{new_table, intern_path}
use lightwatch.Probe.Paths.Intern.{IsTable, Interned, intern_path-Interned}

empty-IsTable : IsTable 8 new_table
unfolding new_table get
empty-IsTable = record { bounded = omega arith; names = λ pair id e. absurd (cc) }

intern_path-Interned_example : Interned 8 new_table (0, 3) (intern_path 8 0 3 new_table)
intern_path-Interned_example = intern_path-Interned 8 0 3 new_table (omega arith) empty-IsTable
