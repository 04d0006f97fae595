-- ===== src/Probe/Paths.antt =====
-- crates/lightwatch-probe/src/registry.rs: the table of calling contexts. A lock held is one step;
-- the cap that `max_paths` reads from the environment is an argument.
pub mod Intern
mod Tests
use lightwatch.Base.{
  ℕ, ◌+◌, ◌%◌, ◌^◌, List, [], ◌∷◌, ◌++◌, Option, none, some, leb, if◌then◌else◌, length, add64,
  nat_key, pair_key, get, insert, Map,
}
use lightwatch.Daemon.Window.{or_default}

abbrev pub default_max_paths : ℕ
default_max_paths = 65_536

abbrev pub Index : Type 0
Index = Map (ℕ × ℕ) ℕ

pub record PathTable : Type 0 where
  pub nodes : List (ℕ × ℕ)
  pub index : Option Index
  pub overflowed : ℕ

unfoldable pub new_table : PathTable
new_table = record { nodes = []; index = none; overflowed = 0 }

-- `max_paths`, over the value of the variable if it is there and parses.
unfoldable pub max_paths : Option ℕ → ℕ
max_paths none = default_max_paths
max_paths (some n) = if leb 1 n then n else default_max_paths

abbrev pub grow : PathTable → Index → ℕ × ℕ → PathTable × ℕ
grow table index pair =
    let nodes = table.nodes ++ (pair ∷ []) in
    let id : ℕ = length nodes % 2 ^ 32 in
    (record table { nodes = nodes; index = some (insert pair id index) }, id)

abbrev pub look_up : ℕ → PathTable → Index → ℕ × ℕ → Option ℕ → PathTable × ℕ
look_up limit table index pair (some existing) = (record table { index = some index }, existing)
look_up limit table index pair none =
    if leb limit (length table.nodes)
    then (record table { index = some index; overflowed = add64 table.overflowed 1 }, 0)
    else grow table index pair

unfoldable pub intern_path : ℕ → ℕ → ℕ → PathTable → PathTable × ℕ
intern_path limit parent func table =
    let index = or_default [] table.index in
    look_up limit table index (parent, func) (get (parent, func) index)

-- The nodes with their ids, from the one with id `first` on.
unfoldable pub number_from : ℕ → List (ℕ × ℕ) → List (ℕ × ℕ × ℕ)
number_from first [] = []
number_from first ((parent, func) ∷ nodes) =
    (first % 2 ^ 32, parent, func) ∷ number_from (first + 1) nodes

unfoldable pub path_nodes : PathTable → List (ℕ × ℕ × ℕ)
unfolding number_from
path_nodes table = number_from 1 table.nodes

unfoldable pub paths_overflowed : PathTable → ℕ
paths_overflowed table = table.overflowed
