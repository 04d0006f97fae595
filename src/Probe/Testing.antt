-- ===== src/Probe/Testing.antt =====
-- crates/lightwatch-probe/src/testing.rs: what a program under test reads of its own probe. The tables
-- and the threads' slots are arguments.
pub mod Chains
mod Tests
use lightwatch.Base.{
  ℕ, zero, suc, ◌+◌, max, Bool, true, false, List, [], ◌∷◌, Option, none, some, ◌==◌, if◌then◌else◌,
  length, add64, Text, nat_key, Map, get, insert,
}
use lightwatch.Daemon.Window.{or_default}
use lightwatch.Probe.Paths.{PathTable, path_nodes}
use lightwatch.Probe.Samples.{StackStat, CallStat, ThreadSlot, snapshot}
use lightwatch.Probe.Census.{live_count, size_buckets, bytes_from_buckets}
use lightwatch.Probe.Registry.{
  Functions, Tables, function_name, function_id_by_name, type_slot_by_name,
}

-- `collect` into a BTreeMap from an id to its parent and its function.
unfoldable pub collect_nodes : List (ℕ × ℕ × ℕ) → Map ℕ (ℕ × ℕ) → Map ℕ (ℕ × ℕ)
collect_nodes [] nodes = nodes
collect_nodes ((id, parent, func) ∷ more) nodes =
    collect_nodes more (insert id (parent, func) nodes)

unfoldable pub nodes_of : PathTable → Map ℕ (ℕ × ℕ)
unfolding collect_nodes path_nodes
nodes_of t = collect_nodes (path_nodes t) []

-- How the walk to the root ends: with the names, without one of them, or without fuel.
pub data Walk : Type 0 where
  chain : List Text → Walk
  broken : Walk
  out_of_fuel : Walk

abbrev pub name_and : (List Text → Walk) → List Text → Option Text → Walk
name_and go names none = broken
name_and go names (some name) = go (name ∷ names)

abbrev pub follow : (ℕ → List Text → Walk) → Functions → List Text → Option (ℕ × ℕ) → Walk
follow go f names none = broken
follow go f names (some (parent, func)) = name_and (go parent) names (function_name f func)

-- The loop of `chain_of`. It puts each name in front, where the source pushes and reverses at the end.
unfoldable pub chain_from : ℕ → Functions → Map ℕ (ℕ × ℕ) → ℕ → List Text → Walk
unfolding function_name
chain_from zero f nodes id names = out_of_fuel
chain_from (suc fuel) f nodes id names =
    if id == 0 then chain names else follow (chain_from fuel f nodes) f names (get id nodes)

-- With the fuel that a context needs whose parents have smaller ids.
unfoldable pub chain_of : Functions → Map ℕ (ℕ × ℕ) → ℕ → Walk
unfolding chain_from
chain_of f nodes id = chain_from (suc id) f nodes id []

unfoldable pub path_count : PathTable → ℕ
path_count t = length (path_nodes t)

abbrev pub chain_length : Walk → ℕ
chain_length (chain names) = length names
chain_length broken = 0
chain_length out_of_fuel = 0

unfoldable pub deepest_from : Functions → Map ℕ (ℕ × ℕ) → Map ℕ (ℕ × ℕ) → ℕ
unfolding chain_of
deepest_from f nodes [] = 0
deepest_from f nodes ((id, node) ∷ more) =
    max (chain_length (chain_of f nodes id)) (deepest_from f nodes more)

unfoldable pub deepest_chain : Tables → ℕ
unfolding nodes_of deepest_from
deepest_chain t = deepest_from t.functions (nodes_of t.paths) (nodes_of t.paths)

abbrev pub stat_ns : Option StackStat → ℕ
stat_ns none = 0
stat_ns (some stat) = stat.self_ns

unfoldable pub self_of : ℕ → Map ℕ StackStat → List (ℕ × ℕ × ℕ) → ℕ
self_of func recorded [] = 0
self_of func recorded ((path, parent, other) ∷ nodes) =
    let rest : ℕ = self_of func recorded nodes in
    if other == func then add64 (stat_ns (get path recorded)) rest else rest

abbrev pub self_ns_of : Tables → List ThreadSlot → Option ℕ → ℕ
self_ns_of t slots none = 0
self_ns_of t slots (some func) = self_of func (snapshot slots).stacks (path_nodes t.paths)

unfoldable pub self_ns : Tables → List ThreadSlot → Text → ℕ
unfolding self_of snapshot path_nodes function_id_by_name
self_ns t slots name = self_ns_of t slots (function_id_by_name t.functions name)

abbrev pub count_of_stat : Option CallStat → ℕ
count_of_stat none = 0
count_of_stat (some stat) = stat.count

abbrev pub call_count_of : List ThreadSlot → Option ℕ → ℕ
call_count_of slots none = 0
call_count_of slots (some func) = count_of_stat (get func (snapshot slots).calls)

unfoldable pub call_count : Tables → List ThreadSlot → Text → ℕ
unfolding snapshot function_id_by_name
call_count t slots name = call_count_of slots (function_id_by_name t.functions name)

abbrev pub live_at : Tables → Option ℕ → ℕ
live_at t none = 0
live_at t (some slot) = live_count (t.types.slots slot)

unfoldable pub live : Tables → Text → ℕ
unfolding live_count type_slot_by_name
live t name = live_at t (type_slot_by_name t.types.slots name t.types.types)

abbrev pub sizes_at : Tables → Option ℕ → List (ℕ × ℕ)
sizes_at t none = []
sizes_at t (some slot) = size_buckets (t.types.slots slot)

unfoldable pub sizes_of : Tables → Text → List (ℕ × ℕ)
unfolding size_buckets type_slot_by_name
sizes_of t name = sizes_at t (type_slot_by_name t.types.slots name t.types.types)

unfoldable pub bytes : Tables → Text → ℕ
unfolding sizes_of bytes_from_buckets
bytes t name = bytes_from_buckets (sizes_of t name)
