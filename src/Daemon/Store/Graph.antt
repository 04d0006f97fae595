-- ===== src/Daemon/Store/Graph.antt =====
-- The part of a process that the call tree and the call graph are read from, and what keeps it whole.
use lightwatch.Base.{
  ℕ, ◌<◌, ◌≡◌, Bool, true, false, ◌⊎◌, Option, none, some, min, ◌==◌, is_some, get, Map, nat_key,
  pair_key, u64_max, if◌then◌else◌, IsAscending, sum_map,
}
use lightwatch.Proto.Wire.{FunctionId, PathId}
use lightwatch.Daemon.Quantity.{Cumulative, zero_total}
use lightwatch.Daemon.Window.{or_default}
use lightwatch.Daemon.Store.State.{
  ProcessState, PathNode, FunctionState, StackTotals, default_totals, default_function,
}

pub record Graph : Type 0 where
  pub functions : Map FunctionId FunctionState
  pub edges : Map (FunctionId × FunctionId) Cumulative
  pub paths : Map PathId PathNode
  pub path_totals : Map PathId StackTotals

abbrev pub graph_of : ProcessState → Graph
graph_of s = record {
  functions = s.functions;
  edges = s.edges;
  paths = s.paths;
  path_totals = s.path_totals;
}

abbrev pub Known {ℓ} : {V : Type ℓ} → ℕ → Map ℕ V → Type 0
Known k m = is_some (get k m) ≡ true

-- A node hangs off the root or off a smaller node that is there, and names a known function.
pub record NodeOk (g : Graph) (id : PathId) (node : PathNode) : Type 0 where
  pub above : node.parent < id
  pub rooted : (node.parent ≡ 0) ⊎ Known node.parent g.paths
  pub named : Known node.func g.functions

abbrev pub IsTree : Graph → Type 0
IsTree g = (id : PathId) (node : PathNode) → get id g.paths ≡ some node → NodeOk g id node

-- The function of a node's parent.
abbrev pub func_in : Option PathNode → Option FunctionId
func_in none = none
func_in (some node) = some node.func

abbrev pub caller_in : Graph → PathNode → Option FunctionId
caller_in g node = if node.parent == 0 then none else func_in (get node.parent g.paths)

abbrev pub totals_of : Graph → PathId → StackTotals
totals_of g id = or_default default_totals (get id g.path_totals)

abbrev pub is_caller : FunctionId → Option FunctionId → Bool
is_caller c none = false
is_caller c (some f) = f == c

-- What one context adds to the self time of `f`, and to the edge from `c` to `f`.
abbrev pub self_share : Graph → FunctionId → PathId → PathNode → ℕ
self_share g f id node = if node.func == f then (totals_of g id).self_ns.value else 0

abbrev pub edge_share : Graph → FunctionId → FunctionId → PathId → PathNode → ℕ
edge_share g c f id node =
    if node.func == f
    then (if is_caller c (caller_in g node) then (totals_of g id).calls.value else 0)
    else 0

abbrev pub self_sum : Graph → FunctionId → ℕ
self_sum g f = sum_map (self_share g f) g.paths

abbrev pub edge_sum : Graph → FunctionId → FunctionId → ℕ
edge_sum g c f = sum_map (edge_share g c f) g.paths

-- The sums that the source keeps beside the tree, against the tree: equal up to the saturation.
pub record Agrees (g : Graph) : Type 0 where
  pub tree : IsTree g
  pub ordered : IsAscending g.paths
  pub untouched : (id : PathId) → get id g.paths ≡ none → get id g.path_totals ≡ none
  pub self_time :
      (f : FunctionId)
      → (or_default default_function (get f g.functions)).self_ns_total.value
        ≡ min u64_max (self_sum g f)
  pub edge_calls :
      (c f : FunctionId)
      → (or_default zero_total (get (c, f) g.edges)).value ≡ min u64_max (edge_sum g c f)
