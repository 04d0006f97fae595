-- ===== src/Daemon/Store/Tree.antt =====
-- The call tree of one process: what registration lets in, and that nothing changes it afterwards.
use lightwatch.Base.{
  ℕ, ◌≡◌, refl, sym, subst, false, ◌⊎◌, inl, inr, Option, none, some, Bool-cases, arith, get,
  insert, get-insert, Map, nat_key, insert-IsAscending, sum_map, sum_map_cong, sum_map-insert_new,
}
use lightwatch.Proto.Wire.{FunctionId, PathId}
use lightwatch.Daemon.Window.{or_default}
use lightwatch.Daemon.Store.State.{ProcessState, PathNode, FunctionState, default_function}
use lightwatch.Daemon.Store.Register.{register_path, is_misnumbered, is_orphan, add_node, same_node}
use lightwatch.Daemon.Store.Graph.{
  Graph, graph_of, Known, NodeOk, IsTree, Agrees, self_sum, edge_sum, self_share, edge_share,
  caller_in,
}

pub Known-insert {ℓ} :
    {V : Type ℓ} (k j : ℕ) (v : V) (m : Map ℕ V) → Known j m → Known j (insert k v m)
Known-insert k j v m h = rw (get-insert k v j m) (ground arith)

-- A function's entry is written, and its self time is left as it is.
pub named-Agrees :
    (g : Graph) (k : FunctionId) (v : FunctionState)
    → v.self_ns_total ≡ (or_default default_function (get k g.functions)).self_ns_total
    → Agrees g
    → Agrees (record g { functions = insert k v g.functions })
named-Agrees g k v same a = record {
  tree = λ id node e.
      let h = a.tree id node e in
      record {
        above = h.above;
        rooted = h.rooted;
        named = Known-insert k node.func v g.functions h.named;
      };
  ordered = a.ordered;
  untouched = a.untouched;
  self_time = λ f. ground (arith, get-insert k v f g.functions, a.self_time f);
  edge_calls = a.edge_calls;
}

insert_cases {ℓ} :
    {V : Type ℓ} (k j : ℕ) (v w : V) (m : Map ℕ V)
    → get j (insert k v m) ≡ some w
    → ((k ≡ j) × (v ≡ w)) ⊎ (get j m ≡ some w)
insert_cases k j v w m e = ground (arith, get-insert k v j m)

abbrev grown : Graph → PathId → PathNode → Graph
grown g id node = record g { paths = insert id node g.paths }

NodeOk-grown :
    (g : Graph) (id i : PathId) (node n : PathNode) → NodeOk g i n → NodeOk (grown g id node) i n
NodeOk-grown g id i node n h = record {
  above = h.above;
  rooted = ground (arith, h.rooted, Known-insert id n.parent node g.paths);
  named = h.named;
}

IsTree-grown :
    (g : Graph) (id : PathId) (node : PathNode)
    → IsTree g
    → NodeOk g id node
    → IsTree (grown g id node)
IsTree-grown g id node t ok i n e = elim (insert_cases id i node n g.paths e) [
  | inl (same, is) ↦
      NodeOk-grown g id i node n
        (subst (λ m. NodeOk g i m) is (subst (λ j. NodeOk g j node) same ok))
  | inr old ↦ NodeOk-grown g id i node n (t i n old)
]

-- A node's caller does not change when another node is added.
caller_grown :
    (g : Graph) (id : PathId) (node n : PathNode)
    → get id g.paths ≡ none
    → (n.parent ≡ 0) ⊎ Known n.parent g.paths
    → caller_in (grown g id node) n ≡ caller_in g n
caller_grown g id node n absent rooted = ground (arith, rooted, get-insert id node n.parent g.paths)

edge_sum-grown :
    (g : Graph) (id : PathId) (node : PathNode) (c f : FunctionId)
    → Agrees g
    → get id g.paths ≡ none
    → edge_sum (grown g id node) c f ≡ edge_sum g c f
edge_sum-grown g id node c f a absent =
    let w : PathId → PathNode → ℕ = edge_share (grown g id node) c f in
    let fresh : w id node ≡ 0 = ground (arith, a.untouched id absent) in
    let rest : sum_map w g.paths ≡ edge_sum g c f =
      sum_map_cong w (edge_share g c f) g.paths a.ordered
        (λ i n e. ground (arith, caller_grown g id node n absent (a.tree i n e).rooted)) in
    omega (arith, sum_map-insert_new w id node g.paths absent, fresh, rest)

self_sum-grown :
    (g : Graph) (id : PathId) (node : PathNode) (f : FunctionId)
    → Agrees g
    → get id g.paths ≡ none
    → self_sum (grown g id node) f ≡ self_sum g f
self_sum-grown g id node f a absent =
    let fresh : self_share g f id node ≡ 0 = ground (arith, a.untouched id absent) in
    omega (arith, sum_map-insert_new (self_share g f) id node g.paths absent, fresh)

pub grown-Agrees :
    (g : Graph) (id : PathId) (node : PathNode)
    → Agrees g
    → NodeOk g id node
    → get id g.paths ≡ none
    → Agrees (grown g id node)
grown-Agrees g id node a ok absent = record {
  tree = IsTree-grown g id node a.tree ok;
  ordered = insert-IsAscending id node g.paths a.ordered;
  untouched = λ i e. a.untouched i (ground (arith, get-insert id node i g.paths));
  self_time = λ f. rw (self_sum-grown g id node f a absent) (a.self_time f);
  edge_calls = λ c f. rw (edge_sum-grown g id node c f a absent) (a.edge_calls c f);
}

first_ok :
    (s : ProcessState) (id parent : PathId) (func : FunctionId)
    → is_misnumbered s id parent func ≡ false
    → is_orphan s parent ≡ false
    → NodeOk (graph_of s) id (record { parent = parent; func = func })
first_ok s id parent func ok attached = record {
  above = ground arith;
  rooted = ground arith;
  named = ground arith;
}

-- What registering a path does to the graph: it adds a node that fits and that is new, or nothing.
pub data Registers (s : ProcessState) (id parent : PathId) (func : FunctionId) (s' : ProcessState)
    : Type 0 where
  kept : graph_of s' ≡ graph_of s → Registers s id parent func s'
  added :
      NodeOk (graph_of s) id (record { parent = parent; func = func })
      → get id s.paths ≡ none
      → graph_of s' ≡ grown (graph_of s) id (record { parent = parent; func = func })
      → Registers s id parent func s'

add_node-Registers :
    (s : ProcessState) (id parent : PathId) (func : FunctionId) (o : Option PathNode)
    → is_misnumbered s id parent func ≡ false
    → is_orphan s parent ≡ false
    → get id s.paths ≡ o
    → Registers s id parent func (add_node s id (record { parent = parent; func = func }) o)
add_node-Registers s id parent func none ok attached e =
    added (first_ok s id parent func ok attached) e refl
add_node-Registers s id parent func (some node) ok attached e =
    elim (Bool-cases (same_node node (record { parent = parent; func = func }))) [
      | inl same ↦ kept (rw same)
      | inr other ↦ kept (rw other)
    ]

pub register_path-Registers :
    (s : ProcessState) (id parent : PathId) (func : FunctionId)
    → Registers s id parent func (register_path s id parent func)
unfolding register_path
register_path-Registers s id parent func = elim (Bool-cases (is_misnumbered s id parent func)) [
  | inl bad ↦ rw bad (kept refl)
  | inr ok ↦ elim (Bool-cases (is_orphan s parent)) [
    | inl alone ↦ rw (ok, alone) (kept refl)
    | inr attached ↦
        rw (ok, attached) (add_node-Registers s id parent func (get id s.paths) ok attached refl)
  ]
]

pub Registers-Agrees :
    (s : ProcessState) (id parent : PathId) (func : FunctionId) (s' : ProcessState)
    → Registers s id parent func s'
    → Agrees (graph_of s)
    → Agrees (graph_of s')
Registers-Agrees s id parent func s' (kept e) a = subst Agrees (sym e) a
Registers-Agrees s id parent func s' (added ok absent e) a =
    subst Agrees (sym e)
      (grown-Agrees (graph_of s) id (record { parent = parent; func = func }) a ok absent)
