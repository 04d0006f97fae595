-- ===== src/Daemon/Store/Agreement.antt =====
-- The sums that are kept beside the call tree: no event lets them drift from it.
use lightwatch.Base.{
  ℕ, ◌+◌, ◌≤◌, ◌≡◌, true, false, ◌⊎◌, inl, inr, Option, none, some, Bool-cases, arith, get, insert,
  get-insert, Map, nat_key, pair_key, if◌then◌else◌, key_eq-==, pair_key_eq, min, u64_max,
  sum_map_change, le-sum_map, ◌==◌, ==_refl,
}
use lightwatch.Proto.Wire.{FunctionId, PathId}
use lightwatch.Daemon.Quantity.{Cumulative, accumulate, zero_total}
use lightwatch.Daemon.Window.{or_default}
use lightwatch.Daemon.Store.State.{PathNode, FunctionState, StackTotals, default_function}
use lightwatch.Daemon.Store.Tree.{Known-insert}
use lightwatch.Daemon.Store.Graph.{
  Graph, IsTree, Agrees, self_sum, edge_sum, self_share, edge_share, caller_in, totals_of,
  is_caller,
}

-- A total saturates like the sum of its parts, one of which, `t`, grows by `c`.
saturate :
    (x s s' t c : ℕ)
    → x ≡ min u64_max s
    → t ≤ s
    → s' + t ≡ s + min (t + c) u64_max
    → min (x + c) u64_max ≡ min u64_max s'
saturate x s s' t c e h k = omega arith

abbrev pub charged : Graph → PathId → ℕ → ℕ → StackTotals
charged g path count self_ns = record {
  calls = accumulate (totals_of g path).calls count;
  self_ns = accumulate (totals_of g path).self_ns self_ns;
}

-- The graph after `count` activations of a context were charged with `self_ns`.
abbrev pub totalled : Graph → PathId → ℕ → ℕ → Graph
totalled g path count self_ns = record g {
  path_totals = insert path (charged g path count self_ns) g.path_totals;
}

totals_after :
    (g : Graph) (path : PathId) (count self_ns : ℕ) (j : PathId)
    → totals_of (totalled g path count self_ns) j
      ≡ (if j == path then charged g path count self_ns else totals_of g j)
totals_after g path count self_ns j =
    rw (get-insert path (charged g path count self_ns) j g.path_totals, key_eq-== j path)
      (elim (Bool-cases (j == path)) [ inl e ↦ rw e | inr e ↦ rw e ])

module _ (g : Graph) (path : PathId) (node : PathNode) (count self_ns : ℕ) (a : Agrees g)
    (at : get path g.paths ≡ some node) where
  abbrev after : Graph
  after = totalled g path count self_ns

  -- The sum of a function's contexts grows by what one of them is charged.
  self_sum-after :
      (f : FunctionId)
      → self_sum after f + self_share g f path node ≡ self_sum g f + self_share after f path node
  self_sum-after f =
      sum_map_change (self_share g f) (self_share after f) path node g.paths a.ordered at
        (λ j u ne. ground (arith, totals_after g path count self_ns j))

  edge_sum-after :
      (c f : FunctionId)
      → edge_sum after c f + edge_share g c f path node
        ≡ edge_sum g c f + edge_share after c f path node
  edge_sum-after c f =
      sum_map_change (edge_share g c f) (edge_share after c f) path node g.paths a.ordered at
        (λ j u ne. ground (arith, totals_after g path count self_ns j))

  self_share-after :
      self_share after node.func path node
      ≡ min ((totals_of g path).self_ns.value + self_ns) u64_max
  unfolding accumulate
  self_share-after = ground (arith, totals_after g path count self_ns path)

  own_share : self_share g node.func path node ≡ (totals_of g path).self_ns.value
  own_share = ground arith

  -- Its own function's self time is charged with the same amount, and no other function's.
  self_time_after :
      (f : FunctionId)
      → (if f == node.func
          then min
              ((or_default default_function (get f g.functions)).self_ns_total.value + self_ns)
              u64_max
          else (or_default default_function (get f g.functions)).self_ns_total.value)
        ≡ min u64_max (self_sum after f)
  self_time_after f = elim (Bool-cases (f == node.func)) [
    | inl own ↦
        let is : f ≡ node.func = ground arith in
        rw (own, is)
          (saturate (or_default default_function (get node.func g.functions)).self_ns_total.value
            (self_sum g node.func) (self_sum after node.func) (self_share g node.func path node)
            self_ns (a.self_time node.func)
            (le-sum_map (self_share g node.func) path node g.paths at)
            (omega (arith, self_sum-after node.func, self_share-after, own_share)))
    | inr other ↦ rw other (ground (arith, a.self_time f, self_sum-after f))
  ]

  calls_after :
      (totals_of after path).calls.value ≡ min ((totals_of g path).calls.value + count) u64_max
  unfolding accumulate
  calls_after = rw (totals_after g path count self_ns path, ==_refl path)

  share_miss :
      (h : Graph) (c f : FunctionId)
      → ((f == node.func) ≡ false) ⊎ (is_caller c (caller_in h node) ≡ false)
      → edge_share h c f path node ≡ 0
  share_miss h c f miss = ground arith

  edge_hit :
      (c : FunctionId)
      → caller_in g node ≡ some c
      → min ((or_default zero_total (get (c, node.func) g.edges)).value + count) u64_max
        ≡ min u64_max (edge_sum after c node.func)
  edge_hit c is =
      let before : edge_share g c node.func path node ≡ (totals_of g path).calls.value =
        rw (is, ==_refl c, ==_refl node.func) in
      let now : edge_share after c node.func path node
          ≡ min ((totals_of g path).calls.value + count) u64_max =
        rw (is, ==_refl c, ==_refl node.func) calls_after in
      saturate (or_default zero_total (get (c, node.func) g.edges)).value (edge_sum g c node.func)
        (edge_sum after c node.func) (edge_share g c node.func path node) count
        (a.edge_calls c node.func) (le-sum_map (edge_share g c node.func) path node g.paths at)
        (omega (arith, edge_sum-after c node.func, before, now))

  edge_miss :
      (c f : FunctionId)
      → ((f == node.func) ≡ false) ⊎ (is_caller c (caller_in g node) ≡ false)
      → (or_default zero_total (get (c, f) g.edges)).value ≡ min u64_max (edge_sum after c f)
  edge_miss c f miss =
      let before = share_miss g c f miss in
      let now = share_miss after c f miss in
      omega (arith, a.edge_calls c f, edge_sum-after c f, before, now)

abbrev pub edges_with :
    Graph → FunctionId → ℕ → Option FunctionId → Map (FunctionId × FunctionId) Cumulative
edges_with g func count none = g.edges
edges_with g func count (some c) =
    insert (c, func) (accumulate (or_default zero_total (get (c, func) g.edges)) count) g.edges

abbrev pub charged_state : FunctionState → ℕ → FunctionState
charged_state st self_ns = record st { self_ns_total = accumulate st.self_ns_total self_ns }

-- The graph after a whole stack event, the caller of whose context is `o`.
abbrev pub stacked : Graph → PathId → PathNode → ℕ → ℕ → FunctionState → Option FunctionId → Graph
stacked g path node count self_ns st o = record (totalled g path count self_ns) {
  functions = insert node.func (charged_state st self_ns) g.functions;
  edges = edges_with g node.func count o;
}

module _ (g : Graph) (path : PathId) (node : PathNode) (count self_ns : ℕ) (st : FunctionState)
    (a : Agrees g) (at : get path g.paths ≡ some node)
    (known : get node.func g.functions ≡ some st) where
  self_time_stacked :
      (f : FunctionId)
      → (or_default default_function
          (get f (insert node.func (charged_state st self_ns) g.functions))).self_ns_total.value
        ≡ min u64_max (self_sum (totalled g path count self_ns) f)
  unfolding accumulate
  self_time_stacked f =
      rw (get-insert node.func (charged_state st self_ns) f g.functions, key_eq-== f node.func)
        (elim (Bool-cases (f == node.func)) [
          | inl own ↦ rw own (ground (arith, after_known f own))
          | inr other ↦
              let kept = self_time_after g path node count self_ns a at f in
              rw other (rw other at kept)
        ])
    where
      after_known :
          (f : FunctionId)
          → (f == node.func) ≡ true
          → min (st.self_ns_total.value + self_ns) u64_max
            ≡ min u64_max (self_sum (totalled g path count self_ns) f)
      after_known f own = ground (arith, self_time_after g path node count self_ns a at f, known)

  edge_calls_stacked :
      (o : Option FunctionId) (c f : FunctionId)
      → caller_in g node ≡ o
      → (or_default zero_total (get (c, f) (edges_with g node.func count o))).value
        ≡ min u64_max (edge_sum (totalled g path count self_ns) c f)
  unfolding accumulate
  edge_calls_stacked none c f is = edge_miss g path node count self_ns a at c f (inr (rw is))
  edge_calls_stacked (some d) c f is =
      rw (get-insert (d, node.func) (entry d) (c, f) g.edges, pair_key_eq c f d node.func)
        (elim (Bool-cases (c == d)) [
          | inl caller ↦ elim (Bool-cases (f == node.func)) [
            | inl callee ↦
                let is_d : c ≡ d = ground arith in
                let is_f : f ≡ node.func = ground arith in
                rw (caller, callee, is_d, is_f) (edge_hit g path node count self_ns a at d is)
            | inr other ↦
                rw (caller, other) (edge_miss g path node count self_ns a at c f (inl other))
          ]
          | inr other ↦
              let miss : is_caller c (caller_in g node) ≡ false = rw is (ground arith) in
              rw other (edge_miss g path node count self_ns a at c f (inr miss))
        ])
    where
      entry : FunctionId → Cumulative
      entry c = accumulate (or_default zero_total (get (c, node.func) g.edges)) count

  IsTree-stacked : (o : Option FunctionId) → IsTree (stacked g path node count self_ns st o)
  IsTree-stacked o id n e =
      let h = a.tree id n e in
      record {
        above = h.above;
        rooted = h.rooted;
        named = Known-insert node.func n.func (charged_state st self_ns) g.functions h.named;
      }

  untouched_stacked :
      (id : PathId)
      → get id g.paths ≡ none
      → get id (insert path (charged g path count self_ns) g.path_totals) ≡ none
  untouched_stacked id absent = ground (
    arith,
    get-insert path (charged g path count self_ns) id g.path_totals,
    a.untouched id absent,
  )

  pub stacked-Agrees :
      (o : Option FunctionId)
      → caller_in g node ≡ o
      → Agrees (stacked g path node count self_ns st o)
  stacked-Agrees o is = record {
    tree = IsTree-stacked o;
    ordered = a.ordered;
    untouched = untouched_stacked;
    self_time = self_time_stacked;
    edge_calls = λ c f. edge_calls_stacked o c f is;
  }
