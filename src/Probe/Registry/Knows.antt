-- ===== src/Probe/Registry/Knows.antt =====
-- crates/lightwatch-probe/src/registry.rs against crates/lightwatch-daemon/src/store.rs: what a
-- process knows of a probe's tree, and the registration of one more context of it.
use lightwatch.Base.{
  ℕ, zero, suc, ◌+◌, ◌-◌, ◌≤◌, ◌<◌, ◌%◌, ◌^◌, ◌≡◌, refl, ◌∙◌, ap, true, false, inl, inr, List,
  Option, none, some, ◌==◌, arith, Bool-cases, length, get_elem?, get_elem?_bound, get_elem?_within,
  get, get-insert, insert, key_eq, nat_key,
}
use lightwatch.Daemon.Store.State.{ProcessState, PathNode}
use lightwatch.Daemon.Store.Register.{register_path, is_misnumbered, is_orphan, add_node, same_node}
use lightwatch.Daemon.Store.Graph.{Known}
use lightwatch.Daemon.Store.Named.{function_title, type_title, function_title-Known}
use lightwatch.Probe.Census.{Types}
use lightwatch.Probe.Registry.{Functions}

-- A probe's tree: a context's parent has a smaller id, or is the root, and its function has an id;
-- the ids fit into 32 bits.
pub record IsTree (nodes : List (ℕ × ℕ)) (functions : ℕ) : Type 0 where
  pub nested :
      (i parent func : ℕ)
      → get_elem? nodes i ≡ some (parent, func)
      → (parent ≤ i) × (0 < func) × (func ≤ functions)
  pub few_nodes : length nodes < 2 ^ 32
  pub few_functions : functions < 2 ^ 32

abbrev pub node_of : ℕ × ℕ → PathNode
node_of (parent, func) = record { parent = parent; func = func }

-- The process has the first functions under their ids, each with the name of its site.
abbrev pub KnowsFunctions : Functions → ProcessState → ℕ → Type 0
KnowsFunctions f s n =
    (i site : ℕ)
    → i < n
    → get_elem? f.functions i ≡ some site
    → function_title (i + 1) s.functions ≡ some (f.sites site).name

-- The process has the first types under their ids, each with the name of its slot.
abbrev pub KnowsTypes : Types → ProcessState → ℕ → Type 0
KnowsTypes types s n =
    (i slot : ℕ)
    → i < n
    → get_elem? types.types i ≡ some slot
    → type_title (i + 1) s.types ≡ some (types.slots slot).name

-- Every id up to `n` is a function's.
abbrev pub HasFunctions : ProcessState → ℕ → Type 0
HasFunctions s n = (id : ℕ) → 0 < id → id ≤ n → Known id s.functions

pub KnowsFunctions-Has :
    (f : Functions) (s : ProcessState)
    → KnowsFunctions f s (length f.functions)
    → HasFunctions s (length f.functions)
KnowsFunctions-Has f s k id pos low =
    let (site, there) = get_elem?_within f.functions (id - 1) (omega (arith, pos, low)) in
    let back : id - 1 + 1 ≡ id = omega (arith, pos) in
    let named : function_title id s.functions ≡ some (f.sites site).name =
      rw back at (k (id - 1) site (omega (arith, pos, low)) there) in
    function_title-Known id s.functions (f.sites site).name named

-- The process has the first contexts as they are in the table, and none that differs from it.
pub record KnowsPaths (nodes : List (ℕ × ℕ)) (s : ProcessState) (n : ℕ) : Type 0 where
  pub sent :
      (i : ℕ) (pair : ℕ × ℕ)
      → i < n
      → get_elem? nodes i ≡ some pair
      → get (i + 1) s.paths ≡ some (node_of pair)
  pub only :
      (id : ℕ) (node : PathNode)
      → get id s.paths ≡ some node
      → (0 < id) × (get_elem? nodes (id - 1) ≡ some (node.parent, node.func))

-- What registrations that are all taken leave: nothing counted, and the mark reached.
pub record Takes (nodes : List (ℕ × ℕ)) (s s' : ProcessState) (n : ℕ) : Type 0 where
  pub uncounted : s'.counts.unknown_id ≡ s.counts.unknown_id
  pub same_functions : s'.functions ≡ s.functions
  pub same_types : s'.types ≡ s.types
  pub knows : KnowsPaths nodes s' n

module _ (nodes : List (ℕ × ℕ)) (functions : ℕ) (tree : IsTree nodes functions) where
  grown-KnowsPaths :
      (s : ProcessState) (i : ℕ) (pair : ℕ × ℕ)
      → get_elem? nodes i ≡ some pair
      → KnowsPaths nodes s i
      → KnowsPaths nodes (record s { paths = insert (i + 1) (node_of pair) s.paths }) (i + 1)
  grown-KnowsPaths s i pair e k = record {
    sent = λ j q below at. elim (Bool-cases (key_eq (j + 1) (i + 1))) [
      | inl same ↦
          let key : j ≡ i = ground arith in
          let is : pair ≡ q = ground (arith, ap (get_elem? nodes) key, e, at) in
          rw (get-insert (i + 1) (node_of pair) (j + 1) s.paths, same)
            (ap (λ r. some (node_of r)) is)
      | inr other ↦
          let less : j < i = ground arith in
          rw (get-insert (i + 1) (node_of pair) (j + 1) s.paths, other) (k.sent j q less at)
    ];
    only = λ id node at. elim (Bool-cases (key_eq id (i + 1))) [
      | inl same ↦
          let key : id ≡ i + 1 = ground arith in
          let found : some (node_of pair) ≡ some node =
            rw (get-insert (i + 1) (node_of pair) id s.paths, same) at at in
          let back : id - 1 ≡ i = omega arith in
          let is : node_of pair ≡ node = ground arith in
          (omega arith, rw back (e ∙ ap (λ n. some (PathNode.parent n, PathNode.func n)) is))
      | inr other ↦
          let found : get id s.paths ≡ some node =
            rw (get-insert (i + 1) (node_of pair) id s.paths, other) at at in
          k.only id node found
    ];
  }

  same_KnowsPaths :
      (s : ProcessState) (i : ℕ) (pair : ℕ × ℕ)
      → get_elem? nodes i ≡ some pair
      → get (i + 1) s.paths ≡ some (node_of pair)
      → KnowsPaths nodes s i
      → KnowsPaths nodes s (i + 1)
  same_KnowsPaths s i pair e held k = record {
    sent = λ j q below at. elim (Bool-cases (j == i)) [
      | inl same ↦
          let key : j ≡ i = ground arith in
          let is : pair ≡ q = ground (arith, ap (get_elem? nodes) key, e, at) in
          rw key (held ∙ ap (λ r. some (node_of r)) is)
      | inr other ↦ k.sent j q (ground arith) at
    ];
    only = k.only;
  }

  node-Takes :
      (s : ProcessState) (i : ℕ) (pair : ℕ × ℕ) (o : Option PathNode)
      → get_elem? nodes i ≡ some pair
      → get (i + 1) s.paths ≡ o
      → KnowsPaths nodes s i
      → Takes nodes s (add_node s (i + 1) (node_of pair) o) (i + 1)
  node-Takes s i pair none e free k = record {
    uncounted = refl;
    same_functions = refl;
    same_types = refl;
    knows = grown-KnowsPaths s i pair e k;
  }
  node-Takes s i pair (some node) e held k =
      let (pos, there) = k.only (i + 1) node held in
      let back : i + 1 - 1 ≡ i = omega arith in
      let at : get_elem? nodes i ≡ some (node.parent, node.func) = rw back at there in
      let is : pair ≡ (node.parent, node.func) = ground (arith, e, at) in
      let same : same_node node (node_of pair) ≡ true = rw is (ground arith) in
      rw same (record {
        uncounted = refl;
        same_functions = refl;
        same_types = refl;
        knows = same_KnowsPaths s i pair e (rw is held) k;
      })

  pub path-Takes :
      (s : ProcessState) (i parent func : ℕ)
      → get_elem? nodes i ≡ some (parent, func)
      → HasFunctions s functions
      → KnowsPaths nodes s i
      → Takes nodes s (register_path s ((i + 1) % 2 ^ 32) parent func) (i + 1)
  unfolding register_path
  path-Takes s i parent func e known k =
      let (below, pos, few) = tree.nested i parent func e in
      let id : (i + 1) % 2 ^ 32 ≡ i + 1 =
        omega (arith, tree.few_nodes, get_elem?_bound nodes i (parent, func) e) in
      let numbered : is_misnumbered s (i + 1) parent func ≡ false =
        ground (arith, known func pos few) in
      let attached : is_orphan s parent ≡ false = attached_at parent below in
      rw (id, numbered, attached) (node-Takes s i (parent, func) (get (i + 1) s.paths) e refl k)
    where
      attached_at : (parent : ℕ) → parent ≤ i → is_orphan s parent ≡ false
      attached_at zero below = refl
      attached_at (suc p) below =
          let (pair, there) =
            get_elem?_within nodes p (omega (arith, get_elem?_bound nodes i _ e)) in
          let next : p + 1 ≡ suc p = omega arith in
          let found : get (suc p) s.paths ≡ some (node_of pair) =
            rw next at (k.sent p pair (omega arith) there) in
          rw found (ground arith)
