-- ===== src/Probe/Testing/Chains.antt =====
-- crates/lightwatch-probe/src/testing.rs: the walk from a context to the root, against the table.
use lightwatch.Base.{
  ℕ, zero, suc, ◌+◌, ◌%◌, ◌^◌, ◌≤◌, ◌<◌, ◌≡◌, refl, sym, ◌∙◌, true, false, List, [], ◌∷◌, ◌++◌,
  Option, none, some, ◌==◌, arith, length, length-append, get_elem?, Text, nat_key, Map, get,
  insert, get-insert, key_eq,
}
use mathlib.Core.List.{append_assoc, append-nil}
use lightwatch.Probe.Paths.{PathTable, path_nodes, number_from}
use lightwatch.Probe.Registry.{Functions, function_name}
use lightwatch.Probe.Registry.Knows.{IsTree}
use lightwatch.Probe.Testing.{
  Walk, chain, broken, out_of_fuel, chain_from, chain_of, follow, name_and, collect_nodes, nodes_of,
}

-- The names from the root to a context: those to its parent, and the name of its own function.
pub data Chain (f : Functions) (table : List (ℕ × ℕ)) : ℕ → List Text → Type 0 where
  root : Chain f table 0 []
  inner :
      (i parent func : ℕ) (name : Text) (outer : List Text)
      → get_elem? table i ≡ some (parent, func)
      → function_name f func ≡ some name
      → Chain f table parent outer
      → Chain f table (suc i) (outer ++ (name ∷ []))

-- Between the root and a context something has no entry: a context, or the function of one.
pub data Gap (f : Functions) (table : List (ℕ × ℕ)) : ℕ → Type 0 where
  absent : (i : ℕ) → get_elem? table i ≡ none → Gap f table (suc i)
  unnamed :
      (i parent func : ℕ)
      → get_elem? table i ≡ some (parent, func)
      → function_name f func ≡ none
      → Gap f table (suc i)
  outside :
      (i parent func : ℕ)
      → get_elem? table i ≡ some (parent, func)
      → Gap f table parent
      → Gap f table (suc i)

-- The walk is over: at the root with the names, of which there are at most as many as the id says, or
-- at a gap.
abbrev pub Ended : Functions → List (ℕ × ℕ) → ℕ → Walk → Type 0
Ended f table id (chain names) = Chain f table id names × (length names ≤ id)
Ended f table id broken = Gap f table id
Ended f table id out_of_fuel = ⊥

-- The same, for a walk that had collected `names` when it came to the context.
abbrev EndedWith : Functions → List (ℕ × ℕ) → List Text → ℕ → Walk → Type 0
EndedWith f table names id (chain all) =
    (outer : List Text) × (all ≡ outer ++ names) × Chain f table id outer × (length outer ≤ id)
EndedWith f table names id broken = Gap f table id
EndedWith f table names id out_of_fuel = ⊥

EndedWith-outer :
    (f : Functions) (table : List (ℕ × ℕ)) (names : List Text) (i parent func : ℕ) (name : Text)
    (w : Walk)
    → get_elem? table i ≡ some (parent, func)
    → function_name f func ≡ some name
    → parent ≤ i
    → EndedWith f table (name ∷ names) parent w
    → EndedWith f table names (suc i) w
EndedWith-outer f table names i parent func name (chain all) e n low (outer, is, above, few) =
    let size = length-append outer (name ∷ []) in
    (
      outer ++ (name ∷ []),
      is ∙ sym (append_assoc outer (name ∷ []) names),
      inner i parent func name outer e n above,
      omega (arith, size, few, low),
    )
EndedWith-outer f table names i parent func name broken e n low gap = outside i parent func e gap
EndedWith-outer f table names i parent func name out_of_fuel e n low never = absurd never

EndedWith-none :
    (f : Functions) (table : List (ℕ × ℕ)) (id : ℕ) (w : Walk)
    → EndedWith f table [] id w
    → Ended f table id w
EndedWith-none f table id (chain all) (outer, is, above, few) =
    let same : all ≡ outer = is ∙ append-nil outer in rw same (above, few)
EndedWith-none f table id broken gap = gap
EndedWith-none f table id out_of_fuel never = never

-- The map has the contexts of the table under the ids of their positions.
abbrev Holds : List (ℕ × ℕ) → Map ℕ (ℕ × ℕ) → Type 0
Holds table nodes = (i : ℕ) → get (suc i) nodes ≡ get_elem? table i

module _ (f : Functions) (table : List (ℕ × ℕ)) (functions : ℕ) (tree : IsTree table functions)
    (nodes : Map ℕ (ℕ × ℕ)) (holds : Holds table nodes) where
  abbrev WalksFrom : (ℕ → List Text → Walk) → ℕ → Type 0
  WalksFrom go fuel = (p : ℕ) (ns : List Text) → p < fuel → EndedWith f table ns p (go p ns)

  named-EndedWith :
      (fuel i parent func : ℕ) (names : List Text) (go : ℕ → List Text → Walk) (o : Option Text)
      → WalksFrom go fuel
      → suc i < suc fuel
      → get_elem? table i ≡ some (parent, func)
      → function_name f func ≡ o
      → EndedWith f table names (suc i) (name_and (go parent) names o)
  named-EndedWith fuel i parent func names go none walks enough e n = unnamed i parent func e n
  named-EndedWith fuel i parent func names go (some name) walks enough e n =
      let (low, pos, few) = tree.nested i parent func e in
      EndedWith-outer f table names i parent func name (go parent (name ∷ names)) e n low
        (walks parent (name ∷ names) (omega (arith, low, enough)))

  node-EndedWith :
      (fuel i : ℕ) (names : List Text) (go : ℕ → List Text → Walk) (o : Option (ℕ × ℕ))
      → WalksFrom go fuel
      → suc i < suc fuel
      → get_elem? table i ≡ o
      → EndedWith f table names (suc i) (follow go f names o)
  node-EndedWith fuel i names go none walks enough e = absent i e
  node-EndedWith fuel i names go (some (parent, func)) walks enough e =
      named-EndedWith fuel i parent func names go (function_name f func) walks enough e refl

  walk-EndedWith :
      (fuel id : ℕ) (names : List Text)
      → id < fuel
      → EndedWith f table names id (chain_from fuel f nodes id names)
  unfolding chain_from
  walk-EndedWith zero id names enough = absurd (omega arith)
  walk-EndedWith (suc fuel) zero names enough = ([], refl, root, omega arith)
  walk-EndedWith (suc fuel) (suc i) names enough =
      let inside : (suc i == 0) ≡ false = ground arith in
      rw inside (
        node-EndedWith fuel i names (chain_from fuel f nodes) (get (suc i) nodes)
          (λ p ns below. walk-EndedWith fuel p ns below) enough (sym (holds i)))

-- What is collected first stays: later contexts have larger ids.
collect-before :
    (l : List (ℕ × ℕ)) (index i : ℕ) (nodes : Map ℕ (ℕ × ℕ))
    → index + length l < 2 ^ 32
    → i < index
    → get (suc i) (collect_nodes (number_from (index + 1) l) nodes) ≡ get (suc i) nodes
unfolding collect_nodes number_from
collect-before [] index i nodes few low = refl
collect-before ((parent, func) ∷ l) index i nodes few low =
    let id : (index + 1) % 2 ^ 32 ≡ index + 1 = omega arith in
    let other : key_eq (suc i) (index + 1) ≡ false = ground arith in
    rw id (
      collect-before l (index + 1) i (insert (index + 1) (parent, func) nodes) (omega arith)
        (omega arith)
      ∙ get-insert (index + 1) (parent, func) (suc i) nodes
      ∙ rw other refl)

collect-at :
    (l : List (ℕ × ℕ)) (index j : ℕ) (nodes : Map ℕ (ℕ × ℕ))
    → index + length l < 2 ^ 32
    → ((i : ℕ) → index ≤ i → get (suc i) nodes ≡ none)
    → get (suc (index + j)) (collect_nodes (number_from (index + 1) l) nodes) ≡ get_elem? l j
unfolding collect_nodes number_from
collect-at [] index j nodes few free = free (index + j) (omega arith)
collect-at ((parent, func) ∷ l) index zero nodes few free =
    let id : (index + 1) % 2 ^ 32 ≡ index + 1 = omega arith in
    let here : index + 0 ≡ index = omega arith in
    let same : key_eq (suc index) (index + 1) ≡ true = ground arith in
    rw (id, here)
      (collect-before l (index + 1) index (insert (index + 1) (parent, func) nodes) (omega arith)
          (omega arith)
        ∙ get-insert (index + 1) (parent, func) (suc index) nodes
        ∙ rw same refl)
collect-at ((parent, func) ∷ l) index (suc j) nodes few free =
    let id : (index + 1) % 2 ^ 32 ≡ index + 1 = omega arith in
    let next : index + suc j ≡ index + 1 + j = omega arith in
    rw (id, next)
      (collect-at l (index + 1) j (insert (index + 1) (parent, func) nodes) (omega arith) (λ i low.
        let other : key_eq (suc i) (index + 1) ≡ false = ground arith in
        get-insert (index + 1) (parent, func) (suc i) nodes ∙ rw other (free i (omega arith))))

nodes_of-Holds : (t : PathTable) → length t.nodes < 2 ^ 32 → Holds t.nodes (nodes_of t)
unfolding nodes_of path_nodes get
nodes_of-Holds t few i =
    let here : 0 + i ≡ i = omega arith in
    rw here at (collect-at t.nodes 0 i [] (omega (arith, few)) (λ j low. refl))

-- In a table whose contexts form a tree with ids below 2 ^ 32: the walk from any context to the root
-- ends before its fuel does, either with exactly the names of the functions of the contexts from the
-- outermost to the context itself, of which there are at most as many as the context's id, or because
-- a context on the way, or the function of one, has no entry.
pub chain_of-Ended :
    (f : Functions) (t : PathTable) (functions id : ℕ)
    → IsTree t.nodes functions
    → Ended f t.nodes id (chain_of f (nodes_of t) id)
unfolding chain_of
chain_of-Ended f t functions id tree = EndedWith-none f t.nodes id (chain_of f (nodes_of t) id) (
    walk-EndedWith f t.nodes functions tree (nodes_of t) (nodes_of-Holds t tree.few_nodes) (suc id)
      id [] (omega arith))
