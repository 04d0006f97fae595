-- ===== src/Probe/Registry/Running.antt =====
-- crates/lightwatch-probe/src/registry.rs and census.rs: the steps of a running program on the tables.
use lightwatch.Base.{
  ℕ, ◌+◌, ◌^◌, ◌≤◌, ◌<◌, ◌≡◌, ◌∙◌, ap, inl, inr, List, [], ◌∷◌, ◌++◌, some, arith, length,
  length-append, get_elem?, get_elem?-append, get_elem?_snoc,
}
use lightwatch.Probe.Paths.{intern_path}
use lightwatch.Probe.Census.{Census, from_bytes, clone_census, drop_census}
use lightwatch.Probe.Registry.{Tables, site_id}
use lightwatch.Probe.Registry.Knows.{IsTree}
use lightwatch.Probe.Registry.Accepted.{IsSendable}
use lightwatch.Probe.Registry.Growth.{
  GrownFunctions, GrownTypes, Interning, same, one_more, site_id-Grown, from_bytes-Grown,
  clone-Grown, drop-Grown, clone-types, drop-types, intern_path-Interning, same-Grown,
}

-- Tables that have only grown: what was interned keeps its position and its name.
pub record Extends (t t' : Tables) : Type 0 where
  pub functions :
      (i site : ℕ)
      → get_elem? t.functions.functions i ≡ some site
      → (get_elem? t'.functions.functions i ≡ some site)
        × ((t'.functions.sites site).name ≡ (t.functions.sites site).name)
  pub more_functions : length t.functions.functions ≤ length t'.functions.functions
  pub types :
      (i slot : ℕ)
      → get_elem? t.types.types i ≡ some slot
      → (get_elem? t'.types.types i ≡ some slot)
        × ((t'.types.slots slot).name ≡ (t.types.slots slot).name)
  pub more_types : length t.types.types ≤ length t'.types.types
  pub paths :
      (i : ℕ) (pair : ℕ × ℕ)
      → get_elem? t.paths.nodes i ≡ some pair
      → get_elem? t'.paths.nodes i ≡ some pair
  pub longer : length t.paths.nodes ≤ length t'.paths.nodes

-- One step of the program: a function is called for its id; a value of a counted type is built,
-- cloned or dropped; a context is interned under the root or a context of the table, for a function of
-- the table. The tables stay below 2 ^ 32 entries, of which the cap of the contexts is one.
pub data Step : Tables → Tables → Type 0 where
  enters :
      (t : Tables) (site : ℕ)
      → length t.functions.functions + 1 < 2 ^ 32
      → Step t (record t { functions = (site_id site t.functions).0 })
  builds :
      (t : Tables) (slot bytes : ℕ)
      → length t.types.types + 1 < 2 ^ 32
      → Step t (record t { types = (from_bytes slot bytes t.types).0 })
  clones :
      (t : Tables) (token : Census) → Step t (record t { types = (clone_census token t.types).0 })
  drops : (t : Tables) (token : Census) → Step t (record t { types = drop_census token t.types })
  interns :
      (t : Tables) (limit parent func : ℕ)
      → limit < 2 ^ 32
      → parent ≤ length t.paths.nodes
      → 0 < func
      → func ≤ length t.functions.functions
      → Step t (record t { paths = (intern_path limit parent func t.paths).0 })

pub data Running : Tables → Tables → Type 0 where
  idle : (t : Tables) → Running t t
  further : (t t' t'' : Tables) → Running t t' → Step t' t'' → Running t t''

more-IsTree :
    (nodes : List (ℕ × ℕ)) (n m : ℕ) → n ≤ m → m < 2 ^ 32 → IsTree nodes n → IsTree nodes m
more-IsTree nodes n m low few tree = record {
  nested = λ i parent func e.
      let (above, pos, known) = tree.nested i parent func e in
      (above, pos, omega (arith, known, low));
  few_nodes = tree.few_nodes;
  few_functions = few;
}

snoc-IsTree :
    (nodes : List (ℕ × ℕ)) (n parent func : ℕ)
    → length nodes + 1 < 2 ^ 32
    → parent ≤ length nodes
    → 0 < func
    → func ≤ n
    → IsTree nodes n
    → IsTree (nodes ++ ((parent, func) ∷ [])) n
snoc-IsTree nodes n parent func few low pos known tree = record {
  nested = λ i p g e. elim (get_elem?_snoc nodes (parent, func) i (p, g) e) [
    | inl old ↦ tree.nested i p g old
    | inr (last, is) ↦
        let is_parent : parent ≡ p = ap (λ (q : ℕ × ℕ). q.0) is in
        let is_func : func ≡ g = ap (λ (q : ℕ × ℕ). q.1) is in
        (
          omega (arith, last, is_parent, low),
          omega (arith, is_func, pos),
          omega (arith, is_func, known),
        )
  ];
  few_nodes = omega (arith, length-append nodes ((parent, func) ∷ []), few);
  few_functions = tree.few_functions;
}

interned-IsTree :
    (limit parent func n : ℕ) (old new : List (ℕ × ℕ))
    → Interning limit (parent, func) old new
    → limit < 2 ^ 32
    → parent ≤ length old
    → 0 < func
    → func ≤ n
    → IsTree old n
    → IsTree new n
interned-IsTree limit parent func n old new (same e) few low pos known tree = rw e tree
interned-IsTree limit parent func n old new (one_more room e) few low pos known tree =
    rw e (snoc-IsTree old n parent func (omega (arith, room, few)) low pos known tree)

pub Step-IsSendable : (t t' : Tables) → Step t t' → IsSendable t → IsSendable t'
Step-IsSendable t t' (enters _ site few) ok =
    let g = site_id-Grown site t.functions in
    record {
      tree =
          more-IsTree t.paths.nodes (length t.functions.functions) _ g.longer
            (omega (arith, g.by_one, few)) ok.tree;
      few_types = ok.few_types;
    }
Step-IsSendable t t' (builds _ slot bytes few) ok =
    let g = from_bytes-Grown slot bytes t.types in
    record { tree = ok.tree; few_types = omega (arith, g.by_one, few) }
Step-IsSendable t t' (clones _ token) ok = record {
  tree = ok.tree;
  few_types = rw (clone-types token t.types) ok.few_types;
}
Step-IsSendable t t' (drops _ token) ok = record {
  tree = ok.tree;
  few_types = rw (drop-types token t.types) ok.few_types;
}
Step-IsSendable t t' (interns _ limit parent func few low pos known) ok = record {
  tree =
      interned-IsTree limit parent func (length t.functions.functions) t.paths.nodes _
        (intern_path-Interning limit parent func t.paths) few low pos known ok.tree;
  few_types = ok.few_types;
}

same_functions : (t : Tables) → GrownFunctions t.functions t.functions
same_functions t = same-Grown _ t.functions.sites t.functions.functions

same_types : (t : Tables) → GrownTypes t.types t.types
same_types t = same-Grown _ t.types.slots t.types.types

grown-Extends :
    (t t' : Tables)
    → GrownFunctions t.functions t'.functions
    → GrownTypes t.types t'.types
    → ((i : ℕ) (pair : ℕ × ℕ)
        → get_elem? t.paths.nodes i ≡ some pair
        → get_elem? t'.paths.nodes i ≡ some pair)
    → length t.paths.nodes ≤ length t'.paths.nodes
    → Extends t t'
grown-Extends t t' f ty paths longer = record {
  functions = f.kept;
  more_functions = f.longer;
  types = ty.kept;
  more_types = ty.longer;
  paths = paths;
  longer = longer;
}

interned-kept :
    (limit : ℕ) (x : ℕ × ℕ) (old new : List (ℕ × ℕ))
    → Interning limit x old new
    → ((i : ℕ) (pair : ℕ × ℕ) → get_elem? old i ≡ some pair → get_elem? new i ≡ some pair)
      × (length old ≤ length new)
interned-kept limit x old new (same e) = rw e ((λ i pair there. there), omega arith)
interned-kept limit x old new (one_more room e) = rw e (
  (λ i pair there. get_elem?-append old (x ∷ []) i pair there),
  omega (arith, length-append old (x ∷ [])),
)

pub Step-Extends : (t t' : Tables) → Step t t' → Extends t t'
Step-Extends t t' (enters _ site few) =
    grown-Extends t t' (site_id-Grown site t.functions) (same_types t) (λ i pair e. e) (omega arith)
Step-Extends t t' (builds _ slot bytes few) =
    grown-Extends t t' (same_functions t) (from_bytes-Grown slot bytes t.types) (λ i pair e. e)
      (omega arith)
Step-Extends t t' (clones _ token) =
    grown-Extends t t' (same_functions t) (clone-Grown token t.types) (λ i pair e. e) (omega arith)
Step-Extends t t' (drops _ token) =
    grown-Extends t t' (same_functions t) (drop-Grown token t.types) (λ i pair e. e) (omega arith)
Step-Extends t t' (interns _ limit parent func few low pos known) =
    let k =
      interned-kept limit (parent, func) t.paths.nodes _
        (intern_path-Interning limit parent func t.paths) in
    grown-Extends t t' (same_functions t) (same_types t) k.0 k.1

same-Extends : (t : Tables) → Extends t t
same-Extends t = grown-Extends t t (same_functions t) (same_types t) (λ i pair e. e) (omega arith)

Extends_trans : (a b c : Tables) → Extends a b → Extends b c → Extends a c
Extends_trans a b c x y = record {
  functions = λ i site e.
      let first = x.functions i site e in
      let second = y.functions i site first.0 in (second.0, second.1 ∙ first.1);
  more_functions = omega (arith, x.more_functions, y.more_functions);
  types = λ i slot e.
      let first = x.types i slot e in
      let second = y.types i slot first.0 in (second.0, second.1 ∙ first.1);
  more_types = omega (arith, x.more_types, y.more_types);
  paths = λ i pair e. y.paths i pair (x.paths i pair e);
  longer = omega (arith, x.longer, y.longer);
}

pub Running-IsSendable : (t t' : Tables) → Running t t' → IsSendable t → IsSendable t'
Running-IsSendable t t' (idle _) ok = ok
Running-IsSendable t t' (further _ b _ before last) ok =
    Step-IsSendable b t' last (Running-IsSendable t b before ok)

pub Running-Extends : (t t' : Tables) → Running t t' → Extends t t'
Running-Extends t t' (idle _) = same-Extends t
Running-Extends t t' (further _ b _ before last) =
    Extends_trans t b t' (Running-Extends t b before) (Step-Extends b t' last)
