-- ===== src/Daemon/Api/Whole.antt =====
-- crates/lightwatch-daemon/src/api.rs: a snapshot read as a graph, the way its client does.
use lightwatch.Base.{
  ℕ, ◌+◌, ◌<◌, ◌≡◌, refl, sym, ◌∙◌, ap, ◌⊎◌, inl, inr, true, false, List, [], ◌∷◌, map, Option,
  none, some, Bool-cases, arith, min, ◌==◌, if◌then◌else◌, All, Map, nat_key, key_eq, get, get-head,
  get-tail, IsAscending, sum_map, u64_max,
}
use lightwatch.Proto.Wire.{Frame, Hello}
use lightwatch.Daemon.Store.State.{ProcessState, ProcessId, PathNode, new_state}
use lightwatch.Daemon.Store.Graph.{graph_of, IsTree, NodeOk, Agrees, Known, self_share, self_sum}
use lightwatch.Daemon.Store.History.{run, run-Agrees}
use lightwatch.Daemon.Api.Shapes.{PathJson, FunctionJson, Snapshot, SnapshotView}
use lightwatch.Daemon.Api.Snapshot.{Floats, path_json, function_json, snapshot}

-- Some element of the list has the id.
abbrev pub Listed : {A : Type 0} → (A → ℕ) → ℕ → List A → Type 0
Listed id_of n [] = ⊥
Listed id_of n (x ∷ xs) = (id_of x ≡ n) ⊎ Listed id_of n xs

-- The first element with the id.
abbrev pub look_for : {A : Type 0} → (A → ℕ) → ℕ → List A → Option A
look_for id_of n [] = none
look_for id_of n (x ∷ xs) = if n == id_of x then some x else look_for id_of n xs

-- The self time of the listed contexts of one function.
abbrev pub listed_self : ℕ → List PathJson → ℕ
listed_self func [] = 0
listed_self func (p ∷ ps) = (if p.func == func then p.self_ns_total else 0) + listed_self func ps

-- A context of a snapshot: it hangs off nothing or off a listed context with a smaller id, and its
-- function is listed.
pub record IsPlaced {Float : Type 0} (s : Snapshot Float) (p : PathJson) : Type 0 where
  pub above : p.parent < p.id
  pub rooted : (p.parent ≡ 0) ⊎ Listed PathJson.id p.parent s.paths
  pub named : Listed (FunctionJson.id {Float = Float}) p.func s.functions

module _ {V A : Type 0} (id_of : A → ℕ) (make : ℕ × V → A)
    (keeps : (p : ℕ × V) → id_of (make p) ≡ p.0) where
  Known-Listed : (k : ℕ) (m : Map ℕ V) → Known k m → Listed id_of k (map make m)
  unfolding get
  Known-Listed k [] h = cc
  Known-Listed k ((j, v) ∷ m) h = elim (Bool-cases (key_eq k j)) [
    | inl same ↦ let key : k ≡ j = ground arith in inl (keeps (j, v) ∙ sym key)
    | inr other ↦ inr (Known-Listed k m (rw other at h))
  ]

  look_for-get :
      (k : ℕ) (m : Map ℕ V) (x : A)
      → look_for id_of k (map make m) ≡ some x
      → (v : V) × (get k m ≡ some v) × (x ≡ make (k, v))
  unfolding get
  look_for-get k [] x e = cc
  look_for-get k ((j, v) ∷ m) x e = elim (Bool-cases (key_eq k j)) [
    | inl same ↦
        let key : k ≡ j = ground arith in
        let hit : (k == id_of (make (j, v))) ≡ true = ground (arith, keeps (j, v)) in
        let found : some (make (j, v)) ≡ some x = rw hit at e in
        let is : make (j, v) ≡ x = ground arith in
        (v, rw same refl, sym is ∙ ap (λ i. make (i, v)) (sym key))
    | inr other ↦
        let miss : (k == id_of (make (j, v))) ≡ false = ground (arith, keeps (j, v)) in
        let (u, held, is) = look_for-get k m x (rw miss at e) in (u, rw other held, is)
  ]

-- What holds of every entry of an ascending map holds all along the list made of it.
All-entries :
    {V A : Type 0} (make : ℕ × V → A) (P : A → Type 0) (m : Map ℕ V)
    → IsAscending m
    → ((k : ℕ) (v : V) → get k m ≡ some v → P (make (k, v)))
    → All P (map make m)
All-entries make P [] asc h = tt
All-entries make P ((k, v) ∷ m) asc h = (
  h k v (get-head k v m),
  All-entries make P m asc.1 (λ j u e. h j u (get-tail k j v u m asc.0 e)),
)

listed-self_sum :
    (s : ProcessState) (func : ℕ) (m : Map ℕ PathNode)
    → listed_self func (map (λ p. path_json s p.0 p.1) m) ≡ sum_map (self_share (graph_of s) func) m
unfolding path_json
listed-self_sum s func [] = refl
listed-self_sum s func ((id, node) ∷ m) = omega (arith, listed-self_sum s func m)

module _ (floats : Floats) (s : ProcessState) (taken : ℕ) (view : SnapshotView) where
  path-IsPlaced :
      (id : ℕ) (node : PathNode)
      → IsTree (graph_of s)
      → get id s.paths ≡ some node
      → IsPlaced (snapshot floats s taken view) (path_json s id node)
  unfolding snapshot path_json function_json
  path-IsPlaced id node tree e =
      let ok : NodeOk (graph_of s) id node = tree id node e in
      record {
        above = ok.above;
        rooted = elim ok.rooted [
          | inl root ↦ inl root
          | inr known ↦ inr (
              Known-Listed PathJson.id (λ p. path_json s p.0 p.1) (λ p. refl) node.parent s.paths
                known)
        ];
        named =
            Known-Listed (FunctionJson.id {Float = floats.Float}) _ (λ p. refl) node.func
              s.functions ok.named;
      }

  agreed-IsPlaced :
      Agrees (graph_of s)
      → All (IsPlaced (snapshot floats s taken view)) (snapshot floats s taken view).paths
  unfolding snapshot
  agreed-IsPlaced a =
      All-entries (λ p. path_json s p.0 p.1) (IsPlaced (snapshot floats s taken view)) s.paths
        a.ordered (λ id node e. path-IsPlaced id node a.tree e)

  agreed_self :
      (f : FunctionJson floats.Float)
      → Agrees (graph_of s)
      → look_for
          (FunctionJson.id {Float = floats.Float})
          f.id
          (snapshot floats s taken view).functions
        ≡ some f
      → f.self_ns_total ≡ min u64_max (listed_self f.id (snapshot floats s taken view).paths)
  unfolding snapshot function_json
  agreed_self f a e =
      let (state, held, is) =
        look_for-get (FunctionJson.id {Float = floats.Float}) _ (λ p. refl) f.id s.functions f e in
      let own : f.self_ns_total ≡ state.self_ns_total.value =
        ap (FunctionJson.self_ns_total {Float = floats.Float}) is in
      let sums : state.self_ns_total.value ≡ min u64_max (self_sum (graph_of s) f.id) =
        rw held at (a.self_time f.id) in
      own ∙ sums ∙ ap (min u64_max) (sym (listed-self_sum s f.id s.paths))

module _ (floats : Floats) (id : ProcessId) (hello : Hello) (frames : List (Frame × ℕ)) (taken : ℕ)
    (view : SnapshotView) where
  -- The snapshot of a process, of any view and at any time.
  abbrev pub shown : Snapshot floats.Float
  shown = snapshot floats (run (new_state id hello) frames) taken view

  -- Whatever frames a stream has sent: every context that the snapshot of its process lists has a
  -- parent with a smaller id, which is 0 or listed too, and a function that is listed.
  pub snapshot-IsPlaced : All (IsPlaced shown) shown.paths
  snapshot-IsPlaced =
      agreed-IsPlaced floats (run (new_state id hello) frames) taken view
        (run-Agrees id hello frames)

  -- Whatever frames a stream has sent: the self time that the snapshot of its process shows for a
  -- function, as one finds it by its id, is the sum of the self times that it lists for the contexts
  -- of that function, cut at 2 ^ 64 - 1.
  pub snapshot-listed_self :
      (f : FunctionJson floats.Float)
      → look_for (FunctionJson.id {Float = floats.Float}) f.id shown.functions ≡ some f
      → f.self_ns_total ≡ min u64_max (listed_self f.id shown.paths)
  snapshot-listed_self f e =
      agreed_self floats (run (new_state id hello) frames) taken view f (run-Agrees id hello frames)
        e
