-- ===== src/Daemon/Store/Kept.antt =====
-- crates/lightwatch-daemon/src/store.rs: what a context is called never changes.
use lightwatch.Base.{
  ℕ, ◌≡◌, refl, ◌∙◌, ap, List, [], ◌∷◌, Option, none, some, inl, inr, Bool-cases, arith, get,
  get-insert, nat_key, key_eq,
}
use lightwatch.Proto.Wire.{FunctionId, PathId, TypeId, Event, Frame}
use lightwatch.Proto.Wire
use lightwatch.Proto.Dist.{to_buckets}
use lightwatch.Daemon.Window.{CensusReading, newer_held}
use lightwatch.Daemon.Store.State.{ProcessState, PathNode, FunctionState, TypeState}
use lightwatch.Daemon.Store.Graph.{Graph}
use lightwatch.Daemon.Store.Register.{
  register, register_all, register_function, register_type, register_path, is_misnumbered,
  is_orphan, add_node, same_node, caller_of,
}
use lightwatch.Daemon.Store.Totals.{
  apply_event, apply_stack, apply_calls, apply_census, accumulate_totals, add_totals,
  charge_function, charge_state, add_caller, count_event, duration_total,
}
use lightwatch.Daemon.Store.Apply.{
  apply_frame, note_frame, close_open_window_before, fold_into_rings,
}
use lightwatch.Daemon.Store.History.{run, close-graph, fold-graph, send-graph}

add_node-keeps :
    (s : ProcessState) (id i : PathId) (node n : PathNode) (o : Option PathNode)
    → get id s.paths ≡ o
    → get i s.paths ≡ some n
    → get i (add_node s id node o).paths ≡ some n
add_node-keeps s id i node n none free e = elim (Bool-cases (key_eq i id)) [
  | inl same ↦
      let key : i ≡ id = ground arith in let gone : get i s.paths ≡ none = rw key free in cc
  | inr other ↦ get-insert id node i s.paths ∙ rw other e
]
add_node-keeps s id i node n (some existing) held e = elim (Bool-cases (same_node existing node)) [
  | inl same ↦ rw same e
  | inr other ↦ rw other e
]

register-keeps :
    (s : ProcessState) (r : Wire.Register) (i : PathId) (n : PathNode)
    → get i s.paths ≡ some n
    → get i (register s r).paths ≡ some n
unfolding register register_function register_type register_path
register-keeps s (Wire.Register.function id name m l) i n e = e
register-keeps s (Wire.Register.ty id name l) i n e = e
register-keeps s (Wire.Register.path id parent func) i n e =
    elim (Bool-cases (is_misnumbered s id parent func)) [
      | inl bad ↦ rw bad e
      | inr ok ↦ elim (Bool-cases (is_orphan s parent)) [
        | inl alone ↦ rw (ok, alone) e
        | inr attached ↦
            rw (ok, attached)
              (add_node-keeps s id i (record { parent = parent; func = func }) n (get id s.paths)
                refl e)
      ]
    ]

register_all-keeps :
    (s : ProcessState) (rs : List Wire.Register) (i : PathId) (n : PathNode)
    → get i s.paths ≡ some n
    → get i (register_all s rs).paths ≡ some n
unfolding register_all
register_all-keeps s [] i n e = e
register_all-keeps s (r ∷ rs) i n e =
    register_all-keeps (register s r) rs i n (register-keeps s r i n e)

charge-paths :
    (s : ProcessState) (f : FunctionId) (k : ℕ) (o : Option FunctionState)
    → (charge_state s f k o).paths ≡ s.paths
charge-paths s f k none = refl
charge-paths s f k (some st) = refl

caller-paths :
    (s : ProcessState) (path : PathId) (f : FunctionId) (count k : ℕ) (o : Option FunctionId)
    → (add_caller s path f count k o).0.paths ≡ s.paths
caller-paths s path f count k none = refl
caller-paths s path f count k (some c) = refl

census-paths :
    (s : ProcessState) (ty : TypeId) (taken : CensusReading) (o : Option TypeState)
    → (apply_census s ty taken o).0.paths ≡ s.paths
census-paths s ty taken none = refl
census-paths s ty taken (some st) = elim (Bool-cases (newer_held st.latest taken)) [
  | inl newer ↦ rw newer
  | inr older ↦ rw older
]

apply_event-paths :
    (s : ProcessState) (e : Event) (t_ns : ℕ) → (apply_event s e t_ns).0.paths ≡ s.paths
unfolding apply_event add_totals charge_function
apply_event-paths s (Wire.Event.calls f count ns) t_ns = at (get f s.functions)
  where
    at :
        (o : Option FunctionState)
        → (apply_calls
            (count_event s)
            f
            count
            (duration_total ns (to_buckets ns))
            (to_buckets ns)
            o).0.paths
          ≡ s.paths
    at none = refl
    at (some st) = refl
apply_event-paths s (Wire.Event.stack path count k) t_ns = at (get path s.paths)
  where
    at : (o : Option PathNode) → (apply_stack (count_event s) path count k o).0.paths ≡ s.paths
    at none = refl
    at (some node) =
        let totals = add_totals (count_event s) path count k in
        let charged = charge_function totals node.func k in
        caller-paths charged path node.func count k (caller_of charged node)
        ∙ charge-paths totals node.func k (get node.func totals.functions)
apply_event-paths s (Wire.Event.census ty live bytes sizes) t_ns =
    census-paths (count_event s) ty _ (get ty s.types)

accumulate_totals-paths :
    (s : ProcessState) (es : List Event) (t_ns : ℕ)
    → (accumulate_totals s es t_ns).0.paths ≡ s.paths
unfolding accumulate_totals
accumulate_totals-paths s [] t_ns = refl
accumulate_totals-paths s (e ∷ es) t_ns =
    accumulate_totals-paths (apply_event s e t_ns).0 es t_ns ∙ apply_event-paths s e t_ns

-- Only its registers name contexts.
pub apply_frame-paths :
    (s : ProcessState) (frame : Frame) (now : ℕ)
    → (apply_frame s frame now).paths
      ≡ (register_all (note_frame s frame now) frame.registers).paths
unfolding apply_frame
apply_frame-paths s frame now =
    let t : ℕ = frame.t_ns in
    let registered = register_all (note_frame s frame now) frame.registers in
    let opened = close_open_window_before registered t in
    let totalled = accumulate_totals opened.0 frame.events t in
    let folded = fold_into_rings totalled.0 totalled.1 t in
    ap Graph.paths (send-graph opened.1 folded ∙ fold-graph totalled.0 totalled.1 t)
    ∙ accumulate_totals-paths opened.0 frame.events t
    ∙ ap Graph.paths (close-graph registered t)

apply_frame-keeps :
    (s : ProcessState) (frame : Frame) (now : ℕ) (i : PathId) (n : PathNode)
    → get i s.paths ≡ some n
    → get i (apply_frame s frame now).paths ≡ some n
unfolding note_frame
apply_frame-keeps s frame now i n e =
    ap (get i) (apply_frame-paths s frame now)
    ∙ register_all-keeps (note_frame s frame now) frame.registers i n e

-- A context that a process knows keeps its parent and its function, whatever frames come.
pub run-keeps :
    (s : ProcessState) (frames : List (Frame × ℕ)) (i : PathId) (n : PathNode)
    → get i s.paths ≡ some n
    → get i (run s frames).paths ≡ some n
unfolding run
run-keeps s [] i n e = e
run-keeps s ((frame, now) ∷ frames) i n e =
    run-keeps (apply_frame s frame now) frames i n (apply_frame-keeps s frame now i n e)
