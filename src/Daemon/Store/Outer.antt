-- ===== src/Daemon/Store/Outer.antt =====
-- What registrations and events leave alone: the rings, the stream's counters, the connections.
use lightwatch.Base.{
  ℕ, ◌≡◌, refl, ◌∙◌, List, [], ◌∷◌, Option, none, some, inl, inr, Bool-cases, get, nat_key,
}
use lightwatch.Proto.Wire.{FunctionId, PathId, TypeId, Event}
use lightwatch.Proto.Wire
use lightwatch.Proto.Dist.{to_buckets, Buckets}
use lightwatch.Daemon.Window.{CensusReading, newer_held}
use lightwatch.Daemon.Ring.{Ring}
use lightwatch.Daemon.Store.State.{ProcessState, PathNode, FunctionState, TypeState, Update}
use lightwatch.Daemon.Store.Register.{
  register, register_all, register_function, register_type, register_path, caller_of,
  is_misnumbered, is_orphan, add_node, same_node,
}
use lightwatch.Daemon.Store.Totals.{
  apply_event, apply_calls, apply_stack, apply_census, accumulate_totals, duration_total,
  add_totals, charge_function, charge_state, count_event, add_caller,
}

pub record Outer : Type 0 where
  pub frames : ℕ
  pub malformed_lines : ℕ
  pub missed_frames : ℕ
  pub late_frames : ℕ
  pub last_seq : Option ℕ
  pub last_t_ns : ℕ
  pub fine : Ring
  pub coarse : Ring
  pub open_fine_index : Option ℕ
  pub live_connections : ℕ
  pub ended_unix_ms : Option ℕ
  pub updates : List Update

abbrev pub outer_of : ProcessState → Outer
outer_of s = record {
  frames = s.counts.frames;
  malformed_lines = s.counts.malformed_lines;
  missed_frames = s.counts.missed_frames;
  late_frames = s.counts.late_frames;
  last_seq = s.last_seq;
  last_t_ns = s.last_t_ns;
  fine = s.fine;
  coarse = s.coarse;
  open_fine_index = s.open_fine_index;
  live_connections = s.live_connections;
  ended_unix_ms = s.ended_unix_ms;
  updates = s.updates;
}

add_node-outer :
    (s : ProcessState) (id : PathId) (node : PathNode) (o : Option PathNode)
    → outer_of (add_node s id node o) ≡ outer_of s
add_node-outer s id node none = refl
add_node-outer s id node (some n) = elim (Bool-cases (same_node n node)) [
  | inl same ↦ rw same
  | inr other ↦ rw other
]

register_path-outer :
    (s : ProcessState) (id parent : PathId) (func : FunctionId)
    → outer_of (register_path s id parent func) ≡ outer_of s
unfolding register_path
register_path-outer s id parent func = elim (Bool-cases (is_misnumbered s id parent func)) [
  | inl bad ↦ rw bad
  | inr ok ↦ elim (Bool-cases (is_orphan s parent)) [
    | inl alone ↦ rw (ok, alone)
    | inr attached ↦ rw (ok, attached) (add_node-outer s id _ (get id s.paths))
  ]
]

register-outer : (s : ProcessState) (r : Wire.Register) → outer_of (register s r) ≡ outer_of s
unfolding register register_function register_type
register-outer s (Wire.Register.function id name m l) = refl
register-outer s (Wire.Register.ty id name l) = refl
register-outer s (Wire.Register.path id parent func) = register_path-outer s id parent func

pub register_all-outer :
    (s : ProcessState) (rs : List Wire.Register) → outer_of (register_all s rs) ≡ outer_of s
unfolding register_all
register_all-outer s [] = refl
register_all-outer s (r ∷ rs) = register_all-outer (register s r) rs ∙ register-outer s r

charge_state-outer :
    (s : ProcessState) (f : FunctionId) (n : ℕ) (o : Option FunctionState)
    → outer_of (charge_state s f n o) ≡ outer_of s
charge_state-outer s f n none = refl
charge_state-outer s f n (some st) = refl

add_caller-outer :
    (s : ProcessState) (path : PathId) (f : FunctionId) (count n : ℕ) (o : Option FunctionId)
    → outer_of (add_caller s path f count n o).0 ≡ outer_of s
add_caller-outer s path f count n none = refl
add_caller-outer s path f count n (some c) = refl

stack-outer :
    (s : ProcessState) (path : PathId) (count n : ℕ) (o : Option PathNode)
    → outer_of (apply_stack s path count n o).0 ≡ outer_of s
unfolding add_totals charge_function
stack-outer s path count n none = refl
stack-outer s path count n (some node) =
    let totals = add_totals s path count n in
    let charged = charge_function totals node.func n in
    add_caller-outer charged path node.func count n (caller_of charged node)
    ∙ charge_state-outer totals node.func n (get node.func totals.functions)

calls-outer :
    (s : ProcessState) (f : FunctionId) (count elapsed : ℕ) (b : Buckets) (o : Option FunctionState)
    → outer_of (apply_calls s f count elapsed b o).0 ≡ outer_of s
calls-outer s f count elapsed b none = refl
calls-outer s f count elapsed b (some st) = refl

census-outer :
    (s : ProcessState) (ty : TypeId) (taken : CensusReading) (o : Option TypeState)
    → outer_of (apply_census s ty taken o).0 ≡ outer_of s
census-outer s ty taken none = refl
census-outer s ty taken (some st) = elim (Bool-cases (newer_held st.latest taken)) [
  | inl newer ↦ rw newer
  | inr older ↦ rw older
]

apply_event-outer :
    (s : ProcessState) (e : Event) (t_ns : ℕ) → outer_of (apply_event s e t_ns).0 ≡ outer_of s
unfolding apply_event
apply_event-outer s (Wire.Event.calls f count ns) t_ns =
    calls-outer (count_event s) f count (duration_total ns (to_buckets ns)) (to_buckets ns)
      (get f s.functions)
apply_event-outer s (Wire.Event.stack path count n) t_ns =
    stack-outer (count_event s) path count n (get path s.paths)
apply_event-outer s (Wire.Event.census ty live bytes sizes) t_ns =
    census-outer (count_event s) ty _ (get ty s.types)

pub accumulate_totals-outer :
    (s : ProcessState) (es : List Event) (t_ns : ℕ)
    → outer_of (accumulate_totals s es t_ns).0 ≡ outer_of s
unfolding accumulate_totals
accumulate_totals-outer s [] t_ns = refl
accumulate_totals-outer s (e ∷ es) t_ns =
    accumulate_totals-outer (apply_event s e t_ns).0 es t_ns ∙ apply_event-outer s e t_ns
