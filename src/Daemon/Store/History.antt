-- ===== src/Daemon/Store/History.antt =====
-- Whole frames: the call tree grows and never changes, and the sums beside it agree with it.
use lightwatch.Base.{
  ℕ, ◌≡◌, refl, sym, subst, true, false, inl, inr, List, [], ◌∷◌, Option, none, some, Bool-cases,
  Option-cases, get, insert, nat_key, ltb, ◌∙◌,
}
use lightwatch.Proto.Wire.{FunctionId, PathId, TypeId, Location, Event, Frame, Hello}
use lightwatch.Proto.Wire
use lightwatch.Proto.Dist.{to_buckets, Buckets}
use lightwatch.Daemon.Window.{Window, CensusReading, newer_held}
use lightwatch.Daemon.Ring.{index_of}
use lightwatch.Daemon.Store.State.{
  ProcessState, PathNode, FunctionState, TypeState, new_state, ProcessId,
}
use lightwatch.Daemon.Store.Register.{
  register, register_all, register_function, register_type, register_path, caller_of,
}
use lightwatch.Daemon.Store.Totals.{
  Applied, apply_event, apply_calls, apply_stack, apply_census, accumulate_totals, add_caller,
  duration_total, add_totals, charge_function, count_event,
}
use lightwatch.Daemon.Store.Apply.{
  apply_frame, note_frame, close_open_window_before, close_at, fold_into_rings, send_closed,
}
use lightwatch.Daemon.Store.Graph.{graph_of, Agrees, caller_in}
use lightwatch.Daemon.Store.Tree.{named-Agrees, register_path-Registers, Registers-Agrees}
use lightwatch.Daemon.Store.Agreement.{stacked-Agrees, stacked, edges_with, charged_state}

register-Agrees :
    (s : ProcessState) (r : Wire.Register) → Agrees (graph_of s) → Agrees (graph_of (register s r))
unfolding register register_function register_type
register-Agrees s (Wire.Register.function id name m l) a = named-Agrees (graph_of s) id _ refl a
register-Agrees s (Wire.Register.ty id name l) a = a
register-Agrees s (Wire.Register.path id parent func) a =
    Registers-Agrees s id parent func (register_path s id parent func)
      (register_path-Registers s id parent func) a

register_all-Agrees :
    (s : ProcessState) (rs : List Wire.Register)
    → Agrees (graph_of s)
    → Agrees (graph_of (register_all s rs))
unfolding register_all
register_all-Agrees s [] a = a
register_all-Agrees s (r ∷ rs) a = register_all-Agrees (register s r) rs (register-Agrees s r a)

calls-Agrees :
    (s : ProcessState) (func : FunctionId) (count elapsed : ℕ) (b : Buckets)
    (o : Option FunctionState)
    → get func s.functions ≡ o
    → Agrees (graph_of s)
    → Agrees (graph_of (apply_calls s func count elapsed b o).0)
calls-Agrees s func count elapsed b none e a = a
calls-Agrees s func count elapsed b (some st) e a = named-Agrees (graph_of s) func _ (rw e) a

charge_known :
    (s : ProcessState) (f : FunctionId) (n : ℕ) (st : FunctionState)
    → get f s.functions ≡ some st
    → charge_function s f n ≡ record s { functions = insert f (charged_state st n) s.functions }
unfolding charge_function
charge_known s f n st e = rw e

add_caller-graph :
    (s : ProcessState) (path : PathId) (func : FunctionId) (count self_ns : ℕ)
    (o : Option FunctionId)
    → graph_of (add_caller s path func count self_ns o).0
      ≡ record (graph_of s) { edges = edges_with (graph_of s) func count o }
add_caller-graph s path func count self_ns none = refl
add_caller-graph s path func count self_ns (some c) = refl

caller_of-graph :
    (s : ProcessState) (node : PathNode) → caller_of s node ≡ caller_in (graph_of s) node
unfolding caller_of
caller_of-graph s node = elim (Option-cases (get node.parent s.paths)) [
  | inl e ↦ rw e
  | inr (n, e) ↦ rw e
]

stack_graph :
    (s : ProcessState) (path : PathId) (count self_ns : ℕ) (node : PathNode) (st : FunctionState)
    → get node.func s.functions ≡ some st
    → graph_of (apply_stack s path count self_ns (some node)).0
      ≡ stacked (graph_of s) path node count self_ns st (caller_in (graph_of s) node)
unfolding add_totals
stack_graph s path count self_ns node st known =
    let totals = add_totals s path count self_ns in
    let e = charge_known totals node.func self_ns st known in
    let charged = charge_function totals node.func self_ns in
    add_caller-graph charged path node.func count self_ns (caller_of charged node)
    ∙ rw (e, caller_of-graph) refl

stack-Agrees :
    (s : ProcessState) (path : PathId) (count self_ns : ℕ) (o : Option PathNode)
    → get path s.paths ≡ o
    → Agrees (graph_of s)
    → Agrees (graph_of (apply_stack s path count self_ns o).0)
stack-Agrees s path count self_ns none e a = a
stack-Agrees s path count self_ns (some node) e a =
    elim (Option-cases (get node.func s.functions)) [
      | inl gone ↦
          let named = (a.tree path node e).named in
          let never : false ≡ true = rw gone at named in absurd (cc)
      | inr (st, known) ↦ subst Agrees (sym (stack_graph s path count self_ns node st known)) (
          stacked-Agrees (graph_of s) path node count self_ns st a e known
            (caller_in (graph_of s) node) refl)
    ]

census-Agrees :
    (s : ProcessState) (ty : TypeId) (taken : CensusReading) (o : Option TypeState)
    → Agrees (graph_of s)
    → Agrees (graph_of (apply_census s ty taken o).0)
census-Agrees s ty taken none a = a
census-Agrees s ty taken (some st) a = elim (Bool-cases (newer_held st.latest taken)) [
  | inl newer ↦ rw newer a
  | inr older ↦ rw older a
]

apply_event-Agrees :
    (s : ProcessState) (e : Event) (t_ns : ℕ)
    → Agrees (graph_of s)
    → Agrees (graph_of (apply_event s e t_ns).0)
unfolding apply_event
apply_event-Agrees s (Wire.Event.calls func count ns) t_ns a =
    calls-Agrees (count_event s) func count (duration_total ns (to_buckets ns)) (to_buckets ns)
      (get func s.functions) refl a
apply_event-Agrees s (Wire.Event.stack path count self_ns) t_ns a =
    stack-Agrees (count_event s) path count self_ns (get path s.paths) refl a
apply_event-Agrees s (Wire.Event.census ty live bytes sizes) t_ns a =
    census-Agrees (count_event s) ty _ (get ty s.types) a

accumulate_totals-Agrees :
    (s : ProcessState) (es : List Event) (t_ns : ℕ)
    → Agrees (graph_of s)
    → Agrees (graph_of (accumulate_totals s es t_ns).0)
unfolding accumulate_totals
accumulate_totals-Agrees s [] t_ns a = a
accumulate_totals-Agrees s (e ∷ es) t_ns a =
    accumulate_totals-Agrees (apply_event s e t_ns).0 es t_ns (apply_event-Agrees s e t_ns a)

pub close-graph :
    (s : ProcessState) (t_ns : ℕ) → graph_of (close_open_window_before s t_ns).0 ≡ graph_of s
unfolding close_open_window_before
close-graph s t_ns = at s.open_fine_index
  where
    at : (o : Option ℕ) → graph_of (close_at s (index_of s.fine t_ns) o).0 ≡ graph_of s
    at none = refl
    at (some i) = elim (Bool-cases (ltb i (index_of s.fine t_ns))) [
      | inl newer ↦ rw newer
      | inr older ↦ rw older
    ]

pub fold-graph :
    (s : ProcessState) (l : List Applied) (t_ns : ℕ)
    → graph_of (fold_into_rings s l t_ns) ≡ graph_of s
unfolding fold_into_rings
fold-graph s [] t_ns = refl
fold-graph s (x ∷ l) t_ns = refl

pub send-graph : (o : Option Window) (s : ProcessState) → graph_of (send_closed o s) ≡ graph_of s
send-graph none s = refl
send-graph (some w) s = refl

apply_frame-Agrees :
    (s : ProcessState) (frame : Frame) (now : ℕ)
    → Agrees (graph_of s)
    → Agrees (graph_of (apply_frame s frame now))
unfolding apply_frame note_frame
apply_frame-Agrees s frame now a =
    let t : ℕ = frame.t_ns in
    let noted = note_frame s frame now in
    let registered = register_all noted frame.registers in
    let opened = (close_open_window_before registered t).0 in
    let closed = (close_open_window_before registered t).1 in
    let totalled = (accumulate_totals opened frame.events t).0 in
    let applied = (accumulate_totals opened frame.events t).1 in
    let grown = register_all-Agrees noted frame.registers a in
    let counted =
      accumulate_totals-Agrees opened frame.events t
        (subst Agrees (sym (close-graph registered t)) grown) in
    subst Agrees
      (sym (send-graph closed (fold_into_rings totalled applied t) ∙ fold-graph totalled applied t))
      counted

new_state-Agrees : (id : ProcessId) (hello : Hello) → Agrees (graph_of (new_state id hello))
unfolding new_state get
new_state-Agrees id hello = record {
  tree = λ i n e. absurd (cc);
  ordered = tt;
  untouched = λ i e. refl;
  self_time = λ f. refl;
  edge_calls = λ c f. refl;
}

-- The frames of one stream, each with the time at which it was read.
unfoldable pub run : ProcessState → List (Frame × ℕ) → ProcessState
run s [] = s
run s ((frame, now) ∷ frames) = run (apply_frame s frame now) frames

run-Agrees_from :
    (s : ProcessState) (frames : List (Frame × ℕ))
    → Agrees (graph_of s)
    → Agrees (graph_of (run s frames))
unfolding run
run-Agrees_from s [] a = a
run-Agrees_from s ((frame, now) ∷ frames) a =
    run-Agrees_from (apply_frame s frame now) frames (apply_frame-Agrees s frame now a)

-- Whatever frames a stream sends, hostile ones included: every context hangs off the root or off a
-- known context with a smaller id and names a known function, a context without a registration has no
-- totals, a function's self time is the sum of the self times of its contexts, and the calls of an
-- edge are the sum of the calls of the contexts that it stands for (both sums cut at 2 ^ 64 - 1).
pub run-Agrees :
    (id : ProcessId) (hello : Hello) (frames : List (Frame × ℕ))
    → Agrees (graph_of (run (new_state id hello) frames))
run-Agrees id hello frames = run-Agrees_from (new_state id hello) frames (new_state-Agrees id hello)
