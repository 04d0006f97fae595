-- ===== src/Daemon/Store/Named.antt =====
-- crates/lightwatch-daemon/src/store.rs: functions and types keep their names while events are counted.
use lightwatch.Base.{
  ℕ, ◌≡◌, refl, ◌∙◌, ap, List, [], ◌∷◌, Option, none, some, true, inl, inr, Bool-cases, arith,
  is_some, get, get-insert, insert, Map, key_eq, nat_key, Text, ltb,
}
use lightwatch.Proto.Wire.{FunctionId, PathId, TypeId, Event, Frame}
use lightwatch.Proto.Wire
use lightwatch.Proto.Dist.{to_buckets, Buckets}
use lightwatch.Daemon.Window.{Window, CensusReading, newer_held}
use lightwatch.Daemon.Ring.{index_of}
use lightwatch.Daemon.Store.State.{ProcessState, PathNode, FunctionState, TypeState}
use lightwatch.Daemon.Store.Graph.{Known}
use lightwatch.Daemon.Store.Register.{register_all, caller_of}
use lightwatch.Daemon.Store.Totals.{
  Applied, apply_event, apply_stack, apply_calls, apply_census, accumulate_totals, add_totals,
  charge_function, charge_state, add_caller, count_event, duration_total,
}
use lightwatch.Daemon.Store.Apply.{
  apply_frame, note_frame, close_at, close_open_window_before, fold_into_rings, send_closed,
}

abbrev pub title {ℓ} : {V : Type ℓ} → (V → Text) → Option V → Option Text
title name none = none
title name (some v) = some (name v)

-- The name that an id has, if it is there.
abbrev pub function_title : ℕ → Map ℕ FunctionState → Option Text
function_title id functions = title (λ st. FunctionState.name st) (get id functions)

abbrev pub type_title : ℕ → Map ℕ TypeState → Option Text
type_title id types = title (λ st. TypeState.name st) (get id types)

pub function_title-Known :
    (id : ℕ) (functions : Map ℕ FunctionState) (name : Text)
    → function_title id functions ≡ some name
    → Known id functions
function_title-Known id functions name e = at (get id functions) e
  where
    at :
        (o : Option FunctionState)
        → title (λ st. FunctionState.name st) o ≡ some name
        → is_some o ≡ true
    at none never = absurd (cc)
    at (some st) is = refl

abbrev titles : ℕ → ProcessState → Option Text × Option Text
titles id s = (function_title id s.functions, type_title id s.types)

-- An entry that is written over keeps its name.
rewrite-title {ℓ} :
    {V : Type ℓ} (name : V → Text) (k i : ℕ) (v old : V) (m : Map ℕ V)
    → get k m ≡ some old
    → name v ≡ name old
    → title name (get i (insert k v m)) ≡ title name (get i m)
rewrite-title name k i v old m e same = elim (Bool-cases (key_eq i k)) [
  | inl hit ↦ let key : i ≡ k = ground arith in rw (get-insert k v i m, hit, key, e) (ap some same)
  | inr miss ↦ rw (get-insert k v i m, miss) refl
]

charge-titles :
    (s : ProcessState) (f : FunctionId) (k id : ℕ) (o : Option FunctionState)
    → get f s.functions ≡ o
    → titles id (charge_state s f k o) ≡ titles id s
charge-titles s f k id none e = refl
charge-titles s f k id (some st) e =
    ap (λ t. (t, type_title id s.types))
      (rewrite-title (λ v. FunctionState.name v) f id _ st s.functions e refl)

caller-titles :
    (s : ProcessState) (path : PathId) (f : FunctionId) (count k id : ℕ) (o : Option FunctionId)
    → titles id (add_caller s path f count k o).0 ≡ titles id s
caller-titles s path f count k id none = refl
caller-titles s path f count k id (some c) = refl

stack-titles :
    (s : ProcessState) (path : PathId) (count k id : ℕ) (o : Option PathNode)
    → titles id (apply_stack s path count k o).0 ≡ titles id s
unfolding add_totals charge_function
stack-titles s path count k id none = refl
stack-titles s path count k id (some node) =
    let totals = add_totals s path count k in
    let charged = charge_function totals node.func k in
    caller-titles charged path node.func count k id (caller_of charged node)
    ∙ charge-titles totals node.func k id (get node.func totals.functions) refl

calls-titles :
    (s : ProcessState) (f : FunctionId) (count elapsed id : ℕ) (b : Buckets)
    (o : Option FunctionState)
    → get f s.functions ≡ o
    → titles id (apply_calls s f count elapsed b o).0 ≡ titles id s
calls-titles s f count elapsed id b none e = refl
calls-titles s f count elapsed id b (some st) e =
    ap (λ t. (t, type_title id s.types))
      (rewrite-title (λ v. FunctionState.name v) f id _ st s.functions e refl)

census-titles :
    (s : ProcessState) (ty : TypeId) (taken : CensusReading) (id : ℕ) (o : Option TypeState)
    → get ty s.types ≡ o
    → titles id (apply_census s ty taken o).0 ≡ titles id s
census-titles s ty taken id none e = refl
census-titles s ty taken id (some st) e = elim (Bool-cases (newer_held st.latest taken)) [
  | inl newer ↦ rw newer refl
  | inr older ↦ rw older (
      ap (λ t. (function_title id s.functions, t))
        (rewrite-title (λ v. TypeState.name v) ty id _ st s.types e refl))
]

apply_event-titles :
    (s : ProcessState) (e : Event) (t_ns id : ℕ) → titles id (apply_event s e t_ns).0 ≡ titles id s
unfolding apply_event
apply_event-titles s (Wire.Event.calls f count ns) t_ns id =
    calls-titles (count_event s) f count (duration_total ns (to_buckets ns)) id (to_buckets ns)
      (get f s.functions) refl
apply_event-titles s (Wire.Event.stack path count k) t_ns id =
    stack-titles (count_event s) path count k id (get path s.paths)
apply_event-titles s (Wire.Event.census ty live bytes sizes) t_ns id =
    census-titles (count_event s) ty _ id (get ty s.types) refl

accumulate_totals-titles :
    (s : ProcessState) (es : List Event) (t_ns id : ℕ)
    → titles id (accumulate_totals s es t_ns).0 ≡ titles id s
unfolding accumulate_totals
accumulate_totals-titles s [] t_ns id = refl
accumulate_totals-titles s (e ∷ es) t_ns id =
    accumulate_totals-titles (apply_event s e t_ns).0 es t_ns id ∙ apply_event-titles s e t_ns id

close-titles :
    (s : ProcessState) (t_ns id : ℕ) → titles id (close_open_window_before s t_ns).0 ≡ titles id s
unfolding close_open_window_before
close-titles s t_ns id = at s.open_fine_index
  where
    at : (o : Option ℕ) → titles id (close_at s (index_of s.fine t_ns) o).0 ≡ titles id s
    at none = refl
    at (some i) = elim (Bool-cases (ltb i (index_of s.fine t_ns))) [
      | inl newer ↦ rw newer refl
      | inr older ↦ rw older refl
    ]

fold-titles :
    (s : ProcessState) (l : List Applied) (t_ns id : ℕ)
    → titles id (fold_into_rings s l t_ns) ≡ titles id s
unfolding fold_into_rings
fold-titles s [] t_ns id = refl
fold-titles s (x ∷ l) t_ns id = refl

send-titles :
    (o : Option Window) (s : ProcessState) (id : ℕ) → titles id (send_closed o s) ≡ titles id s
send-titles none s id = refl
send-titles (some w) s id = refl

-- A frame leaves the names as its registers have set them.
pub apply_frame-titles :
    (s : ProcessState) (frame : Frame) (now id : ℕ)
    → (let registered = register_all (note_frame s frame now) frame.registers in
        let after = apply_frame s frame now in
        (function_title id after.functions ≡ function_title id registered.functions)
        × (type_title id after.types ≡ type_title id registered.types))
unfolding apply_frame
apply_frame-titles s frame now id =
    let t : ℕ = frame.t_ns in
    let registered = register_all (note_frame s frame now) frame.registers in
    let opened = close_open_window_before registered t in
    let totalled = accumulate_totals opened.0 frame.events t in
    let folded = fold_into_rings totalled.0 totalled.1 t in
    let all : titles id (send_closed opened.1 folded) ≡ titles id registered =
      send-titles opened.1 folded id
      ∙ fold-titles totalled.0 totalled.1 t id
      ∙ accumulate_totals-titles opened.0 frame.events t id
      ∙ close-titles registered t id in
    (ap (λ p. p.0) all, ap (λ p. p.1) all)
