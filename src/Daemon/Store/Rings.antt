-- ===== src/Daemon/Store/Rings.antt =====
-- crates/lightwatch-daemon/src/store.rs: the rings of a process under its frames.
use lightwatch.Base.{
  ℕ, zero, suc, ◌<◌, ◌≡◌, refl, sym, ◌∙◌, ap, subst, List, [], ◌∷◌, Option, none, some, inl, inr,
  Bool-cases, length, arith, ltb, get, nat_key,
}
use lightwatch.Proto.Wire.{Frame, Hello}
use lightwatch.Daemon.Window.{Window, add_calls, add_edge, add_stack, record_census, newer_held}
use lightwatch.Daemon.Ring.{
  Ring, Position, window_for, update_at, modify, index_of, settle, extend, fine_resolution_ns,
  fine_capacity, coarse_resolution_ns, coarse_capacity,
}
use lightwatch.Daemon.Ring.Contiguous.{Runs, Contiguous, IsValid, Contiguous-Runs}
use lightwatch.Daemon.Ring.Serve.{window_for-IsValid}
use lightwatch.Daemon.Store.State.{ProcessState, ProcessId, new_state}
use lightwatch.Daemon.Store.Totals.{Applied, fold_one, fold, accumulate_totals}
use lightwatch.Daemon.Store.Totals
use lightwatch.Daemon.Store.Register.{register_all}
use lightwatch.Daemon.Store.Apply.{
  apply_frame, note_frame, close_open_window_before, close_at, fold_at, fold_into_rings,
  send_closed,
}
use lightwatch.Daemon.Store.Outer.{Outer, outer_of, register_all-outer, accumulate_totals-outer}
use lightwatch.Daemon.Store.History.{run}

-- Where a window stands in time.
abbrev place_of : Window → ℕ × ℕ
place_of w = (w.index, w.resolution_ns)

fold_one-place : (a : Applied) (w : Window) → place_of (fold_one w a) ≡ place_of w
unfolding fold_one add_calls add_edge add_stack record_census
fold_one-place (Totals.Applied.calls func count ns) w = refl
fold_one-place (Totals.Applied.edge from to count) w = refl
fold_one-place (Totals.Applied.stack path count self_ns) w = refl
fold_one-place (Totals.Applied.census ty taken) w =
    elim (Bool-cases (newer_held (get ty w.census) taken)) [
      | inl newer ↦ rw newer
      | inr older ↦ rw older
    ]

fold-place : (l : List Applied) (w : Window) → place_of (fold l w) ≡ place_of w
unfolding fold
fold-place [] w = refl
fold-place (a ∷ l) w = fold-place l (fold_one w a) ∙ fold_one-place a w

update_at-Runs :
    (res a : ℕ) (ws : List Window) (i : ℕ) (l : List Applied)
    → Runs res a ws
    → Runs res a (update_at ws i (fold l))
update_at-Runs res a [] i l h = tt
update_at-Runs res a (w ∷ ws) zero l h =
    let same = fold-place l w in (ap (λ p. p.0) same ∙ h.0, ap (λ p. p.1) same ∙ h.1, h.2)
update_at-Runs res a (w ∷ ws) (suc i) l h = (h.0, h.1, update_at-Runs res (suc a) ws i l h.2)

update_at-Contiguous :
    (res : ℕ) (ws : List Window) (i : ℕ) (l : List Applied)
    → Contiguous res ws
    → Contiguous res (update_at ws i (fold l))
update_at-Contiguous res [] i l h = tt
update_at-Contiguous res (w ∷ ws) i l h =
    Contiguous-Runs res w.index (update_at (w ∷ ws) i (fold l))
      (update_at-Runs res w.index (w ∷ ws) i l h)

length-update_at :
    (ws : List Window) (i : ℕ) (f : Window → Window) → length (update_at ws i f) ≡ length ws
length-update_at [] i f = refl
length-update_at (w ∷ ws) zero f = refl
length-update_at (w ∷ ws) (suc i) f = omega (arith, length-update_at ws i f)

-- A ring of the given shape whose windows are consecutive and within its capacity.
pub record IsRing (resolution_ns capacity : ℕ) (r : Ring) : Type 0 where
  pub valid : IsValid r
  pub resolution : r.resolution_ns ≡ resolution_ns
  pub limit : r.capacity ≡ capacity

modify-IsRing :
    (res limit : ℕ) (r : Ring) (p : Position) (l : List Applied)
    → IsRing res limit r
    → IsRing res limit (modify r p (fold l))
unfolding modify
modify-IsRing res limit r none l h = h
modify-IsRing res limit r (some i) l h = record {
  valid = record {
    resolution_pos = h.valid.resolution_pos;
    capacity_pos = h.valid.capacity_pos;
    bounded = omega (arith, length-update_at r.windows i (fold l), h.valid.bounded);
    contiguous = update_at-Contiguous r.resolution_ns r.windows i l h.valid.contiguous;
  };
  resolution = h.resolution;
  limit = h.limit;
}

window_for-shape :
    (r : Ring) (t_ns : ℕ)
    → ((window_for r t_ns).0.resolution_ns ≡ r.resolution_ns)
      × ((window_for r t_ns).0.capacity ≡ r.capacity)
unfolding window_for
window_for-shape r t_ns = at (extend r (index_of r t_ns))
  where
    at :
        (o : Option (List Window))
        → ((settle r (index_of r t_ns) o).0.resolution_ns ≡ r.resolution_ns)
          × ((settle r (index_of r t_ns) o).0.capacity ≡ r.capacity)
    at none = (refl, refl)
    at (some ws) = (refl, refl)

window_for-IsRing :
    (res limit : ℕ) (r : Ring) (t_ns : ℕ)
    → IsRing res limit r
    → IsRing res limit (window_for r t_ns).0
window_for-IsRing res limit r t_ns h =
    let shape = window_for-shape r t_ns in
    record {
      valid = window_for-IsValid r t_ns h.valid;
      resolution = shape.0 ∙ h.resolution;
      limit = shape.1 ∙ h.limit;
    }

fold_at-IsRing :
    (res limit : ℕ) (r : Ring) (t_ns : ℕ) (l : List Applied)
    → IsRing res limit r
    → IsRing res limit (fold_at r t_ns l).0
unfolding fold_at
fold_at-IsRing res limit r t_ns l h =
    modify-IsRing res limit (window_for r t_ns).0 (window_for r t_ns).1 l
      (window_for-IsRing res limit r t_ns h)

-- Both rings of a process.
abbrev pub RingsOk : Ring → Ring → Type 0
RingsOk fine coarse =
    IsRing fine_resolution_ns fine_capacity fine
    × IsRing coarse_resolution_ns coarse_capacity coarse

fold_into_rings-RingsOk :
    (s : ProcessState) (l : List Applied) (t_ns : ℕ)
    → RingsOk s.fine s.coarse
    → RingsOk (fold_into_rings s l t_ns).fine (fold_into_rings s l t_ns).coarse
unfolding fold_into_rings
fold_into_rings-RingsOk s [] t_ns h = h
fold_into_rings-RingsOk s (a ∷ l) t_ns h = (
  fold_at-IsRing fine_resolution_ns fine_capacity s.fine t_ns (a ∷ l) h.0,
  fold_at-IsRing coarse_resolution_ns coarse_capacity s.coarse t_ns (a ∷ l) h.1,
)

-- The rings as the outer view of a process shows them.
abbrev OuterOk : Outer → Type 0
OuterOk o = RingsOk o.fine o.coarse

close-rings :
    (s : ProcessState) (t_ns : ℕ)
    → OuterOk (outer_of s)
    → OuterOk (outer_of (close_open_window_before s t_ns).0)
unfolding close_open_window_before
close-rings s t_ns h = at s.open_fine_index
  where
    at : (o : Option ℕ) → OuterOk (outer_of (close_at s (index_of s.fine t_ns) o).0)
    at none = h
    at (some i) = elim (Bool-cases (ltb i (index_of s.fine t_ns))) [
      | inl newer ↦ rw newer h
      | inr older ↦ rw older h
    ]

send-rings :
    (o : Option Window) (s : ProcessState)
    → OuterOk (outer_of s)
    → OuterOk (outer_of (send_closed o s))
send-rings none s h = h
send-rings (some w) s h = h

apply_frame-OuterOk :
    (s : ProcessState) (frame : Frame) (now : ℕ)
    → OuterOk (outer_of s)
    → OuterOk (outer_of (apply_frame s frame now))
unfolding apply_frame note_frame
apply_frame-OuterOk s frame now h =
    let t : ℕ = frame.t_ns in
    let noted = note_frame s frame now in
    let registered = register_all noted frame.registers in
    let opened = close_open_window_before registered t in
    let totalled = accumulate_totals opened.0 frame.events t in
    let started = subst OuterOk (sym (register_all-outer noted frame.registers)) h in
    let closed = close-rings registered t started in
    let counted = subst OuterOk (sym (accumulate_totals-outer opened.0 frame.events t)) closed in
    send-rings opened.1 (fold_into_rings totalled.0 totalled.1 t)
      (fold_into_rings-RingsOk totalled.0 totalled.1 t counted)

run-OuterOk :
    (s : ProcessState) (frames : List (Frame × ℕ))
    → OuterOk (outer_of s)
    → OuterOk (outer_of (run s frames))
unfolding run
run-OuterOk s [] h = h
run-OuterOk s ((frame, now) ∷ frames) h =
    run-OuterOk (apply_frame s frame now) frames (apply_frame-OuterOk s frame now h)

blank-IsRing :
    (res limit : ℕ)
    → 0 < res
    → 0 < limit
    → IsRing res limit (record { resolution_ns = res; capacity = limit; windows = [] })
blank-IsRing res limit h k = record {
  valid = record { resolution_pos = h; capacity_pos = k; bounded = omega arith; contiguous = tt };
  resolution = refl;
  limit = refl;
}

-- Whatever frames a stream sends, at whatever times: the fine ring keeps its resolution of 100 ms and
-- at most 600 windows, the coarse ring its resolution of 1 s and at most 900, and the windows of each
-- are consecutive.
pub run-RingsOk :
    (id : ProcessId) (hello : Hello) (frames : List (Frame × ℕ))
    → RingsOk (run (new_state id hello) frames).fine (run (new_state id hello) frames).coarse
unfolding new_state
run-RingsOk id hello frames = run-OuterOk (new_state id hello) frames (
  blank-IsRing fine_resolution_ns fine_capacity (omega arith) (omega arith),
  blank-IsRing coarse_resolution_ns coarse_capacity (omega arith) (omega arith),
)
