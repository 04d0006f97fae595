-- ===== src/Daemon/Api/Axis.antt =====
-- crates/lightwatch-daemon/src/api.rs: the windows of a snapshot as a time axis.
use lightwatch.Base.{
  length-drop, ℕ, zero, suc, ◌+◌, ◌-◌, ◌*◌, ◌≡◌, refl, ap, List, [], ◌∷◌, map, arith, min, length,
  drop,
}
use lightwatch.Proto.Wire.{Frame, Hello}
use lightwatch.Daemon.Window.{Window, start_t_ns, end_t_ns}
use lightwatch.Daemon.Ring.Contiguous.{Runs, Contiguous, IsValid}
use lightwatch.Daemon.Store.State.{ProcessState, ProcessId, new_state}
use lightwatch.Daemon.Store.History.{run}
use lightwatch.Daemon.Store.Rings.{run-RingsOk}
use lightwatch.Daemon.Api.Shapes.{Resolution, fine, coarse, WindowJson, SnapshotView}
use lightwatch.Daemon.Api.Snapshot.{Floats, window_json, ring_of_view, snapshot}

-- Windows that follow one another: an index each, and no time between them.
abbrev pub IsAxis : List WindowJson → Type 0
IsAxis [] = Unit {0}
IsAxis (w ∷ []) = Unit {0}
IsAxis (w ∷ v ∷ ws) = (v.index ≡ w.index + 1) × (v.start_t_ns ≡ w.end_t_ns) × IsAxis (v ∷ ws)

-- Where one window ends the next one starts, at the largest time too.
next_start :
    (w v : Window)
    → v.index ≡ w.index + 1
    → v.resolution_ns ≡ w.resolution_ns
    → start_t_ns v ≡ end_t_ns w
unfolding start_t_ns end_t_ns
next_start w v i r =
    let e : v.index * v.resolution_ns ≡ w.index * w.resolution_ns + w.resolution_ns =
      rw (i, r) (grind arith) in
    omega (arith, e)

Runs-IsAxis : (res a : ℕ) (ws : List Window) → Runs res a ws → IsAxis (map window_json ws)
unfolding window_json
Runs-IsAxis res a [] h = tt
Runs-IsAxis res a (w ∷ []) h = tt
Runs-IsAxis res a (w ∷ v ∷ ws) h =
    let i : v.index ≡ w.index + 1 = omega (arith, h) in
    let r : v.resolution_ns ≡ w.resolution_ns = omega (arith, h) in
    (i, next_start w v i r, Runs-IsAxis res (suc a) (v ∷ ws) h.2)

drop-Runs : (res a n : ℕ) (ws : List Window) → Runs res a ws → (b : ℕ) × Runs res b (drop n ws)
drop-Runs res a zero ws h = (a, h)
drop-Runs res a (suc n) [] h = (a, tt)
drop-Runs res a (suc n) (w ∷ ws) h = drop-Runs res (suc a) n ws h.2

length-map : {A B : Type 0} (f : A → B) (xs : List A) → length (map f xs) ≡ length xs
length-map f [] = refl
length-map f (x ∷ xs) = ap suc (length-map f xs)

Contiguous-some : (res : ℕ) (ws : List Window) → Contiguous res ws → (a : ℕ) × Runs res a ws
Contiguous-some res [] h = (0, tt)
Contiguous-some res (w ∷ ws) h = (w.index, h)

module _ (floats : Floats) (s : ProcessState) (taken : ℕ) (view : SnapshotView) where
  valid-IsAxis :
      IsValid (ring_of_view s view.resolution)
      → IsAxis (snapshot floats s taken view).windows
        × (length (snapshot floats s taken view).windows
            ≡ min view.limit (length (ring_of_view s view.resolution).windows))
  unfolding snapshot
  valid-IsAxis v =
      let ring = ring_of_view s view.resolution in
      let (a, runs) = Contiguous-some ring.resolution_ns ring.windows v.contiguous in
      let n : ℕ = length ring.windows - view.limit in
      let (b, kept) = drop-Runs ring.resolution_ns a n ring.windows runs in
      (
        Runs-IsAxis ring.resolution_ns b (drop n ring.windows) kept,
        omega (arith, length-map window_json (drop n ring.windows), length-drop n ring.windows),
      )

-- Whatever frames a stream has sent: the windows in a snapshot of its process, in either resolution,
-- have consecutive indices and leave no time between them, and there are as many as the ring holds or
-- as the limit allows, whichever is less.
pub snapshot-IsAxis :
    (floats : Floats) (id : ProcessId) (hello : Hello) (frames : List (Frame × ℕ)) (taken : ℕ)
    (view : SnapshotView)
    → (let s = run (new_state id hello) frames in
        let windows = (snapshot floats s taken view).windows in
        IsAxis windows
        × (length windows ≡ min view.limit (length (ring_of_view s view.resolution).windows)))
snapshot-IsAxis floats id hello frames taken view =
    valid-IsAxis floats (run (new_state id hello) frames) taken view (at view.resolution)
  where
    at : (r : Resolution) → IsValid (ring_of_view (run (new_state id hello) frames) r)
    at fine = (run-RingsOk id hello frames).0.valid
    at coarse = (run-RingsOk id hello frames).1.valid
