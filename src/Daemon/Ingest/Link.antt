-- ===== src/Daemon/Ingest/Link.antt =====
-- crates/lightwatch-daemon/src/store.rs: a frame leaves alone whether its process is connected.
use lightwatch.Base.{
  ℕ, ◌≡◌, refl, ◌∙◌, ap, List, [], ◌∷◌, Option, none, some, inl, inr, Bool-cases, ltb,
}
use lightwatch.Proto.Wire.{Frame}
use lightwatch.Daemon.Window.{Window}
use lightwatch.Daemon.Ring.{index_of}
use lightwatch.Daemon.Store.State.{ProcessState}
use lightwatch.Daemon.Store.Register.{register_all}
use lightwatch.Daemon.Store.Totals.{Applied, accumulate_totals}
use lightwatch.Daemon.Store.Apply.{
  apply_frame, note_frame, close_open_window_before, close_at, fold_into_rings, send_closed,
}
use lightwatch.Daemon.Store.Outer.{Outer, register_all-outer, accumulate_totals-outer}

-- The connections of a process, and when the last one closed.
abbrev pub link_of : ProcessState → ℕ × Option ℕ
link_of s = (s.live_connections, s.ended_unix_ms)

abbrev link_in : Outer → ℕ × Option ℕ
link_in o = (o.live_connections, o.ended_unix_ms)

close-link : (s : ProcessState) (t_ns : ℕ) → link_of (close_open_window_before s t_ns).0 ≡ link_of s
unfolding close_open_window_before
close-link s t_ns = at s.open_fine_index
  where
    at : (o : Option ℕ) → link_of (close_at s (index_of s.fine t_ns) o).0 ≡ link_of s
    at none = refl
    at (some i) = elim (Bool-cases (ltb i (index_of s.fine t_ns))) [
      | inl newer ↦ rw newer
      | inr older ↦ rw older
    ]

fold-link :
    (s : ProcessState) (l : List Applied) (t_ns : ℕ)
    → link_of (fold_into_rings s l t_ns) ≡ link_of s
unfolding fold_into_rings
fold-link s [] t_ns = refl
fold-link s (x ∷ l) t_ns = refl

send-link : (o : Option Window) (s : ProcessState) → link_of (send_closed o s) ≡ link_of s
send-link none s = refl
send-link (some w) s = refl

pub apply_frame-link :
    (s : ProcessState) (frame : Frame) (now : ℕ) → link_of (apply_frame s frame now) ≡ link_of s
unfolding apply_frame note_frame
apply_frame-link s frame now =
    let t : ℕ = frame.t_ns in
    let noted = note_frame s frame now in
    let registered = register_all noted frame.registers in
    let opened = close_open_window_before registered t in
    let totalled = accumulate_totals opened.0 frame.events t in
    send-link opened.1 (fold_into_rings totalled.0 totalled.1 t)
    ∙ fold-link totalled.0 totalled.1 t
    ∙ ap link_in (accumulate_totals-outer opened.0 frame.events t)
    ∙ close-link registered t
    ∙ ap link_in (register_all-outer noted frame.registers)
