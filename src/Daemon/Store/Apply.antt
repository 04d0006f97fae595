-- ===== src/Daemon/Store/Apply.antt =====
-- crates/lightwatch-daemon/src/store.rs: `apply_frame` and the windows that it closes.
use lightwatch.Base.{ℕ, max, List, [], ◌∷◌, Option, none, some, ltb, if◌then◌else◌, add64, sub64}
use lightwatch.Proto.Wire.{Frame}
use lightwatch.Daemon.Window.{Window, is_blank}
use lightwatch.Daemon.Ring.{Ring, Position, index_of, window_at, window_for, modify}
use lightwatch.Daemon.Store.State.{ProcessState, window_closed, send}
use lightwatch.Daemon.Store.Register.{register_all}
use lightwatch.Daemon.Store.Totals.{Applied, accumulate_totals, fold}

unfoldable pub note_malformed_line : ProcessState → ProcessState
note_malformed_line s = record s {
  counts = record (s.counts) { malformed_lines = add64 s.counts.malformed_lines 1 };
}

abbrev pub missed_after : ℕ → Option ℕ → ℕ → ℕ
missed_after missed none seq = missed
missed_after missed (some previous) seq =
    if ltb (add64 previous 1) seq then add64 missed (sub64 (sub64 seq previous) 1) else missed

-- The counters that every frame moves.
unfoldable pub note_frame : ProcessState → Frame → ℕ → ProcessState
note_frame s frame now = record s {
  counts = record (s.counts) {
    frames = add64 s.counts.frames 1;
    missed_frames = missed_after s.counts.missed_frames s.last_seq frame.seq;
  };
  last_seq = some frame.seq;
  last_t_ns = max s.last_t_ns frame.t_ns;
  last_frame_unix_ms = some now;
}

abbrev pub close_at : ProcessState → ℕ → Option ℕ → ProcessState × Option Window
close_at s index none = (record s { open_fine_index = some index }, none)
close_at s index (some open_index) =
    if ltb open_index index
    then (record s { open_fine_index = some index }, window_at s.fine open_index)
    else (s, none)

unfoldable pub close_open_window_before : ProcessState → ℕ → ProcessState × Option Window
unfolding window_at index_of
close_open_window_before s t_ns = close_at s (index_of s.fine t_ns) s.open_fine_index

-- `window_for`, and what the caller does to the window that it gets.
unfoldable pub fold_at : Ring → ℕ → List Applied → Ring × Position
unfolding window_for modify fold
fold_at ring t_ns applied =
    let (ring', position) = window_for ring t_ns in (modify ring' position (fold applied), position)

abbrev pub count_late : Position → ℕ → ℕ
count_late none late = add64 late 1
count_late (some i) late = late

unfoldable pub fold_into_rings : ProcessState → List Applied → ℕ → ProcessState
unfolding fold_at
fold_into_rings s [] t_ns = s
fold_into_rings s (a ∷ applied) t_ns =
    let (coarse, _) = fold_at s.coarse t_ns (a ∷ applied) in
    let (fine, position) = fold_at s.fine t_ns (a ∷ applied) in
    record s {
      coarse = coarse;
      fine = fine;
      counts = record (s.counts) { late_frames = count_late position s.counts.late_frames };
    }

abbrev pub send_closed : Option Window → ProcessState → ProcessState
send_closed none s = s
send_closed (some w) s = send (window_closed w) s

unfoldable pub apply_frame : ProcessState → Frame → ℕ → ProcessState
unfolding note_frame register_all close_open_window_before accumulate_totals fold_into_rings
apply_frame s frame now =
    let registered = register_all (note_frame s frame now) frame.registers in
    let (opened, closed) = close_open_window_before registered frame.t_ns in
    let (totalled, applied) = accumulate_totals opened frame.events frame.t_ns in
    send_closed closed (fold_into_rings totalled applied frame.t_ns)

abbrev pub seal : Option Window → ProcessState → ProcessState
seal none s = s
seal (some w) s = if is_blank w then s else send (window_closed w) s

abbrev pub flush_at : Option ℕ → ProcessState → ProcessState
flush_at none s = s
flush_at (some open_index) s =
    seal (window_at s.fine open_index) (record s { open_fine_index = none })

unfoldable pub flush_open_window : ProcessState → ProcessState
unfolding window_at is_blank
flush_open_window s = flush_at s.open_fine_index s
