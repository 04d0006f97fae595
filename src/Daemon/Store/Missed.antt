-- ===== src/Daemon/Store/Missed.antt =====
-- crates/lightwatch-daemon/src/store.rs: the count of frames that never came.
use lightwatch.Base.{
  ℕ, ◌+◌, ◌-◌, ◌≤◌, ◌<◌, ◌≡◌, refl, ◌∙◌, ap, List, [], ◌∷◌, Option, none, some, inl, inr,
  Bool-cases, arith, ltb, length, u64_max,
}
use lightwatch.Proto.Wire.{Frame, Hello}
use lightwatch.Daemon.Window.{Window}
use lightwatch.Daemon.Ring.{index_of}
use lightwatch.Daemon.Store.State.{ProcessState, ProcessId, new_state}
use lightwatch.Daemon.Store.Totals.{Applied, accumulate_totals}
use lightwatch.Daemon.Store.Register.{register_all}
use lightwatch.Daemon.Store.Apply.{
  apply_frame, note_frame, missed_after, close_open_window_before, close_at, fold_into_rings,
  send_closed,
}
use lightwatch.Daemon.Store.Outer.{Outer, outer_of, register_all-outer, accumulate_totals-outer}
use lightwatch.Daemon.Store.History.{run}

-- What a process knows of its stream's numbering.
abbrev numbering : Outer → ℕ × Option ℕ
numbering o = (o.missed_frames, o.last_seq)

close-numbering :
    (s : ProcessState) (t_ns : ℕ)
    → numbering (outer_of (close_open_window_before s t_ns).0) ≡ numbering (outer_of s)
unfolding close_open_window_before
close-numbering s t_ns = at s.open_fine_index
  where
    at :
        (o : Option ℕ)
        → numbering (outer_of (close_at s (index_of s.fine t_ns) o).0) ≡ numbering (outer_of s)
    at none = refl
    at (some i) = elim (Bool-cases (ltb i (index_of s.fine t_ns))) [
      | inl newer ↦ rw newer
      | inr older ↦ rw older
    ]

fold-numbering :
    (s : ProcessState) (l : List Applied) (t_ns : ℕ)
    → numbering (outer_of (fold_into_rings s l t_ns)) ≡ numbering (outer_of s)
unfolding fold_into_rings
fold-numbering s [] t_ns = refl
fold-numbering s (a ∷ l) t_ns = refl

send-numbering :
    (o : Option Window) (s : ProcessState)
    → numbering (outer_of (send_closed o s)) ≡ numbering (outer_of s)
send-numbering none s = refl
send-numbering (some w) s = refl

apply_frame-numbering :
    (s : ProcessState) (frame : Frame) (now : ℕ)
    → numbering (outer_of (apply_frame s frame now))
      ≡ (missed_after s.counts.missed_frames s.last_seq frame.seq, some frame.seq)
unfolding apply_frame note_frame
apply_frame-numbering s frame now =
    let t : ℕ = frame.t_ns in
    let noted = note_frame s frame now in
    let registered = register_all noted frame.registers in
    let opened = close_open_window_before registered t in
    let totalled = accumulate_totals opened.0 frame.events t in
    send-numbering opened.1 (fold_into_rings totalled.0 totalled.1 t)
    ∙ fold-numbering totalled.0 totalled.1 t
    ∙ ap numbering (accumulate_totals-outer opened.0 frame.events t)
    ∙ close-numbering registered t
    ∙ ap numbering (register_all-outer noted frame.registers)

-- Each frame's number is above that of the one before.
abbrev pub IsNumbered : ℕ → List (Frame × ℕ) → Type 0
IsNumbered previous [] = Unit {0}
IsNumbered previous ((frame, now) ∷ frames) =
    (previous < frame.seq) × (frame.seq < u64_max) × IsNumbered frame.seq frames

abbrev pub final_seq : ℕ → List (Frame × ℕ) → ℕ
final_seq previous [] = previous
final_seq previous ((frame, now) ∷ frames) = final_seq frame.seq frames

run-missed_from :
    (s : ProcessState) (previous : ℕ) (frames : List (Frame × ℕ))
    → s.last_seq ≡ some previous
    → s.counts.missed_frames ≤ previous
    → IsNumbered previous frames
    → (run s frames).counts.missed_frames + length frames + previous
      ≡ s.counts.missed_frames + final_seq previous frames
unfolding run
run-missed_from s previous [] e le h = omega arith
run-missed_from s previous ((frame, now) ∷ frames) e le h =
    let after = apply_frame s frame now in
    let numbered = apply_frame-numbering s frame now in
    let missed : after.counts.missed_frames ≡ s.counts.missed_frames + (frame.seq - previous - 1) =
      ap (λ n. n.0) numbered ∙ rw e (gap s.counts.missed_frames frame.seq le h.0 h.1) in
    let last : after.last_seq ≡ some frame.seq = ap (λ n. n.1) numbered in
    omega (
      arith,
      h.0,
      missed,
      run-missed_from after frame.seq frames last (omega (arith, missed, h.0)) h.2,
    )
  where
    gap :
        (m seq : ℕ)
        → m ≤ previous
        → previous < seq
        → seq < u64_max
        → missed_after m (some previous) seq ≡ m + (seq - previous - 1)
    gap m seq le lt small = ground arith

-- For a stream whose frames are numbered in rising order below 2 ^ 64 - 1, from any first number:
-- the frames counted as missed and those received after the first make up the distance from the first
-- number to the last one.
pub run-missed :
    (id : ProcessId) (hello : Hello) (first : Frame) (now : ℕ) (frames : List (Frame × ℕ))
    → IsNumbered first.seq frames
    → (run (new_state id hello) ((first, now) ∷ frames)).counts.missed_frames
        + length frames
        + first.seq
      ≡ final_seq first.seq frames
unfolding run new_state
run-missed id hello first now frames h =
    let start = apply_frame (new_state id hello) first now in
    let numbered = apply_frame-numbering (new_state id hello) first now in
    let none_missed : start.counts.missed_frames ≡ 0 = ap (λ n. n.0) numbered in
    omega (
      arith,
      none_missed,
      run-missed_from start first.seq frames (ap (λ n. n.1) numbered) (omega (arith, none_missed))
          h,
    )
