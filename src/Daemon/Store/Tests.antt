-- ===== src/Daemon/Store/Tests.antt =====
-- crates/lightwatch-daemon/src/store.rs: the statements on a small stream.
use lightwatch.Base.{
  ℕ, ◌+◌, ◌*◌, ◌≤◌, ◌≡◌, refl, List, [], ◌∷◌, some, none, Text, length, arith, get, nat_key,
}
use lightwatch.Proto.Wire.{Frame, Hello, new_hello}
use lightwatch.Proto.Wire
use lightwatch.Daemon.Store.State.{ProcessState, PathNode, new_state}
use lightwatch.Daemon.Store.Graph.{Agrees, graph_of}
use lightwatch.Daemon.Store.History.{run, run-Agrees}
use lightwatch.Daemon.Store.Rings.{RingsOk, run-RingsOk}
use lightwatch.Daemon.Store.Missed.{IsNumbered, final_seq, run-missed}
use lightwatch.Daemon.Store.Kept.{run-keeps}
use lightwatch.Daemon.Store.Totals.{duration_total}
use lightwatch.Daemon.Store.Durations.{duration_total_error}
use lightwatch.Proto.Dist.{raw, buckets, to_buckets}

abbrev example_id : Text
example_id = b'7' ∷ []

abbrev example_hello : Hello
example_hello = new_hello [] [] 7 1000

-- Function 2 under function 1, and a context that was never registered.
abbrev example_frame : Frame
example_frame = record {
  seq = 0;
  t_ns = 250_000_000;
  registers =
      Wire.Register.function 1 [] none none
      ∷ Wire.Register.function 2 [] none none
      ∷ Wire.Register.path 1 0 1
      ∷ Wire.Register.path 2 1 2
      ∷ [];
  events = Wire.Event.stack 2 3 40 ∷ Wire.Event.stack 9 1 1 ∷ [];
}

abbrev example_frames : List (Frame × ℕ)
example_frames = (example_frame, 1000) ∷ []

run-Agrees_example : Agrees (graph_of (run (new_state example_id example_hello) example_frames))
run-Agrees_example = run-Agrees example_id example_hello example_frames

run-RingsOk_example :
    RingsOk
      (run (new_state example_id example_hello) example_frames).fine
      (run (new_state example_id example_hello) example_frames).coarse
run-RingsOk_example = run-RingsOk example_id example_hello example_frames

abbrev numbered : ℕ → Frame
numbered seq = record { seq = seq; t_ns = 0; registers = []; events = [] }

-- 5 to 8 never came.
abbrev gappy : List (Frame × ℕ)
gappy = (numbered 4, 1100) ∷ (numbered 9, 1200) ∷ []

gappy-IsNumbered : IsNumbered 3 gappy
gappy-IsNumbered = (omega arith, omega arith, (omega arith, omega arith, tt))

run-missed_example :
    (run (new_state example_id example_hello) ((numbered 3, 1000) ∷ gappy)).counts.missed_frames
      + length gappy
      + 3
    ≡ final_seq 3 gappy
run-missed_example = run-missed example_id example_hello (numbered 3) 1000 gappy gappy-IsNumbered

abbrev example_node : PathNode
example_node = record { parent = 0; func = 1 }

abbrev holding : ProcessState
holding = record (new_state example_id example_hello) { paths = (1, example_node) ∷ [] }

holds_node : get 1 holding.paths ≡ some example_node
unfolding get
holds_node = refl

run-keeps_example : get 1 (run holding example_frames).paths ≡ some example_node
run-keeps_example = run-keeps holding example_frames 1 example_node holds_node

abbrev two_durations : List ℕ
two_durations = 1000 ∷ 1_000_000 ∷ []

duration_total_error_example :
    (duration_total (raw two_durations) (to_buckets (raw two_durations)) ≡ 1_001_000)
    × (32
          * duration_total
              (buckets (to_buckets (raw two_durations)))
              (to_buckets (buckets (to_buckets (raw two_durations))))
        ≤ 33 * 1_001_000)
    × (31 * 1_001_000
        ≤ 32
          * duration_total
              (buckets (to_buckets (raw two_durations)))
              (to_buckets (buckets (to_buckets (raw two_durations)))))
duration_total_error_example =
    duration_total_error two_durations (omega arith, (omega arith, tt)) (omega arith) (omega arith)
