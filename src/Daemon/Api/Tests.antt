-- ===== src/Daemon/Api/Tests.antt =====
-- crates/lightwatch-daemon/src/api.rs: the statements on a small stream, with a snapshot whose rates
-- are whole numbers.
use lightwatch.Base.{
  ℕ, ◌*◌, ◌/◌, ◌≡◌, refl, List, [], ◌∷◌, some, none, Text, length, arith, get, nat_key, leb, All,
  min, u64_max,
}
use lightwatch.Proto.Wire.{Frame, Hello, new_hello}
use lightwatch.Proto.Wire
use lightwatch.Daemon.Store.Apply
use lightwatch.Daemon.Store.State.{ProcessState, new_state}
use lightwatch.Daemon.Store.History.{run}
use lightwatch.Daemon.Api.Shapes.{SnapshotView, FunctionJson, fine}
use lightwatch.Daemon.Api.Snapshot.{Floats, snapshot, function_json, ring_of_view}
use lightwatch.Daemon.Api.Whole.{
  IsPlaced, listed_self, look_for, shown, snapshot-IsPlaced, snapshot-listed_self,
}
use lightwatch.Daemon.Api.Axis.{IsAxis, snapshot-IsAxis}

abbrev whole_floats : Floats
whole_floats = record {
  Float = ℕ;
  of_u64 = λ n. n;
  times = λ a b. a * b;
  over = λ a b. a / b;
  at_most = leb;
}

abbrev example_id : Text
example_id = b'7' ∷ []

abbrev example_hello : Hello
example_hello = new_hello [] [] 7 1000

-- Function 2 under function 1, called 3 times in the second window.
abbrev example_frame : Frame
example_frame = record {
  seq = 0;
  t_ns = 250_000_000;
  registers =
      Wire.Register.function 1 [] none none
      ∷ Wire.Register.function 2 [] none none
      ∷ Wire.Register.path 1 0 1
      ∷ Wire.Register.path 2 1 2
      ∷ [];
  events = Wire.Event.stack 2 3 40 ∷ [];
}

abbrev example_frames : List (Frame × ℕ)
example_frames = (example_frame, 1000) ∷ []

abbrev example_view : SnapshotView
example_view = record { resolution = fine; limit = 2 }

abbrev example_state : ProcessState
example_state = run (new_state example_id example_hello) example_frames

snapshot-IsPlaced_example :
    All
      (IsPlaced (shown whole_floats example_id example_hello example_frames 1100 example_view))
      (shown whole_floats example_id example_hello example_frames 1100 example_view).paths
snapshot-IsPlaced_example =
    snapshot-IsPlaced whole_floats example_id example_hello example_frames 1100 example_view

abbrev example_function : FunctionJson ℕ
example_function = record {
  id = 2;
  name = [];
  module_name = none;
  location = none;
  calls_total = 0;
  ns_total = 0;
  self_ns_total = 40;
  calls_per_sec = 0;
  ns_per_sec = 0;
  self_ns_per_sec = 0;
  ns_buckets = [];
}

shows_function :
    look_for
      (FunctionJson.id {Float = ℕ})
      2
      (shown whole_floats example_id example_hello example_frames 1100 example_view).functions
    ≡ some example_function
unfolding run snapshot function_json lightwatch.Daemon.Store.Apply.apply_frame get
    lightwatch.Base.insert new_state
shows_function = refl

snapshot-listed_self_example :
    40
    ≡ min u64_max (
        listed_self 2
          (shown whole_floats example_id example_hello example_frames 1100 example_view).paths)
snapshot-listed_self_example =
    snapshot-listed_self whole_floats example_id example_hello example_frames 1100 example_view
      example_function shows_function

snapshot-IsAxis_example :
    IsAxis (snapshot whole_floats example_state 1100 example_view).windows
    × (length (snapshot whole_floats example_state 1100 example_view).windows
        ≡ min example_view.limit
            (length (ring_of_view example_state example_view.resolution).windows))
snapshot-IsAxis_example =
    snapshot-IsAxis whole_floats example_id example_hello example_frames 1100 example_view
