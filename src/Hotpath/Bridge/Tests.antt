-- ===== src/Hotpath/Bridge/Tests.antt =====
-- crates/lightwatch-hotpath/src/bridge.rs: two reports of one run.
use lightwatch.Base.{ℕ, ◌+◌, ◌≡◌, refl, [], ◌∷◌, Option, none, some, arith, Text, get, nat_key}
use lightwatch.Hotpath.Bridge.{Entry, Report, Reading, Stream, absorb_report}
use lightwatch.Hotpath.Bridge.Deltas.{calls_in, Rises, absorb_report-calls}

-- A duration in unary.
abbrev example_duration : Text → Option ℕ
example_duration [] = none
example_duration (c ∷ text) = some c

abbrev entry_of : ℕ → ℕ → Entry
entry_of id calls = record {
  id = id;
  name = b'm' ∷ [];
  calls = calls;
  total_text = 90 ∷ [];
  location = none;
}

abbrev example_stream : Stream
example_stream = record {
  pid = 7;
  seq = 1;
  elapsed_ns = 100;
  readings = (3, record { calls = 5; total_ns = 40 }) ∷ [];
}

-- Function 3 was called twice more; function 4 is new.
abbrev example_report : Report
example_report = record { data_entries = entry_of 3 7 ∷ entry_of 4 9 ∷ []; total_elapsed_ns = 200 }

example_held : get 3 example_stream.readings ≡ some (record { calls = 5; total_ns = 40 })
unfolding get
example_held = refl

example-Rises : Rises 3 5 example_report.data_entries
example-Rises = (omega arith, (omega arith, tt))

absorb_report-calls_example :
    (calls_in 3 (absorb_report example_duration example_stream example_report).1.events + 5 ≡ 7)
    × ((kept : Reading) × (get 3
            (absorb_report example_duration example_stream example_report).0.readings
          ≡ some kept)
        × (kept.calls ≡ 7))
absorb_report-calls_example =
    absorb_report-calls example_duration example_stream example_report 3
      (record { calls = 5; total_ns = 40 }) example_held example-Rises
