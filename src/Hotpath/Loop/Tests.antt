-- ===== src/Hotpath/Loop/Tests.antt =====
-- crates/lightwatch-hotpath/src/main.rs: a target that is away for two turns.
use lightwatch.Base.{ℕ, ◌≡◌, refl, [], ◌∷◌, ◌++◌, Option, none, some, Text, arith}
use lightwatch.Probe.Emit.{Wires}
use lightwatch.Hotpath.Source.{err, truncated}
use lightwatch.Hotpath.Loop.{Trouble, Turn, initial, run_loop, loop_turn, poll_once, target}
use lightwatch.Hotpath.Loop.Backoff.{Fails, run_loop_backoff}

abbrev text_wires : Wires
text_wires = record {
  Stream = Text;
  set_write_timeout = λ n s. s;
  write_all = λ t s. some (s ++ t);
  flush = λ s. some s;
  to_json_line = λ m. [];
}

abbrev no_duration : Text → Option ℕ
no_duration text = none

abbrev no_text : Trouble → Text
no_text trouble = []

abbrev away : Turn Text
away = record {
  status_pid = err truncated;
  report = err truncated;
  caller_name = [];
  opened = none;
  now_ms = 0;
  elapsed = 0;
}

away-Fails :
    Fails text_wires no_duration 100 no_text (away ∷ away ∷ []) (initial text_wires no_duration 100)
unfolding poll_once loop_turn
away-Fails = ((target truncated, refl), ((target truncated, refl), tt))

run_loop_backoff_example :
    (run_loop text_wires no_duration 100 no_text
      (away ∷ away ∷ [])
      (initial text_wires no_duration 100)).backoff
    ≡ 400_000_000
run_loop_backoff_example =
    run_loop_backoff text_wires no_duration 100 no_text (away ∷ away ∷ [])
      (initial text_wires no_duration 100) (omega arith) away-Fails
