-- ===== src/Probe/Emit/Tests.antt =====
-- crates/lightwatch-probe/src/emit.rs: two ticks, of which the first finds no socket.
use lightwatch.Base.{◌≤◌, length, ◌≡◌, refl, sym, List, [], ◌∷◌, ◌++◌, none, some, arith, Text}
use lightwatch.Probe.Registry.Example.{two_tables, two-IsSendable}
use lightwatch.Probe.Emit.{Wires, Emitter, Around, new_emitter}
use lightwatch.Probe.Paths.{intern_path}
use lightwatch.Probe.Registry.{Tables, new_site, site_id}
use lightwatch.Probe.Registry.Running.{Running, idle, further, enters, interns}
use lightwatch.Probe.Emit.Ticks.{Written, IsFed}
use lightwatch.Probe.Emit.Reconnect.{Sound, run_ticks, last_tables, run_ticks-IsFed}

-- A stream is what was written to it, and a message is the letter m.
abbrev text_wires : Wires
text_wires = record {
  Stream = Text;
  set_write_timeout = λ n s. s;
  write_all = λ t s. some (s ++ t);
  flush = λ s. some s;
  to_json_line = λ m. b'm' ∷ [];
}

abbrev text_written : Written text_wires
text_written = record {
  so_far = λ s. s;
  wrote = λ text s s' e. let is : s ++ text ≡ s' = ground arith in sym is;
  flushed = λ s s' e. let is : s ≡ s' = ground arith in sym is;
  timed = λ n s. refl;
}

abbrev entered : Tables
entered = record two_tables { functions = (site_id 9 two_tables.functions).0 }

abbrev grown_tables : Tables
grown_tables = record entered { paths = (intern_path 65_536 2 3 entered.paths).0 }

three_functions : 3 ≤ length entered.functions.functions
unfolding site_id new_site
three_functions = omega arith

abbrev closed : Around Text
closed = record { slots = []; tables = two_tables; sockets = []; answers = λ p. none; t_ns = 100 }

abbrev answering : Around Text
answering = record {
  slots = [];
  tables = grown_tables;
  sockets = [] ∷ [];
  answers = λ p. some [];
  t_ns = 200;
}

abbrev both : List (Around Text)
both = closed ∷ answering ∷ []

-- Between the two ticks a third function enters, under the second context.
enters-Running : Running two_tables entered
enters-Running =
    further two_tables two_tables entered (idle two_tables) (enters two_tables 9 (omega arith))

interns-Running : Running two_tables grown_tables
interns-Running =
    further two_tables entered grown_tables enters-Running
      (interns entered 65_536 2 3 (omega arith) (omega arith) (omega arith) three_functions)

answering-IsFresh :
    (p : Text) (s : Text) → answering.answers p ≡ some s → text_written.so_far s ≡ []
answering-IsFresh p s e = let is : [] ≡ s = ground arith in sym is

both-Sound : Sound text_wires text_written [] (λ n. n) two_tables both
both-Sound = (idle two_tables, λ p s e. absurd (cc), (interns-Running, answering-IsFresh, tt))

abbrev example_emitter : Emitter Text
example_emitter = new_emitter [] 7 1000 none

starts_off : example_emitter.sink ≡ none
unfolding new_emitter
starts_off = refl

run_ticks-IsFed_example :
    IsFed text_wires text_written []
      (λ n. n)
      (last_tables text_wires text_written [] (λ n. n) two_tables both)
      (run_ticks text_wires text_written [] (λ n. n) both example_emitter)
run_ticks-IsFed_example =
    run_ticks-IsFed text_wires text_written [] (λ n. n) both two_tables example_emitter starts_off
      two-IsSendable both-Sound
