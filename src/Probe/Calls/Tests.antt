-- ===== src/Probe/Calls/Tests.antt =====
-- crates/lightwatch-probe/src/calls.rs: a small trace.
use lightwatch.Base.{◌+◌, ◌≡◌, refl, List, [], ◌∷◌, arith}
use lightwatch.Probe.Paths.{new_table}
use lightwatch.Probe.Calls.Conserve.{reported, pending}
use lightwatch.Probe.Calls.Trace.{
  Step, enter, leave, IsClocked, new_thread, run, spans, run-reported,
}

-- Function 1 calls 2, which calls itself; 1 is still open at the end of the second span.
abbrev example_steps : List Step
example_steps =
    enter 1 10
    ∷ enter 2 20
    ∷ enter 2 30
    ∷ leave 40
    ∷ leave 60
    ∷ leave 70
    ∷ enter 1 100
    ∷ enter 2 110
    ∷ leave 115
    ∷ []

example-IsClocked : IsClocked 0 example_steps
example-IsClocked = ground arith

spans_example : spans 0 0 example_steps ≡ 60
spans_example = refl

run-reported_example :
    reported (run 16 example_steps (new_thread, new_table)).0.accum.stacks
    ≡ spans 0 0 example_steps + pending (run 16 example_steps (new_thread, new_table)).0.stack
run-reported_example = run-reported 16 example_steps new_table example-IsClocked
