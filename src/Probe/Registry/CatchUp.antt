-- ===== src/Probe/Registry/CatchUp.antt =====
-- crates/lightwatch-probe/src/registry.rs: the marks walk forward to the ends of the tables.
use lightwatch.Base.{ℕ, zero, suc, ◌≤◌, refl, List, [], ◌++◌, arith, length, drop, length-drop}
use lightwatch.Proto.Wire
use lightwatch.Probe.Registry.{Tables, Marks, registers_since}
use lightwatch.Probe.Registry.Owed.{path_registers_mark}

-- The marks after a number of frames, while nothing new is interned.
abbrev pub advance : Tables → ℕ → Marks → Marks
advance t zero m = m
advance t (suc n) m = advance t n (registers_since t m).1

-- All names are sent, and the first contexts.
abbrev pub names_sent : Tables → ℕ → Marks
names_sent t p = record {
  functions_sent = length t.functions.functions;
  types_sent = length t.types.types;
  paths_sent = p;
}

-- Everything is sent.
abbrev pub ends : Tables → Marks
ends t = names_sent t (length t.paths.nodes)

pub mark_range :
    (t : Tables) (m : Marks)
    → m.paths_sent ≤ length t.paths.nodes
    → (m.paths_sent ≤ (registers_since t m).1.paths_sent)
      × ((registers_since t m).1.paths_sent ≤ length t.paths.nodes)
unfolding registers_since
mark_range t m low =
    let left = drop m.paths_sent t.paths.nodes in
    let mark = λ (room : ℕ). path_registers_mark left room m.paths_sent m.paths_sent refl in
    let size = length-drop m.paths_sent t.paths.nodes in
    (omega (arith, mark _, size), omega (arith, mark _, size))

-- The registers of a number of frames, while nothing new is interned.
abbrev pub sent_over : Tables → ℕ → Marks → List Wire.Register
sent_over t zero m = []
sent_over t (suc n) m = (registers_since t m).0 ++ sent_over t n (registers_since t m).1
