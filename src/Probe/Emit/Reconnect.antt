-- ===== src/Probe/Emit/Reconnect.antt =====
-- crates/lightwatch-probe/src/emit.rs: whole runs of the emitter.
use lightwatch.Base.{
  ℕ, ◌≡◌, refl, sym, ◌∙◌, ap, List, [], ◌∷◌, ◌++◌, Option, none, some, arith, Text,
}
use mathlib.Core.List.{append-nil}
use lightwatch.Proto.Wire.{Hello, Frame, Message}
use lightwatch.Proto.Wire
use lightwatch.Daemon.Store.State.{ProcessId}
use lightwatch.Daemon.Store.History.{run}
use lightwatch.Probe.Registry.{Tables, no_marks}
use lightwatch.Probe.Registry.Accepted.{IsSendable}
use lightwatch.Probe.Registry.Running.{Extends, Running, Running-IsSendable, Running-Extends}
use lightwatch.Probe.Emit.{
  Wires, Sink, Emitter, Around, tick, sink_send, sink_connect, sink_of, with_sink, connected,
  greeted, send_frame,
}
use lightwatch.Probe.Emit.Ticks.{Written, Fed, IsFed, line_of, sink_send-wrote, send_frame-IsFed}
use lightwatch.Probe.Emit.Fed.{Knows-grown, new-Knows}

module _ (wires : Wires) (written : Written wires) (id : ProcessId) (clock : ℕ → ℕ) where
  open wires use {Stream}
  open written use {so_far}

  -- A socket that answers has been sent nothing yet.
  abbrev pub IsFresh : Around Stream → Type 0
  IsFresh a = (path : Text) (s : Stream) → a.answers path ≡ some s → so_far s ≡ []

  sink_connect-fresh :
      (a : Around Stream) (paths : List Text) (sink : Sink Stream)
      → IsFresh a
      → sink_connect wires a.answers paths ≡ some sink
      → so_far sink.stream ≡ []
  unfolding sink_connect
  sink_connect-fresh a [] sink fresh e = absurd (cc)
  sink_connect-fresh a (path ∷ paths) sink fresh e =
      at (sink_connect-fresh a paths sink fresh) (a.answers path) refl e
    where
      at :
          (sink_connect wires a.answers paths ≡ some sink → so_far sink.stream ≡ [])
          → (o : Option Stream) → a.answers path ≡ o
          → sink_of wires o (sink_connect wires a.answers paths) ≡ some sink
          → so_far sink.stream ≡ []
      at later none off e' = later e'
      at later (some s) on e' =
          let same : wires.set_write_timeout 250 s ≡ sink.stream = ground arith in
          ap so_far (sym same) ∙ written.timed 250 s ∙ fresh path s on

  -- The hello went out over a fresh sink.
  greeted-Fed :
      (t : Tables) (e : Emitter Stream) (sink sink' : Sink Stream)
      → so_far sink.stream ≡ []
      → sink_send wires sink (Wire.Message.hello e.hello) ≡ some sink'
      → Fed wires written id clock t (record e { sink = some sink'; marks = no_marks }) sink'
  unfolding run
  greeted-Fed t e sink sink' empty ok = record {
    frames = [];
    first = e.seq;
    lines =
        sink_send-wrote wires written id clock sink sink' (Wire.Message.hello e.hello) ok
        ∙ ap (λ r. r ++ line_of wires written id clock (Wire.Message.hello e.hello)) empty
        ∙ sym (append-nil _);
    numbered = refl;
    knows = new-Knows t id e.hello;
    range = omega arith;
  }

  greeted-IsFed :
      (a : Around Stream) (e : Emitter Stream) (sink : Sink Stream) (o : Option (Sink Stream))
      → IsSendable a.tables
      → e.sink ≡ none
      → so_far sink.stream ≡ []
      → sink_send wires sink (Wire.Message.hello e.hello) ≡ o
      → IsFed wires written id clock a.tables (greeted wires a e o)
  unfolding send_frame
  greeted-IsFed a e sink none ready off empty ok other at = absurd (ground arith)
  greeted-IsFed a e sink (some sink') ready off empty ok other at =
      send_frame-IsFed wires written id clock a (record e { sink = some sink'; marks = no_marks })
        sink' _ ready refl (greeted-Fed a.tables e sink sink' empty ok) other at

  connected-IsFed :
      (a : Around Stream) (e : Emitter Stream) (o : Option (Sink Stream))
      → IsSendable a.tables
      → IsFresh a
      → e.sink ≡ none
      → sink_connect wires a.answers a.sockets ≡ o
      → IsFed wires written id clock a.tables (connected wires a e o)
  connected-IsFed a e none ready fresh off on other at = absurd (ground arith)
  connected-IsFed a e (some sink) ready fresh off on other at =
      greeted-IsFed a e sink _ ready off (sink_connect-fresh a a.sockets sink fresh on) refl other
        at

  tick-IsFed :
      (t : Tables) (a : Around Stream) (e : Emitter Stream)
      → IsSendable a.tables
      → IsFresh a
      → Extends t a.tables
      → IsFed wires written id clock t e
      → IsFed wires written id clock a.tables (tick wires a e).0
  unfolding tick send_frame
  tick-IsFed t a e ready fresh grown fed = at e.sink refl
    where
      at :
          (o : Option (Sink Stream))
          → e.sink ≡ o
          → IsFed wires written id clock a.tables (with_sink wires a e o)
      at none off = connected-IsFed a e _ ready fresh off refl
      at (some sink) on =
          let was = fed sink on in
          send_frame-IsFed wires written id clock a e sink _ ready refl (record {
            frames = was.frames;
            first = was.first;
            lines = was.lines;
            numbered = was.numbered;
            knows = Knows-grown t a.tables e.marks _ grown was.range was.knows;
            range = omega (arith, was.range, grown.longer);
          })

  -- The emitter after ticks, each with what it finds.
  abbrev pub run_ticks : List (Around Stream) → Emitter Stream → Emitter Stream
  run_ticks [] e = e
  run_ticks (a ∷ around) e = run_ticks around (tick wires a e).0

  abbrev pub last_tables : Tables → List (Around Stream) → Tables
  last_tables t [] = t
  last_tables t (a ∷ around) = last_tables a.tables around

  -- From tick to tick the program runs on, and a socket that answers has been sent nothing yet.
  abbrev pub Sound : Tables → List (Around Stream) → Type 0
  Sound t [] = Unit {0}
  Sound t (a ∷ around) = Running t a.tables × IsFresh a × Sound a.tables around

  ticks-IsFed :
      (around : List (Around Stream)) (t : Tables) (e : Emitter Stream)
      → IsSendable t
      → Sound t around
      → IsFed wires written id clock t e
      → IsFed wires written id clock (last_tables t around) (run_ticks around e)
  ticks-IsFed [] t e ready sound fed = fed
  ticks-IsFed (a ∷ around) t e ready (runs, fresh, sound) fed =
      let next = Running-IsSendable t a.tables runs ready in
      ticks-IsFed around a.tables (tick wires a e).0 next sound
        (tick-IsFed t a e next fresh (Running-Extends t a.tables runs) fed)

  -- For an emitter that starts with no connection, on tables whose contexts form a tree and whose ids are
  -- below 2 ^ 32, over ticks between which the program calls functions, builds, clones and drops counted
  -- values and interns contexts (below the root or a context of the table, for a function of the table,
  -- while no table comes to 2 ^ 32 entries), and in which a socket that answers is a fresh one, however
  -- often connecting and sending fail: whenever it has a sink in the end, what was written to that sink is
  -- the hello and then frames that are numbered one by one up to the next number, and a new daemon that
  -- takes these frames, at any times, knows every function and type by its name and every context as it
  -- is, up to the emitter's marks.
  pub run_ticks-IsFed :
      (around : List (Around Stream)) (t : Tables) (e : Emitter Stream)
      → e.sink ≡ none
      → IsSendable t
      → Sound t around
      → IsFed wires written id clock (last_tables t around) (run_ticks around e)
  run_ticks-IsFed around t e off ready sound =
      ticks-IsFed around t e ready sound (λ sink on. absurd (ground arith))
