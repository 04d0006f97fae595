-- ===== src/Probe/Emit.antt =====
-- crates/lightwatch-probe/src/emit.rs: the emitter. The stream of a socket, with the writing of bytes
-- on it, is a parameter, and so is the JSON line of a message. What a tick finds is an argument of it:
-- the threads' slots, the tables, the sockets that answer, and the time since the start.
pub mod Fed
pub mod Ticks
pub mod Reconnect
mod Tests
use lightwatch.Base.{
  ℕ, Bool, List, [], ◌∷◌, ◌++◌, map, Option, none, some, leb, if◌then◌else◌, add64, Map, Text,
}
use lightwatch.Proto.Wire.{Hello, Event, Frame, Message, new_hello, default_window_ms}
use lightwatch.Proto.Wire
use lightwatch.Proto.Dist
use lightwatch.Daemon.Window.{or_default}
use lightwatch.Probe.Samples.{Accum, CallStat, StackStat, ThreadSlot, into_dist, drain}
use lightwatch.Probe.Census.{TypeSlot, size_buckets, live_count, bytes_from_buckets}
use lightwatch.Probe.Registry.{Tables, Marks, no_marks, registers_since, tracked_types}

abbrev pub source_name : Text
source_name =
    b'l' ∷ b'i' ∷ b'g' ∷ b'h' ∷ b't' ∷ b'w' ∷ b'a' ∷ b't' ∷ b'c' ∷ b'h' ∷ b'-' ∷ b'p' ∷ b'r' ∷ b'o'
    ∷ b'b' ∷ b'e' ∷ []

-- The value of LIGHTWATCH_WINDOW_MS, where it is there and parses.
unfoldable pub window_ms : Option ℕ → ℕ
window_ms none = default_window_ms
window_ms (some ms) = if leb 1 ms then ms else default_window_ms

unfoldable pub call_events : Map ℕ CallStat → List Event
unfolding into_dist
call_events [] = []
call_events ((func, stat) ∷ more) =
    Wire.Event.calls func stat.count (into_dist stat.ns) ∷ call_events more

unfoldable pub stack_events : Map ℕ StackStat → List Event
stack_events [] = []
stack_events ((path, stat) ∷ more) =
    Wire.Event.stack path stat.count stat.self_ns ∷ stack_events more

unfoldable pub census_events : List (ℕ × TypeSlot) → List Event
unfolding size_buckets live_count bytes_from_buckets
census_events [] = []
census_events ((id, slot) ∷ more) =
    let sizes = size_buckets slot in
    Wire.Event.census id (live_count slot) (bytes_from_buckets sizes) (Dist.buckets sizes)
    ∷ census_events more

unfoldable pub events_of : Accum → Tables → List Event
unfolding call_events stack_events census_events tracked_types
events_of accum t =
    call_events accum.calls ++ (stack_events accum.stacks ++ census_events (tracked_types t.types))

pub record Sink (Stream : Type 0) : Type 0 where
  pub stream : Stream

pub record Emitter (Stream : Type 0) : Type 0 where
  pub hello : Hello
  pub seq : ℕ
  pub sink : Option (Sink Stream)
  pub marks : Marks

unfoldable pub new_emitter : {Stream : Type 0} → Text → ℕ → ℕ → Option ℕ → Emitter Stream
unfolding new_hello window_ms
new_emitter app pid started_unix_ms configured = record {
  hello = record (new_hello app source_name pid started_unix_ms) {
    window_ms = window_ms configured;
  };
  seq = 0;
  sink = none;
  marks = no_marks;
}

-- What a tick finds.
pub record Around (Stream : Type 0) : Type 0 where
  pub slots : List ThreadSlot
  pub tables : Tables
  pub sockets : List Text
  pub answers : Text → Option Stream
  pub t_ns : ℕ

-- The operations of a socket's stream; a failed one gives `none`.
pub record Wires : Type 1 where
  pub Stream : Type 0
  pub set_write_timeout : ℕ → Stream → Stream
  pub write_all : Text → Stream → Option Stream
  pub flush : Stream → Option Stream
  pub to_json_line : Message → Text

module _ (wires : Wires) where
  open wires use {Stream, set_write_timeout, write_all, flush, to_json_line}

  abbrev pub sink_of : Option Stream → Option (Sink Stream) → Option (Sink Stream)
  sink_of (some stream) later = some (record { stream = set_write_timeout 250 stream })
  sink_of none later = later

  unfoldable pub sink_connect : (Text → Option Stream) → List Text → Option (Sink Stream)
  sink_connect answers [] = none
  sink_connect answers (path ∷ paths) = sink_of (answers path) (sink_connect answers paths)

  abbrev pub and_flush : Option Stream → Option (Sink Stream)
  and_flush none = none
  and_flush (some stream) = flushed (flush stream)
    where
      flushed : Option Stream → Option (Sink Stream)
      flushed none = none
      flushed (some flushed_stream) = some (record { stream = flushed_stream })

  abbrev pub and_newline : Option Stream → Option (Sink Stream)
  and_newline none = none
  and_newline (some stream) = and_flush (write_all (b'\n' ∷ []) stream)

  unfoldable pub sink_send : Sink Stream → Message → Option (Sink Stream)
  sink_send sink message = and_newline (write_all (to_json_line message) sink.stream)

  abbrev pub frame_of : Around Stream → Emitter Stream → Frame
  frame_of a e = record {
    seq = e.seq;
    t_ns = a.t_ns;
    registers = (registers_since a.tables e.marks).0;
    events = events_of (drain a.slots).0 a.tables;
  }

  -- What the emitter does with the outcome of the frame's `send`.
  abbrev pub after_send : Emitter Stream → Marks → Option (Sink Stream) → Emitter Stream
  after_send e marks (some sink) = record e { seq = add64 e.seq 1; sink = some sink; marks = marks }
  after_send e marks none = record e { sink = none }

  unfoldable pub send_frame : Around Stream → Emitter Stream → Sink Stream → Emitter Stream
  unfolding sink_send registers_since events_of drain
  send_frame a e sink =
      after_send e (registers_since a.tables e.marks).1
        (sink_send sink (Wire.Message.frame (frame_of a e)))

  abbrev pub greeted : Around Stream → Emitter Stream → Option (Sink Stream) → Emitter Stream
  greeted a e none = e
  greeted a e (some sink) = send_frame a (record e { sink = some sink; marks = no_marks }) sink

  abbrev pub connected : Around Stream → Emitter Stream → Option (Sink Stream) → Emitter Stream
  connected a e none = e
  connected a e (some sink) = greeted a e (sink_send sink (Wire.Message.hello e.hello))

  abbrev pub with_sink : Around Stream → Emitter Stream → Option (Sink Stream) → Emitter Stream
  with_sink a e (some sink) = send_frame a e sink
  with_sink a e none = connected a e (sink_connect a.answers a.sockets)

  -- One tick: the emitter, and the slots as `drain` leaves them.
  unfoldable pub tick : Around Stream → Emitter Stream → Emitter Stream × List ThreadSlot
  unfolding sink_connect sink_send send_frame drain
  tick a e = (with_sink a e e.sink, (drain a.slots).1)
