-- ===== src/Hotpath/Loop.antt =====
-- crates/lightwatch-hotpath/src/main.rs and sink.rs: the loop of the bridge. The target's replies, the
-- daemon's socket and the clock are arguments of a turn; durations are in nanoseconds. Of the lines on
-- stderr there are those of `Log`.
pub mod Backoff
mod Tests
use lightwatch.Base.{
  ℕ, ◌-◌, ◌*◌, ◌/◌, min, Bool, true, false, List, [], ◌∷◌, ◌++◌, Option, none, some, if◌then◌else◌,
  Text, key_eq, text_key,
}
use lightwatch.Proto.Wire.{Hello, Frame, Message, new_hello}
use lightwatch.Proto.Wire
use lightwatch.Probe.Emit.{Wires}
use lightwatch.Hotpath.Source.{Polled, ok, err, PollError}
use lightwatch.Hotpath.Bridge.{Stream, Report, new_stream, same_run, absorb_report, app_name}

abbrev pub max_backoff : ℕ
max_backoff = 5_000_000_000

abbrev pub hotpath_source : Text
hotpath_source =
    b'l' ∷ b'i' ∷ b'g' ∷ b'h' ∷ b't' ∷ b'w' ∷ b'a' ∷ b't' ∷ b'c' ∷ b'h' ∷ b'-' ∷ b'h' ∷ b'o' ∷ b't'
    ∷ b'p' ∷ b'a' ∷ b't' ∷ b'h' ∷ []

pub data Trouble : Type 0 where
  target : PollError → Trouble
  daemon : Trouble

-- At the time `now_ms`.
unfoldable pub process_start_unix_ms : ℕ → ℕ → ℕ
process_start_unix_ms now_ms elapsed_ns = now_ms - elapsed_ns / 1_000_000

-- What one turn finds: the target's two replies, the name of the report's caller, whether the
-- daemon's socket opens, and the time.
pub record Turn (Writer : Type 0) : Type 0 where
  pub status_pid : Polled ℕ
  pub report : Polled Report
  pub caller_name : Text
  pub opened : Option Writer
  pub now_ms : ℕ
  pub elapsed : ℕ

pub record Session (Writer : Type 0) : Type 0 where
  pub connection : Writer
  pub stream : Stream

-- The complaint that was printed last, and the lines that the log printed, newest first.
pub record Log : Type 0 where
  pub complaint : Option Text
  pub printed : List Text

abbrev pub says : Option Text → Text → Bool
says none message = false
says (some complaint) message = key_eq complaint message

unfoldable pub log_trouble : Text → Log → Log
log_trouble message log =
    if says log.complaint message
    then log
    else record { complaint = some message; printed = message ∷ log.printed }

abbrev pub recovered_line : Text
recovered_line = b'r' ∷ b'e' ∷ b'c' ∷ b'o' ∷ b'v' ∷ b'e' ∷ b'r' ∷ b'e' ∷ b'd' ∷ []

abbrev pub recovered_from : Option Text → Log → Log
recovered_from none log = log
recovered_from (some complaint) log = record {
  complaint = none;
  printed = recovered_line ∷ log.printed;
}

unfoldable pub log_recovered : Log → Log
log_recovered log = recovered_from log.complaint log

module _ (wires : Wires) (parse_duration : Text → Option ℕ) (window_ms : ℕ) where
  -- `Connection::write`.
  abbrev pub flushed : Option wires.Stream → Option wires.Stream
  flushed none = none
  flushed (some s) = wires.flush s

  abbrev pub newline : Option wires.Stream → Option wires.Stream
  newline none = none
  newline (some s) = flushed (wires.write_all (b'\n' ∷ []) s)

  unfoldable pub write_message : Message → wires.Stream → Option wires.Stream
  write_message message s = newline (wires.write_all (wires.to_json_line message) s)

  -- `Connection::open`, over what connecting gives.
  unfoldable pub open_connection : Option wires.Stream → Hello → Option wires.Stream
  unfolding write_message
  open_connection none hello = none
  open_connection (some s) hello = write_message (Wire.Message.hello hello) s

  abbrev pub hello_of : Turn wires.Stream → ℕ → Report → Hello
  hello_of t pid report =
      record (new_hello (app_name t.caller_name) hotpath_source pid
        (process_start_unix_ms t.now_ms report.total_elapsed_ns)) { window_ms = window_ms }

  abbrev pub session_on : ℕ → Option wires.Stream → Option (Session wires.Stream)
  session_on pid none = none
  session_on pid (some s) = some (record { connection = s; stream = new_stream pid })

  unfoldable pub open_session : Turn wires.Stream → ℕ → Report → Option (Session wires.Stream)
  unfolding open_connection new_hello app_name process_start_unix_ms
  open_session t pid report = session_on pid (open_connection t.opened (hello_of t pid report))

  -- A session of another run of the target is let go.
  abbrev pub continuing : ℕ → Report → Option (Session wires.Stream) → Option (Session wires.Stream)
  continuing pid report none = none
  continuing pid report (some s) =
      if same_run s.stream pid report.total_elapsed_ns then some s else none

  -- The session that is left and the trouble, where there is one.
  abbrev pub Outcome : Type 0
  Outcome = Option (Session wires.Stream) × Option Trouble

  abbrev pub sent : Session wires.Stream → Option wires.Stream → Outcome
  sent s none = (some s, some daemon)
  sent s (some connection) = (some (record s { connection = connection }), none)

  abbrev pub send_report : Report → Option (Session wires.Stream) → Outcome
  send_report report none = (none, some daemon)
  send_report report (some s) =
      let absorbed = absorb_report parse_duration s.stream report in
      sent (record s { stream = absorbed.0 })
        (write_message (Wire.Message.frame absorbed.1) s.connection)

  abbrev pub or_open :
      Turn wires.Stream → ℕ → Report → Option (Session wires.Stream) → Option (Session wires.Stream)
  or_open t pid report (some s) = some s
  or_open t pid report none = open_session t pid report

  abbrev pub poll_with :
      Turn wires.Stream → Polled ℕ → Polled Report → Option (Session wires.Stream) → Outcome
  poll_with t (err e) report session = (session, some (target e))
  poll_with t (ok pid) (err e) session = (session, some (target e))
  poll_with t (ok pid) (ok report) session =
      send_report report (or_open t pid report (continuing pid report session))

  unfoldable pub poll_once : Turn wires.Stream → Option (Session wires.Stream) → Outcome
  unfolding open_session same_run absorb_report write_message
  poll_once t session = poll_with t t.status_pid t.report session

  -- What the loop keeps, and how long it slept last.
  pub record Looped : Type 0 where
    pub session : Option (Session wires.Stream)
    pub backoff : ℕ
    pub log : Log
    pub slept : ℕ

  abbrev pub window_ns : ℕ
  window_ns = window_ms * 1_000_000

  abbrev pub initial : Looped
  initial = record {
    session = none;
    backoff = window_ns;
    log = record { complaint = none; printed = [] };
    slept = 0;
  }

  -- A daemon that hangs up loses its session.
  abbrev pub session_after : Trouble → Option (Session wires.Stream) → Option (Session wires.Stream)
  session_after (target e) session = session
  session_after daemon session = none

  abbrev pub after_poll : (Trouble → Text) → Turn wires.Stream → Looped → Outcome → Looped
  after_poll to_text t l (session, none) = record {
    session = session;
    backoff = window_ns;
    log = log_recovered l.log;
    slept = window_ns - t.elapsed;
  }
  after_poll to_text t l (session, some trouble) = record {
    session = session_after trouble session;
    backoff = min (l.backoff * 2) max_backoff;
    log = log_trouble (to_text trouble) l.log;
    slept = l.backoff;
  }

  -- One turn of `main`'s loop.
  unfoldable pub loop_turn : (Trouble → Text) → Turn wires.Stream → Looped → Looped
  unfolding poll_once log_recovered log_trouble
  loop_turn to_text t l = after_poll to_text t l (poll_once t l.session)

  unfoldable pub run_loop : (Trouble → Text) → List (Turn wires.Stream) → Looped → Looped
  unfolding loop_turn
  run_loop to_text [] l = l
  run_loop to_text (t ∷ turns) l = run_loop to_text turns (loop_turn to_text t l)
