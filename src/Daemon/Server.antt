-- ===== src/Daemon/Server.antt =====
-- crates/lightwatch-daemon/src/server.rs: what the routes answer. axum's routing and tokio's select are
-- not modelled: a handler is a function of what it reads, a select an outcome that came first. The JSON
-- text of an answer is the answer itself, and the embedded files are a parameter.
pub mod Served
pub mod Feeds
mod Tests
use lightwatch.Base.{
  ℕ, Bool, true, false, ◌&&◌, List, [], ◌∷◌, ◌++◌, map, Option, none, some, ltb, ◌==◌,
  if◌then◌else◌, Text, key_eq, text_key, text_cmp, get, u64_max,
}
use Prim.Native.Nat.Ordering.{lt, eq, gt}
use lightwatch.Daemon.Store.State.{ProcessId, ProcessState, Update}
use lightwatch.Daemon.Store.Registry.{Registry, all}
use lightwatch.Daemon.Session.{Session, Member, Feed, cpu_feed, memory_feed, pair_sessions, find}
use lightwatch.Daemon.Api.Shapes.{
  Resolution, fine, parse_resolution, SnapshotView, ProcessSummary, Snapshot, SessionJson,
  StreamMessage, SessionStreamMessage,
}
use lightwatch.Daemon.Api.Snapshot.{
  Floats, summary, snapshot, session_list, stream_message, session_stream_message,
}

abbrev pub default_port : ℕ
default_port = 7_700

-- The value of LIGHTWATCH_PORT, where it is there and parses.
unfoldable pub port : Option ℕ → ℕ
port none = default_port
port (some n) = n

pub data Response (A : Type 0) : Type 0 where
  answered : A → Response A
  bad_request : Response A
  not_found : Response A

-- The order of the list: later starts first, then by id.
abbrev pub is_lt : Text → Text → Bool
is_lt a b = elim (text_cmp a b) [ lt ↦ true | eq ↦ false | gt ↦ false ]

abbrev pub listed_before : ProcessSummary → ProcessSummary → Bool
listed_before a b =
    if ltb b.started_unix_ms a.started_unix_ms
    then true
    else (a.started_unix_ms == b.started_unix_ms) && is_lt a.id b.id

unfoldable pub place_summary : ProcessSummary → List ProcessSummary → List ProcessSummary
place_summary a [] = a ∷ []
place_summary a (b ∷ list) =
    let later = place_summary a list in if listed_before b a then b ∷ later else a ∷ b ∷ list

unfoldable pub sort_summaries : List ProcessSummary → List ProcessSummary
unfolding place_summary
sort_summaries [] = []
sort_summaries (a ∷ list) = place_summary a (sort_summaries list)

unfoldable pub list_processes : Registry → List ProcessSummary
unfolding sort_summaries summary all
list_processes registry = sort_summaries (map summary (all registry))

pub record SnapshotParams : Type 0 where
  pub resolution : Option Text
  pub limit : Option ℕ

abbrev pub asked_resolution : Option Text → Option Resolution
asked_resolution none = some fine
asked_resolution (some raw) = parse_resolution raw

-- `unwrap_or(usize::MAX)`.
abbrev pub asked_limit : Option ℕ → ℕ
asked_limit none = u64_max
asked_limit (some limit) = limit

module _ (floats : Floats) where
  abbrev pub snapshot_of : ℕ → SnapshotView → Option ProcessState → Response (Snapshot floats.Float)
  snapshot_of now view none = not_found
  snapshot_of now view (some state) = answered (snapshot floats state now view)

  abbrev pub snapshot_as :
      Registry → ProcessId → ℕ → ℕ → Option Resolution → Response (Snapshot floats.Float)
  snapshot_as registry id now limit none = bad_request
  snapshot_as registry id now limit (some resolution) =
      snapshot_of now (record { resolution = resolution; limit = limit }) (get id registry)

  unfoldable pub snapshot_route :
      Registry → ProcessId → SnapshotParams → ℕ → Response (Snapshot floats.Float)
  unfolding parse_resolution snapshot
  snapshot_route registry id params now =
      snapshot_as registry id now (asked_limit params.limit) (asked_resolution params.resolution)

unfoldable pub list_sessions : Registry → List SessionJson
unfolding session_list pair_sessions
list_sessions registry = session_list (pair_sessions registry)

-- What `fan_in` is started with: the session, and the process of each feed that was subscribed to.
pub record Subscribed : Type 0 where
  pub session_id : Text
  pub cpu : Option ProcessId
  pub memory : Option ProcessId

abbrev pub subscribe_at : ProcessId → Option ProcessState → Option ProcessId
subscribe_at id none = none
subscribe_at id (some state) = some id

abbrev pub subscribe : Registry → Option Member → Option ProcessId
subscribe registry none = none
subscribe registry (some member) = subscribe_at member.process_id (get member.process_id registry)

abbrev pub fan_in_on : Text → Option ProcessId → Option ProcessId → Response Subscribed
fan_in_on id none none = not_found
fan_in_on id (some cpu) memory =
    answered (record { session_id = id; cpu = some cpu; memory = memory })
fan_in_on id none (some memory) =
    answered (record { session_id = id; cpu = none; memory = some memory })

abbrev pub stream_session : Registry → Option Session → Response Subscribed
stream_session registry none = not_found
stream_session registry (some session) =
    fan_in_on session.id (subscribe registry session.cpu) (subscribe registry session.memory)

unfoldable pub session_stream : Registry → Text → Response Subscribed
unfolding find
session_stream registry id = stream_session registry (find registry id)

-- What a receiver gives.
pub data Received : Type 0 where
  update : Update → Received
  lagged : ℕ → Received
  closed : Received

pub data Tagged : Type 0 where
  deliver : SessionStreamMessage → Tagged
  skip : Tagged
  stop : Tagged

unfoldable pub tagged : Text → Feed → ProcessId → Received → Tagged
unfolding session_stream_message
tagged session_id feed process_id (update u) =
    deliver (session_stream_message session_id feed process_id u)
tagged session_id feed process_id (lagged missed) = skip
tagged session_id feed process_id closed = stop

-- What the select of `fan_in` gives in one turn, and whether the message that may follow is written.
pub data Turn : Type 0 where
  cpu_turn : Received → Bool → Turn
  memory_turn : Received → Bool → Turn
  client_spoke : Turn
  client_left : Turn

-- The messages that a socket is sent after one turn; `rest` is what the next turns send.
abbrev pub after_turn : Tagged → Bool → List SessionStreamMessage → List SessionStreamMessage
after_turn (deliver message) written rest = if written then message ∷ rest else []
after_turn skip written rest = rest
after_turn stop written rest = []

-- The loop of `fan_in`, over the turns that come; past the last one nothing comes.
unfoldable pub fan_in : Text → ProcessId → ProcessId → List Turn → List SessionStreamMessage
unfolding tagged
fan_in session_id cpu_id memory_id [] = []
fan_in session_id cpu_id memory_id (cpu_turn received written ∷ turns) =
    after_turn (tagged session_id cpu_feed cpu_id received) written
      (fan_in session_id cpu_id memory_id turns)
fan_in session_id cpu_id memory_id (memory_turn received written ∷ turns) =
    after_turn (tagged session_id memory_feed memory_id received) written
      (fan_in session_id cpu_id memory_id turns)
fan_in session_id cpu_id memory_id (client_spoke ∷ turns) = fan_in session_id cpu_id memory_id turns
fan_in session_id cpu_id memory_id (client_left ∷ turns) = []

abbrev pub stream_at : ProcessId → Option ProcessState → Response ProcessId
stream_at id none = not_found
stream_at id (some state) = answered id

unfoldable pub stream : Registry → ProcessId → Response ProcessId
stream registry id = stream_at id (get id registry)

-- A turn of `pump`, which has one feed.
pub data PumpTurn : Type 0 where
  feed_turn : Received → Bool → PumpTurn
  spoke : PumpTurn
  left : PumpTurn

unfoldable pub pump : ProcessId → List PumpTurn → List StreamMessage
unfolding stream_message
pump id [] = []
pump id (feed_turn (update u) written ∷ turns) =
    let rest = pump id turns in if written then stream_message id u ∷ rest else []
pump id (feed_turn (lagged missed) written ∷ turns) = pump id turns
pump id (feed_turn closed written ∷ turns) = []
pump id (spoke ∷ turns) = pump id turns
pump id (left ∷ turns) = []
