-- ===== src/Daemon/Api/Snapshot.antt =====
-- crates/lightwatch-daemon/src/api.rs: what makes the answers. `f64` is a record of the operations
-- that the source uses on it.
use lightwatch.Base.{
  ℕ, ◌-◌, ◌*◌, ◌/◌, max, Bool, List, [], ◌∷◌, map, Option, none, some, ◌==◌, if◌then◌else◌, length,
  drop, add64, Map, Text, nat_key, get,
}
use mathlib.Core.Option
use lightwatch.Proto.Wire.{FunctionId, PathId, Location}
use lightwatch.Proto.Dist.{bucket_range}
use lightwatch.Daemon.Window.{
  Window, CallDelta, StackDelta, CensusReading, start_t_ns, end_t_ns, or_default,
}
use lightwatch.Daemon.Ring.{Ring, most_recent}
use lightwatch.Daemon.Store.State.{
  ProcessState, ProcessId, PathNode, FunctionState, TypeState, Update, window_closed, process_ended,
  is_connected, default_totals,
}
use lightwatch.Daemon.Store.State
use lightwatch.Daemon.Session.{Session, Member, Feed, cpu_feed, memory_feed, session_connected}
use lightwatch.Daemon.Api.Shapes.{
  Resolution, fine, coarse, resolution_text, rate_window_ms, SnapshotView, CountsJson,
  ProcessSummary, BucketJson, LocationJson, PathJson, FunctionJson, CensusJson, TypeJson, EdgeJson,
  WindowJson, WindowCallJson, WindowEdgeJson, WindowStackJson, WindowCensusJson, Snapshot,
  StreamMessage, MemberJson, SessionJson, SessionStreamMessage,
}
use lightwatch.Daemon.Api.Shapes

pub record Floats : Type 1 where
  pub Float : Type 0
  pub of_u64 : ℕ → Float
  pub times : Float → Float → Float
  pub over : Float → Float → Float
  pub at_most : Float → Float → Bool

unfoldable pub counts_json : ProcessState → CountsJson
counts_json process = record {
  frames = process.counts.frames;
  events = process.counts.events;
  functions = length process.functions;
  types = length process.types;
  edges = length process.edges;
  paths = length process.paths;
  missed_frames = process.counts.missed_frames;
  late_frames = process.counts.late_frames;
  unknown_id = process.counts.unknown_id;
  malformed_lines = process.counts.malformed_lines;
}

unfoldable pub summary : ProcessState → ProcessSummary
unfolding counts_json is_connected
summary process = record {
  id = process.id;
  app = process.app;
  pid = process.pid;
  source = process.source;
  started_unix_ms = process.started_unix_ms;
  ended_unix_ms = process.ended_unix_ms;
  connected = is_connected process;
  window_ms = process.window_ms;
  last_frame_unix_ms = process.last_frame_unix_ms;
  last_t_ns = process.last_t_ns;
  counts = counts_json process;
}

unfoldable pub bucket_json : ℕ → ℕ → BucketJson
unfolding bucket_range
bucket_json index count = record {
  lo = (bucket_range index).0;
  hi = (bucket_range index).1;
  count = count;
}

abbrev pub location_json : Location → LocationJson
location_json l = record { file = l.file; line = l.line; column = l.column }

unfoldable pub census_json : CensusReading → CensusJson
unfolding bucket_json
census_json reading = record {
  live = reading.live.value;
  bytes = reading.bytes.value;
  at_t_ns = reading.at_t_ns;
  size_buckets = map (λ p. bucket_json p.0 p.1) reading.size_buckets;
}

unfoldable pub window_json : Window → WindowJson
unfolding start_t_ns end_t_ns
window_json w = record {
  index = w.index;
  start_t_ns = start_t_ns w;
  end_t_ns = end_t_ns w;
  calls = map (λ p. record { func = p.0; calls = p.1.calls.value; ns = p.1.ns.value }) w.calls;
  edges = map (λ p. record { from = p.0.0; to = p.0.1; calls = p.1.value }) w.edges;
  stacks =
      map (λ p. record { path = p.0; calls = p.1.calls.value; self_ns = p.1.self_ns.value })
        w.stacks;
  census = map (λ p. record { ty = p.0; live = p.1.live.value; bytes = p.1.bytes.value }) w.census;
}

-- The fold of the recent windows over one function's deltas.
abbrev pub add_delta : ℕ × ℕ → Option CallDelta → ℕ × ℕ
add_delta (calls, ns) none = (calls, ns)
add_delta (calls, ns) (some delta) = (add64 calls delta.calls.value, add64 ns delta.ns.value)

unfoldable pub recent_calls : FunctionId → ℕ × ℕ → List Window → ℕ × ℕ
recent_calls id sums [] = sums
recent_calls id sums (w ∷ ws) = recent_calls id (add_delta sums (get id w.calls)) ws

abbrev pub runs_in : FunctionId → Option PathNode → Bool
runs_in id none = Bool.false
runs_in id (some node) = node.func == id

unfoldable pub stacks_self : FunctionId → Map PathId PathNode → Map PathId StackDelta → ℕ
stacks_self id paths [] = 0
stacks_self id paths ((path, delta) ∷ stacks) =
    let rest : ℕ = stacks_self id paths stacks in
    if runs_in id (get path paths) then add64 delta.self_ns.value rest else rest

unfoldable pub recent_self : FunctionId → Map PathId PathNode → List Window → ℕ
unfolding stacks_self
recent_self id paths [] = 0
recent_self id paths (w ∷ ws) = add64 (stacks_self id paths w.stacks) (recent_self id paths ws)

unfoldable pub type_json : ℕ → TypeState → TypeJson
unfolding census_json
type_json id state = record {
  id = id;
  name = state.name;
  location = Option.map location_json state.location;
  census = Option.map census_json state.latest;
}

unfoldable pub path_json : ProcessState → ℕ → PathNode → PathJson
path_json process id node =
    let totals = or_default default_totals (get id process.path_totals) in
    record {
      id = id;
      parent = node.parent;
      func = node.func;
      calls_total = totals.calls.value;
      self_ns_total = totals.self_ns.value;
    }

abbrev pub ring_of_view : ProcessState → Resolution → Ring
ring_of_view process fine = process.fine
ring_of_view process coarse = process.coarse

module _ (floats : Floats) where
  open floats use {Float, of_u64, times, over, at_most}

  unfoldable pub per_sec : ℕ → Float → Float
  per_sec total covered_secs =
      if at_most covered_secs (of_u64 0) then of_u64 0 else over (of_u64 total) covered_secs

  unfoldable pub function_json :
      ProcessState → List Window → Float → ℕ → FunctionState → FunctionJson Float
  unfolding per_sec recent_calls recent_self bucket_json
  function_json process recent covered_secs id state =
      let sums = recent_calls id (0, 0) recent in
      record {
        id = id;
        name = state.name;
        module_name = state.module_name;
        location = Option.map location_json state.location;
        calls_total = state.calls.value;
        ns_total = state.ns_total.value;
        self_ns_total = state.self_ns_total.value;
        calls_per_sec = per_sec sums.0 covered_secs;
        ns_per_sec = per_sec sums.1 covered_secs;
        self_ns_per_sec = per_sec (recent_self id process.paths recent) covered_secs;
        ns_buckets = map (λ p. bucket_json p.0 p.1) state.ns_buckets;
      }

  -- How many fine windows a rate covers.
  abbrev pub rate_windows : ℕ → ℕ
  rate_windows fine_ns = max (rate_window_ms * 1_000_000 / fine_ns) 1

  unfoldable pub snapshot : ProcessState → ℕ → SnapshotView → Snapshot Float
  unfolding most_recent summary function_json type_json path_json window_json resolution_text
  snapshot process taken_unix_ms view =
      let fine_ns : ℕ = process.fine.resolution_ns in
      let recent = most_recent process.fine (rate_windows fine_ns) in
      let covered_secs =
        over (times (of_u64 (length recent)) (of_u64 fine_ns)) (of_u64 1_000_000_000) in
      let ring = ring_of_view process view.resolution in
      record {
        process = summary process;
        taken_unix_ms = taken_unix_ms;
        rate_ms = rate_window_ms;
        resolution = resolution_text view.resolution;
        resolution_ms = ring.resolution_ns / 1_000_000;
        resolution_capacity = ring.capacity;
        functions = map (λ p. function_json process recent covered_secs p.0 p.1) process.functions;
        types = map (λ p. type_json p.0 p.1) process.types;
        edges =
            map (λ p. record { from = p.0.0; to = p.0.1; calls_total = p.1.value }) process.edges;
        paths = map (λ p. path_json process p.0 p.1) process.paths;
        windows = map window_json (drop (length ring.windows - view.limit) ring.windows);
      }

abbrev pub feed_text : Feed → Text
feed_text cpu_feed = b'c' ∷ b'p' ∷ b'u' ∷ []
feed_text memory_feed = b'm' ∷ b'e' ∷ b'm' ∷ b'o' ∷ b'r' ∷ b'y' ∷ []

unfoldable pub member_json : Member → MemberJson
member_json source = record {
  process_id = source.process_id;
  feed = feed_text source.feed;
  source = source.source;
  started_unix_ms = source.started_unix_ms;
  ended_unix_ms = source.ended_unix_ms;
  connected = source.connected;
  last_frame_unix_ms = source.last_frame_unix_ms;
}

unfoldable pub session_json : Session → SessionJson
unfolding member_json session_connected
session_json source = record {
  id = source.id;
  app = source.app;
  pid = source.pid;
  connected = session_connected source;
  cpu = Option.map member_json source.cpu;
  memory = Option.map member_json source.memory;
  superseded = map member_json source.superseded;
}

unfoldable pub session_list : List Session → List SessionJson
unfolding session_json
session_list sessions = map session_json sessions

unfoldable pub stream_message : ProcessId → Update → StreamMessage
unfolding window_json
stream_message id (State.window_closed closed) = Shapes.window id (window_json closed)
stream_message id (State.process_ended ended_unix_ms) = Shapes.process_ended id ended_unix_ms

unfoldable pub session_stream_message : Text → Feed → ProcessId → Update → SessionStreamMessage
unfolding stream_message
session_stream_message session_id feed process_id update = record {
  session_id = session_id;
  feed = feed_text feed;
  message = stream_message process_id update;
}
