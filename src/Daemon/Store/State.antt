-- ===== src/Daemon/Store/State.antt =====
-- crates/lightwatch-daemon/src/store.rs, the state of one process. The broadcast channel of updates
-- is the list of what was sent, newest first. The clock's readings are arguments.
use lightwatch.Base.{
  ℕ, zero, suc, ◌+◌, ◌/◌, ◌%◌, Bool, List, [], ◌∷◌, ◌++◌, Option, none, ltb, if◌then◌else◌, Map,
  Text,
}
use lightwatch.Proto.Wire.{FunctionId, PathId, TypeId, Location, Hello}
use lightwatch.Daemon.Quantity.{Cumulative, zero_total}
use lightwatch.Daemon.Window.{Window, CensusReading}
use lightwatch.Daemon.Ring.{Ring, fine_ring, coarse_ring}

-- The digits of a number below 10 ^ fuel, in front of `rest`.
unfoldable pub digits : ℕ → ℕ → Text → Text
digits zero n rest = rest
digits (suc fuel) n rest =
    let digit : ℕ = b'0' + n % 10 in
    let more = digits fuel (n / 10) (digit ∷ rest) in if ltb n 10 then digit ∷ rest else more

-- `format!("{n}")`: a u64 has at most twenty digits.
unfoldable pub decimal : ℕ → Text
unfolding digits
decimal n = digits 20 n []

abbrev pub ProcessId : Type 0
ProcessId = Text

unfoldable pub process_id : ℕ → ℕ → Text → ProcessId
unfolding decimal
process_id pid started_unix_ms source =
    decimal pid ++ (b'-' ∷ (decimal started_unix_ms ++ (b'-' ∷ source)))

unfoldable pub id_of_hello : Hello → ProcessId
unfolding process_id
id_of_hello hello = process_id hello.pid hello.started_unix_ms hello.source

pub record Counts : Type 0 where
  pub frames : ℕ
  pub events : ℕ
  pub unknown_id : ℕ
  pub malformed_lines : ℕ
  pub missed_frames : ℕ
  pub late_frames : ℕ

abbrev pub default_counts : Counts
default_counts = record {
  frames = 0;
  events = 0;
  unknown_id = 0;
  malformed_lines = 0;
  missed_frames = 0;
  late_frames = 0;
}

pub record FunctionState : Type 0 where
  pub name : Text
  pub module_name : Option Text
  pub location : Option Location
  pub calls : Cumulative
  pub ns_total : Cumulative
  pub self_ns_total : Cumulative
  pub ns_buckets : Map ℕ ℕ

abbrev pub default_function : FunctionState
default_function = record {
  name = [];
  module_name = none;
  location = none;
  calls = zero_total;
  ns_total = zero_total;
  self_ns_total = zero_total;
  ns_buckets = [];
}

pub record PathNode : Type 0 where
  pub parent : PathId
  pub func : FunctionId

pub record StackTotals : Type 0 where
  pub calls : Cumulative
  pub self_ns : Cumulative

abbrev pub default_totals : StackTotals
default_totals = record { calls = zero_total; self_ns = zero_total }

pub record TypeState : Type 0 where
  pub name : Text
  pub location : Option Location
  pub latest : Option CensusReading

abbrev pub default_type : TypeState
default_type = record { name = []; location = none; latest = none }

pub data Update : Type 0 where
  window_closed : Window → Update
  process_ended : ℕ → Update

pub record ProcessState : Type 0 where
  pub id : ProcessId
  pub app : Text
  pub pid : ℕ
  pub source : Text
  pub started_unix_ms : ℕ
  pub ended_unix_ms : Option ℕ
  pub window_ms : ℕ
  pub last_seq : Option ℕ
  pub last_t_ns : ℕ
  pub last_frame_unix_ms : Option ℕ
  pub counts : Counts
  pub functions : Map FunctionId FunctionState
  pub types : Map TypeId TypeState
  pub edges : Map (FunctionId × FunctionId) Cumulative
  pub paths : Map PathId PathNode
  pub path_totals : Map PathId StackTotals
  pub fine : Ring
  pub coarse : Ring
  pub open_fine_index : Option ℕ
  pub live_connections : ℕ
  pub updates : List Update

unfoldable pub new_state : ProcessId → Hello → ProcessState
new_state id hello = record {
  id = id;
  app = hello.app;
  pid = hello.pid;
  source = hello.source;
  started_unix_ms = hello.started_unix_ms;
  ended_unix_ms = none;
  window_ms = hello.window_ms;
  last_seq = none;
  last_t_ns = 0;
  last_frame_unix_ms = none;
  counts = default_counts;
  functions = [];
  types = [];
  edges = [];
  paths = [];
  path_totals = [];
  fine = fine_ring;
  coarse = coarse_ring;
  open_fine_index = none;
  live_connections = 0;
  updates = [];
}

unfoldable pub is_connected : ProcessState → Bool
is_connected s = ltb 0 s.live_connections

-- A send to the channel; whether anybody listens does not matter to the sender.
abbrev pub send : Update → ProcessState → ProcessState
send u s = record s { updates = u ∷ s.updates }
