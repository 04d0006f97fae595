-- ===== src/Daemon/Session.antt =====
-- crates/lightwatch-daemon/src/session.rs: the processes that the emitters report, paired up.
-- The sorts are stable insertion sorts.
pub mod Conserve
pub mod Best
mod Tests
use lightwatch.Base.{
  ℕ, ◌+◌, ◌-◌, ◌≤◌, Bool, true, false, ◌&&◌, ◌||◌, not, List, [], ◌∷◌, ◌++◌, map, Option, none,
  some, ltb, leb, ◌==◌, if◌then◌else◌, Map, Text, text_key, nat_key, pair_key, get, insert, key_eq,
  text_cmp, Ordering,
}
use lightwatch.Daemon.Window.{or_default}
use lightwatch.Daemon.Store.State.{ProcessId, ProcessState, decimal, is_connected}
use lightwatch.Daemon.Store.Registry.{Registry, all}

abbrev pub census_source : Text
census_source =
    b'l' ∷ b'i' ∷ b'g' ∷ b'h' ∷ b't' ∷ b'w' ∷ b'a' ∷ b't' ∷ b'c' ∷ b'h' ∷ b'-' ∷ b'p' ∷ b'r' ∷ b'o'
    ∷ b'b' ∷ b'e' ∷ []

abbrev pub same_run_tolerance_ms : ℕ
same_run_tolerance_ms = 10_000

pub data Feed : Type 0 where
  cpu_feed : Feed
  memory_feed : Feed

unfoldable pub feed_of : Text → Feed
feed_of source = if key_eq source census_source then memory_feed else cpu_feed

pub record Member : Type 0 where
  pub process_id : ProcessId
  pub feed : Feed
  pub source : Text
  pub started_unix_ms : ℕ
  pub ended_unix_ms : Option ℕ
  pub connected : Bool
  pub last_frame_unix_ms : Option ℕ

pub record Session : Type 0 where
  pub id : Text
  pub app : Text
  pub pid : ℕ
  pub cpu : Option Member
  pub memory : Option Member
  pub superseded : List Member

abbrev pub is_live : Option Member → Bool
is_live none = false
is_live (some m) = m.connected

unfoldable pub session_connected : Session → Bool
session_connected s = is_live s.cpu || is_live s.memory

abbrev pub slot_list : Option Member → List Member
slot_list none = []
slot_list (some m) = m ∷ []

unfoldable pub members : Session → List Member
members s = slot_list s.cpu ++ slot_list s.memory

-- `min().unwrap_or(0)` of the start times.
abbrev pub earliest : List Member → ℕ
earliest [] = 0
earliest (m ∷ []) = m.started_unix_ms
earliest (m ∷ n ∷ ms) =
    let rest : ℕ = earliest (n ∷ ms) in
    if ltb rest m.started_unix_ms then rest else m.started_unix_ms

unfoldable pub session_start : Session → ℕ
unfolding members
session_start s = earliest (members s)

unfoldable pub member : ProcessState → Member
unfolding is_connected feed_of
member process = record {
  process_id = process.id;
  feed = feed_of process.source;
  source = process.source;
  started_unix_ms = process.started_unix_ms;
  ended_unix_ms = process.ended_unix_ms;
  connected = is_connected process;
  last_frame_unix_ms = process.last_frame_unix_ms;
}

-- `sort_by_key(|m| m.started_unix_ms)`.
unfoldable pub place_by_start : Member → List Member → List Member
place_by_start m [] = m ∷ []
place_by_start m (n ∷ ms) =
    if ltb n.started_unix_ms m.started_unix_ms then n ∷ place_by_start m ms else m ∷ n ∷ ms

unfoldable pub sort_by_start : List Member → List Member
unfolding place_by_start
sort_by_start [] = []
sort_by_start (m ∷ ms) = place_by_start m (sort_by_start ms)

-- The loop of `runs`: the run at hand is `before` and then `last`.
unfoldable pub split_runs : List Member → Member → List Member → List (List Member)
split_runs before last [] = (before ++ (last ∷ [])) ∷ []
split_runs before last (m ∷ ms) =
    let joined = split_runs (before ++ (last ∷ [])) m ms in
    let apart = split_runs [] m ms in
    if leb (m.started_unix_ms - last.started_unix_ms) same_run_tolerance_ms
    then joined
    else (before ++ (last ∷ [])) ∷ apart

abbrev pub runs_of : List Member → List (List Member)
runs_of [] = []
runs_of (m ∷ ms) = split_runs [] m ms

unfoldable pub runs : List Member → List (List Member)
unfolding sort_by_start split_runs
runs ms = runs_of (sort_by_start ms)

-- The order of `(connected, started_unix_ms)`.
unfoldable pub outranks : Member → Member → Bool
outranks held candidate = elim held.connected [
  | true ↦ if candidate.connected then leb candidate.started_unix_ms held.started_unix_ms else true
  | false ↦
      if candidate.connected then false else leb candidate.started_unix_ms held.started_unix_ms
]

-- The two slots and the members that lost.
pub record Slots : Type 0 where
  pub cpu : Option Member
  pub memory : Option Member
  pub superseded : List Member

-- One slot after a candidate, and who lost.
unfoldable pub contend : Option Member → Member → Option Member × List Member
unfolding outranks
contend none candidate = (some candidate, [])
contend (some held) candidate =
    if outranks held candidate then (some held, candidate ∷ []) else (some candidate, held ∷ [])

abbrev pub seat_in : Feed → Slots → Member → Slots
seat_in cpu_feed s m =
    let (slot, lost) = contend s.cpu m in record s { cpu = slot; superseded = s.superseded ++ lost }
seat_in memory_feed s m =
    let (slot, lost) = contend s.memory m in
    record s { memory = slot; superseded = s.superseded ++ lost }

unfoldable pub seat_all : Slots → List Member → Slots
unfolding contend
seat_all s [] = s
seat_all s (m ∷ ms) = seat_all (seat_in m.feed s m) ms

abbrev pub no_slots : Slots
no_slots = record { cpu = none; memory = none; superseded = [] }

-- `sort_by_key(|member| Reverse(member.started_unix_ms))`.
unfoldable pub place_newest : Member → List Member → List Member
place_newest m [] = m ∷ []
place_newest m (n ∷ ms) =
    if ltb m.started_unix_ms n.started_unix_ms then n ∷ place_newest m ms else m ∷ n ∷ ms

unfoldable pub sort_newest : List Member → List Member
unfolding place_newest
sort_newest [] = []
sort_newest (m ∷ ms) = place_newest m (sort_newest ms)

abbrev pub within : ℕ → ℕ → ℕ → Bool
within low high c = leb low c && leb c high

abbrev pub is_safe : ℕ → Bool
is_safe c =
    within b'0' b'9' c || within b'A' b'Z' c || within b'a' b'z' c || (c == b'-') || (c == b'_')

unfoldable pub session_id : Text → ℕ → ℕ → Text
unfolding decimal
session_id app pid anchor_unix_ms =
    map (λ c. if is_safe c then c else b'_') app
    ++ (b'-' ∷ (decimal pid ++ (b'-' ∷ decimal anchor_unix_ms)))

unfoldable pub session : Text → ℕ → List Member → Session
unfolding seat_all sort_newest session_id
session app pid run =
    let slots = seat_all no_slots run in
    record {
      id = session_id app pid (earliest run);
      app = app;
      pid = pid;
      cpu = slots.cpu;
      memory = slots.memory;
      superseded = sort_newest slots.superseded;
    }

abbrev pub Target : Type 0
Target = Text × ℕ

-- `entry(target).or_default().push(member)` for every process.
unfoldable pub group : List ProcessState → Map Target (List Member) → Map Target (List Member)
unfolding member
group [] m = m
group (p ∷ ps) m =
    group ps (insert (p.app, p.pid) (or_default [] (get (p.app, p.pid) m) ++ (member p ∷ [])) m)

unfoldable pub sessions_of_runs : Text → ℕ → List (List Member) → List Session
unfolding session
sessions_of_runs app pid [] = []
sessions_of_runs app pid (run ∷ rest) = session app pid run ∷ sessions_of_runs app pid rest

unfoldable pub sessions_of : Map Target (List Member) → List Session
unfolding sessions_of_runs runs
sessions_of [] = []
sessions_of ((target, ms) ∷ m) = sessions_of_runs target.0 target.1 (runs ms) ++ sessions_of m

-- Newest first, then by id.
abbrev pub goes_before : Session → Session → Bool
goes_before a b =
    if ltb (session_start b) (session_start a)
    then true
    else (if ltb (session_start a) (session_start b)
        then false
        else elim (text_cmp a.id b.id) [ Ordering.gt ↦ false | _ ↦ true ])

unfoldable pub place_session : Session → List Session → List Session
unfolding session_start
place_session s [] = s ∷ []
place_session s (t ∷ ts) = if goes_before s t then s ∷ t ∷ ts else t ∷ place_session s ts

unfoldable pub sort_sessions : List Session → List Session
unfolding place_session
sort_sessions [] = []
sort_sessions (s ∷ ss) = place_session s (sort_sessions ss)

unfoldable pub pair_sessions : Registry → List Session
unfolding sort_sessions sessions_of group all
pair_sessions registry = sort_sessions (sessions_of (group (all registry) []))

abbrev pub find_in : Text → List Session → Option Session
find_in id [] = none
find_in id (s ∷ ss) = if key_eq s.id id then some s else find_in id ss

unfoldable pub find : Registry → Text → Option Session
unfolding pair_sessions
find registry id = find_in id (pair_sessions registry)
