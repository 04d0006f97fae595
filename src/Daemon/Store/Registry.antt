-- ===== src/Daemon/Store/Registry.antt =====
-- crates/lightwatch-daemon/src/store.rs: the processes that the daemon has seen. Each of the locked
-- sections is one step; a process that two connections share is one entry of the map.
use lightwatch.Base.{
  ℕ, ◌-◌, List, [], map, Option, none, some, ◌==◌, if◌then◌else◌, add32, text_key, get, insert, Map,
  length,
}
use lightwatch.Proto.Wire.{Hello}
use lightwatch.Daemon.Store.State.{
  ProcessId, ProcessState, new_state, id_of_hello, process_ended, send,
}
use lightwatch.Daemon.Store.Apply.{flush_open_window}

abbrev pub Registry : Type 0
Registry = Map ProcessId ProcessState

abbrev pub empty : Registry
empty = []

-- `entry(id).or_insert_with(…)`, under the registry's lock.
abbrev pub admit_as : ProcessId → Hello → Registry → Option ProcessState → Registry
admit_as id hello r none = insert id (new_state id hello) r
admit_as id hello r (some s) = r

unfoldable pub admit : Hello → Registry → Registry
unfolding id_of_hello new_state
admit hello r = admit_as (id_of_hello hello) hello r (get (id_of_hello hello) r)

-- What `connect` writes under the process's own lock.
unfoldable pub open_connection : Hello → ProcessState → ProcessState
open_connection hello s = record s {
  app = hello.app;
  source = hello.source;
  window_ms = hello.window_ms;
  ended_unix_ms = none;
  live_connections = add32 s.live_connections 1;
}

-- A write under the lock of one process; a process that is not there is left alone.
abbrev pub write_at :
    ProcessId → (ProcessState → ProcessState) → Registry → Option ProcessState → Registry
write_at id f r none = r
write_at id f r (some s) = insert id (f s) r

unfoldable pub write : ProcessId → (ProcessState → ProcessState) → Registry → Registry
write id f r = write_at id f r (get id r)

-- Both sections, one after the other, as one connection alone makes them.
unfoldable pub connect : Hello → Registry → Registry
unfolding admit write open_connection
connect hello r = write (id_of_hello hello) (open_connection hello) (admit hello r)

abbrev pub end_at : ℕ → ProcessState → ProcessState
end_at now s = send (process_ended now) (flush_open_window (record s { ended_unix_ms = some now }))

unfoldable pub close_connection : ℕ → ProcessState → ProcessState
unfolding flush_open_window
close_connection now s =
    let left = record s { live_connections = s.live_connections - 1 } in
    if left.live_connections == 0 then end_at now left else left

unfoldable pub disconnect : ProcessId → ℕ → Registry → Registry
unfolding write close_connection
disconnect id now r = write id (close_connection now) r

unfoldable pub all : Registry → List ProcessState
all r = map (λ p. p.1) r

unfoldable pub len : Registry → ℕ
len r = length r
