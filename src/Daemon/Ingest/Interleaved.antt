-- ===== src/Daemon/Ingest/Interleaved.antt =====
-- crates/lightwatch-daemon/src/ingest.rs and store.rs: many connections at once, whose locked sections
-- take turns in any order.
use lightwatch.Base.{
  ℕ, zero, suc, ◌+◌, ◌^◌, ◌<◌, ◌≡◌, Bool, true, false, List, [], ◌∷◌, Option, none, some,
  if◌then◌else◌, Text, key_eq, text_key, get, is_some, length, get_elem?,
}
use lightwatch.Proto.Wire.{Message, Hello}
use lightwatch.Daemon.Store.State.{ProcessId, ProcessState, id_of_hello}
use lightwatch.Daemon.Store.Registry.{Registry, empty, admit, write, open_connection, disconnect}
use lightwatch.Daemon.Ingest.{Tally, take_line}

-- The registry, the hellos of the connections that it has admitted but whose process they have not yet
-- opened, and the process of each open connection.
pub record Daemon : Type 0 where
  pub registry : Registry
  pub admitted : List Hello
  pub open_ids : List ProcessId

abbrev pub idle : Daemon
idle = record { registry = empty; admitted = []; open_ids = [] }

abbrev pub without {ℓ} : {A : Type ℓ} → ℕ → List A → List A
without k [] = []
without zero (x ∷ xs) = xs
without (suc k) (x ∷ xs) = x ∷ without k xs

module _ (parse : Text → Option Message) (is_space : ℕ → Bool) where
  -- One step is what one connection does under one lock: `connect` admits it under the registry's
  -- lock, and opens its process under the lock of that process; an open connection reads a line; an
  -- open one closes. There are fewer than 2 ^ 32 open connections.
  pub data Does : Daemon → Daemon → Type 0 where
    admits :
        (d : Daemon) (hello : Hello)
        → Does d (record d { registry = admit hello d.registry; admitted = hello ∷ d.admitted })
    opens :
        (d : Daemon) (k : ℕ) (hello : Hello)
        → get_elem? d.admitted k ≡ some hello
        → length d.open_ids + 1 < 2 ^ 32
        → Does d (record {
          registry = write (id_of_hello hello) (open_connection hello) d.registry;
          admitted = without k d.admitted;
          open_ids = id_of_hello hello ∷ d.open_ids;
        })
    reads :
        (d : Daemon) (k now : ℕ) (id : ProcessId) (text : Text) (tally : Tally)
        → get_elem? d.open_ids k ≡ some id
        → Does d
            (record d { registry = (take_line parse is_space id text now (tally, d.registry)).1 })
    closes :
        (d : Daemon) (k now : ℕ) (id : ProcessId)
        → get_elem? d.open_ids k ≡ some id
        → Does d
            (record d { registry = disconnect id now d.registry; open_ids = without k d.open_ids })

  pub data Reaches : Daemon → Daemon → Type 0 where
    here : (d : Daemon) → Reaches d d
    further : (a b c : Daemon) → Reaches a b → Does b c → Reaches a c

abbrev pub count_of : ProcessId → List ProcessId → ℕ
count_of id [] = 0
count_of id (j ∷ ids) = (if key_eq id j then 1 else 0) + count_of id ids

-- The admitted connections of a process.
abbrev pub awaits : ProcessId → List Hello → ℕ
awaits id [] = 0
awaits id (hello ∷ hellos) = (if key_eq id (id_of_hello hello) then 1 else 0) + awaits id hellos

-- Whether a process has an end, by its open and its admitted connections: while one is open it has
-- none, and without either it has one. In between, a new process has none and an ended one still has
-- its own.
abbrev pub EndsAs : ℕ → ℕ → Bool → Type 0
EndsAs (suc n) p e = e ≡ false
EndsAs zero zero e = e ≡ true
EndsAs zero (suc p) e = Unit {0}

-- A process with `n` open connections and `p` admitted ones; one that is not there has neither.
abbrev pub Attended : ℕ → ℕ → Option ProcessState → Type 0
Attended n p none = (n ≡ 0) × (p ≡ 0)
Attended n p (some s) = (s.live_connections ≡ n) × EndsAs n p (is_some s.ended_unix_ms)

abbrev pub IsAttended : Daemon → Type 0
IsAttended d =
    (id : ProcessId) → Attended (count_of id d.open_ids) (awaits id d.admitted) (get id d.registry)
