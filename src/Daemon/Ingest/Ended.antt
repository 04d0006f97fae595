-- ===== src/Daemon/Ingest/Ended.antt =====
-- `handle_connection`: how the last stream of a process leaves it.
use lightwatch.Base.{
  ℕ, ◌-◌, ◌≡◌, refl, ◌∙◌, ap, Bool, true, ◌∷◌, Option, none, some, inl, inr, Bool-cases,
  Option-cases, arith, ◌==◌, Text, text_key, get,
}
use lightwatch.Proto.Wire.{Message, Hello, schema_version}
use lightwatch.Proto.Wire
use lightwatch.Daemon.Window.{Window, is_blank}
use lightwatch.Daemon.Ring.{window_at}
use lightwatch.Daemon.Store.State.{ProcessId, ProcessState, id_of_hello}
use lightwatch.Daemon.Store.Apply.{seal, flush_at, flush_open_window}
use lightwatch.Daemon.Store.Registry.{Registry, connect, close_connection, disconnect}
use lightwatch.Daemon.Ingest.{line, Reads, serve, handle_connection, no_lines}
use lightwatch.Daemon.Ingest.Connection.{live_in, live_of, get-write, serve-live, connect-live}

abbrev ended_in : Option ProcessState → Option ℕ
ended_in none = none
ended_in (some s) = s.ended_unix_ms

-- When the process ended, as the registry has it.
abbrev pub ended_of : ProcessId → Registry → Option ℕ
ended_of id r = ended_in (get id r)

pub flush-ended : (s : ProcessState) → (flush_open_window s).ended_unix_ms ≡ s.ended_unix_ms
unfolding flush_open_window
flush-ended s = at s.open_fine_index
  where
    sealed : (o : Option Window) (s : ProcessState) → (seal o s).ended_unix_ms ≡ s.ended_unix_ms
    sealed none s = refl
    sealed (some w) s = elim (Bool-cases (is_blank w)) [ inl blank ↦ rw blank | inr full ↦ rw full ]

    at : (o : Option ℕ) → (flush_at o s).ended_unix_ms ≡ s.ended_unix_ms
    at none = refl
    at (some i) = sealed (window_at s.fine i) (record s { open_fine_index = none })

close_connection-ended :
    (now : ℕ) (s : ProcessState)
    → s.live_connections ≡ 1
    → (close_connection now s).ended_unix_ms ≡ some now
unfolding close_connection
close_connection-ended now s one =
    let last : s.live_connections - 1 == 0 ≡ true = ground arith in
    rw last (
      flush-ended
        (record s { live_connections = s.live_connections - 1; ended_unix_ms = some now }))

disconnect-ended :
    (id : ProcessId) (now : ℕ) (r : Registry)
    → live_of id r ≡ 1
    → ended_of id (disconnect id now r) ≡ some now
unfolding disconnect
disconnect-ended id now r one = elim (Option-cases (get id r)) [
  | inl gone ↦
      let none_live : live_of id r ≡ 0 = ap live_in gone in absurd (omega (arith, none_live, one))
  | inr (s, held) ↦
      let single : s.live_connections ≡ 1 = rw held at one in
      ap ended_in (get-write id (close_connection now) r s held)
      ∙ close_connection-ended now s single
]

module _ (parse : Text → Option Message) (is_space : ℕ → Bool) where
  -- A stream that was accepted and was the only one of its process leaves the process ended at the
  -- time when the stream ended, however it ended.
  pub handle_connection-ended_of :
      (hello : Hello) (closed now : ℕ) (text : Text) (reads : Reads) (r : Registry)
      → parse text ≡ some (Wire.Message.hello hello)
      → hello.schema ≡ schema_version
      → live_of (id_of_hello hello) r ≡ 0
      → ended_of
          (id_of_hello hello)
          (handle_connection parse is_space closed ((line text, now) ∷ reads) r).1
        ≡ some closed
  unfolding handle_connection
  handle_connection-ended_of hello closed now text reads r e known alone =
      let id = id_of_hello hello in
      let served = serve parse is_space id reads (no_lines, connect hello r) in
      let same : (hello.schema == schema_version) ≡ true = ground arith in
      let one : live_of id served.1 ≡ 1 = omega (
        arith,
        serve-live parse is_space id reads no_lines (connect hello r),
        connect-live hello r,
      ) in
      rw (e, same) (disconnect-ended id closed served.1 one)
