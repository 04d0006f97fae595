-- ===== src/Daemon/Ingest/Connection.antt =====
-- `handle_connection`: what one stream may do to the registry.
use lightwatch.Base.{
  ℕ, ◌-◌, ◌<◌, ◌≡◌, refl, ◌∙◌, ap, Bool, false, [], ◌∷◌, Option, none, some, inl, inr, Bool-cases,
  Option-cases, arith, ◌==◌, add32, Text, key_eq, text_key, text_refl, get, get-insert, u32_max,
}
use lightwatch.Proto.Wire.{Message, Frame, Hello, schema_version}
use lightwatch.Proto.Wire
use lightwatch.Daemon.Window.{Window, is_blank}
use lightwatch.Daemon.Ring.{window_at}
use lightwatch.Daemon.Store.State.{ProcessId, ProcessState, id_of_hello, new_state}
use lightwatch.Daemon.Store.Apply.{
  apply_frame, note_malformed_line, seal, flush_at, flush_open_window,
}
use lightwatch.Daemon.Store.Registry.{
  Registry, admit, open_connection, write, connect, close_connection, disconnect,
}
use lightwatch.Daemon.Ingest.Link.{apply_frame-link}
use lightwatch.Daemon.Ingest.{
  line, eof, too_long, failed, Reads, Tally, take_message, take_line, serve, admitted,
  handle_connection, is_blank_line, no_lines,
}

abbrev pub live_in : Option ProcessState → ℕ
live_in none = 0
live_in (some s) = s.live_connections

-- The connections that the registry counts for a process.
abbrev pub live_of : ProcessId → Registry → ℕ
live_of id r = live_in (get id r)

apply_frame-live :
    (s : ProcessState) (frame : Frame) (now : ℕ)
    → (apply_frame s frame now).live_connections ≡ s.live_connections
apply_frame-live s frame now = ap (λ l. l.0) (apply_frame-link s frame now)

pub flush-live : (s : ProcessState) → (flush_open_window s).live_connections ≡ s.live_connections
unfolding flush_open_window
flush-live s = at s.open_fine_index
  where
    sealed :
        (o : Option Window) (s : ProcessState) → (seal o s).live_connections ≡ s.live_connections
    sealed none s = refl
    sealed (some w) s = elim (Bool-cases (is_blank w)) [ inl blank ↦ rw blank | inr full ↦ rw full ]

    at : (o : Option ℕ) → (flush_at o s).live_connections ≡ s.live_connections
    at none = refl
    at (some i) = sealed (window_at s.fine i) (record s { open_fine_index = none })

pub close_connection-live :
    (now : ℕ) (s : ProcessState)
    → (close_connection now s).live_connections ≡ s.live_connections - 1
unfolding close_connection
close_connection-live now s = elim (Bool-cases (s.live_connections - 1 == 0)) [
  | inl last ↦ rw last (
      flush-live (record s { live_connections = s.live_connections - 1; ended_unix_ms = some now }))
  | inr more ↦ rw more
]

-- A write to one process: the others stay, and its count moves as the write moves it.
pub write-other :
    (id j : ProcessId) (f : ProcessState → ProcessState) (r : Registry)
    → key_eq j id ≡ false
    → get j (write id f r) ≡ get j r
unfolding write
write-other id j f r h = elim (Option-cases (get id r)) [
  | inl gone ↦ rw gone
  | inr (s, held) ↦ rw held (get-insert id (f s) j r ∙ rw h refl)
]

pub get-write :
    (id : ProcessId) (f : ProcessState → ProcessState) (r : Registry) (s : ProcessState)
    → get id r ≡ some s
    → get id (write id f r) ≡ some (f s)
unfolding write
get-write id f r s held = rw held (get-insert id (f s) id r ∙ rw (text_refl id) refl)

pub write-live :
    (id : ProcessId) (f : ProcessState → ProcessState) (r : Registry)
    → ((s : ProcessState) → (f s).live_connections ≡ s.live_connections)
    → live_of id (write id f r) ≡ live_of id r
unfolding write
write-live id f r same = elim (Option-cases (get id r)) [
  | inl gone ↦ rw gone (rw gone refl)
  | inr (s, held) ↦ ap live_in (get-write id f r s held) ∙ rw held (same s)
]

module _ (parse : Text → Option Message) (is_space : ℕ → Bool) (id : ProcessId) where
  take_message-live :
      (now : ℕ) (m : Option Message) (n : Tally) (r : Registry)
      → live_of id (take_message parse is_space id now m (n, r)).1 ≡ live_of id r
  unfolding note_malformed_line
  take_message-live now (some (Wire.Message.frame frame)) n r =
      write-live id (λ s. apply_frame s frame now) r (λ s. apply_frame-live s frame now)
  take_message-live now (some (Wire.Message.hello hello)) n r =
      write-live id note_malformed_line r (λ s. refl)
  take_message-live now none n r = write-live id note_malformed_line r (λ s. refl)

  take_message-other :
      (j : ProcessId) (now : ℕ) (m : Option Message) (n : Tally) (r : Registry)
      → key_eq j id ≡ false
      → get j (take_message parse is_space id now m (n, r)).1 ≡ get j r
  take_message-other j now (some (Wire.Message.frame frame)) n r h =
      write-other id j (λ s. apply_frame s frame now) r h
  take_message-other j now (some (Wire.Message.hello hello)) n r h =
      write-other id j note_malformed_line r h
  take_message-other j now none n r h = write-other id j note_malformed_line r h

  take_line-live :
      (text : Text) (now : ℕ) (n : Tally) (r : Registry)
      → live_of id (take_line parse is_space id text now (n, r)).1 ≡ live_of id r
  unfolding take_line
  take_line-live text now n r = elim (Bool-cases (is_blank_line is_space text)) [
    | inl blank ↦ rw blank
    | inr full ↦ rw full (take_message-live now (parse text) n r)
  ]

  take_line-other :
      (j : ProcessId) (text : Text) (now : ℕ) (n : Tally) (r : Registry)
      → key_eq j id ≡ false
      → get j (take_line parse is_space id text now (n, r)).1 ≡ get j r
  unfolding take_line
  take_line-other j text now n r h = elim (Bool-cases (is_blank_line is_space text)) [
    | inl blank ↦ rw blank
    | inr full ↦ rw full (take_message-other j now (parse text) n r h)
  ]

  pub serve-live :
      (reads : Reads) (n : Tally) (r : Registry)
      → live_of id (serve parse is_space id reads (n, r)).1 ≡ live_of id r
  unfolding serve
  serve-live [] n r = refl
  serve-live ((eof, now) ∷ reads) n r = refl
  serve-live ((too_long, now) ∷ reads) n r = refl
  serve-live ((failed, now) ∷ reads) n r = refl
  serve-live ((line text, now) ∷ reads) n r =
      let taken = take_line parse is_space id text now (n, r) in
      serve-live reads taken.0 taken.1 ∙ take_line-live text now n r

  serve-other :
      (j : ProcessId) (reads : Reads) (n : Tally) (r : Registry)
      → key_eq j id ≡ false
      → get j (serve parse is_space id reads (n, r)).1 ≡ get j r
  unfolding serve
  serve-other j [] n r h = refl
  serve-other j ((eof, now) ∷ reads) n r h = refl
  serve-other j ((too_long, now) ∷ reads) n r h = refl
  serve-other j ((failed, now) ∷ reads) n r h = refl
  serve-other j ((line text, now) ∷ reads) n r h =
      let taken = take_line parse is_space id text now (n, r) in
      serve-other j reads taken.0 taken.1 h ∙ take_line-other j text now n r h

connect-other :
    (hello : Hello) (j : ProcessId) (r : Registry)
    → key_eq j (id_of_hello hello) ≡ false
    → get j (connect hello r) ≡ get j r
unfolding connect admit
connect-other hello j r h = elim (Option-cases (get (id_of_hello hello) r)) [
  | inl new ↦
      write-other (id_of_hello hello) j (open_connection hello) (admit hello r) h
      ∙ rw new
          (get-insert (id_of_hello hello) (new_state (id_of_hello hello) hello) j r ∙ rw h refl)
  | inr (s, held) ↦
      write-other (id_of_hello hello) j (open_connection hello) (admit hello r) h ∙ rw held refl
]

pub connect-live :
    (hello : Hello) (r : Registry)
    → live_of (id_of_hello hello) (connect hello r) ≡ add32 (live_of (id_of_hello hello) r) 1
unfolding connect admit open_connection new_state
connect-live hello r =
    let id = id_of_hello hello in
    let f = open_connection hello in
    elim (Option-cases (get id r)) [
      | inl new ↦
          let made : get id (admit hello r) ≡ some (new_state id hello) =
            rw new (get-insert id (new_state id hello) id r ∙ rw (text_refl id) refl) in
          ap live_in (get-write id f (admit hello r) (new_state id hello) made) ∙ rw new refl
      | inr (s, held) ↦
          let kept : get id (admit hello r) ≡ some s = rw held held in
          ap live_in (get-write id f (admit hello r) s kept) ∙ rw held refl
    ]

pub write-none :
    (id : ProcessId) (f : ProcessState → ProcessState) (r : Registry)
    → get id r ≡ none
    → write id f r ≡ r
unfolding write
write-none id f r gone = rw gone

pub disconnect-live :
    (id : ProcessId) (now : ℕ) (r : Registry) → live_of id (disconnect id now r) ≡ live_of id r - 1
unfolding disconnect
disconnect-live id now r = elim (Option-cases (get id r)) [
  | inl gone ↦ ap (live_of id) (write-none id (close_connection now) r gone) ∙ rw gone refl
  | inr (s, held) ↦
      ap live_in (get-write id (close_connection now) r s held)
      ∙ close_connection-live now s
      ∙ rw held refl
]

module _ (parse : Text → Option Message) (is_space : ℕ → Bool) where
  pub admitted-live :
      (hello : Hello) (closed : ℕ) (reads : Reads) (r : Registry)
      → live_of (id_of_hello hello) r < u32_max
      → live_of (id_of_hello hello) (admitted parse is_space hello closed reads r).1
        ≡ live_of (id_of_hello hello) r
  admitted-live hello closed reads r h =
      let id = id_of_hello hello in
      let served = serve parse is_space id reads (no_lines, connect hello r) in
      omega (
        arith,
        disconnect-live id closed served.1,
        serve-live parse is_space id reads no_lines (connect hello r),
        connect-live hello r,
      )

  -- A stream whose hello was read leaves the number of live connections of its process as it found
  -- it, however the stream ends and whatever it sends, provided that the number was below 2 ^ 32 - 1.
  pub handle_connection-live_of :
      (hello : Hello) (closed now : ℕ) (text : Text) (reads : Reads) (r : Registry)
      → parse text ≡ some (Wire.Message.hello hello)
      → live_of (id_of_hello hello) r < u32_max
      → live_of
          (id_of_hello hello)
          (handle_connection parse is_space closed ((line text, now) ∷ reads) r).1
        ≡ live_of (id_of_hello hello) r
  unfolding handle_connection
  handle_connection-live_of hello closed now text reads r e h =
      elim (Bool-cases (hello.schema == schema_version)) [
        | inl same ↦ rw (e, same) (admitted-live hello closed reads r h)
        | inr other ↦ rw (e, other) refl
      ]

  -- A stream whose hello was read touches no process but the one that the hello names.
  pub handle_connection-others :
      (hello : Hello) (closed now : ℕ) (text : Text) (reads : Reads) (r : Registry) (j : ProcessId)
      → parse text ≡ some (Wire.Message.hello hello)
      → key_eq j (id_of_hello hello) ≡ false
      → get j (handle_connection parse is_space closed ((line text, now) ∷ reads) r).1 ≡ get j r
  unfolding handle_connection disconnect
  handle_connection-others hello closed now text reads r j e h =
      let id = id_of_hello hello in
      let served = serve parse is_space id reads (no_lines, connect hello r) in
      elim (Bool-cases (hello.schema == schema_version)) [
        | inl same ↦
            rw (e, same)
              (write-other id j (close_connection closed) served.1 h
                ∙ serve-other parse is_space id j reads no_lines (connect hello r) h
                ∙ connect-other hello j r h)
        | inr other ↦ rw (e, other) refl
      ]
