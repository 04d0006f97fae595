-- ===== src/Daemon/Ingest.antt =====
-- crates/lightwatch-daemon/src/ingest.rs: one emitter's stream, from bytes to the registry. The
-- socket is a parameter: what each `fill_buf` gives, in order. So are serde's parser, the lossy UTF-8
-- decoder and the white space test of `trim`. The clock's readings come with the lines.
pub mod Lines
pub mod Link
pub mod Connection
pub mod Interleaved
pub mod Sections
pub mod Attended
pub mod Ended
mod Tests
use lightwatch.Base.{
  ℕ, zero, suc, ◌+◌, Bool, true, false, not, List, [], ◌∷◌, ◌++◌, Option, none, some, ltb, ◌==◌,
  if◌then◌else◌, length, add64, Text,
}
use lightwatch.Proto.Wire.{Message, Frame, Hello, schema_version}
use lightwatch.Proto.Wire
use lightwatch.Daemon.Store.State.{ProcessId, ProcessState, id_of_hello}
use lightwatch.Daemon.Store.Apply.{apply_frame, note_malformed_line}
use lightwatch.Daemon.Store.Registry.{Registry, connect, write, disconnect}

abbrev pub max_line_bytes : ℕ
max_line_bytes = 4_194_304

abbrev pub newline : ℕ
newline = 10

pub data Outcome : Type 0 where
  empty : Outcome
  handshake_not_hello : Outcome
  handshake_malformed : Outcome
  schema_mismatch : ℕ → ℕ → Outcome
  line_too_long : Outcome
  read_failed : Outcome
  ended : ProcessId → ℕ → ℕ → Outcome

pub data LineRead : Type 0 where
  line : Text → LineRead
  eof : LineRead
  too_long : LineRead
  failed : LineRead

-- What the next `fill_buf` calls give: bytes, or `none` for an error. Nothing more is the end.
abbrev pub Reader : Type 0
Reader = List (Option (List ℕ))

-- The bytes before the first newline and those after it.
unfoldable pub split_line : List ℕ → Option (List ℕ × List ℕ)
split_line [] = none
split_line (b ∷ bytes) =
    if b == newline
    then some ([], bytes)
    else elim (split_line bytes) [ none ↦ none | some (before, after) ↦ some (b ∷ before, after) ]

abbrev pub is_empty {ℓ} : {A : Type ℓ} → List A → Bool
is_empty [] = true
is_empty (x ∷ xs) = false

-- `consume` inside the buffer: what is left of it comes first.
abbrev pub unread : List ℕ → Reader → Reader
unread [] fills = fills
unread (b ∷ bytes) fills = some (b ∷ bytes) ∷ fills

abbrev pub at_end : (List ℕ → Text) → List ℕ → LineRead
at_end decode buffer = if is_empty buffer then eof else line (decode buffer)

abbrev pub checked : (List ℕ → Text) → List ℕ → LineRead
checked decode buffer =
    if ltb max_line_bytes (length buffer) then too_long else line (decode buffer)

-- What `read_line` does with what a read gave, where its first newline is known; `more` is what the
-- next turns of the loop make of it.
abbrev pub take_chunk :
    (List ℕ → Text)
    → List ℕ
    → List ℕ
    → Reader
    → LineRead × Reader
    → Option (List ℕ × List ℕ)
    → LineRead × Reader
take_chunk decode buffer available fills more (some (before, after)) =
    (checked decode (buffer ++ before), unread after fills)
take_chunk decode buffer available fills more none =
    if ltb max_line_bytes (length (buffer ++ available)) then (too_long, fills) else more

-- The loop of `read_line`, over what the buffer holds so far.
unfoldable pub read_from : (List ℕ → Text) → List ℕ → Reader → LineRead × Reader
unfolding split_line
read_from decode buffer [] = (at_end decode buffer, [])
read_from decode buffer (none ∷ fills) = (failed, fills)
read_from decode buffer (some available ∷ fills) =
    let more = read_from decode (buffer ++ available) fills in
    if is_empty available
    then (at_end decode buffer, some available ∷ fills)
    else take_chunk decode buffer available fills more (split_line available)

unfoldable pub read_line : (List ℕ → Text) → Reader → LineRead × Reader
unfolding read_from
read_line decode reader = read_from decode [] reader

-- The calls of `read_line` until one is not a line, at most `fuel` of them.
unfoldable pub read_lines : ℕ → (List ℕ → Text) → Reader → List LineRead
unfolding read_line
read_lines zero decode reader = []
read_lines (suc fuel) decode reader =
    let rest = read_lines fuel decode (read_line decode reader).1 in
    elim (read_line decode reader).0 [
      | line text ↦ line text ∷ rest
      | eof ↦ eof ∷ []
      | too_long ↦ too_long ∷ []
      | failed ↦ failed ∷ []
    ]

pub record Tally : Type 0 where
  pub frames : ℕ
  pub skipped : ℕ

abbrev pub no_lines : Tally
no_lines = record { frames = 0; skipped = 0 }

-- Reads, each with the clock at the time. Past the last one every read is the end.
abbrev pub Reads : Type 0
Reads = List (LineRead × ℕ)

abbrev pub is_blank_line : (ℕ → Bool) → Text → Bool
is_blank_line is_space [] = true
is_blank_line is_space (c ∷ text) = if is_space c then is_blank_line is_space text else false

module _ (parse : Text → Option Message) (is_space : ℕ → Bool) where
  -- The match on a parsed line.
  abbrev pub take_message : ProcessId → ℕ → Option Message → Tally × Registry → Tally × Registry
  take_message id now (some (Wire.Message.frame frame)) (n, r) =
      (record n { frames = add64 n.frames 1 }, write id (λ s. apply_frame s frame now) r)
  take_message id now (some (Wire.Message.hello hello)) (n, r) =
      (record n { skipped = add64 n.skipped 1 }, write id note_malformed_line r)
  take_message id now none (n, r) =
      (record n { skipped = add64 n.skipped 1 }, write id note_malformed_line r)

  unfoldable pub take_line : ProcessId → Text → ℕ → Tally × Registry → Tally × Registry
  unfolding apply_frame note_malformed_line write
  take_line id text now held =
      if is_blank_line is_space text then held else take_message id now (parse text) held

  -- The loop of `handle_connection`.
  unfoldable pub serve : ProcessId → Reads → Tally × Registry → Outcome × Registry
  unfolding take_line
  serve id [] (n, r) = (ended id n.frames n.skipped, r)
  serve id ((eof, now) ∷ reads) (n, r) = (ended id n.frames n.skipped, r)
  serve id ((failed, now) ∷ reads) (n, r) = (read_failed, r)
  serve id ((too_long, now) ∷ reads) (n, r) = (line_too_long, r)
  serve id ((line text, now) ∷ reads) held = serve id reads (take_line id text now held)

  abbrev pub admitted : Hello → ℕ → Reads → Registry → Outcome × Registry
  admitted hello now reads r =
      let (outcome, r') = serve (id_of_hello hello) reads (no_lines, connect hello r) in
      (outcome, disconnect (id_of_hello hello) now r')

  abbrev pub greet : ℕ → Reads → Registry → Option Message → Outcome × Registry
  greet now reads r (some (Wire.Message.hello hello)) =
      if hello.schema == schema_version
      then admitted hello now reads r
      else (schema_mismatch hello.schema schema_version, r)
  greet now reads r (some (Wire.Message.frame frame)) = (handshake_not_hello, r)
  greet now reads r none = (handshake_malformed, r)

  -- `closed` is the clock when the stream has ended.
  unfoldable pub handle_connection : ℕ → Reads → Registry → Outcome × Registry
  unfolding serve connect disconnect id_of_hello
  handle_connection closed [] r = (empty, r)
  handle_connection closed ((eof, now) ∷ reads) r = (empty, r)
  handle_connection closed ((too_long, now) ∷ reads) r = (line_too_long, r)
  handle_connection closed ((failed, now) ∷ reads) r = (read_failed, r)
  handle_connection closed ((line text, now) ∷ reads) r = greet closed reads r (parse text)
