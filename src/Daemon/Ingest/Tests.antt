-- ===== src/Daemon/Ingest/Tests.antt =====
-- crates/lightwatch-daemon/src/ingest.rs: a small stream, with a parser of one-byte lines.
use lightwatch.Base.{
  ℕ, ◌<◌, ◌≡◌, refl, if◌then◌else◌, Bool, false, [], ◌∷◌, Option, none, some, ◌==◌, arith, Text,
  key_eq, text_key, get, u32_max,
}
use lightwatch.Proto.Wire.{Message, Frame, Hello, new_hello, schema_version}
use lightwatch.Daemon.Ingest.Ended.{ended_of, handle_connection-ended_of}
use lightwatch.Proto.Wire
use lightwatch.Daemon.Store.State.{ProcessId, id_of_hello, process_id, decimal, digits}
use lightwatch.Daemon.Store.Registry.{empty, admit, write, open_connection, disconnect}
use lightwatch.Daemon.Ingest.Interleaved.{
  Daemon, idle, Reaches, here, further, admits, opens, closes, without, IsAttended,
}
use lightwatch.Daemon.Ingest.Attended.{reached-IsAttended}
use lightwatch.Daemon.Ingest.{line, eof, Reads, Reader, read_line, handle_connection, split_line}
use lightwatch.Daemon.Ingest.Lines.{
  IsBytes, flatten, first_line, read_line-first_line, read_line_rest,
}
use lightwatch.Daemon.Ingest.Connection.{
  live_of, handle_connection-live_of, handle_connection-others,
}

abbrev example_hello : Hello
example_hello = new_hello [] [] 7 1000

abbrev example_frame : Frame
example_frame = record { seq = 0; t_ns = 5; registers = []; events = [] }

-- `h` is the hello, `f` the frame, and nothing else parses.
abbrev example_parse : Text → Option Message
example_parse [] = none
example_parse (c ∷ text) =
    if c == b'h'
    then some (Wire.Message.hello example_hello)
    else (if c == b'f' then some (Wire.Message.frame example_frame) else none)

abbrev example_space : ℕ → Bool
example_space c = c == b' '

abbrev example_reads : Reads
example_reads = (line (b'f' ∷ []), 11) ∷ (line [], 12) ∷ (line (b'x' ∷ []), 13) ∷ (eof, 14) ∷ []

-- `hx` in two pieces, a newline, and the start of the next line.
abbrev example_reader : Reader
example_reader = some (b'h' ∷ []) ∷ some (b'x' ∷ 10 ∷ b'f' ∷ []) ∷ some (b'f' ∷ []) ∷ []

abbrev other_id : ProcessId
other_id = []

hello_parses : example_parse (b'h' ∷ []) ≡ some (Wire.Message.hello example_hello)
hello_parses = refl

none_live : live_of (id_of_hello example_hello) empty < u32_max
unfolding get
none_live = omega arith

other-differs : key_eq other_id (id_of_hello example_hello) ≡ false
unfolding id_of_hello process_id decimal digits new_hello
other-differs = refl

example_line : split_line (flatten example_reader) ≡ some (b'h' ∷ b'x' ∷ [], b'f' ∷ b'f' ∷ [])
unfolding split_line
example_line = refl

read_line-first_line_example :
    (read_line (λ bytes. bytes) example_reader).0
    ≡ first_line (λ bytes. bytes) (flatten example_reader)
read_line-first_line_example = read_line-first_line (λ bytes. bytes) example_reader tt

read_line_rest_example :
    IsBytes (read_line (λ bytes. bytes) example_reader).1
    × (flatten (read_line (λ bytes. bytes) example_reader).1 ≡ b'f' ∷ b'f' ∷ [])
read_line_rest_example =
    read_line_rest (λ bytes. bytes) example_reader (b'h' ∷ b'x' ∷ []) (b'f' ∷ b'f' ∷ []) tt
      example_line (omega arith)

handle_connection-live_of_example :
    live_of
      (id_of_hello example_hello)
      (handle_connection example_parse example_space 20
        ((line (b'h' ∷ []), 10) ∷ example_reads)
        empty).1
    ≡ live_of (id_of_hello example_hello) empty
handle_connection-live_of_example =
    handle_connection-live_of example_parse example_space example_hello 20 10 (b'h' ∷ [])
      example_reads empty hello_parses none_live

handle_connection-others_example :
    get other_id
      (handle_connection example_parse example_space 20
        ((line (b'h' ∷ []), 10) ∷ example_reads)
        empty).1
    ≡ get other_id empty
handle_connection-others_example =
    handle_connection-others example_parse example_space example_hello 20 10 (b'h' ∷ [])
      example_reads empty other_id hello_parses other-differs

schema_known : example_hello.schema ≡ schema_version
unfolding new_hello
schema_known = refl

alone : live_of (id_of_hello example_hello) empty ≡ 0
unfolding get
alone = refl

handle_connection-ended_of_example :
    ended_of
      (id_of_hello example_hello)
      (handle_connection example_parse example_space 20
        ((line (b'h' ∷ []), 10) ∷ example_reads)
        empty).1
    ≡ some 20
handle_connection-ended_of_example =
    handle_connection-ended_of example_parse example_space example_hello 20 10 (b'h' ∷ [])
      example_reads empty hello_parses schema_known alone

-- Two connections of one process are admitted one after the other and open in the other order; then
-- the one that opened first closes.
abbrev own_id : ProcessId
own_id = id_of_hello example_hello

abbrev one_admitted : Daemon
one_admitted = record {
  registry = admit example_hello empty;
  admitted = example_hello ∷ [];
  open_ids = [];
}

abbrev two_admitted : Daemon
two_admitted = record {
  registry = admit example_hello one_admitted.registry;
  admitted = example_hello ∷ one_admitted.admitted;
  open_ids = [];
}

abbrev one_open : Daemon
one_open = record {
  registry = write own_id (open_connection example_hello) two_admitted.registry;
  admitted = without 0 two_admitted.admitted;
  open_ids = own_id ∷ [];
}

abbrev two_open : Daemon
two_open = record {
  registry = write own_id (open_connection example_hello) one_open.registry;
  admitted = without 0 one_open.admitted;
  open_ids = own_id ∷ one_open.open_ids;
}

abbrev one_closed : Daemon
one_closed = record {
  registry = disconnect own_id 20 two_open.registry;
  admitted = two_open.admitted;
  open_ids = without 1 two_open.open_ids;
}

Reaches-one_closed : Reaches example_parse example_space idle one_closed
Reaches-one_closed =
    further idle two_open one_closed
      (further idle one_open two_open
        (further idle two_admitted one_open
          (further idle one_admitted two_admitted
            (further idle idle one_admitted (here idle) (admits idle example_hello))
            (admits one_admitted example_hello))
          (opens two_admitted 0 example_hello refl (omega arith)))
        (opens one_open 0 example_hello refl (omega arith)))
      (closes two_open 1 20 own_id refl)

reached-IsAttended_example : IsAttended one_closed
reached-IsAttended_example =
    reached-IsAttended example_parse example_space one_closed Reaches-one_closed
