-- ===== src/Lib.antt =====
-- lightwatch, a live profiler: a probe inside the measured process counts calls, self time and live
-- instances and sends one frame per window as a JSON line over a Unix socket; a daemon checks what
-- it gets, adds it up per process and keeps it in rings of windows for the interface to read.
--
-- Parts and files (paths from the repository's root):
-- - Proto: crates/lightwatch-proto/src. Proto/Wire has the messages of lib.rs, Proto/Dist the
--   buckets and distributions of dist.rs, Proto/Socket the paths of socket.rs and the emit thread's search
--   for a socket. Proto/Dist/Range, Precision, Fold and Merge prove what the
--   buckets promise; Log is about leading zeros.
-- - Daemon: crates/lightwatch-daemon/src. Daemon/Quantity is quantity.rs, Daemon/Window and
--   Daemon/Ring are ring.rs (Window, Ring), Daemon/Store is store.rs: State is ProcessState and what
--   it holds, Register is `register` and `caller_of`, Totals is `accumulate_totals`,
--   `duration_total` and `fold`, Apply is `apply_frame` and the closing of windows, Registry is the
--   registry. Daemon/Ingest is ingest.rs: `read_line` as `read_from`, `handle_connection` as `serve`
--   between `connect` and `disconnect`. Daemon/Session is session.rs: `pair_sessions` groups the
--   processes, splits them into runs and seats each run's members. Daemon/Api is api.rs: Shapes has
--   the answers' types, Snapshot what makes them, Whole and Axis read a snapshot the way a client
--   does. Daemon/Ingest/Interleaved is the step relation of many connections. Daemon/Server is
--   server.rs: the handlers (`snapshot` as `snapshot_route`), `fan_in`, `pump`.
-- - Probe: crates/lightwatch-probe/src. Probe/Paths is the context table of registry.rs
--   (`intern_path`), Probe/Registry its tables of functions and types and `registers_since`;
--   Probe/Registry/Running is the step relation of a program that calls, counts and interns,
--   Probe/Census census.rs, Probe/Emit emit.rs (`Emitter::tick` as `tick`), Probe/Testing
--   testing.rs, Probe/Hashing hashing.rs. A `&'static` reference is a number (Probe/Statics).
--   Probe/Samples the accumulators of calls.rs (`Samples`, `Accum`, `drain`), Probe/Calls the stack
--   of one thread (`ThreadState::open` as `open_activation`, `close` as `close_activation`).
-- - Hotpath: crates/lightwatch-hotpath/src. Hotpath/Bridge is bridge.rs: `Stream::absorb` as
--   `absorb_report`. Hotpath/Source is `body_of` of source.rs, Hotpath/Loop main.rs and sink.rs, one
--   turn of `main`'s loop as `loop_turn`.
-- - Base: Boolean tests, lists over native numbers, machine integers, ordered keys, maps as
--   ascending association lists, sums over their entries and exclusive or.
--
-- How they meet: Probe/Emit sends what Probe/Registry has not sent yet with what Probe/Samples and
-- Probe/Census hold; Probe/Registry/Accepted and Probe/Emit/Reconnect run the daemon's `register`
-- and `apply_frame` on it. Probe/Calls reports to Probe/Samples under contexts of Probe/Paths; what
-- the probe sends are the messages of Proto/Wire, with the distributions of Proto/Dist;
-- Daemon/Ingest turns bytes into those messages and writes each to its process in the registry of
-- Daemon/Store, which folds it into the rings of Daemon/Ring.
--
-- How the code is read:
-- - A u8 to u64 is the number it stands for. `+`, `-`, `+=`, casts and shifts wrap as in a release
--   build; saturating operations saturate. A usize has 64 bits. Text is a list of code points.
-- - A BTreeMap is an ascending association list, and so is a HashMap: nothing that is proved
--   depends on a hash map's order. `entry(k).or_default()` is a lookup with a default followed by an
--   insertion.
-- - A section under a lock is one step. What two connections do is a sequence of such steps: `connect`
--   is two of them, `admit` under the registry's lock and `open_connection` under the process's, and
--   Daemon/Ingest/Interleaved lets other connections come between.
-- - The clock, the cap from the environment, the JSON parser, the UTF-8 decoder and the reads of a
--   socket are arguments, and so are the streams of the emit thread and the operations on f64. The
--   broadcast channel is the list of what was sent, newest first.
-- - Rust's references into a ring are positions, which `modify` writes through.
-- - Fuel: `digits` has 20 steps, the most digits that a u64 has; `read_lines` takes the number of
--   reads wanted, and `handle_connection` a list of reads with their times, past which every read is
--   the end; `fan_in`, `pump` and `run_loop` take the turns that come; `chain_from` is called with
--   one step more than the id. Every other loop is structural.
--
-- Not modelled: the JSON encoding (serde derives it), axum's routing and the embedded files
-- (server.rs), the start of the emit thread, hotpath's own report and its
-- HTTP client, the procedural macros, the start-up of the binaries and the web
-- interface.
pub mod Base
pub mod Proto
pub mod Daemon
pub mod Probe
pub mod Hotpath
