-- ===== src/Daemon/Api.antt =====
-- crates/lightwatch-daemon/src/api.rs: the answers of the HTTP interface, as values. `Shapes` has what
-- is sent, `Snapshot` what makes it. The numbers with a fraction are those of a type of floats that is
-- a parameter.
pub mod Shapes
pub mod Snapshot
pub mod Whole
pub mod Axis
mod Tests
