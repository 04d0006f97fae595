-- ===== src/Daemon/Store.antt =====
-- crates/lightwatch-daemon/src/store.rs: what the daemon remembers about every process. `State` has
-- the record of one process, `Register`, `Totals` and `Apply` fold a frame into it, `Registry` keeps
-- the processes; the other modules prove what holds of them.
pub mod State
pub mod Register
pub mod Totals
pub mod Apply
pub mod Registry
pub mod Graph
pub mod Tree
pub mod Agreement
pub mod History
pub mod Outer
pub mod Rings
pub mod Durations
pub mod Missed
pub mod Named
pub mod Kept
mod Tests
