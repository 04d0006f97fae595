-- ===== src/Probe.antt =====
-- crates/lightwatch-probe/src: what runs inside the measured process.
pub mod Paths
pub mod Samples
pub mod Calls
pub mod Statics
pub mod Census
pub mod Registry
pub mod Emit
pub mod Testing
pub mod Hashing
