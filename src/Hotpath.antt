-- ===== src/Hotpath.antt =====
-- crates/lightwatch-hotpath/src: the bridge from hotpath's reports to frames.
pub mod Bridge
pub mod Source
pub mod Loop
