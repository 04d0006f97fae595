-- ===== src/Daemon.antt =====
-- crates/lightwatch-daemon/src: what receives the frames, remembers them and serves them.
pub mod Quantity
pub mod Window
pub mod Ring
pub mod Store
pub mod Ingest
pub mod Session
pub mod Api
pub mod Server
