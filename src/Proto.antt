-- ===== src/Proto.antt =====
-- crates/lightwatch-proto: the wire protocol. `Wire` has the messages, `Dist` the distributions.
pub mod Dist
pub mod Wire
pub mod Socket
