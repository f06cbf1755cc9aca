-- ===== src/Core.antt =====
-- crates/aursmith-core: the pure logic that the daemon, the signer and the builder share.
pub mod Names
pub mod Graph
pub mod Protocol
pub mod Review
pub mod Scan
pub mod Srcinfo
