-- ===== src/Daemon.antt =====
-- crates/aursmithd: the public daemon. Its tables, its artifact store and its handlers.
pub mod State
pub mod Fixture
pub mod Table
pub mod Handler
pub mod Auth
pub mod Closure
pub mod Builds
pub mod Revisions
pub mod Review
pub mod Keyed
pub mod Approval
pub mod Publish
pub mod Packages
