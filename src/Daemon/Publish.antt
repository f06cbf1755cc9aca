-- ===== src/Daemon/Publish.antt =====
-- crates/aursmithd/src/publish.rs: the daemon brings the repository to the state that the subscriptions
-- want. The bytes of a plan, SHA-256 and the decoding of the signer's result are parameters; an
-- `anyhow::Error` is the error that `ApiError::internal` makes of it.
pub mod Desired
pub mod Plan
pub mod Results
pub mod Reconcile
pub mod Garbage
pub mod Rounds
mod Examples
