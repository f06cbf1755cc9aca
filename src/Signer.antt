-- ===== src/Signer.antt =====
-- crates/aursmithd/src/signer.rs: the signer, which has no network and no database. It reads plans from
-- the inbox, signs packages and the database of the repository, and switches the repository to a release.
pub mod Disk
pub mod Activate
pub mod Plan
pub mod Prune
mod Examples
