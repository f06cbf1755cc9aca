-- ===== src/Daemon/Packages.antt =====
-- crates/aursmithd/src/packages.rs: packages follow the Arch User Repository. `AurClient` of aur.rs, which
-- asks servers and runs git, is a parameter; so is the digest that spreads the checks.
pub mod Aur
pub mod Resolve
pub mod Clock
pub mod Sync
pub mod Requests
pub mod Listing
mod Examples
