-- ===== src/Daemon/Builds.antt =====
-- crates/aursmithd/src/builds.rs: the schedule of builds, and the requests of the builder.
pub mod Usable
pub mod Needed
pub mod Schedule
pub mod Failure
pub mod Lease
pub mod Report
pub mod Upload
pub mod Manifest
pub mod Rows
pub mod Found
pub mod Listing
pub mod Sound
mod Examples
