-- ===== src/Daemon/Packages/Aur.antt =====
-- crates/aursmithd/src/aur.rs: what the daemon asks of `AurClient`. An error is its message.
pub mod Search
pub mod Addresses
use aursmith.Base.{ℕ, String, List, Option, Result}
use aursmith.Daemon.State.{Snapshot}

pub record AurPackage : Type 0 where
  pub name : String
  pub package_base : String
  pub version : String
  pub description : Option String
  pub maintainer : Option String
  pub out_of_date : Option ℕ
  pub last_modified : ℕ
  pub depends : List String
  pub make_depends : List String
  pub check_depends : List String
  pub opt_depends : List String
  pub provides : List String

-- the operations of the client, as they answer within one request; of an official package, the name
pub record AurClient : Type 0 where
  pub search : String → Result (List AurPackage) String
  pub info : List String → Result (List AurPackage) String
  pub official : String → Result (List String) String
  pub providers : String → Result (List AurPackage) String
  pub snapshot : String → Result Snapshot String
  pub vcs_commit : List String → Result (Option String) String
