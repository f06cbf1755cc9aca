-- ===== src/Daemon/State.antt =====
-- The tables of migrations/0001_schema.sql and `AppState` of app.rs. A JSON column holds its decoded
-- value, a time is a number of seconds, and a table is the list of its rows in insertion order. The
-- artifact store is `data_dir/artifacts`: for each directory the contents of its files.
use aursmith.Base.{ℕ, String, List, Bool, true, Option, none}
use aursmith.Core.Protocol.{ArtifactRecord, ErrorClass, PublishPlan}
use aursmith.Core.Review.{Verdict}
use aursmith.Core.Srcinfo.{SrcInfo}

abbrev pub Bytes : Type 0
Bytes = List ℕ

-- `SnapshotFile` and `Snapshot` of aur.rs
pub record SnapshotFile : Type 0 where
  pub path : String
  pub sha256 : String
  pub size : ℕ
  pub binary : Bool
  pub content_base64 : String

pub record Snapshot : Type 0 where
  pub package_base : String
  pub aur_commit : String
  pub vcs_commit : Option String
  pub info : SrcInfo
  pub files : List SnapshotFile

pub data DependencyState : Type 0 where
  official aur needs_selection unknown : DependencyState

-- `ResolvedDependency` of packages.rs
pub record ResolvedDependency : Type 0 where
  pub name : String
  pub kind : String
  pub state : DependencyState
  pub target : Option String
  pub candidates : List String

pub data RevisionState : Type 0 where
  pending_review manual_review approved rejected superseded : RevisionState

pub record Revision : Type 0 where
  pub id : String
  pub package_base : String
  pub aur_commit : String
  pub vcs_commit : Option String
  pub version : String
  pub tree_sha256 : String
  pub snapshot : Snapshot
  pub dependencies : List ResolvedDependency
  pub baseline_revision_id : Option String
  pub state : RevisionState
  pub created_at : ℕ
  pub decided_at : Option ℕ

pub data ReviewKind : Type 0 where
  scan reuse agent human : ReviewKind

pub data Role : Type 0 where
  low high : Role

pub record Review : Type 0 where
  pub id : String
  pub revision_id : String
  pub kind : ReviewKind
  pub role : Option Role
  pub model : Option String
  pub verdict : Verdict
  pub summary : String
  pub created_at : ℕ

pub data BuildState : Type 0 where
  queued running uploading succeeded failed : BuildState

pub data BuildReason : Type 0 where
  approved manual : BuildReason

pub record Build : Type 0 where
  pub id : String
  pub revision_id : String
  pub package_base : String
  pub state : BuildState
  pub attempt : ℕ
  pub reason : BuildReason
  pub allow_check : Bool
  pub builder_id : Option String
  pub lease_expires_at : Option ℕ
  pub dep_build_ids : List String
  pub artifacts : List ArtifactRecord
  pub error_code : Option String
  pub error_class : Option ErrorClass
  pub log : Option String
  pub created_at : ℕ
  pub started_at : Option ℕ
  pub finished_at : Option ℕ

pub record Package : Type 0 where
  pub package_base : String
  pub version : Option String
  pub description : Option String
  pub maintainer : Option String
  pub out_of_date : Option ℕ
  pub last_modified : Option ℕ
  pub outputs : List String
  pub allow_check : Bool
  pub next_check_at : ℕ
  pub last_checked_at : Option ℕ
  pub sync_failures : ℕ
  pub sync_error : Option String

pub data PublicationState : Type 0 where
  pending published failed : PublicationState

pub record Publication : Type 0 where
  pub id : String
  pub plan_sha256 : String
  pub plan : PublishPlan
  pub state : PublicationState
  pub error : Option String
  pub manifest_sha256 : Option String
  pub keyring_fingerprint : Option String
  pub created_at : ℕ
  pub finished_at : Option ℕ

-- the settings of config.rs that the modelled handlers read
pub record Config : Type 0 where
  pub builder_token_sha256 : String
  pub repository_name : String
  pub update_interval_minutes : ℕ

abbrev pub Directory : Type 0
Directory = String → Option Bytes

-- `exchange_dir`: the directories of the inbox and the files of the outbox, by their names
pub record Exchange : Type 0 where
  pub inbox : String → Option Directory
  pub outbox : String → Option Bytes

pub record AppState : Type 0 where
  pub config : Config
  pub subscriptions : List String
  pub provider_choices : List ((String × String) × String)
  pub packages : List Package
  pub revisions : List Revision
  pub reviews : List Review
  pub builds : List Build
  pub publications : List Publication
  pub artifacts : String → Option Directory
  pub exchange : Exchange
  pub builder_seen : Option (String × ℕ)
  pub woken : Bool

abbrev pub no_exchange : Exchange
no_exchange = record { inbox = λ name. none; outbox = λ name. none }

-- `state.wake()`
abbrev pub wake : AppState → AppState
wake s = record s { woken = true }
