-- ===== src/Core/Protocol.antt =====
-- crates/aursmith-core/src/protocol.rs: what the builder, the daemon and the signer exchange, and
-- the class of a failure code. Times are seconds since the epoch; a digest is its hexadecimal text.
mod Examples
use aursmith.Base.{
  ℕ, ◌*◌, String, List, [], ◌∷◌, Bool, Option, ◌==◌, string_ord, any, if◌then◌else◌,
}

abbrev pub upload_chunk_bytes : ℕ
upload_chunk_bytes = 32 * 1024 * 1024

abbrev pub maximum_artifact_bytes : ℕ
maximum_artifact_bytes = 8 * 1024 * 1024 * 1024

abbrev pub maximum_log_bytes : ℕ
maximum_log_bytes = 128 * 1024

abbrev pub maximum_transient_retries : ℕ
maximum_transient_retries = 2

pub record LeaseRequest : Type 0 where
  pub builder_id : String
  pub lease_seconds : ℕ

pub record InputFile : Type 0 where
  pub path : String
  pub sha256 : String
  pub size : ℕ
  pub content_base64 : String

pub record DependencyArtifact : Type 0 where
  pub build_id : String
  pub file : String
  pub sha256 : String
  pub size : ℕ

pub record BuildSpec : Type 0 where
  pub build_id : String
  pub attempt : ℕ
  pub package_base : String
  pub revision_id : String
  pub aur_commit : String
  pub vcs_commit : Option String
  pub tree_sha256 : String
  pub expected_outputs : List String
  pub allow_check : Bool
  pub files : List InputFile
  pub dependencies : List DependencyArtifact
  pub lease_expires_at : ℕ

pub record ArtifactRecord : Type 0 where
  pub file : String
  pub sha256 : String
  pub size : ℕ
  pub package_name : String
  pub package_version : String
  pub architecture : String

pub data BuildOutcome : Type 0 where
  succeeded failed : BuildOutcome

pub data ErrorClass : Type 0 where
  transient deterministic config : ErrorClass

abbrev is_listed : String → List String → Bool
is_listed code codes = any (λ listed. code == listed) codes

abbrev pub transient_codes : List String
transient_codes =
    "DOCKER_DAEMON_UNAVAILABLE" ∷ "DOCKER_PULL_FAILED" ∷ "DOCKER_NETWORK_TIMEOUT"
    ∷ "BUILD_NETWORK_TRANSIENT" ∷ "BUILDER_RESTARTED" ∷ "LEASE_EXPIRED" ∷ "UPLOAD_FAILED"
    ∷ "DEPENDENCY_DOWNLOAD_FAILED" ∷ []

abbrev pub config_codes : List String
config_codes =
    "BUILD_IMAGE_MISSING" ∷ "BUILDER_CONFIG" ∷ "INPUT_INVALID" ∷ "DOCKER_PERMISSION_DENIED"
    ∷ "DOCKER_CLI_UNAVAILABLE" ∷ "DOCKER_DISK_FULL" ∷ []

unfoldable pub classify_error_code : String → ErrorClass
classify_error_code code =
    if is_listed code transient_codes
    then transient
    else if is_listed code config_codes
    then config
    else deterministic

pub record BuildReport : Type 0 where
  pub attempt : ℕ
  pub outcome : BuildOutcome
  pub artifacts : List ArtifactRecord
  pub error_code : Option String
  pub log : String
  pub log_truncated : Bool

pub record UploadStatus : Type 0 where
  pub file : String
  pub size : ℕ
  pub received : ℕ
  pub complete : Bool

pub record PublishPlan : Type 0 where
  pub format : ℕ
  pub repository_name : String
  pub artifacts : List ArtifactRecord

abbrev pub publish_plan_format : ℕ
publish_plan_format = 1

pub record FileEntry : Type 0 where
  pub file : String
  pub sha256 : String
  pub size : ℕ

pub record PublishManifest : Type 0 where
  pub format : ℕ
  pub plan_sha256 : String
  pub repository_name : String
  pub artifacts : List ArtifactRecord
  pub repository_keyring : ArtifactRecord
  pub keyring_fingerprint : String
  pub database : FileEntry
  pub files_database : FileEntry
  pub committed_at : ℕ

pub data SignerState : Type 0 where
  published failed : SignerState

pub record SignerResult : Type 0 where
  pub plan_sha256 : String
  pub state : SignerState
  pub error : Option String
  pub manifest_sha256 : Option String
  pub keyring_fingerprint : Option String
  pub finished_at : ℕ
