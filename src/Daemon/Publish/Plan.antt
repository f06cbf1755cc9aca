-- ===== src/Daemon/Publish/Plan.antt =====
-- crates/aursmithd/src/publish.rs: a plan and the artifacts that the signer lacks are written to the
-- inbox. The files are copied to a directory of another name, which is renamed.
pub mod Copied
pub mod Held
pub mod Verified
use aursmith.Base.{
  ℕ, String, ◌+++◌, List, [], ◌∷◌, ◌++◌, map, Bool, true, false, Option, none, some, ok, err, ◌==◌,
  string_ord, contains, lookup, keep, newest, if◌then◌else◌,
}
use aursmith.Core.Protocol.{ArtifactRecord, PublishPlan, SignerResult}
use aursmith.Daemon.State.{
  AppState, Bytes, Directory, Publication, PublicationState, pending, published,
}
use aursmith.Daemon.Handler.{ApiResult, Handler, internal_error}
use aursmith.Daemon.Builds.Usable.{artifact_file}
use aursmith.Daemon.Publish.Desired.{Desired}

-- what the code calls: `canonical_bytes`, `sha256_hex` and `serde_json::from_slice::<SignerResult>`
pub record Codec : Type 0 where
  pub canonical_bytes : PublishPlan → Bytes
  pub sha256_hex : Bytes → String
  pub read_result : Bytes → Option SignerResult

-- `PublishPlan::sha256`
abbrev pub plan_sha256 : Codec → PublishPlan → String
plan_sha256 codec plan = codec.sha256_hex (codec.canonical_bytes plan)

abbrev pub is_pending : PublicationState → Bool
is_pending pending = true
is_pending _ = false

abbrev pub is_published : PublicationState → Bool
is_published published = true
is_published _ = false

abbrev pub digests_of : List ArtifactRecord → List String
digests_of artifacts = map (λ a. a.sha256) artifacts

abbrev pub digests_of_row : Option Publication → List String
digests_of_row none = []
digests_of_row (some p) = digests_of p.plan.artifacts

-- the digests of the plan that was published last
abbrev pub published_digests : AppState → List String
published_digests s =
    digests_of_row (newest (λ p. p.created_at) (keep (λ p. is_published p.state) s.publications))

abbrev pub put_inbox : String → Option Directory → AppState → AppState
put_inbox name directory s = record s {
  exchange = record {
    inbox = λ other. if other == name then directory else s.exchange.inbox other;
    outbox = s.exchange.outbox;
  };
}

abbrev pub add_file : String → Bytes → Directory → Directory
add_file file bytes directory = λ other. if other == file then some bytes else directory other

abbrev pub no_files : Directory
no_files = λ file. none

-- `tokio::fs::copy` of an artifact from the build that `sources` names
abbrev pub source_file : AppState → List (String × String) → String → Option Bytes
source_file s sources file = elim (lookup file sources) [
  | none ↦ none
  | some build_id ↦ artifact_file s build_id file
]

-- The loop over the artifacts; after an error the files copied before stay.
unfoldable pub copy_artifacts :
    AppState
    → List (String × String)
    → List String
    → List ArtifactRecord
    → Directory
    → ApiResult (Unit {0}) × Directory
copy_artifacts s sources held [] directory = (ok tt, directory)
copy_artifacts s sources held (a ∷ artifacts) directory = elim (contains held a.sha256) [
  | true ↦ copy_artifacts s sources held artifacts directory
  | false ↦ elim (source_file s sources a.file) [
    | none ↦ (err internal_error, directory)
    | some bytes ↦ copy_artifacts s sources held artifacts (add_file a.file bytes directory)
  ]
]

abbrev pub temporary : String → String
temporary name = ".tmp-" +++ name

abbrev pub new_publication : ℕ → String → String → PublishPlan → Publication
new_publication now id sha256 plan = record {
  id = id;
  plan_sha256 = sha256;
  plan = plan;
  state = pending;
  error = none;
  manifest_sha256 = none;
  keyring_fingerprint = none;
  created_at = now;
  finished_at = none;
}

abbrev pub insert_publication : Publication → AppState → AppState
insert_publication row s = record s { publications = s.publications ++ row ∷ [] }

-- `plan.json`, the rename and the new row, after the copies
abbrev pub commit_plan :
    Codec
    → ℕ
    → String
    → String
    → PublishPlan
    → ApiResult (Unit {0}) × Directory
    → Handler (Unit {0})
commit_plan codec now id sha256 plan (err e, directory) s =
    (err e, put_inbox (temporary sha256) (some directory) s)
commit_plan codec now id sha256 plan (ok _, directory) s =
    let whole = add_file "plan.json" (codec.canonical_bytes plan) directory in
    let renamed = put_inbox sha256 (some whole) (put_inbox (temporary sha256) none s) in
    (ok tt, insert_publication (new_publication now id sha256 plan) renamed)

-- `id` is the identifier drawn for the row.
unfoldable pub write_plan : Codec → ℕ → String → Desired → String → Handler (Unit {0})
unfolding copy_artifacts
write_plan codec now id desired sha256 s =
    let cleared = put_inbox sha256 none (put_inbox (temporary sha256) none s) in
    commit_plan codec now id sha256 desired.plan
      (copy_artifacts s desired.sources (published_digests s) desired.plan.artifacts no_files)
      cleared
