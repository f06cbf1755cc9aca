-- ===== src/Signer/Examples.antt =====
-- Tests of the signer: a repository with two releases of one package.
use aursmith.Base.{
  ℕ, String, [], ◌∷◌, true, Option, none, some, ok, ◌≡◌, refl, arith, without_suffix, ◌==◌, nat_ord,
  string_ord, if◌then◌else◌,
}
use aursmith.Core.Protocol.{ArtifactRecord, FileEntry, PublishManifest, PublishPlan}
use aursmith.Daemon.State.{AppState, Bytes, Directory, no_exchange}
use aursmith.Daemon.Fixture.{artifact, contents, state_with, uploaded_build}
use aursmith.Daemon.Publish.Desired.{Desired}
use aursmith.Daemon.Publish.Plan.{plan_sha256, write_plan, copy_artifacts}
use aursmith.Core.Names.{
  validate_package_name, validate_artifact_file_name, validate_repository_name, is_sha256_hex,
}
use aursmith.Signer.Disk.{Disk, Tools}
use aursmith.Signer.Activate.{
  activate, rollback, read_manifest, check_release, check_packages, current_release,
  release_of_names,
}
use aursmith.Signer.Prune.{prune, all_referenced, remove_stale, is_stale_package}
use aursmith.Signer.Plan.{read_plan, validate_plan, check_planned_artifacts}
use aursmith.Signer.Plan.Valid.{IsPlan, validate_plan-IsPlan}
use aursmith.Signer.Plan.Received.{read_plan-write_plan}
use aursmith.Signer.Activate.Serving.{IsServing}
use aursmith.Signer.Activate.Switch.{Outcome, IsRelease, activate-Outcome}
use aursmith.Signer.Activate.Rollback.{rollback-activate, RolledBack, rollback-RolledBack}

abbrev keyring : ArtifactRecord
keyring = record {
  file = "aursmith-keyring-1-1-any.pkg.tar.zst";
  sha256 = "k";
  size = 3;
  package_name = "aursmith-keyring";
  package_version = "1-1";
  architecture = "any";
}

abbrev entry : String → FileEntry
entry file = record { file = file; sha256 = "d"; size = 1 }

abbrev manifest : String → PublishManifest
manifest release = record {
  format = 1;
  plan_sha256 = release;
  repository_name = "repo";
  artifacts = artifact ∷ [];
  repository_keyring = keyring;
  keyring_fingerprint = "F";
  database = entry "repo.db.tar.gz";
  files_database = entry "repo.files.tar.gz";
  committed_at = 5;
}

abbrev manifest_of_bytes : Bytes → Option PublishManifest
manifest_of_bytes [] = none
manifest_of_bytes (n ∷ rest) = if n == 1 then some (manifest "one") else some (manifest "two")

-- the directory of a release; each file has a signature
abbrev release_directory : ℕ → Directory
release_directory n = λ file. some (n ∷ [])

abbrev plan : PublishPlan
plan = record { format = 1; repository_name = "repo"; artifacts = artifact ∷ [] }

abbrev tools : Tools
tools = record {
  codec = record {
    canonical_bytes = λ plan. 7 ∷ [];
    sha256_hex = λ bytes. "d";
    read_result = λ bytes. none;
  };
  read_plan = λ bytes. some plan;
  read_manifest = manifest_of_bytes;
  manifest_entries = λ bytes. some ((some artifact.file, none) ∷ (some keyring.file, none) ∷ []);
  verify = λ signature content. true;
  arch_names = λ d. artifact.file ∷ "old-1-1-any.pkg.tar.zst" ∷ [];
  release_names = λ d. "one" ∷ "two" ∷ [];
}

abbrev disk : Disk
disk = record {
  exchange = no_exchange;
  arch = λ file. some (7 ∷ 8 ∷ 9 ∷ []);
  arch_links = λ name. none;
  releases = λ name.
      if name == "one"
      then some (release_directory 1)
      else if name == "two"
      then some (release_directory 2)
      else none;
  release_links = λ name. none;
}

activated_one : (activate tools "one" disk).0 ≡ ok tt
unfolding activate read_manifest check_release check_packages current_release release_of_names
activated_one = refl

activated_two : (activate tools "two" (activate tools "one" disk).1).0 ≡ ok tt
unfolding activate read_manifest check_release check_packages current_release release_of_names
activated_two = refl

activate-Outcome_example :
    Outcome tools "one" disk (activate tools "one" disk).0 (activate tools "one" disk).1
activate-Outcome_example = activate-Outcome tools "one" disk

rollback-activate_example :
    ((rollback tools (activate tools "two" (activate tools "one" disk).1).1).0 ≡ ok "one")
    × ((rollback tools (activate tools "two" (activate tools "one" disk).1).1).1.release_links
          "current"
        ≡ some "one")
    × ((rollback tools (activate tools "two" (activate tools "one" disk).1).1).1.release_links
          "previous"
        ≡ some "two")
    × (m : PublishManifest) × (read_manifest tools "one" disk ≡ ok m)
    × IsRelease tools "one" (activate tools "two" (activate tools "one" disk).1).1 m
    × IsServing "one"
        (some "two")
        m
        (activate tools "two" (activate tools "one" disk).1).1
        (rollback tools (activate tools "two" (activate tools "one" disk).1).1).1
rollback-activate_example =
    rollback-activate tools "one" "two" disk refl activated_one activated_two

is_valid : validate_plan plan ≡ ok tt
unfolding validate_plan check_planned_artifacts validate_package_name validate_artifact_file_name
    validate_repository_name is_sha256_hex
is_valid = refl

validate_plan-IsPlan_example :
    (validate_plan plan ≡ ok tt → IsPlan plan) × (IsPlan plan → validate_plan plan ≡ ok tt)
validate_plan-IsPlan_example = validate_plan-IsPlan plan

abbrev desired : Desired
desired = record { plan = plan; sources = (artifact.file, "b") ∷ []; withheld = [] }

abbrev stored : Directory
stored = λ file. if file == artifact.file then some contents else none

abbrev daemon : AppState
daemon = record (state_with (uploaded_build ∷ [])) {
  artifacts = λ id. if id == "b" then some stored else none;
}

is_written : (write_plan tools.codec 20 "p" desired (plan_sha256 tools.codec plan) daemon).0 ≡ ok tt
unfolding write_plan copy_artifacts
is_written = refl

read_plan-write_plan_example :
    read_plan tools "d"
      (record disk { exchange = (write_plan tools.codec 20 "p" desired "d" daemon).1.exchange })
    ≡ ok plan
read_plan-write_plan_example =
    read_plan-write_plan tools 20 "p" desired daemon disk refl
      ((validate_plan-IsPlan plan).0 is_valid) (omega arith) is_written

abbrev linked : Disk
linked = record disk {
  release_links = λ name.
      if name == "current" then some "two" else if name == "previous" then some "one" else none;
}

-- The removal removes what no release names.
is_pruned : (prune tools linked).1.arch "old-1-1-any.pkg.tar.zst" ≡ none
unfolding prune all_referenced remove_stale is_stale_package without_suffix
is_pruned = refl

rollback-RolledBack_example :
    RolledBack tools (some "one") linked (rollback tools linked).0 (rollback tools linked).1
rollback-RolledBack_example = rollback-RolledBack tools linked
