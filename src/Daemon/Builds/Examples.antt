-- ===== src/Daemon/Builds/Examples.antt =====
-- Tests of the builder's requests.
use aursmith.Base.{
  String, List, [], ◌∷◌, none, some, ok, err, ◌≡◌, refl, ap, sym, some-injective, length,
  string_ord, All, arith,
}
use aursmith.Core.Names.{validate_artifact_file_name, is_sha256_hex}
use aursmith.Daemon.State.{succeeded, AppState, Build, uploading}
use aursmith.Daemon.Fixture.{artifact, outputs, uploaded_build, contents, state_with, digest, same}
use aursmith.Daemon.Auth.{require_builder, same_digest}
use aursmith.Daemon.Builds.Usable.{artifact_file}
use aursmith.Daemon.Builds.Report.{validate_artifacts, check_artifacts, active_build, find_build}
use aursmith.Daemon.Builds.Upload.{complete, rebuild, upload_status}
use aursmith.Daemon.Builds.Manifest.{IsManifest, validate_artifacts-ok}
use aursmith.Daemon.Builds.Sound.{IsSound, Apart}
use aursmith.Daemon.Builds.Sound.Completing.{IsPresent, complete-verified}
use aursmith.Daemon.Builds.Sound.Reachable.{Library, rebuilt, start, next, Reachable-IsSound}

abbrev debug : List String → String
debug names = "{}"

accepted : validate_artifacts debug (artifact ∷ []) outputs ≡ ok tt
unfolding validate_artifacts check_artifacts validate_artifact_file_name is_sha256_hex
accepted = refl

abbrev other_name : List String
other_name = "other" ∷ []

other_output :
    validate_artifacts debug (artifact ∷ []) other_name ≡ err "产物包名 {} 与 .SRCINFO 输出 {} 不一致"
unfolding validate_artifacts check_artifacts validate_artifact_file_name is_sha256_hex
other_output = refl

validate_artifacts-ok_example : IsManifest (artifact ∷ []) outputs
validate_artifacts-ok_example = validate_artifacts-ok debug (artifact ∷ []) outputs accepted

abbrev full : AppState
full = state_with (uploaded_build ∷ [])

full-IsSound : IsSound digest full
full-IsSound = (
  (refl, tt),
  (
    (
      omega arith,
      omega arith,
      (
        (refl, tt),
        λ apart. ((λ bytes e. (refl, ap length (sym (some-injective contents bytes e)))), tt),
      ),
    ),
    tt,
  ),
)

completes : (complete same 800 (some "Bearer token") "b" full).0 ≡ ok tt
unfolding complete require_builder same_digest active_build upload_status
completes = refl

complete-verified_example :
    (b : Build) × ((b.state ≡ uploading)
      × ((find_build (complete same 800 (some "Bearer token") "b" full).1 "b"
            ≡ some
                (record b { state = succeeded; lease_expires_at = none; finished_at = some 800 }))
          × (Apart b.artifacts
              → All
                  (IsPresent digest
                    (artifact_file (complete same 800 (some "Bearer token") "b" full).1 "b"))
                  b.artifacts)))
complete-verified_example =
    complete-verified digest same 800 (some "Bearer token") "b" full full-IsSound completes

abbrev library : Library
library = record { sha256 = same; digest = digest; debug = debug }

abbrev before : AppState
before = record (state_with []) { artifacts = λ id. none }

-- the state after a rebuild, which queues the build "new"
Reachable-IsSound_example : IsSound digest (rebuild 5 "new" "demo" before).1
Reachable-IsSound_example = Reachable-IsSound library (rebuild 5 "new" "demo" before).1 (
    next before (rebuild 5 "new" "demo" before).1 (start before refl)
      (rebuilt 5 "new" "demo" (refl, refl)))
