-- ===== src/Daemon/Builds/Sound/Reporting.antt =====
-- The report of a build keeps the builds sound: a list of artifacts is stored only when it is accepted,
-- and its directory is then empty.
use aursmith.Base.{
  ℕ, String, ◌+++◌, List, [], ◌∷◌, true, ◌&&◌, Option, none, some, Result, ok, err, ◌≡◌, refl,
  arith, ◌==◌, string_ord, nat_ord, All, Option-cases, inl, inr, subst, sym, Nodup, fun_ext,
}
use aursmith.Core.Protocol.{ArtifactRecord, BuildReport, BuildOutcome}
use aursmith.Core.Protocol
use aursmith.Daemon.State.{AppState, Build, BuildState, running, Bytes}
use aursmith.Daemon.Handler.{bind-keeps, check-keeps, reads_result}
use aursmith.Daemon.Auth.{require_builder}
use aursmith.Daemon.Builds.Usable.{is_running, artifact_file}
use aursmith.Daemon.Builds.Report.{
  ActiveBuild, active_build, find_build, validate_artifacts, succeed_report, handle_outcome, report,
  accept, accept_row, create_directory, cut_log, code_or_failed, failing,
}
use aursmith.Daemon.Builds.Manifest.{files_of, validate_artifacts-ok}
use aursmith.Daemon.Keyed.{map-update_where, All-changed, All-imp}
use aursmith.Daemon.Builds.Sound.{IsRow, IsSound, IsStored, IsVerified}
use aursmith.Daemon.Builds.Sound.Failing.{Agrees, found-Agrees, fail_build-IsSound}

-- The active build is the row of its id, with a lease that has not run out.
pub record IsActive (s : AppState) (id : String) (build : ActiveBuild) (b : Build) : Type 0 where
  pub found : find_build s id ≡ some b
  pub attempt : build.attempt ≡ b.attempt
  pub state : build.state ≡ b.state
  pub artifacts : build.artifacts ≡ b.artifacts

pub active_build-ok :
    (now : ℕ) (id : String) (s : AppState) (build : ActiveBuild)
    → active_build now id s ≡ ok build
    → (b : Build) × IsActive s id build b
unfolding active_build
active_build-ok now id s build h = elim (Option-cases (find_build s id)) [
  | inl missing ↦ absurd (ground arith)
  | inr (b, found) ↦ (
    b,
    record {
      found = found;
      attempt = ground arith;
      state = ground arith;
      artifacts = ground arith;
    },
  )
]

pub created-file :
    (id other file : String) (s : AppState)
    → artifact_file (create_directory id s) other file ≡ artifact_file s other file
created-file id other file s = ground arith

-- the row of the id of a build, where it has the state `running`, has no file
empty-rows :
    (digest : Bytes → String) (s : AppState) (r : Build)
    → is_running r.state ≡ true
    → IsStored digest r.state r.artifacts (artifact_file s r.id)
    → (file : String) → artifact_file s r.id file ≡ none
empty-rows digest s r e h = of_state r.state r.artifacts (artifact_file s r.id) e h
  where
    of_state :
        (state : BuildState) (artifacts : List ArtifactRecord) (files : String → Option Bytes)
        → is_running state ≡ true
        → IsStored digest state artifacts files
        → (file : String) → files file ≡ none
    of_state running artifacts files e h = h
    of_state _ artifacts files e h = absurd (ground arith)

module _ (digest : Bytes → String) where
  directory-IsRow :
      (id : String) (s : AppState) (r : Build)
      → IsRow digest s r
      → IsRow digest (create_directory id s) r
  directory-IsRow id s r row =
      (row.0, row.1, subst (IsStored digest r.state r.artifacts) (same_files r.id) row.2)
    where
      same_files :
          (other : String) → artifact_file s other ≡ artifact_file (create_directory id s) other
      same_files other = fun_ext λ file. sym (created-file id other file s)

  absent-IsVerified :
      (artifacts : List ArtifactRecord) (files : String → Option Bytes)
      → ((file : String) → files file ≡ none)
      → All (IsVerified digest files) artifacts
  absent-IsVerified [] files absent = tt
  absent-IsVerified (a ∷ artifacts) files absent = (
    (λ bytes e. absurd (ground (arith, absent a.file))),
    absent-IsVerified artifacts files absent,
  )

  accept-IsSound :
      (id : String) (artifacts : List ArtifactRecord) (log : String) (s : AppState)
      → Nodup (files_of artifacts)
      → IsSound digest s
      → IsSound digest (create_directory id (accept id artifacts log s))
  accept-IsSound id artifacts log s once sound =
      let test = λ (b : Build). b.id == id && is_running b.state in
      let t = accept id artifacts log s in
      (
        rw (map-update_where (λ b. b.id) test (accept_row artifacts log) s.builds (λ r. refl))
            sound.0,
        All-imp (IsRow digest t) (IsRow digest (create_directory id t)) t.builds
            (λ r row. directory-IsRow id t r row)
            (All-changed (IsRow digest s) (IsRow digest t) test (accept_row artifacts log) s.builds
              (λ r row e. (
                row.0,
                row.1,
                (
                  once,
                  λ apart.
                      absent-IsVerified artifacts (artifact_file s r.id)
                        (empty-rows digest s r (ground arith) row.2),
                ),
              ))
              (λ r row n. row) sound.1),
      )

  module _ (now : ℕ) (id : String) (build : ActiveBuild) (s : AppState) where
    failing-IsSound :
        (code log : String)
        → ((b : Build) × IsActive s id build b)
        → IsSound digest s
        → IsSound digest (failing now id build.attempt code log s).1
    failing-IsSound code log (b, active) sound =
        fail_build-IsSound digest now id build.attempt code (some log) s
          (subst (λ n. All (Agrees id n) s.builds) (sym active.attempt)
            (found-Agrees id b s.builds active.found sound.0))
          sound

    succeed_report-IsSound :
        (debug : List String → String) (artifacts : List ArtifactRecord) (log : String)
        (checked : Result (Unit {0}) String)
        → checked ≡ validate_artifacts debug artifacts build.expected_outputs
        → ((b : Build) × IsActive s id build b)
        → IsSound digest s
        → IsSound digest (succeed_report now id build artifacts log checked s).1
    succeed_report-IsSound debug artifacts log (err message) e active sound =
        failing-IsSound "OUTPUT_MISMATCH" (log +++ "\n" +++ message) active sound
    succeed_report-IsSound debug artifacts log (ok u) e active sound =
        accept-IsSound id artifacts log s
          (validate_artifacts-ok debug artifacts build.expected_outputs (sym e)).files_once sound

    handle_outcome-IsSound :
        (debug : List String → String) (r : BuildReport) (outcome : BuildOutcome)
        → ((b : Build) × IsActive s id build b)
        → IsSound digest s
        → IsSound digest (handle_outcome debug now id build r outcome s).1
    handle_outcome-IsSound debug r Protocol.BuildOutcome.failed active sound =
        failing-IsSound (code_or_failed r.error_code) (cut_log r.log) active sound
    handle_outcome-IsSound debug r Protocol.BuildOutcome.succeeded active sound =
        succeed_report-IsSound debug r.artifacts (cut_log r.log)
          (validate_artifacts debug r.artifacts build.expected_outputs) refl active sound

  pub report-IsSound :
      (sha256 : String → String) (debug : List String → String) (now : ℕ)
      (authorization : Option String) (id : String) (r : BuildReport) (s : AppState)
      → IsSound digest s
      → IsSound digest (report sha256 debug now authorization id r s).1
  unfolding report
  report-IsSound sha256 debug now authorization id r s sound =
      bind-keeps (IsSound digest) (require_builder sha256 authorization) _ s sound (λ u allowed.
        bind-keeps (IsSound digest) (reads_result (active_build now id)) _ s sound (λ build active.
          check-keeps (IsSound digest) (build.attempt == r.attempt && is_running build.state) _ _ s
            sound
            (λ current.
              handle_outcome-IsSound now id build s debug r r.outcome
                (active_build-ok now id s build active) sound)))
