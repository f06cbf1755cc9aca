-- ===== src/Daemon/Builds/Report.antt =====
-- crates/aursmithd/src/builds.rs: the builder reports the end of a build. The text of a set in a
-- message, Rust's `{:?}`, is a parameter.
use aursmith.Base.{
  ℕ, ◌-◌, String, ◌+++◌, len, List, [], ◌∷◌, Bool, true, false, not, ◌&&◌, ◌||◌, Option, none, some,
  Result, ok, err, ◌==◌, nat_ord, string_ord, contains, insert, to_set, same, find, length, leb,
  ltb, starts_with, from_byte, if◌then◌else◌,
}
use aursmith.Core.Names.{
  validate_artifact_file_name, is_sha256_hex, NameError, artifact_name, package_name, path_name,
  repository_name,
}
use aursmith.Core.Protocol.{
  ArtifactRecord, BuildReport, BuildOutcome, maximum_artifact_bytes, maximum_log_bytes,
  upload_chunk_bytes,
}
use aursmith.Core.Protocol
use aursmith.Daemon.State.{AppState, Build, BuildState, Revision, uploading}
use aursmith.Daemon.Handler.{
  ApiResult, Handler, bad_request_error, conflict_error, not_found_error, check, modify,
  reads_result, raise, pure, ◌>>=◌, ◌>>◌,
}
use aursmith.Daemon.Auth.{require_builder}
use aursmith.Daemon.Table.{update_where}
use aursmith.Daemon.Builds.Usable.{is_running, is_uploading}
use aursmith.Daemon.Builds.Lease.{revision_of}
use aursmith.Daemon.Builds.Failure.{fail_build}

pub record ActiveBuild : Type 0 where
  pub attempt : ℕ
  pub state : BuildState
  pub artifacts : List ArtifactRecord
  pub expected_outputs : List String

-- `lease_expires_at > ?`, which no NULL meets
abbrev pub lease_valid : ℕ → Build → Bool
lease_valid now b = elim b.lease_expires_at [ none ↦ false | some t ↦ ltb now t ]

abbrev pub find_build : AppState → String → Option Build
find_build s id = find (λ b. b.id == id) s.builds

abbrev joined : AppState → Option Build → Option (Build × Revision)
joined s none = none
joined s (some b) = elim (revision_of s b) [ none ↦ none | some r ↦ some (b, r) ]

abbrev active_row : ℕ → Option (Build × Revision) → ApiResult ActiveBuild
active_row now none = err not_found_error
active_row now (some (b, r)) =
    if (is_running b.state || is_uploading b.state) && lease_valid now b
    then ok (record {
      attempt = b.attempt;
      state = b.state;
      artifacts = b.artifacts;
      expected_outputs = r.snapshot.info.outputs;
    })
    else err (conflict_error "LEASE_NOT_ACTIVE")

unfoldable pub active_build : ℕ → String → AppState → ApiResult ActiveBuild
active_build now id s = active_row now (joined s (find_build s id))

abbrev pub name_message : NameError → String
name_message (package_name v) = "软件包名称无效：" +++ v
name_message (path_name v) = "路径无效：" +++ v
name_message (artifact_name v) = "软件包文件名无效：" +++ v
name_message (repository_name v) = "仓库名称无效：" +++ v

abbrev pub file_prefix : ArtifactRecord → String
file_prefix a =
    a.package_name +++ "-" +++ a.package_version +++ "-" +++ a.architecture +++ ".pkg.tar."

-- the tests of one round of the loop, but for the two sets
abbrev pub check_artifact : String → ArtifactRecord → Result (Unit {0}) String
check_artifact version a = elim (validate_artifact_file_name a.file) [
  | err e ↦ err (name_message e)
  | ok name ↦
      if not (is_sha256_hex a.sha256) || a.size == 0 || ltb maximum_artifact_bytes a.size
      then err ("产物摘要或大小无效：" +++ a.file)
      else if not (a.architecture == "x86_64" || a.architecture == "any")
          || not (a.package_version == version)
      then err ("产物架构或版本无效：" +++ a.file)
      else if not (starts_with a.file (file_prefix a))
      then err ("产物文件名与元数据不一致：" +++ a.file)
      else ok tt
]

-- The loop, with its two sets; the result is the set of the package names.
unfoldable pub check_artifacts :
    String → List String → List String → List ArtifactRecord → Result (List String) String
check_artifacts version files names [] = ok names
check_artifacts version files names (a ∷ artifacts) = elim (check_artifact version a) [
  | err message ↦ err message
  | ok _ ↦ elim (contains files a.file || contains names a.package_name) [
    | true ↦ err ("产物重复：" +++ a.file)
    | false ↦ check_artifacts version (insert a.file files) (insert a.package_name names) artifacts
  ]
]

abbrev pub compare_outputs :
    (List String → String) → List String → Result (List String) String → Result (Unit {0}) String
compare_outputs debug expected (err message) = err message
compare_outputs debug expected (ok names) =
    if same names (to_set expected)
    then ok tt
    else err ("产物包名 " +++ debug names +++ " 与 .SRCINFO 输出 " +++ debug (to_set expected) +++ " 不一致")

unfoldable pub validate_artifacts :
    (List String → String) → List ArtifactRecord → List String → Result (Unit {0}) String
unfolding check_artifacts
validate_artifacts debug [] expected = err "产物数量必须在 1 到 64 之间"
validate_artifacts debug (first ∷ artifacts) expected =
    if ltb 64 (length (first ∷ artifacts))
    then err "产物数量必须在 1 到 64 之间"
    else compare_outputs debug expected
        (check_artifacts first.package_version [] [] (first ∷ artifacts))

-- the end of a log that is too long
abbrev pub cut_log : String → String
cut_log log =
    if ltb maximum_log_bytes (len log)
    then "…（已截断）\n" +++ from_byte (len log - maximum_log_bytes) log
    else log

-- `.filter(|code| !code.is_empty() && code.len() <= 64).unwrap_or("BUILD_FAILED")`
abbrev pub code_or_failed : Option String → String
code_or_failed none = "BUILD_FAILED"
code_or_failed (some code) = if not (code == "") && leb (len code) 64 then code else "BUILD_FAILED"

pub record ReportReply : Type 0 where
  pub build_id : String
  pub state : BuildState
  pub chunk_bytes : Option ℕ

abbrev pub failing : ℕ → String → ℕ → String → String → Handler BuildState
failing now id attempt code log s =
    let (t, next) = fail_build now id attempt code (some log) s in (ok next, t)

-- `create_dir_all`
abbrev pub create_directory : String → AppState → AppState
create_directory id s = record s {
  artifacts = λ other. elim (s.artifacts other) [
    | none ↦ if other == id then some (λ _. none) else none
    | some directory ↦ some directory
  ];
}

abbrev pub accept_row : List ArtifactRecord → String → Build → Build
accept_row artifacts log b = record b { state = uploading; artifacts = artifacts; log = some log }

abbrev pub accept : String → List ArtifactRecord → String → AppState → AppState
accept id artifacts log s = record s {
  builds = update_where (λ b. b.id == id && is_running b.state) (accept_row artifacts log) s.builds;
}

abbrev pub succeed_report :
    ℕ
    → String
    → ActiveBuild
    → List ArtifactRecord
    → String
    → Result (Unit {0}) String
    → Handler ReportReply
succeed_report now id build artifacts log (err message) = do
  next ← failing now id build.attempt "OUTPUT_MISMATCH" (log +++ "\n" +++ message)
  raise (bad_request_error "OUTPUT_MISMATCH")
succeed_report now id build artifacts log (ok _) = do
  modify (accept id artifacts log)
  modify (create_directory id)
  pure (record { build_id = id; state = uploading; chunk_bytes = some upload_chunk_bytes })

abbrev pub handle_outcome :
    (List String → String)
    → ℕ
    → String
    → ActiveBuild
    → BuildReport
    → BuildOutcome
    → Handler ReportReply
handle_outcome debug now id build r Protocol.BuildOutcome.failed = do
  next ← failing now id build.attempt (code_or_failed r.error_code) (cut_log r.log)
  pure (record { build_id = id; state = next; chunk_bytes = none })
handle_outcome debug now id build r Protocol.BuildOutcome.succeeded =
    succeed_report now id build r.artifacts (cut_log r.log)
      (validate_artifacts debug r.artifacts build.expected_outputs)

unfoldable pub report :
    (String → String)
    → (List String → String)
    → ℕ
    → Option String
    → String
    → BuildReport
    → Handler ReportReply
unfolding active_build require_builder validate_artifacts fail_build
report sha256 debug now authorization id r = do
  require_builder sha256 authorization
  build ← reads_result (active_build now id)
  check (build.attempt == r.attempt && is_running build.state) (conflict_error "ATTEMPT_MISMATCH")
  handle_outcome debug now id build r r.outcome
