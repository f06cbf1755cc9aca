-- ===== src/Daemon/Builds/Upload.antt =====
-- crates/aursmithd/src/builds.rs: the upload of a build's artifacts in chunks, the end of the upload, and
-- the rebuild that an administrator asks for. The SHA-256 of a file's contents is a parameter. A
-- directory that is not there is the one failure of the file system here.
use aursmith.Base.{
  ℕ, ◌+◌, String, ◌+++◌, List, [], ◌++◌, Bool, true, false, not, ◌&&◌, ◌||◌, Option, none, some, ok,
  err, ◌==◌, nat_ord, string_ord, find, length, ltb, is_some, all, any, if◌then◌else◌, ok_or,
}
use aursmith.Core.Protocol.{ArtifactRecord, UploadStatus, upload_chunk_bytes}
use aursmith.Daemon.State.{
  AppState, Build, BuildReason, Revision, Bytes, Directory, succeeded, wake,
}
use aursmith.Daemon.Handler.{
  ApiResult, Handler, bad_request_error, conflict_error, not_found_error, internal_error, check,
  lift, modify, reads, reads_result, raise, pure, ◌>>=◌, ◌>>◌,
}
use aursmith.Daemon.Auth.{require_builder}
use aursmith.Daemon.Table.{update_where}
use aursmith.Daemon.Builds.Usable.{artifact_file, is_uploading, is_succeeded, is_unfinished}
use aursmith.Daemon.Builds.Schedule.{insert_build, approved_with_policy}
use aursmith.Daemon.Builds.Report.{ActiveBuild, active_build}

abbrev pub part_name : String → String
part_name file = file +++ ".part"

abbrev pub size_of : Option Bytes → ℕ
size_of none = 0
size_of (some bytes) = length bytes

unfoldable pub upload_status : AppState → String → ArtifactRecord → UploadStatus
upload_status s id a =
    let complete = is_some (artifact_file s id a.file) in
    record {
      file = a.file;
      size = a.size;
      received = if complete then a.size else size_of (artifact_file s id (part_name a.file));
      complete = complete;
    }

unfoldable pub find_artifact : ActiveBuild → String → ApiResult ArtifactRecord
find_artifact build file =
    if is_uploading build.state
    then ok_or not_found_error (find (λ a. a.file == file) build.artifacts)
    else err (conflict_error "NOT_UPLOADING")

-- what the handlers answer
abbrev pub status_now : String → ArtifactRecord → Handler UploadStatus
status_now id a = reads (λ s. upload_status s id a)

unfoldable pub upload_get :
    (String → String) → ℕ → Option String → String → String → Handler UploadStatus
unfolding active_build find_artifact require_builder upload_status
upload_get sha256 now authorization id file = do
  require_builder sha256 authorization
  build ← reads_result (active_build now id)
  a ← lift (find_artifact build file)
  status_now id a

-- a directory with one file written, or removed where there is no content
abbrev pub with_file : String → Option Bytes → Directory → Directory
with_file file content directory name = if name == file then content else directory name

abbrev pub put_directory : String → Directory → AppState → AppState
put_directory id directory s = record s {
  artifacts = λ other. if other == id then some directory else s.artifacts other;
}

abbrev pub bytes_or_empty : Option Bytes → Bytes
bytes_or_empty none = []
bytes_or_empty (some bytes) = bytes

-- The file is open to append; where it is then as long as the artifact, its digest decides.
abbrev pub finish_file :
    (Bytes → String) → String → ArtifactRecord → Bytes → Bool → Directory → Handler (Unit {0})
finish_file digest id a bytes last directory = elim last [
  | false ↦ modify (put_directory id (with_file (part_name a.file) (some bytes) directory))
  | true ↦ elim (digest bytes == a.sha256) [
    | false ↦ do
      modify (put_directory id (with_file (part_name a.file) none directory))
      raise (bad_request_error "DIGEST_MISMATCH")
    | true ↦ modify (
        put_directory id
          (with_file a.file (some bytes) (with_file (part_name a.file) none directory)))
  ]
]

abbrev pub append_chunk :
    (Bytes → String) → String → ArtifactRecord → ℕ → Bytes → Option Directory → Handler (Unit {0})
append_chunk digest id a offset body none = raise internal_error
append_chunk digest id a offset body (some directory) =
    finish_file digest id a (bytes_or_empty (directory (part_name a.file)) ++ body)
      (offset + length body == a.size) directory

abbrev pub store_chunk :
    (Bytes → String) → String → ArtifactRecord → ℕ → Bytes → Handler UploadStatus
store_chunk digest id a offset body = do
  directory ← reads (λ s. s.artifacts id)
  append_chunk digest id a offset body directory
  status_now id a

abbrev pub valid_chunk : ArtifactRecord → ℕ → Bytes → Bool
valid_chunk a offset body =
    not (
      length body == 0 || ltb upload_chunk_bytes (length body) || ltb a.size (offset + length body))

abbrev pub put_chunk :
    (Bytes → String) → String → ArtifactRecord → ℕ → Bytes → UploadStatus → Handler UploadStatus
put_chunk digest id a offset body status = do
  check (offset == status.received) (conflict_error "OFFSET_MISMATCH")
  check (valid_chunk a offset body) (bad_request_error "CHUNK_INVALID")
  store_chunk digest id a offset body

-- a file that is complete takes no more chunks
abbrev pub put_open :
    (Bytes → String) → String → ArtifactRecord → ℕ → Bytes → UploadStatus → Handler UploadStatus
put_open digest id a offset body status =
    if status.complete then pure status else put_chunk digest id a offset body status

unfoldable pub upload_put :
    (String → String)
    → (Bytes → String)
    → ℕ
    → Option String
    → String
    → String
    → ℕ
    → Bytes
    → Handler UploadStatus
unfolding active_build find_artifact require_builder upload_status
upload_put sha256 digest now authorization id file offset body = do
  require_builder sha256 authorization
  build ← reads_result (active_build now id)
  a ← lift (find_artifact build file)
  status ← status_now id a
  put_open digest id a offset body status

abbrev pub complete_row : ℕ → Build → Build
complete_row now b = record b { state = succeeded; lease_expires_at = none; finished_at = some now }

abbrev pub set_succeeded : ℕ → String → AppState → AppState
set_succeeded now id s = record s {
  builds = update_where (λ b. b.id == id && is_uploading b.state) (complete_row now) s.builds;
}

abbrev pub all_complete : AppState → String → List ArtifactRecord → Bool
all_complete s id artifacts = all (λ a. (upload_status s id a).complete) artifacts

abbrev pub set_complete : ℕ → String → Handler (Unit {0})
set_complete now id = modify (set_succeeded now id) >> modify wake

abbrev pub complete_uploaded : ℕ → String → ActiveBuild → Handler (Unit {0})
complete_uploaded now id build = do
  whole ← reads (λ s. all_complete s id build.artifacts)
  check whole (conflict_error "UPLOAD_INCOMPLETE")
  set_complete now id

abbrev pub complete_active : ℕ → String → ActiveBuild → Handler (Unit {0})
complete_active now id build = do
  check (is_uploading build.state) (conflict_error "NOT_UPLOADING")
  complete_uploaded now id build

unfoldable pub complete : (String → String) → ℕ → Option String → String → Handler (Unit {0})
unfolding active_build require_builder upload_status
complete sha256 now authorization id = do
  require_builder sha256 authorization
  build ← reads_result (active_build now id)
  complete_active now id build

-- the file and the length that the response announces
abbrev pub open_artifact : AppState → String → Option ArtifactRecord → ApiResult (ℕ × Bytes)
open_artifact s id none = err not_found_error
open_artifact s id (some a) = elim (artifact_file s id a.file) [
  | none ↦ err not_found_error
  | some bytes ↦ ok (a.size, bytes)
]

abbrev pub artifact_of : AppState → String → String → Option Build → ApiResult (ℕ × Bytes)
artifact_of s id file none = err not_found_error
artifact_of s id file (some b) = open_artifact s id (find (λ a. a.file == file) b.artifacts)

unfoldable pub download_artifact :
    (String → String) → Option String → String → String → Handler (ℕ × Bytes)
unfolding require_builder
download_artifact sha256 authorization id file = do
  require_builder sha256 authorization
  reads_result
      (λ s. artifact_of s id file (find (λ b. b.id == id && is_succeeded b.state) s.builds))

abbrev pub rebuild_revision : ℕ → String → String → Option (Revision × Bool) → Handler String
rebuild_revision now id base none = raise (conflict_error "NO_APPROVED_REVISION")
rebuild_revision now id base (some (r, allow_check)) = do
  active ← reads (λ s. any (λ b. b.package_base == base && is_unfinished b.state) s.builds)
  check (not active) (conflict_error "BUILD_ALREADY_ACTIVE")
  modify (insert_build now id base r.id allow_check BuildReason.manual)
  modify wake
  pure id

-- `id` is the identifier that `insert_build` draws
unfoldable pub rebuild : ℕ → String → String → Handler String
unfolding insert_build
rebuild now id base = do
  found ← reads (λ s. approved_with_policy s base)
  rebuild_revision now id base found
