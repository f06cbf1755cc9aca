-- ===== src/Daemon/Builds/Sound/Uploading.antt =====
-- A chunk of an upload keeps the builds sound: a file takes its name only with the digest and
-- the size that its artifact announces.
use aursmith.Base.{
  ℕ, ◌+◌, String, List, ◌++◌, true, false, Option, none, some, ok, ◌≡◌, refl, arith, ◌==◌,
  string_ord, nat_ord, Bool-cases, inl, inr, subst, sym, ap, ◌∙◌, is_some, find, length,
  length-append, ==_iff,
}
use aursmith.Core.Protocol.{ArtifactRecord}
use aursmith.Daemon.State.{AppState, Build, BuildState, uploading, Bytes, Directory}
use aursmith.Daemon.Handler.{
  bind-keeps, check-keeps, check, ◌>>◌, reads_result, lift, conflict_error, bad_request_error,
}
use aursmith.Daemon.Auth.{require_builder}
use aursmith.Daemon.Builds.Usable.{is_uploading, artifact_file, file_in}
use aursmith.Daemon.Builds.Report.{ActiveBuild, active_build, find_build}
use aursmith.Daemon.Builds.Upload.{
  upload_status, find_artifact, upload_put, put_open, store_chunk, valid_chunk, status_now,
  append_chunk, part_name, size_of, bytes_or_empty,
}
use aursmith.Daemon.Builds.Sound.{IsSound}
use aursmith.Daemon.Builds.Sound.Storing.{finish_file-IsSound}
use aursmith.Daemon.Builds.Sound.Files.{found-name}
use aursmith.Daemon.Builds.Sound.Reporting.{active_build-ok}

pub uploading_state : (state : BuildState) → is_uploading state ≡ true → state ≡ uploading
uploading_state uploading e = refl
uploading_state _ e = absurd (ground arith)

-- `find_artifact` gives an artifact of a build that is uploading.
pub find_artifact-ok :
    (build : ActiveBuild) (file : String) (a : ArtifactRecord)
    → find_artifact build file ≡ ok a
    → (build.state ≡ uploading) × (find (λ x. x.file == file) build.artifacts ≡ some a)
unfolding find_artifact
find_artifact-ok build file a h = (uploading_state build.state (ground arith), ground arith)

own_listed :
    (file : String) (a : ArtifactRecord) (given stored : List ArtifactRecord)
    → given ≡ stored
    → find (λ x. x.file == file) given ≡ some a
    → find (λ x. x.file == a.file) stored ≡ some a
own_listed file a given stored same h =
    subst (λ f. find (λ x. x.file == f) stored ≡ some a) (sym (found-name file a given h).0)
      (subst (λ xs. find (λ x. x.file == file) xs ≡ some a) same h)

module _ (digest : Bytes → String) where
  received-whole :
      (part : Option Bytes) (body : Bytes) (offset size : ℕ)
      → offset ≡ size_of part
      → (offset + length body == size) ≡ true
      → length (bytes_or_empty part ++ body) ≡ size
  received-whole none body offset size e last = ground (arith, ==_iff (offset + length body) size)
  received-whole (some bytes) body offset size e last =
      ground (arith, ==_iff (offset + length body) size, length-append bytes body)

  append_chunk-IsSound :
      (id : String) (a : ArtifactRecord) (offset : ℕ) (body : Bytes) (s : AppState) (b : Build)
      (place : Option Directory)
      → s.artifacts id ≡ place
      → find_build s id ≡ some b
      → b.state ≡ uploading
      → find (λ x. x.file == a.file) b.artifacts ≡ some a
      → artifact_file s id a.file ≡ none
      → offset ≡ size_of (artifact_file s id (part_name a.file))
      → IsSound digest s
      → IsSound digest (append_chunk digest id a offset body place s).1
  append_chunk-IsSound id a offset body s b none d found state listed absent at sound = sound
  append_chunk-IsSound id a offset body s b (some old) d found state listed absent at sound =
      finish_file-IsSound digest id a s b old
        (record { found = found; state = state; listed = listed; directory = d })
        (bytes_or_empty (old (part_name a.file)) ++ body) (offset + length body == a.size)
        (sym (ap (λ x. file_in x a.file) d) ∙ absent)
        (received-whole (old (part_name a.file)) body offset a.size
          (at ∙ ap (λ x. size_of (file_in x (part_name a.file))) d))
        sound

  -- what a status says of the files
  received-part :
      (s : AppState) (id : String) (a : ArtifactRecord)
      → (upload_status s id a).complete ≡ false
      → (artifact_file s id a.file ≡ none)
        × ((upload_status s id a).received ≡ size_of (artifact_file s id (part_name a.file)))
  unfolding upload_status
  received-part s id a h = (absent (artifact_file s id a.file) h, ground arith)
    where
      absent : (content : Option Bytes) → is_some content ≡ false → content ≡ none
      absent none e = refl
      absent (some bytes) e = absurd (ground arith)

  put_chunk-IsSound :
      (id : String) (a : ArtifactRecord) (offset : ℕ) (body : Bytes) (s : AppState) (b : Build)
      → find_build s id ≡ some b
      → b.state ≡ uploading
      → find (λ x. x.file == a.file) b.artifacts ≡ some a
      → (upload_status s id a).complete ≡ false
      → (offset == (upload_status s id a).received) ≡ true
      → IsSound digest s
      → IsSound digest
          ((check (valid_chunk a offset body) (bad_request_error "CHUNK_INVALID")
              >> store_chunk digest id a offset body)
            s).1
  put_chunk-IsSound id a offset body s b found state listed missing at sound =
      let status = upload_status s id a in
      let (absent, part) = received-part s id a missing in
      let part_status = (==_iff offset status.received).0 at ∙ part in
      let kept =
        append_chunk-IsSound id a offset body s b (s.artifacts id) refl found state listed absent
          part_status sound in
      check-keeps (IsSound digest) (valid_chunk a offset body) (bad_request_error "CHUNK_INVALID")
        (store_chunk digest id a offset body) s sound
        (λ valid.
          bind-keeps (IsSound digest) (append_chunk digest id a offset body (s.artifacts id))
            (λ u. status_now id a) s kept (λ u done. kept))

  put_open-IsSound :
      (id : String) (a : ArtifactRecord) (offset : ℕ) (body : Bytes) (s : AppState) (b : Build)
      → find_build s id ≡ some b
      → b.state ≡ uploading
      → find (λ x. x.file == a.file) b.artifacts ≡ some a
      → IsSound digest s
      → IsSound digest (put_open digest id a offset body (upload_status s id a) s).1
  put_open-IsSound id a offset body s b found state listed sound =
      let status = upload_status s id a in
      elim (Bool-cases status.complete) [
        | inl e ↦ rw e sound
        | inr missing ↦ rw missing (
            check-keeps (IsSound digest) (offset == status.received)
              (conflict_error "OFFSET_MISMATCH")
              (check (valid_chunk a offset body) (bad_request_error "CHUNK_INVALID")
                >> store_chunk digest id a offset body)
              s sound
              (λ at. put_chunk-IsSound id a offset body s b found state listed missing at sound))
      ]

  pub upload_put-IsSound :
      (sha256 : String → String) (now : ℕ) (authorization : Option String) (id file : String)
      (offset : ℕ) (body : Bytes) (s : AppState)
      → IsSound digest s
      → IsSound digest (upload_put sha256 digest now authorization id file offset body s).1
  unfolding upload_put
  upload_put-IsSound sha256 now authorization id file offset body s sound =
      bind-keeps (IsSound digest) (require_builder sha256 authorization) _ s sound (λ u allowed.
        bind-keeps (IsSound digest) (reads_result (active_build now id)) _ s sound (λ build active.
          bind-keeps (IsSound digest) (lift (find_artifact build file)) _ s sound (λ a listed.
            let (state, found_a) = find_artifact-ok build file a listed in
            let (b, row) = active_build-ok now id s build active in
            put_open-IsSound id a offset body s b row.found (sym row.state ∙ state)
              (own_listed file a build.artifacts b.artifacts row.artifacts found_a) sound)))
