-- ===== src/Daemon/Builds/Sound/Completing.antt =====
-- The end of an upload keeps the builds sound, and a build succeeds only with all of its artifacts.
use aursmith.Base.{
  ℕ, String, List, [], ◌∷◌, true, ◌&&◌, Option, none, some, ok, ◌≡◌, refl, arith, ◌==◌, string_ord,
  All, Bool-cases, inl, inr, subst, sym, ap, ◌∙◌, is_some, find, length,
}
use aursmith.Core.Protocol.{ArtifactRecord}
use aursmith.Daemon.State.{AppState, Build, BuildState, uploading, Bytes, wake, succeeded}
use aursmith.Daemon.Handler.{
  bind-keeps, check-keeps, bind-ok, check-ok, reads_result, conflict_error,
}
use aursmith.Daemon.Auth.{require_builder}
use aursmith.Daemon.Table.{update_where}
use aursmith.Daemon.Builds.Usable.{is_uploading, artifact_file}
use aursmith.Daemon.Builds.Report.{active_build, find_build}
use aursmith.Daemon.Builds.Upload.{
  upload_status, complete, complete_active, complete_uploaded, set_complete, all_complete,
  complete_row, set_succeeded,
}
use aursmith.Daemon.Keyed.{map-update_where, All-changed}
use aursmith.Daemon.Builds.Rows.{All-at, found-id, head-found}
use aursmith.Daemon.Builds.Sound.{IsRow, IsSound, IsStored, AllVerified, Apart, IsVerified}
use aursmith.Daemon.Builds.Sound.Reporting.{active_build-ok}
use aursmith.Daemon.Builds.Sound.Uploading.{uploading_state}

module _ (digest : Bytes → String) where
  complete_row-lem :
      (now : ℕ) (r : Build) (files : String → Option Bytes)
      → is_uploading r.state ≡ true
      → IsStored digest r.state r.artifacts files
      → AllVerified digest r.artifacts files
  complete_row-lem now r files e h = of_state r.state e h
    where
      of_state :
          (state : BuildState)
          → is_uploading state ≡ true
          → IsStored digest state r.artifacts files
          → AllVerified digest r.artifacts files
      of_state uploading e h = h
      of_state _ e h = absurd (ground arith)

  set_succeeded-IsSound :
      (now : ℕ) (id : String) (s : AppState)
      → IsSound digest s
      → IsSound digest (wake (set_succeeded now id s))
  set_succeeded-IsSound now id s sound =
      let test = λ (b : Build). b.id == id && is_uploading b.state in
      (
        rw (map-update_where (λ b. b.id) test (complete_row now) s.builds (λ r. refl)) sound.0,
        All-changed (IsRow digest s) (IsRow digest (set_succeeded now id s)) test (complete_row now)
            s.builds
            (λ r row e.
              (row.0, row.1, complete_row-lem now r (artifact_file s r.id) (ground arith) row.2))
            (λ r row n. row) sound.1,
      )

  pub complete-IsSound :
      (sha256 : String → String) (now : ℕ) (authorization : Option String) (id : String)
      (s : AppState)
      → IsSound digest s
      → IsSound digest (complete sha256 now authorization id s).1
  unfolding complete
  complete-IsSound sha256 now authorization id s sound =
      bind-keeps (IsSound digest) (require_builder sha256 authorization) _ s sound (λ u allowed.
        bind-keeps (IsSound digest) (reads_result (active_build now id)) (complete_active now id) s
          sound
          (λ build active.
            check-keeps (IsSound digest) (is_uploading build.state) (conflict_error "NOT_UPLOADING")
              (complete_uploaded now id build) s sound
              (λ uploads.
                check-keeps (IsSound digest) (all_complete s id build.artifacts)
                  (conflict_error "UPLOAD_INCOMPLETE") (set_complete now id) s sound
                  (λ whole. set_succeeded-IsSound now id s sound))))

  -- an artifact whose file is there, with the digest and the size that it announces
  abbrev pub IsPresent : (String → Option Bytes) → ArtifactRecord → Type 0
  IsPresent files a =
      (bytes : Bytes) × ((files a.file ≡ some bytes)
        × ((digest bytes ≡ a.sha256) × (length bytes ≡ a.size)))

  of_row :
      (id : String) (s : AppState) (b : Build)
      → IsSound digest s
      → find_build s id ≡ some b
      → b.state ≡ uploading
      → Apart b.artifacts
      → All (IsVerified digest (artifact_file s id)) b.artifacts
  of_row id s b sound found state apart =
      let row = All-at (IsRow digest s) id b s.builds found sound.1 in
      let same = found-id id b s.builds found in
      subst (λ i. All (IsVerified digest (artifact_file s i)) b.artifacts) same
        ((subst (λ st. IsStored digest st b.artifacts (artifact_file s b.id)) state row.2).1 apart)

  present :
      (s : AppState) (id : String) (artifacts : List ArtifactRecord)
      → all_complete s id artifacts ≡ true
      → All (IsVerified digest (artifact_file s id)) artifacts
      → All (IsPresent (artifact_file s id)) artifacts
  unfolding upload_status
  present s id [] whole verified = tt
  present s id (a ∷ artifacts) whole verified = (
    here (artifact_file s id a.file) (ground arith) verified.0,
    present s id artifacts (ground arith) verified.1,
  )
    where
      here :
          (content : Option Bytes)
          → is_some content ≡ true
          → ((bytes : Bytes)
              → content ≡ some bytes
              → (digest bytes ≡ a.sha256) × (length bytes ≡ a.size))
          → (bytes : Bytes) × ((content ≡ some bytes)
              × ((digest bytes ≡ a.sha256) × (length bytes ≡ a.size)))
      here none e h = absurd (ground arith)
      here (some bytes) e h = (bytes, (refl, h bytes refl))

  succeeded-row :
      (now : ℕ) (id : String) (b : Build) (rows : List Build)
      → find (λ r. r.id == id) rows ≡ some b
      → b.state ≡ uploading
      → find
          (λ r. r.id == id)
          (update_where (λ r. r.id == id && is_uploading r.state) (complete_row now) rows)
        ≡ some (complete_row now b)
  succeeded-row now id b [] found state = absurd (ground arith)
  succeeded-row now id b (r ∷ rows) found state = elim (Bool-cases (r.id == id)) [
    | inl e ↦
        subst
          (λ x.
            find (λ y. y.id == id)
              (update_where (λ y. y.id == id && is_uploading y.state) (complete_row now) (x ∷ rows))
            ≡ some (complete_row now b))
          (sym (head-found id r b rows found e))
          (updated_head (ap (λ x. x.id == id) (sym (head-found id r b rows found e)) ∙ e))
    | inr n ↦ simp (n) (succeeded-row now id b rows (ground arith) state)
  ]
    where
      updated_head :
          (b.id == id) ≡ true
          → find
              (λ y. y.id == id)
              (update_where (λ y. y.id == id && is_uploading y.state) (complete_row now) (b ∷ rows))
            ≡ some (complete_row now b)
      updated_head e = ground (arith, e, state)

  -- what the handler knows when it ends well
  record Completed (now : ℕ) (id : String) (s : AppState) (after : AppState) (b : Build)
      : Type 0 where
    found : find_build s id ≡ some b
    state : b.state ≡ uploading
    whole : all_complete s id b.artifacts ≡ true
    after_state : after ≡ wake (set_succeeded now id s)

  complete-ok :
      (sha256 : String → String) (now : ℕ) (authorization : Option String) (id : String)
      (s : AppState)
      → (complete sha256 now authorization id s).0 ≡ ok tt
      → (b : Build) × Completed now id s (complete sha256 now authorization id s).1 b
  unfolding complete
  complete-ok sha256 now authorization id s h =
      let (u, (allowed, e0)) = bind-ok (require_builder sha256 authorization) _ s tt h in
      let (build, (active, e1)) =
        bind-ok (reads_result (active_build now id)) (complete_active now id) s tt
          (sym (ap (λ x. x.0) e0) ∙ h) in
      let full = e0 ∙ e1 in
      let (uploads, e2) =
        check-ok (is_uploading build.state) (conflict_error "NOT_UPLOADING")
          (complete_uploaded now id build) s tt (sym (ap (λ x. x.0) full) ∙ h) in
      let (whole, e3) =
        check-ok (all_complete s id build.artifacts) (conflict_error "UPLOAD_INCOMPLETE")
          (set_complete now id) s tt (sym (ap (λ x. x.0) (full ∙ e2)) ∙ h) in
      let (b, row) = active_build-ok now id s build active in
      (
        b,
        record {
          found = row.found;
          state = sym row.state ∙ uploading_state build.state uploads;
          whole = ap (all_complete s id) (sym row.artifacts) ∙ whole;
          after_state = ap (λ x. x.1) (full ∙ e2 ∙ e3);
        },
      )

  -- A build that succeeds was uploading, and is now `succeeded`; where no artifact is named like the
  -- partial file of another, all of its files are there, each with the SHA-256 and the size that the
  -- builder reported. This holds in every sound state.
  pub complete-verified :
      (sha256 : String → String) (now : ℕ) (authorization : Option String) (id : String)
      (s : AppState)
      → IsSound digest s
      → (complete sha256 now authorization id s).0 ≡ ok tt
      → let after = (complete sha256 now authorization id s).1 in
        (b : Build) × ((b.state ≡ uploading)
          × ((find_build after id
                ≡ some (record b {
                  state = succeeded;
                  lease_expires_at = none;
                  finished_at = some now;
                }))
              × (Apart b.artifacts → All (IsPresent (artifact_file after id)) b.artifacts)))
  complete-verified sha256 now authorization id s sound h =
      let (b, done) = complete-ok sha256 now authorization id s h in
      let after = (complete sha256 now authorization id s).1 in
      (
        b,
        (
          done.state,
          (
            ap (λ t. find_build t id) done.after_state
                ∙ succeeded-row now id b s.builds done.found done.state,
            λ apart.
                subst (λ t. All (IsPresent (artifact_file t id)) b.artifacts) (sym done.after_state)
                  (present s id b.artifacts done.whole
                    (of_row id s b sound done.found done.state apart)),
          ),
        ),
      )
