-- ===== src/Daemon/Builds/Sound/Reachable.antt =====
-- The builder's requests, the rebuilds and the rounds of the daemon, in any order.
use aursmith.Base.{
  ℕ, String, List, [], map, Bool, not, ◌&&◌, Option, none, some, ◌≡◌, ◌==◌, string_ord, any, All,
  Nodup, subst, sym,
}
use aursmith.Core.Protocol.{LeaseRequest, BuildReport}
use aursmith.Daemon.State.{AppState, BuildReason, Bytes, Revision, wake}
use aursmith.Daemon.Handler.{check-keeps, conflict_error, modify, pure, ◌>>◌}
use aursmith.Daemon.Closure.{Closure}
use aursmith.Daemon.Builds.Usable.{is_unfinished}
use aursmith.Daemon.Builds.Schedule.{schedule, insert_build, approved_with_policy}
use aursmith.Daemon.Builds.Failure.{expire_leases}
use aursmith.Daemon.Builds.Lease.{lease}
use aursmith.Daemon.Builds.Report.{report}
use aursmith.Daemon.Builds.Upload.{upload_put, complete, rebuild, rebuild_revision}
use aursmith.Daemon.Builds.Rows.{ids}
use aursmith.Daemon.Builds.Sound.{IsRow, IsSound, same-IsSound}
use aursmith.Daemon.Builds.Sound.Failing.{expire_leases-IsSound}
use aursmith.Daemon.Builds.Sound.Scheduling.{
  IsFresh, AllFresh, schedule-IsSound, insert_build-IsSound,
}
use aursmith.Daemon.Builds.Sound.Leasing.{lease-IsSound}
use aursmith.Daemon.Builds.Sound.Reporting.{report-IsSound}
use aursmith.Daemon.Builds.Sound.Uploading.{upload_put-IsSound}
use aursmith.Daemon.Builds.Sound.Completing.{complete-IsSound}
use aursmith.Daemon.Publish.Plan.{Codec}
use aursmith.Daemon.Publish.Reconcile.{reconcile}
use aursmith.Daemon.Publish.Reconcile.Written.{closure_now}
use aursmith.Daemon.Publish.Reconcile.Sound.{reconcile-IsSound, expired_now}
use aursmith.Daemon.Publish.Garbage.{collect_garbage}
use aursmith.Daemon.Publish.Garbage.Sound.{collect_garbage-IsSound}

-- the digests, of a text and of a file, and the text of a set
pub record Library : Type 0 where
  pub sha256 : String → String
  pub digest : Bytes → String
  pub debug : List String → String

-- One request, one round of the daemon or one part of it, or a removal of artifacts. The last is any other change: it leaves the
-- builds and the artifacts.
pub data Step (l : Library) (s : AppState) : AppState → Type 0 where
  scheduled :
      (now : ℕ) (uuid : String → String) (c : Closure)
      → AllFresh (map uuid c.members) s
      → Step l s (schedule now uuid c s).0
  rebuilt : (now : ℕ) (id base : String) → IsFresh id s → Step l s (rebuild now id base s).1
  expired : (now : ℕ) → Step l s (expire_leases now s)
  leased :
      (now : ℕ) (authorization : Option String) (request : LeaseRequest)
      → Step l s (lease l.sha256 now authorization request s).1
  reported :
      (now : ℕ) (authorization : Option String) (id : String) (r : BuildReport)
      → Step l s (report l.sha256 l.debug now authorization id r s).1
  uploaded :
      (now : ℕ) (authorization : Option String) (id file : String) (offset : ℕ) (body : Bytes)
      → Step l s (upload_put l.sha256 l.digest now authorization id file offset body s).1
  completed :
      (now : ℕ) (authorization : Option String) (id : String)
      → Step l s (complete l.sha256 now authorization id s).1
  reconciled :
      (codec : Codec) (now : ℕ) (uuid : String → String) (id : String)
      → AllFresh (map uuid (closure_now codec now s).members) (expired_now codec now s)
      → Step l s (reconcile codec now uuid id s).1
  collected : (entries : List String) → Step l s (collect_garbage entries s).0
  otherwise : (t : AppState) → t.builds ≡ s.builds → t.artifacts ≡ s.artifacts → Step l s t

-- the states that steps reach from a database without builds
pub data Reachable (l : Library) : AppState → Type 0 where
  start : (s : AppState) → s.builds ≡ [] → Reachable l s
  next : (s t : AppState) → Reachable l s → Step l s t → Reachable l t

module _ (digest : Bytes → String) where
  rebuild_revision-IsSound :
      (now : ℕ) (id base : String) (found : Option (Revision × Bool)) (s : AppState)
      → IsFresh id s
      → IsSound digest s
      → IsSound digest (rebuild_revision now id base found s).1
  rebuild_revision-IsSound now id base none s fresh sound = sound
  rebuild_revision-IsSound now id base (some (r, allow_check)) s fresh sound =
      check-keeps (IsSound digest)
        (not (any (λ b. b.package_base == base && is_unfinished b.state) s.builds))
        (conflict_error "BUILD_ALREADY_ACTIVE")
        (modify (insert_build now id base r.id allow_check BuildReason.manual)
          >> modify wake
          >> pure id)
        s sound
        (λ idle.
          insert_build-IsSound digest now id base r.id allow_check BuildReason.manual s fresh sound)

  rebuild-IsSound :
      (now : ℕ) (id base : String) (s : AppState)
      → IsFresh id s
      → IsSound digest s
      → IsSound digest (rebuild now id base s).1
  unfolding rebuild
  rebuild-IsSound now id base s fresh sound =
      rebuild_revision-IsSound now id base (approved_with_policy s base) s fresh sound

  empty-IsSound : (s : AppState) → s.builds ≡ [] → IsSound digest s
  empty-IsSound s e = (
    subst (λ rows. Nodup (ids rows)) (sym e) tt,
    subst (λ rows. All (IsRow digest s) rows) (sym e) tt,
  )

Step-IsSound : (l : Library) (s t : AppState) → Step l s t → IsSound l.digest s → IsSound l.digest t
Step-IsSound l s _ (scheduled now uuid c fresh) sound =
    schedule-IsSound l.digest now uuid c s fresh sound
Step-IsSound l s _ (rebuilt now id base fresh) sound =
    rebuild-IsSound l.digest now id base s fresh sound
Step-IsSound l s _ (expired now) sound = expire_leases-IsSound l.digest now s sound
Step-IsSound l s _ (leased now authorization request) sound =
    lease-IsSound l.digest l.sha256 now authorization request s sound
Step-IsSound l s _ (reported now authorization id r) sound =
    report-IsSound l.digest l.sha256 l.debug now authorization id r s sound
Step-IsSound l s _ (uploaded now authorization id file offset body) sound =
    upload_put-IsSound l.digest l.sha256 now authorization id file offset body s sound
Step-IsSound l s _ (completed now authorization id) sound =
    complete-IsSound l.digest l.sha256 now authorization id s sound
Step-IsSound l s _ (reconciled codec now uuid id fresh) sound =
    reconcile-IsSound l.digest codec now uuid s id fresh sound
Step-IsSound l s _ (collected entries) sound = collect_garbage-IsSound l.digest entries s sound
Step-IsSound l s t (otherwise _ rows files) sound = same-IsSound l.digest s t rows files sound

-- In every state that is reached, whatever the requests and their order: no two builds have one id; an
-- attempt is 1, 2 or 3; a build that is queued or running has no file in the store; and the files of a
-- build that is uploading or has succeeded have the SHA-256 and the size that the builder reported for
-- them, where none of its artifacts is named like the partial file of another.
pub Reachable-IsSound : (l : Library) (s : AppState) → Reachable l s → IsSound l.digest s
Reachable-IsSound l _ (start s e) = empty-IsSound l.digest s e
Reachable-IsSound l _ (next s t reached step) =
    Step-IsSound l s t step (Reachable-IsSound l s reached)
