-- ===== src/Daemon/Publish/Reconcile.antt =====
-- crates/aursmithd/src/publish.rs: one round of the daemon.
pub mod Keeping
pub mod Pending
pub mod Due
pub mod Written
pub mod Sound
use aursmith.Base.{
  ℕ, ◌+◌, ◌*◌, String, Bool, true, false, ◌&&◌, ◌||◌, Option, none, some, ◌==◌, string_ord,
  is_empty, any, newest, ltb, ok,
}
use aursmith.Daemon.State.{AppState, Publication, PublicationState, failed}
use aursmith.Daemon.Handler.{Handler, pure, reads_result, ◌>>=◌, ◌>>◌}
use aursmith.Daemon.Closure.{Closure, compute_closure, closure_run}
use aursmith.Daemon.Builds.Usable.{has_active_build}
use aursmith.Daemon.Builds.Schedule.{schedule}
use aursmith.Daemon.Builds.Failure.{expire_leases}
use aursmith.Daemon.Publish.Desired.{Desired, desired_state}
use aursmith.Daemon.Publish.Plan.{Codec, plan_sha256, is_pending, is_published, write_plan}
use aursmith.Daemon.Publish.Results.{collect_signer_results}

-- in seconds
abbrev pub failed_plan_backoff : ℕ
failed_plan_backoff = 15 * 60

abbrev pub is_failed : PublicationState → Bool
is_failed failed = true
is_failed _ = false

-- `finished > Utc::now() - …`
abbrev pub finished_recently : ℕ → Option ℕ → Bool
finished_recently now none = false
finished_recently now (some finished) = ltb now (finished + failed_plan_backoff)

-- whether the latest publication leaves nothing to write
unfoldable pub is_settled : ℕ → Desired → String → Option Publication → Bool
is_settled now desired sha256 none = is_empty desired.plan.artifacts
is_settled now desired sha256 (some p) =
    p.plan_sha256 == sha256
    && (is_published p.state || is_failed p.state && finished_recently now p.finished_at)

abbrev pub latest_publication : AppState → Option Publication
latest_publication s = newest (λ p. p.created_at) s.publications

abbrev pub write_desired : Codec → ℕ → String → Desired → Handler Bool
write_desired codec now id desired s =
    let sha256 = plan_sha256 codec desired.plan in
    elim (is_settled now desired sha256 (latest_publication s)) [
      | true ↦ (ok false, s)
      | false ↦ (write_plan codec now id desired sha256 >> pure true) s
    ]

-- the part after the schedule
unfoldable pub publish_desired : Codec → ℕ → String → Closure → Handler Bool
unfolding desired_state write_plan
publish_desired codec now id c s =
    elim (any (λ base. has_active_build s c base) c.members
      || any (λ p. is_pending p.state) s.publications) [
        | true ↦ (ok false, s)
        | false ↦ (reads_result (λ t. desired_state t c) >>= write_desired codec now id) s
      ]

-- the state before the tests: results collected, leases expired, builds scheduled
abbrev pub prepared : Codec → ℕ → (String → String) → AppState → AppState
prepared codec now uuid s =
    let expired = expire_leases now (collect_signer_results codec now s) in
    (schedule now uuid (compute_closure expired) expired).0

-- `uuid` gives the identifiers of the builds, `id` that of the publication.
unfoldable pub reconcile : Codec → ℕ → (String → String) → String → Handler Bool
unfolding collect_signer_results expire_leases schedule closure_run publish_desired
reconcile codec now uuid id s =
    let expired = expire_leases now (collect_signer_results codec now s) in
    let closure = compute_closure expired in
    publish_desired codec now id closure (schedule now uuid closure expired).0
