-- ===== src/Daemon/Publish/Reconcile/Keeping.antt =====
-- What the parts of a round of the daemon leave as it is.
use aursmith.Base.{
  keep, any, ◌==◌, string_ord, ℕ, String, List, [], ◌∷◌, Bool, Option, none, some, ok, err, ◌≡◌,
  refl, ◌∙◌, Bool-cases, inl, inr,
}
use aursmith.Daemon.State.{Directory, AppState, Build, Publication, Revision}
use aursmith.Core.Protocol.{PublishPlan, SignerResult}
use aursmith.Daemon.Handler.{ApiResult}
use aursmith.Daemon.Builds.Usable.{is_queued}
use aursmith.Daemon.Closure.{Closure}
use aursmith.Daemon.Builds.Schedule.{
  cancel, cancel_stale, cancel_reason, schedule, schedule_members, schedule_revision, insert_build,
  approved_with_policy,
}
use aursmith.Daemon.Builds.Failure.{fail_build, fail_expired, expire_leases, is_expired}
use aursmith.Daemon.Publish.Desired.{Desired}
use aursmith.Daemon.Publish.Plan.{
  Codec, write_plan, copy_artifacts, commit_plan, is_pending, no_files, published_digests,
  put_inbox, temporary,
}
use aursmith.Daemon.Publish.Results.{
  collect_rows, store_result, collect_signer_results, result_for, outbox_name,
}

-- The leases that run out and the schedule leave the publications.
fail_expired-publications :
    (now : ℕ) (rows : List Build) (s : AppState)
    → (fail_expired now rows s).publications ≡ s.publications
unfolding fail_expired fail_build
fail_expired-publications now [] s = refl
fail_expired-publications now (b ∷ rows) s =
    fail_expired-publications now rows (fail_build now b.id b.attempt "LEASE_EXPIRED" none s).0

pub expire_leases-publications :
    (now : ℕ) (s : AppState) → (expire_leases now s).publications ≡ s.publications
unfolding expire_leases
expire_leases-publications now s = fail_expired-publications now (keep (is_expired now) s.builds) s

cancel-publications :
    (now : ℕ) (b : Build) (reason : Option String) (s : AppState)
    → (cancel now b reason s).publications ≡ s.publications
cancel-publications now b none s = refl
cancel-publications now b (some code) s = refl

cancel_stale-publications :
    (now : ℕ) (c : Closure) (rows : List Build) (s : AppState)
    → (cancel_stale now c rows s).publications ≡ s.publications
unfolding cancel_stale
cancel_stale-publications now c [] s = refl
cancel_stale-publications now c (b ∷ rows) s =
    cancel_stale-publications now c rows (cancel now b (cancel_reason s c b) s)
    ∙ cancel-publications now b (cancel_reason s c b) s

schedule_revision-publications :
    (now : ℕ) (id base : String) (found : Option (Revision × Bool)) (s : AppState) (created : ℕ)
    → (schedule_revision now id base found (s, created)).0.publications ≡ s.publications
unfolding insert_build
schedule_revision-publications now id base none s created = refl
schedule_revision-publications now id base (some (r, allow_check)) s created =
    elim (Bool-cases (any (λ b. b.revision_id == r.id) s.builds)) [
      | inl e ↦ rw (e, schedule_revision) refl
      | inr n ↦ rw (n, schedule_revision) refl
    ]

schedule_members-publications :
    (now : ℕ) (uuid : String → String) (members : List String) (state : AppState × ℕ)
    → (schedule_members now uuid members state).0.publications ≡ state.0.publications
unfolding schedule_members
schedule_members-publications now uuid [] state = refl
schedule_members-publications now uuid (base ∷ members) (s, created) =
    let found = approved_with_policy s base in
    schedule_members-publications now uuid members
      (schedule_revision now (uuid base) base found (s, created))
    ∙ schedule_revision-publications now (uuid base) base found s created

pub schedule-publications :
    (now : ℕ) (uuid : String → String) (c : Closure) (s : AppState)
    → (schedule now uuid c s).0.publications ≡ s.publications
unfolding schedule
schedule-publications now uuid c s =
    let stale = keep (λ b. is_queued b.state) s.builds in
    schedule_members-publications now uuid c.members (cancel_stale now c stale s, 0)
    ∙ cancel_stale-publications now c stale s

-- the builds and the artifacts are the same
abbrev pub SameBuilds : AppState → AppState → Type 0
SameBuilds s t = (t.builds ≡ s.builds) × (t.artifacts ≡ s.artifacts)

-- The results and a written plan leave the builds and the artifacts.
store_result-SameBuilds :
    (row : Publication) (result : Option SignerResult) (s : AppState)
    → SameBuilds s (store_result row result s)
store_result-SameBuilds row none s = (refl, refl)
store_result-SameBuilds row (some result) s = (refl, refl)

collect_rows-SameBuilds :
    (codec : Codec) (now : ℕ) (rows : List Publication) (s : AppState)
    → SameBuilds s (collect_rows codec now rows s)
unfolding collect_rows
collect_rows-SameBuilds codec now [] s = (refl, refl)
collect_rows-SameBuilds codec now (row ∷ rows) s =
    let result = result_for codec now row (s.exchange.outbox (outbox_name row.plan_sha256)) in
    let one = store_result-SameBuilds row result s in
    let rest = collect_rows-SameBuilds codec now rows (store_result row result s) in
    (rest.0 ∙ one.0, rest.1 ∙ one.1)

pub collect_signer_results-SameBuilds :
    (codec : Codec) (now : ℕ) (s : AppState) → SameBuilds s (collect_signer_results codec now s)
unfolding collect_signer_results
collect_signer_results-SameBuilds codec now s =
    collect_rows-SameBuilds codec now (keep (λ p. is_pending p.state) s.publications) s

commit_plan-SameBuilds :
    (codec : Codec) (now : ℕ) (id sha256 : String) (plan : PublishPlan)
    (copied : ApiResult (Unit {0}) × Directory) (s : AppState)
    → SameBuilds s (commit_plan codec now id sha256 plan copied s).1
commit_plan-SameBuilds codec now id sha256 plan (ok u, directory) s = (refl, refl)
commit_plan-SameBuilds codec now id sha256 plan (err e, directory) s = (refl, refl)

pub write_plan-SameBuilds :
    (codec : Codec) (now : ℕ) (id : String) (d : Desired) (sha256 : String) (s : AppState)
    → SameBuilds s (write_plan codec now id d sha256 s).1
unfolding write_plan
write_plan-SameBuilds codec now id d sha256 s =
    commit_plan-SameBuilds codec now id sha256 d.plan
      (copy_artifacts s d.sources (published_digests s) d.plan.artifacts no_files)
      (put_inbox sha256 none (put_inbox (temporary sha256) none s))
