-- ===== src/Daemon/Publish/Examples.antt =====
-- Tests of the publication: one package whose build has succeeded.
use aursmith.Daemon.Publish.Reconcile.Due.{is_due, is_due-IsDue}
use aursmith.Daemon.Publish.Plan.Held.{IsHeld}
use aursmith.Base.{
  ◌⊎◌, String, List, [], ◌∷◌, true, false, none, some, ok, ◌≡◌, refl, ap, sym, some-injective,
  length, ◌==◌, string_ord, All, arith, contains, ◌≤◌, if◌then◌else◌, map, subst, ==_iff,
}
use aursmith.Daemon.State.{AppState, Build, succeeded, Directory}
use aursmith.Daemon.Fixture.{artifact, uploaded_build, contents, state_with, digest}
use aursmith.Daemon.Closure.{
  compute_closure, closure_run, closure_loop, visit_dependency, dependency_revision,
}
use aursmith.Daemon.Builds.Usable.{usable_build, has_files, has_active_build}
use aursmith.Daemon.Builds.Schedule.{schedule, schedule_members, cancel_stale, insert_build}
use aursmith.Daemon.Builds.Failure.{expire_leases, fail_expired}
use aursmith.Daemon.Builds.Sound.{IsSound, Apart}
use aursmith.Daemon.Publish.Desired.{
  Desired, desired_state, choose_all, withhold, gather_all, gather_artifacts,
}
use aursmith.Daemon.Publish.Desired.Closed.{IsDesired, desired_state-closed}
use aursmith.Daemon.Publish.Plan.{Codec, plan_sha256}
use aursmith.Daemon.Publish.Plan.Verified.{Holds}
use aursmith.Daemon.Publish.Results.{collect_signer_results, collect_rows}
use aursmith.Daemon.Publish.Reconcile.{reconcile, prepared, is_settled}
use aursmith.Daemon.Publish.Reconcile.Pending.{pending_count}
use aursmith.Daemon.Publish.Rounds.{Round, run_loop, run_loop-pending_count}
use aursmith.Daemon.Publish.Reconcile.Written.{closure_now, Written}
use aursmith.Daemon.Publish.Reconcile.Sound.{reconcile-Holds, expired_now}
use aursmith.Daemon.Builds.Sound.Scheduling.{AllFresh}
use aursmith.Daemon.Builds.Manifest.{files_of}
use aursmith.Daemon.Builds.Upload.{part_name}
use aursmith.Daemon.Publish.Garbage.{collect_garbage}
use aursmith.Daemon.Publish.Garbage.Same.{collect_garbage-desired}
use aursmith.Core.Graph.{closure, add_package}

abbrev finished_build : Build
finished_build = record uploaded_build { state = succeeded; finished_at = some 10 }

abbrev stored : Directory
stored = λ file. if file == artifact.file then some contents else none

abbrev ready : AppState
ready = record (state_with (finished_build ∷ [])) {
  artifacts = λ id. if id == "b" then some stored else none;
}

abbrev codec : Codec
codec = record {
  canonical_bytes = λ plan. 7 ∷ [];
  sha256_hex = digest;
  read_result = λ bytes. none;
}

abbrev named : String → String
named base = base

abbrev wanted : Desired
wanted = record {
  plan = record { format = 1; repository_name = "repo"; artifacts = artifact ∷ [] };
  sources = (artifact.file, "b") ∷ [];
  withheld = [];
}

is_wanted : desired_state (prepared codec 20 named ready) (closure_now codec 20 ready) ≡ ok wanted
unfolding desired_state choose_all withhold gather_all gather_artifacts usable_build has_files
    closure_run closure_loop visit_dependency dependency_revision collect_signer_results
    collect_rows expire_leases fail_expired schedule schedule_members cancel_stale insert_build
    closure add_package
is_wanted = refl

desired_state-closed_example :
    IsDesired (prepared codec 20 named ready) (closure_now codec 20 ready) wanted
desired_state-closed_example =
    desired_state-closed (prepared codec 20 named ready) (closure_now codec 20 ready) wanted
      is_wanted

-- two rounds, an hour and more apart
abbrev rounds : List Round
rounds =
    record { now = 20; uuid = named; id = "p"; entries = [] }
    ∷ record { now = 4000; uuid = named; id = "q"; entries = "b" ∷ [] }
    ∷ []

run_loop-pending_count_example : pending_count (run_loop codec 0 rounds ready).0.publications ≤ 1
run_loop-pending_count_example = run_loop-pending_count codec rounds 0 ready (omega arith)

writes : is_due codec 20 (closure_now codec 20 ready) wanted (prepared codec 20 named ready) ≡ true
unfolding desired_state usable_build has_files closure_run closure_loop visit_dependency
    dependency_revision collect_signer_results collect_rows expire_leases fail_expired schedule
    schedule_members cancel_stale insert_build closure has_active_build is_settled
writes = refl

ready-IsSound : IsSound digest ready
ready-IsSound = (
  (refl, tt),
  (
    (
      omega arith,
      omega arith,
      (
        (refl, tt),
        λ apart. ((λ bytes e. (refl, ap length (sym (some-injective contents bytes e)))), tt),
      ),
    ),
    tt,
  ),
)

collect_garbage-desired_example :
    (compute_closure (collect_garbage ("b" ∷ "old" ∷ []) ready).0 ≡ compute_closure ready)
    × (desired_state (collect_garbage ("b" ∷ "old" ∷ []) ready).0 (compute_closure ready)
        ≡ desired_state ready (compute_closure ready))
collect_garbage-desired_example = collect_garbage-desired ("b" ∷ "old" ∷ []) ready

fresh : AllFresh (map named (closure_now codec 20 ready).members) (expired_now codec 20 ready)
unfolding closure_run closure_loop visit_dependency dependency_revision collect_signer_results
    collect_rows expire_leases fail_expired add_package
fresh = ((refl, tt), ((refl, refl), tt))

apart : All (λ b. Apart b.artifacts) (prepared codec 20 named ready).builds
unfolding closure_run closure_loop visit_dependency dependency_revision collect_signer_results
    collect_rows expire_leases fail_expired add_package schedule schedule_members cancel_stale
    insert_build
apart = (
  (λ file e.
      subst (λ f. contains (files_of (artifact ∷ [])) (part_name f) ≡ false)
        ((==_iff artifact.file file).0 (ground arith)) refl),
  tt,
)

reconcile-Holds_example :
    (directory : Directory) × (((reconcile codec 20 named "p" ready).1.exchange.inbox
          (plan_sha256 codec wanted.plan)
        ≡ some directory)
      × (directory "plan.json" ≡ some (codec.canonical_bytes wanted.plan))
      × All
          (λ a.
            (a.file == "plan.json") ≡ false
            → Holds digest directory a ⊎ IsHeld (prepared codec 20 named ready) a.sha256)
          wanted.plan.artifacts)
reconcile-Holds_example =
    reconcile-Holds codec 20 named "p" ready wanted ready-IsSound fresh apart is_wanted (refl, tt)
      ((is_due-IsDue codec 20 (closure_now codec 20 ready) wanted (prepared codec 20 named ready)).0
        writes)
