-- ===== src/Daemon/Publish/Reconcile/Sound.antt =====
-- A round of the daemon keeps the builds sound, and what it writes to the inbox has the digests that the
-- plan announces.
use aursmith.Base.{
  ◌⊎◌, ℕ, String, map, true, false, ok, ◌≡◌, refl, Bool-cases, inl, inr, any, All, Nodup, contains,
  string_ord, ◌==◌, ◌||◌, some,
}
use aursmith.Daemon.State.{AppState, Bytes, Directory}
use aursmith.Daemon.Handler.{reads_result, bind-keeps, pure}
use aursmith.Daemon.Closure.{Closure}
use aursmith.Daemon.Builds.Usable.{has_active_build}
use aursmith.Daemon.Builds.Failure.{expire_leases}
use aursmith.Daemon.Builds.Manifest.{files_of}
use aursmith.Daemon.Builds.Sound.{IsSound, Apart, same-IsSound}
use aursmith.Daemon.Builds.Sound.Failing.{expire_leases-IsSound}
use aursmith.Daemon.Builds.Sound.Scheduling.{schedule-IsSound, AllFresh}
use aursmith.Daemon.Publish.Desired.{Desired, desired_state}
use aursmith.Daemon.Publish.Desired.Closed.{desired_state-closed}
use aursmith.Daemon.Publish.Plan.{Codec, write_plan, plan_sha256, is_pending, published_digests}
use aursmith.Daemon.Publish.Plan.Verified.{IsWritten-Holds, Holds}
use aursmith.Daemon.Publish.Results.{collect_signer_results}
use aursmith.Daemon.Publish.Reconcile.{
  reconcile, publish_desired, write_desired, prepared, is_settled, latest_publication,
}
use aursmith.Daemon.Publish.Reconcile.Keeping.{
  SameBuilds, collect_signer_results-SameBuilds, write_plan-SameBuilds,
}
use aursmith.Daemon.Publish.Reconcile.Written.{closure_now, reconcile-Outcome}
use aursmith.Daemon.Publish.Reconcile.Due.{IsDue}
use aursmith.Daemon.Publish.Plan.Held.{IsHeld, published_digests-IsHeld}
use aursmith.Daemon.Keyed.{All-imp}

-- the state after the results and the leases
abbrev pub expired_now : Codec → ℕ → AppState → AppState
expired_now codec now s = expire_leases now (collect_signer_results codec now s)

write_desired-SameBuilds :
    (codec : Codec) (now : ℕ) (id : String) (d : Desired) (s : AppState)
    → SameBuilds s (write_desired codec now id d s).1
write_desired-SameBuilds codec now id d s =
    let sha256 = plan_sha256 codec d.plan in
    elim (Bool-cases (is_settled now d sha256 (latest_publication s))) [
      | inl e ↦ rw (e, write_desired) (refl, refl)
      | inr n ↦
          rw (n, write_desired)
            (bind-keeps (SameBuilds s) (write_plan codec now id d sha256) (λ u. pure true) s
              (write_plan-SameBuilds codec now id d sha256 s)
              (λ u done. write_plan-SameBuilds codec now id d sha256 s))
    ]

publish_desired-SameBuilds :
    (codec : Codec) (now : ℕ) (id : String) (c : Closure) (s : AppState)
    → SameBuilds s (publish_desired codec now id c s).1
unfolding publish_desired
publish_desired-SameBuilds codec now id c s =
    let active = any (λ base. has_active_build s c base) c.members in
    elim (Bool-cases (active || any (λ p. is_pending p.state) s.publications)) [
      | inl e ↦ rw (e, publish_desired) (refl, refl)
      | inr n ↦
          rw (n, publish_desired)
            (bind-keeps (SameBuilds s) (reads_result (λ t. desired_state t c))
              (write_desired codec now id) s (refl, refl)
              (λ d found. write_desired-SameBuilds codec now id d s))
    ]

module _ (digest : Bytes → String) (codec : Codec) (now : ℕ) (uuid : String → String)
    (s : AppState) where
  pub prepared-IsSound :
      AllFresh (map uuid (closure_now codec now s).members) (expired_now codec now s)
      → IsSound digest s
      → IsSound digest (prepared codec now uuid s)
  prepared-IsSound fresh sound =
      let collected = collect_signer_results codec now s in
      let same = collect_signer_results-SameBuilds codec now s in
      schedule-IsSound digest now uuid (closure_now codec now s) (expired_now codec now s) fresh (
        expire_leases-IsSound digest now collected
          (same-IsSound digest s collected same.0 same.1 sound))

  pub reconcile-IsSound :
      (id : String)
      → AllFresh (map uuid (closure_now codec now s).members) (expired_now codec now s)
      → IsSound digest s
      → IsSound digest (reconcile codec now uuid id s).1
  unfolding reconcile
  reconcile-IsSound id fresh sound =
      let same =
        publish_desired-SameBuilds codec now id (closure_now codec now s)
          (prepared codec now uuid s) in
      same-IsSound digest (prepared codec now uuid s) (reconcile codec now uuid id s).1 same.0
        same.1 (prepared-IsSound fresh sound)

-- A round of the daemon that is due, from a state whose builds are sound, leaves in the inbox under the
-- plan's digest a directory with the plan as `plan.json`, and for each artifact of the plan, unless the
-- plan that was published last has one of its digest, a file with the SHA-256 and the size that the plan
-- announces. The identifiers of new builds are new, no artifact of a build is named like the partial file
-- of another, and no two artifacts of the plan have one file name, nor the name `plan.json`.
pub reconcile-Holds :
    (codec : Codec) (now : ℕ) (uuid : String → String) (id : String) (s : AppState) (d : Desired)
    → IsSound codec.sha256_hex s
    → AllFresh (map uuid (closure_now codec now s).members) (expired_now codec now s)
    → All (λ b. Apart b.artifacts) (prepared codec now uuid s).builds
    → desired_state (prepared codec now uuid s) (closure_now codec now s) ≡ ok d
    → Nodup (files_of d.plan.artifacts)
    → IsDue codec now (closure_now codec now s) d (prepared codec now uuid s)
    → (directory : Directory) × (((reconcile codec now uuid id s).1.exchange.inbox
            (plan_sha256 codec d.plan)
          ≡ some directory)
        × (directory "plan.json" ≡ some (codec.canonical_bytes d.plan))
        × All
            (λ a.
              (a.file == "plan.json") ≡ false
              → Holds codec.sha256_hex directory a ⊎ IsHeld (prepared codec now uuid s) a.sha256)
            d.plan.artifacts)
reconcile-Holds codec now uuid id s d sound fresh apart found once due =
    let t = prepared codec now uuid s in
    let u = (reconcile codec now uuid id s).1 in
    let c = closure_now codec now s in
    elim (reconcile-Outcome codec now uuid id s d found) [
      | inr (not_due, ends, left) ↦ absurd (not_due due)
      | inl (holds_due, ends, written) ↦ (
        written.directory,
        (
          written.stored,
          written.plan,
          All-imp
              (λ a.
                contains (published_digests t) a.sha256 ≡ false
                → (a.file == "plan.json") ≡ false
                → Holds codec.sha256_hex written.directory a)
              (λ a.
                (a.file == "plan.json") ≡ false
                → Holds codec.sha256_hex written.directory a ⊎ IsHeld t a.sha256)
              d.plan.artifacts
              (λ a holds plain. elim (Bool-cases (contains (published_digests t) a.sha256)) [
                | inl held ↦ inr (published_digests-IsHeld t a.sha256 held)
                | inr new ↦ inl (holds new plain)
              ])
              (IsWritten-Holds codec.sha256_hex codec now id (plan_sha256 codec d.plan) t u c d
                (prepared-IsSound codec.sha256_hex codec now uuid s fresh sound) apart
                (desired_state-closed t c d found) once written),
        ),
      )
    ]
