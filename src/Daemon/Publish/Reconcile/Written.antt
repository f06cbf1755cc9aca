-- ===== src/Daemon/Publish/Reconcile/Written.antt =====
-- crates/aursmithd/src/publish.rs: when a round of the daemon writes a plan, and what it leaves.
use aursmith.Base.{
  ◌⊎◌, arith, ℕ, String, Bool, true, false, not, ◌||◌, ok, ◌≡◌, refl, Bool-cases, inl, inr, any,
  string_ord,
}
use aursmith.Daemon.State.{AppState}
use aursmith.Daemon.Handler.{continue, ApiResult}
use aursmith.Daemon.Closure.{Closure, compute_closure}
use aursmith.Daemon.Builds.Usable.{has_active_build}
use aursmith.Daemon.Builds.Failure.{expire_leases}
use aursmith.Daemon.Publish.Desired.{Desired, desired_state}
use aursmith.Daemon.Publish.Desired.Closed.{IsDesired, desired_state-closed}
use aursmith.Daemon.Publish.Plan.{Codec, plan_sha256, is_pending}
use aursmith.Daemon.Publish.Plan.Copied.{IsWritten, write_plan-IsWritten}
use aursmith.Daemon.Publish.Plan.Verified.{IsDesired-AllReadable}
use aursmith.Daemon.Publish.Results.{collect_signer_results}
use aursmith.Daemon.Publish.Reconcile.Due.{IsDue, is_due, is_due-IsDue}
use aursmith.Daemon.Publish.Reconcile.{
  reconcile, publish_desired, write_desired, prepared, is_settled, latest_publication,
}

-- the closure that a round computes
abbrev pub closure_now : Codec → ℕ → AppState → Closure
closure_now codec now s = compute_closure (expire_leases now (collect_signer_results codec now s))

-- what a round that is due leaves
abbrev pub Outcome : Codec → ℕ → String → Desired → AppState → Bool → AppState → Type 0
Outcome codec now id d s true t = IsWritten codec now id (plan_sha256 codec d.plan) d s t
Outcome codec now id d s false t = t ≡ s

write_desired-Outcome :
    (codec : Codec) (now : ℕ) (id : String) (c : Closure) (d : Desired) (s : AppState)
    → IsDesired s c d
    → ((write_desired codec now id d s).0
        ≡ ok (not (is_settled now d (plan_sha256 codec d.plan) (latest_publication s))))
      × Outcome codec now id d s
          (not (is_settled now d (plan_sha256 codec d.plan) (latest_publication s)))
          (write_desired codec now id d s).1
write_desired-Outcome codec now id c d s h =
    let sha256 = plan_sha256 codec d.plan in
    let (ends, written) =
      write_plan-IsWritten codec now id sha256 d s (IsDesired-AllReadable s c d h) in
    elim (Bool-cases (is_settled now d sha256 (latest_publication s))) [
      | inl e ↦ rw (e, write_desired) (refl, refl)
      | inr n ↦ rw (n, write_desired) (rw (ends, continue) (refl, written))
    ]

publish_desired-Outcome :
    (codec : Codec) (now : ℕ) (id : String) (c : Closure) (d : Desired) (s : AppState)
    → desired_state s c ≡ ok d
    → ((publish_desired codec now id c s).0 ≡ ok (is_due codec now c d s))
      × Outcome codec now id d s (is_due codec now c d s) (publish_desired codec now id c s).1
unfolding publish_desired
publish_desired-Outcome codec now id c d s found =
    let active = any (λ base. has_active_build s c base) c.members in
    elim (Bool-cases (active || any (λ p. is_pending p.state) s.publications)) [
      | inl e ↦ rw (e, publish_desired) (refl, refl)
      | inr n ↦
          rw (n, publish_desired)
            (rw (found, continue)
              (write_desired-Outcome codec now id c d s (desired_state-closed s c d found)))
    ]

-- The result of a round and the state that it leaves.
abbrev pub Written :
    Codec → ℕ → String → Closure → Desired → AppState → ApiResult Bool → AppState → Type 0
Written codec now id c d s result t =
    (IsDue codec now c d s
      × (result ≡ ok true)
      × IsWritten codec now id (plan_sha256 codec d.plan) d s t)
    ⊎ ((IsDue codec now c d s → ⊥) × (result ≡ ok false) × (t ≡ s))

outcome-Written :
    (codec : Codec) (now : ℕ) (id : String) (c : Closure) (d : Desired) (s : AppState) (due : Bool)
    (result : ApiResult Bool) (t : AppState)
    → is_due codec now c d s ≡ due
    → result ≡ ok due
    → Outcome codec now id d s due t
    → Written codec now id c d s result t
outcome-Written codec now id c d s true result t e ends left =
    inl ((is_due-IsDue codec now c d s).0 e, ends, left)
outcome-Written codec now id c d s false result t e ends left =
    inr ((λ due. absurd (ground (arith, e, (is_due-IsDue codec now c d s).1 due))), ends, left)

pub reconcile-Outcome :
    (codec : Codec) (now : ℕ) (uuid : String → String) (id : String) (s : AppState) (d : Desired)
    → desired_state (prepared codec now uuid s) (closure_now codec now s) ≡ ok d
    → Written codec now id
        (closure_now codec now s)
        d
        (prepared codec now uuid s)
        (reconcile codec now uuid id s).0
        (reconcile codec now uuid id s).1
unfolding reconcile
reconcile-Outcome codec now uuid id s d found =
    let c = closure_now codec now s in
    let t = prepared codec now uuid s in
    let (ends, left) = publish_desired-Outcome codec now id c d t found in
    outcome-Written codec now id c d t (is_due codec now c d t) _ _ refl ends left
