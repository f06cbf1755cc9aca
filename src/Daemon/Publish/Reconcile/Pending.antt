-- ===== src/Daemon/Publish/Reconcile/Pending.antt =====
-- crates/aursmithd/src/publish.rs: how many publications wait for the signer.
use aursmith.Base.{
  ℕ, ◌+◌, ◌≤◌, String, List, [], ◌∷◌, Bool, true, false, ◌||◌, Option, none, some, ◌≡◌, refl, ap,
  arith, Bool-cases, inl, inr, Result-cases, keep, any, length, ◌==◌, string_ord,
}
use aursmith.Core.Protocol.{SignerResult, SignerState}
use aursmith.Core.Protocol
use aursmith.Daemon.State.{AppState, Publication}
use aursmith.Daemon.Handler.{bind-keeps, reads_result, pure}
use aursmith.Daemon.Table.{update_where}
use aursmith.Daemon.Closure.{Closure, compute_closure}
use aursmith.Daemon.Keyed.{length-keep_end}
use aursmith.Daemon.Builds.Usable.{has_active_build}
use aursmith.Daemon.Builds.Failure.{expire_leases}
use aursmith.Daemon.Publish.Desired.{Desired, desired_state}
use aursmith.Daemon.Publish.Plan.{
  Codec, write_plan, copy_artifacts, commit_plan, is_pending, plan_sha256, published_digests,
  no_files, new_publication,
}
use aursmith.Daemon.Publish.Results.{
  collect_rows, store_result, collect_signer_results, result_for, outbox_name, result_row,
  next_state,
}
use aursmith.Daemon.Publish.Reconcile.{
  reconcile, publish_desired, write_desired, prepared, is_settled, latest_publication,
}
use aursmith.Daemon.Publish.Reconcile.Keeping.{expire_leases-publications, schedule-publications}

abbrev pub pending_count : List Publication → ℕ
pending_count rows = length (keep (λ p. is_pending p.state) rows)

next_state-settles : (state : SignerState) → is_pending (next_state state) ≡ false
next_state-settles Protocol.SignerState.published = refl
next_state-settles Protocol.SignerState.failed = refl

pending_count-result :
    (test : Publication → Bool) (result : SignerResult) (rows : List Publication)
    → pending_count (update_where test (result_row result) rows) ≤ pending_count rows
pending_count-result test result [] = omega arith
pending_count-result test result (p ∷ rows) = elim (Bool-cases (test p)) [
  | inl e ↦
      rw e (ground (arith, pending_count-result test result rows, next_state-settles result.state))
  | inr n ↦ rw n (ground (arith, pending_count-result test result rows))
]

store_result-pending_count :
    (row : Publication) (result : Option SignerResult) (s : AppState)
    → pending_count (store_result row result s).publications ≤ pending_count s.publications
store_result-pending_count row none s = omega arith
store_result-pending_count row (some result) s =
    pending_count-result (λ p. p.id == row.id) result s.publications

collect_rows-pending_count :
    (codec : Codec) (now : ℕ) (rows : List Publication) (s : AppState)
    → pending_count (collect_rows codec now rows s).publications ≤ pending_count s.publications
unfolding collect_rows
collect_rows-pending_count codec now [] s = omega arith
collect_rows-pending_count codec now (row ∷ rows) s =
    let result = result_for codec now row (s.exchange.outbox (outbox_name row.plan_sha256)) in
    omega (
      arith,
      collect_rows-pending_count codec now rows (store_result row result s),
      store_result-pending_count row result s,
    )

none_pending :
    (rows : List Publication) → any (λ p. is_pending p.state) rows ≡ false → pending_count rows ≡ 0
none_pending [] h = refl
none_pending (p ∷ rows) h = ground (arith, none_pending rows)

write_plan-pending_count :
    (codec : Codec) (now : ℕ) (id : String) (d : Desired) (sha256 : String) (s : AppState)
    → pending_count (write_plan codec now id d sha256 s).1.publications
      ≤ pending_count s.publications + 1
unfolding write_plan
write_plan-pending_count codec now id d sha256 s =
    elim (Result-cases
      (copy_artifacts s d.sources (published_digests s) d.plan.artifacts no_files).0) [
        | inl (e, bad) ↦ rw (bad, commit_plan) (omega arith)
        | inr (u, good) ↦
            rw (good, commit_plan)
              (ground (
                arith,
                length-keep_end (λ p. is_pending p.state) s.publications
                    (new_publication now id sha256 d.plan),
              ))
      ]

prepared-pending_count :
    (codec : Codec) (now : ℕ) (uuid : String → String) (s : AppState)
    → pending_count (prepared codec now uuid s).publications ≤ pending_count s.publications
unfolding collect_signer_results
prepared-pending_count codec now uuid s =
    let collected = collect_signer_results codec now s in
    let expired = expire_leases now collected in
    omega (
      arith,
      ap pending_count (schedule-publications now uuid (compute_closure expired) expired),
      ap pending_count (expire_leases-publications now collected),
      collect_rows-pending_count codec now (keep (λ p. is_pending p.state) s.publications) s,
    )

write_desired-pending_count :
    (codec : Codec) (now : ℕ) (id : String) (d : Desired) (s : AppState)
    → pending_count (write_desired codec now id d s).1.publications
      ≤ pending_count s.publications + 1
write_desired-pending_count codec now id d s =
    let sha256 = plan_sha256 codec d.plan in
    elim (Bool-cases (is_settled now d sha256 (latest_publication s))) [
      | inl e ↦ rw (e, write_desired) (omega arith)
      | inr n ↦
          rw (n, write_desired)
            (bind-keeps (λ t. pending_count t.publications ≤ pending_count s.publications + 1)
              (write_plan codec now id d sha256) (λ u. pure true) s
              (write_plan-pending_count codec now id d sha256 s)
              (λ u done. write_plan-pending_count codec now id d sha256 s))
    ]

publish_desired-pending_count :
    (codec : Codec) (now : ℕ) (id : String) (c : Closure) (s : AppState)
    → pending_count s.publications ≤ 1
    → pending_count (publish_desired codec now id c s).1.publications ≤ 1
unfolding publish_desired
publish_desired-pending_count codec now id c s few =
    let active = any (λ base. has_active_build s c base) c.members in
    elim (Bool-cases (active || any (λ p. is_pending p.state) s.publications)) [
      | inl e ↦ rw (e, publish_desired) few
      | inr n ↦
          let idle = none_pending s.publications (ground arith) in
          rw (n, publish_desired)
            (bind-keeps (λ t. pending_count t.publications ≤ 1)
              (reads_result (λ t. desired_state t c)) (write_desired codec now id) s few
              (λ d found. omega (arith, write_desired-pending_count codec now id d s, idle)))
    ]

-- Where at most one publication waits for the signer, at most one does after a round of the daemon,
-- however it ends.
pub reconcile-pending_count :
    (codec : Codec) (now : ℕ) (uuid : String → String) (id : String) (s : AppState)
    → pending_count s.publications ≤ 1
    → pending_count (reconcile codec now uuid id s).1.publications ≤ 1
unfolding reconcile
reconcile-pending_count codec now uuid id s few =
    let expired = expire_leases now (collect_signer_results codec now s) in
    publish_desired-pending_count codec now id (compute_closure expired) (prepared codec now uuid s)
      (omega (arith, prepared-pending_count codec now uuid s))
