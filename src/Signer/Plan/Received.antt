-- ===== src/Signer/Plan/Received.antt =====
-- crates/aursmithd/src/signer.rs, publish.rs: the signer reads the plan that the daemon has written.
use aursmith.Base.{
  ℕ, String, [], ◌∷◌, true, none, some, ok, err, ◌≡◌, refl, arith, nat_ord, string_ord, ==_refl,
  ◌≤◌, leb, length,
}
use aursmith.Core.Protocol.{PublishPlan}
use aursmith.Daemon.State.{AppState, Bytes, Directory}
use aursmith.Daemon.Handler.{ApiResult}
use aursmith.Daemon.Publish.Desired.{Desired}
use aursmith.Daemon.Publish.Plan.{
  plan_sha256, write_plan, copy_artifacts, commit_plan, published_digests, no_files, put_inbox,
  temporary,
}
use aursmith.Signer.Disk.{Disk, Tools, file_of}
use aursmith.Signer.Plan.{maximum_plan_bytes, same_bytes, decoded_plan, plan_of_bytes, read_plan}
use aursmith.Signer.Plan.Valid.{IsPlan, validate_plan-IsPlan}

same_bytes_refl : (bytes : Bytes) → same_bytes bytes bytes ≡ true
unfolding same_bytes
same_bytes_refl [] = refl
same_bytes_refl (b ∷ bytes) = rw (==_refl b) (same_bytes_refl bytes)

-- A plan that a round has written is in the inbox, under its digest.
commit_plan-inbox :
    (tools : Tools) (now : ℕ) (id sha256 : String) (plan : PublishPlan)
    (copied : ApiResult (Unit {0}) × Directory) (s : AppState)
    → (commit_plan tools.codec now id sha256 plan copied s).0 ≡ ok tt
    → file_of
        ((commit_plan tools.codec now id sha256 plan copied s).1.exchange.inbox sha256)
        "plan.json"
      ≡ some (tools.codec.canonical_bytes plan)
commit_plan-inbox tools now id sha256 plan (err e, directory) s h = absurd (ground arith)
commit_plan-inbox tools now id sha256 plan (ok u, directory) s h = rw (==_refl sha256) refl

-- The signer reads a plan that the daemon has written as the plan it is, if the plan is valid and not
-- larger than the signer reads, and decoding its JSON gives it back.
pub read_plan-write_plan :
    (tools : Tools) (now : ℕ) (id : String) (desired : Desired) (s : AppState) (d : Disk)
    → tools.read_plan (tools.codec.canonical_bytes desired.plan) ≡ some desired.plan
    → IsPlan desired.plan
    → length (tools.codec.canonical_bytes desired.plan) ≤ maximum_plan_bytes
    → (write_plan tools.codec now id desired (plan_sha256 tools.codec desired.plan) s).0 ≡ ok tt
    → read_plan tools (plan_sha256 tools.codec desired.plan) (record d {
      exchange =
          (write_plan tools.codec now id desired
            (plan_sha256 tools.codec desired.plan)
            s).1.exchange;
    })
      ≡ ok desired.plan
unfolding write_plan read_plan
read_plan-write_plan tools now id desired s d decoded valid small written =
    let plan = desired.plan in
    let sha256 = plan_sha256 tools.codec plan in
    let cleared = put_inbox sha256 none (put_inbox (temporary sha256) none s) in
    let copied = copy_artifacts s desired.sources (published_digests s) plan.artifacts no_files in
    let fits : leb (length (tools.codec.canonical_bytes plan)) maximum_plan_bytes ≡ true =
      ground arith in
    rw (commit_plan-inbox tools now id sha256 plan copied cleared written) (
      rw
        (
          plan_of_bytes,
          fits,
          ==_refl sha256,
          decoded,
          decoded_plan,
          same_bytes_refl (tools.codec.canonical_bytes plan),
          (validate_plan-IsPlan plan).1 valid,
        )
        refl)
