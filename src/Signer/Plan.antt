-- ===== src/Signer/Plan.antt =====
-- crates/aursmithd/src/signer.rs: what the signer accepts as a plan, validate_plan and read_plan.
pub mod Valid
pub mod Received
use aursmith.Base.{
  ℕ, String, ◌+++◌, List, [], ◌∷◌, Bool, true, false, not, ◌&&◌, ◌||◌, Option, none, some, Result,
  ok, err, ◌==◌, nat_ord, string_ord, contains, length, leb, if◌then◌else◌,
}
use aursmith.Core.Names.{
  NameError, validate_package_name, validate_artifact_file_name, validate_repository_name,
  is_sha256_hex,
}
use aursmith.Core.Protocol.{ArtifactRecord, PublishPlan, publish_plan_format}
use aursmith.Daemon.State.{Bytes, Directory}
use aursmith.Signer.Disk.{
  Disk, Failure, unsupported_format, invalid_name, message, trouble, Tools, file_of, then_check,
}

abbrev pub keyring_name : String
keyring_name = "aursmith-keyring"

abbrev pub maximum_plan_bytes : ℕ
maximum_plan_bytes = 4194304

abbrev pub named : {A : Type 0} → Result A NameError → Result (Unit {0}) Failure
named (ok _) = ok tt
named (err e) = err (invalid_name e)

abbrev pub check_content : ArtifactRecord → Result (Unit {0}) Failure
check_content a =
    if not (is_sha256_hex a.sha256) || a.size == 0
    then err (message ("产物摘要或大小无效：" +++ a.file))
    else if a.package_name == keyring_name
    then err (message (keyring_name +++ " 是签名器保留的包名"))
    else ok tt

abbrev pub check_new : List String → List String → ArtifactRecord → Result (Unit {0}) Failure
check_new files names a =
    if contains files a.file || contains names a.package_name
    then err (message ("计划包含重复产物：" +++ a.file))
    else ok tt

abbrev pub check_planned_artifact : ArtifactRecord → Result (Unit {0}) Failure
check_planned_artifact a =
    then_check (named (validate_artifact_file_name a.file))
      (then_check (named (validate_package_name a.package_name)) (check_content a))

-- The sets are those of the files and the names before.
unfoldable pub check_planned_artifacts :
    List String → List String → List ArtifactRecord → Result (Unit {0}) Failure
check_planned_artifacts files names [] = ok tt
check_planned_artifacts files names (a ∷ artifacts) = then_check (check_planned_artifact a) (
    then_check (check_new files names a)
      (check_planned_artifacts (a.file ∷ files) (a.package_name ∷ names) artifacts))

unfoldable pub validate_plan : PublishPlan → Result (Unit {0}) Failure
unfolding check_planned_artifacts
validate_plan plan =
    if not (plan.format == publish_plan_format)
    then err (unsupported_format plan.format)
    else then_check (named (validate_repository_name plan.repository_name))
        (check_planned_artifacts [] [] plan.artifacts)

unfoldable pub same_bytes : Bytes → Bytes → Bool
same_bytes [] [] = true
same_bytes (b ∷ bytes) (c ∷ content) = b == c && same_bytes bytes content
same_bytes _ _ = false

abbrev pub validated : PublishPlan → Result (Unit {0}) Failure → Result PublishPlan Failure
validated plan (ok _) = ok plan
validated plan (err e) = err e

abbrev pub decoded_plan : Tools → Bytes → Option PublishPlan → Result PublishPlan Failure
decoded_plan tools bytes none = err trouble
decoded_plan tools bytes (some plan) =
    let result = validated plan (validate_plan plan) in
    if same_bytes (tools.codec.canonical_bytes plan) bytes
    then result
    else err (message "plan.json 不是规范序列化")

abbrev pub plan_of_bytes : Tools → String → Option Bytes → Result PublishPlan Failure
plan_of_bytes tools sha256 none = err trouble
plan_of_bytes tools sha256 (some bytes) =
    let result = decoded_plan tools bytes (tools.read_plan bytes) in
    if not (leb (length bytes) maximum_plan_bytes)
    then err (message "plan.json 类型或大小无效")
    else if not (tools.codec.sha256_hex bytes == sha256)
    then err (message "plan.json 摘要与目录名不一致")
    else result

unfoldable pub read_plan : Tools → String → Disk → Result PublishPlan Failure
unfolding validate_plan same_bytes
read_plan tools sha256 d =
    plan_of_bytes tools sha256 (file_of (d.exchange.inbox sha256) "plan.json")
