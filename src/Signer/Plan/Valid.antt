-- ===== src/Signer/Plan/Valid.antt =====
-- crates/aursmithd/src/signer.rs: validate_plan is the test whether a plan can be published.
use aursmith.Base.{
  String, List, [], ◌∷◌, map, true, false, Result, ok, err, ◌≡◌, refl, arith, ◌==◌, nat_ord,
  string_ord, ==_iff, contains, Nodup, All, Bool-cases, inl, inr,
}
use aursmith.Core.Names.{
  NameError, validate_package_name, validate_artifact_file_name, validate_repository_name,
  is_sha256_hex,
}
use aursmith.Core.Protocol.{ArtifactRecord, PublishPlan, publish_plan_format}
use aursmith.Signer.Disk.{then_check, then_check-ok}
use aursmith.Signer.Plan.{
  keyring_name, named, check_new, check_planned_artifact, check_planned_artifacts, validate_plan,
}

abbrev pub IsOk : {A E : Type 0} → Result A E → Type 0
IsOk (ok a) = Unit
IsOk (err e) = ⊥

-- valid names, the form of a digest, a size, and another package than the keyring
pub record IsPublishable (a : ArtifactRecord) : Type 0 where
  pub file : IsOk (validate_artifact_file_name a.file)
  pub package_name : IsOk (validate_package_name a.package_name)
  pub digest : is_sha256_hex a.sha256 ≡ true
  pub size : (a.size == 0) ≡ false
  pub other : (a.package_name == keyring_name) ≡ false

pub record IsPlan (plan : PublishPlan) : Type 0 where
  pub format : plan.format ≡ publish_plan_format
  pub repository_name : IsOk (validate_repository_name plan.repository_name)
  pub artifacts : All IsPublishable plan.artifacts
  pub files : Nodup (map (λ a. a.file) plan.artifacts)
  pub names : Nodup (map (λ a. a.package_name) plan.artifacts)

-- no artifact has one of the files or the names
abbrev IsNew : List String → List String → ArtifactRecord → Type 0
IsNew files names a = (contains files a.file ≡ false) × (contains names a.package_name ≡ false)

named-ok : {A : Type 0} (r : Result A NameError) → named r ≡ ok tt → IsOk r
named-ok (ok a) e = tt
named-ok (err x) e = absurd (ground arith)

named_of_ok : {A : Type 0} (r : Result A NameError) → IsOk r → named r ≡ ok tt
named_of_ok (ok a) h = refl
named_of_ok (err x) h = absurd h

check_planned_artifact-IsPublishable :
    (a : ArtifactRecord) → check_planned_artifact a ≡ ok tt → IsPublishable a
check_planned_artifact-IsPublishable a e =
    let (first, rest) = then_check-ok (named (validate_artifact_file_name a.file)) _ e in
    let (second, third) = then_check-ok (named (validate_package_name a.package_name)) _ rest in
    record {
      file = named-ok (validate_artifact_file_name a.file) first;
      package_name = named-ok (validate_package_name a.package_name) second;
      digest = ground arith;
      size = ground arith;
      other = ground arith;
    }

publishable-check_planned_artifact :
    (a : ArtifactRecord) → IsPublishable a → check_planned_artifact a ≡ ok tt
publishable-check_planned_artifact a h =
    rw
      (
        named_of_ok (validate_artifact_file_name a.file) h.file,
        named_of_ok (validate_package_name a.package_name) h.package_name,
        then_check,
        h.digest,
        h.size,
        h.other,
      )
      refl

-- What is new beside the files and names of one artifact more.
contains-map :
    (field : ArtifactRecord → String) (a : String) (files : List String) (l : List ArtifactRecord)
    → All (λ b. contains (a ∷ files) (field b) ≡ false) l
    → (contains (map field l) a ≡ false) × All (λ b. contains files (field b) ≡ false) l
contains-map field a files [] h = (refl, tt)
contains-map field a files (b ∷ l) h =
    let (rest, others) = contains-map field a files l h.1 in
    (
      ground (arith, ==_iff a (field b), ==_iff (field b) a, h.0, rest),
      (ground (arith, h.0), others),
    )

map-contains :
    (field : ArtifactRecord → String) (a : String) (files : List String) (l : List ArtifactRecord)
    → contains (map field l) a ≡ false
    → All (λ b. contains files (field b) ≡ false) l
    → All (λ b. contains (a ∷ files) (field b) ≡ false) l
map-contains field a files [] n h = tt
map-contains field a files (b ∷ l) n h = (
  ground (arith, ==_iff a (field b), ==_iff (field b) a, h.0),
  map-contains field a files l (ground arith) h.1,
)

All-IsNew :
    (files names : List String) (l : List ArtifactRecord)
    → All (IsNew files names) l
    → All (λ b. contains files b.file ≡ false) l
      × All (λ b. contains names b.package_name ≡ false) l
All-IsNew files names [] h = (tt, tt)
All-IsNew files names (a ∷ l) h =
    let (first, second) = All-IsNew files names l h.1 in ((h.0.0, first), (h.0.1, second))

IsNew-All :
    (files names : List String) (l : List ArtifactRecord)
    → All (λ b. contains files b.file ≡ false) l
    → All (λ b. contains names b.package_name ≡ false) l
    → All (IsNew files names) l
IsNew-All files names [] h k = tt
IsNew-All files names (a ∷ l) h k = ((h.0, k.0), IsNew-All files names l h.1 k.1)

All-IsNew_nil : (l : List ArtifactRecord) → All (IsNew [] []) l
All-IsNew_nil [] = tt
All-IsNew_nil (a ∷ l) = ((refl, refl), All-IsNew_nil l)

abbrev Checked : List String → List String → List ArtifactRecord → Type 0
Checked files names l =
    All IsPublishable l
    × All (IsNew files names) l
    × Nodup (map (λ a. a.file) l)
    × Nodup (map (λ a. a.package_name) l)

check_planned_artifacts-Checked :
    (files names : List String) (l : List ArtifactRecord)
    → check_planned_artifacts files names l ≡ ok tt
    → Checked files names l
unfolding check_planned_artifacts
check_planned_artifacts-Checked files names [] e = (tt, tt, tt, tt)
check_planned_artifacts-Checked files names (a ∷ l) e =
    let (first, rest) = then_check-ok (check_planned_artifact a) _ e in
    let (second, later) = then_check-ok (check_new files names a) _ rest in
    let (publishable, new, unique_files, unique_names) =
      check_planned_artifacts-Checked (a.file ∷ files) (a.package_name ∷ names) l later in
    let (new_files, new_names) = All-IsNew (a.file ∷ files) (a.package_name ∷ names) l new in
    let (file_once, other_files) = contains-map (λ b. b.file) a.file files l new_files in
    let (name_once, other_names) =
      contains-map (λ b. b.package_name) a.package_name names l new_names in
    (
      (check_planned_artifact-IsPublishable a first, publishable),
      ((ground arith, ground arith), IsNew-All files names l other_files other_names),
      (file_once, unique_files),
      (name_once, unique_names),
    )

Checked-check_planned_artifacts :
    (files names : List String) (l : List ArtifactRecord)
    → Checked files names l
    → check_planned_artifacts files names l ≡ ok tt
unfolding check_planned_artifacts
Checked-check_planned_artifacts files names [] h = refl
Checked-check_planned_artifacts files names (a ∷ l) h =
    let (publishable, new, files_once, names_once) = h in
    let (other_files, other_names) = All-IsNew files names l new.1 in
    let rest = Checked-check_planned_artifacts (a.file ∷ files) (a.package_name ∷ names) l (
      publishable.1,
      IsNew-All (a.file ∷ files) (a.package_name ∷ names) l
          (map-contains (λ b. b.file) a.file files l files_once.0 other_files)
          (map-contains (λ b. b.package_name) a.package_name names l names_once.0 other_names),
      files_once.1,
      names_once.1,
    ) in
    rw (publishable-check_planned_artifact a publishable.0, then_check)
      (rw (new.0.0, new.0.1, then_check) rest)

-- A plan is valid exactly if it has the format of the signer, a valid name of the repository, and
-- artifacts with valid names, digests and sizes, none of them the keyring, no file and no package twice.
pub validate_plan-IsPlan :
    (plan : PublishPlan)
    → (validate_plan plan ≡ ok tt → IsPlan plan) × (IsPlan plan → validate_plan plan ≡ ok tt)
unfolding validate_plan
validate_plan-IsPlan plan = (
  λ e. elim (Bool-cases (plan.format == publish_plan_format)) [
    | inl same ↦
        let (repository, rest) =
          then_check-ok (named (validate_repository_name plan.repository_name)) _ (rw same at e) in
        let (publishable, new, files, names) =
          check_planned_artifacts-Checked [] [] plan.artifacts rest in
        record {
          format = (==_iff plan.format publish_plan_format).0 same;
          repository_name = named-ok (validate_repository_name plan.repository_name) repository;
          artifacts = publishable;
          files = files;
          names = names;
        }
    | inr other ↦ absurd (ground (arith, rw other at e))
  ],
  λ h.
      rw
        (
          (==_iff plan.format publish_plan_format).1 h.format,
          named_of_ok (validate_repository_name plan.repository_name) h.repository_name,
          then_check,
        )
        (Checked-check_planned_artifacts [] [] plan.artifacts
          (h.artifacts, All-IsNew_nil plan.artifacts, h.files, h.names)),
)
