-- ===== src/Daemon/Builds/Manifest.antt =====
-- crates/aursmithd/src/builds.rs: what a list of artifacts that `validate_artifacts` accepts is.
use aursmith.Base.{
  String, List, [], ◌∷◌, map, true, false, ◌||◌, ok, is_ok, Result-cases, string_ord, nat_ord, ◌≡◌,
  ◌≤◌, arith, contains, insert, to_set, Nodup, IsSorted, All, length, starts_with, contains-insert,
  contains-to_set, insert-IsSorted, same_iff, ==_iff, Bool-cases, ◌⊎◌, inl, inr,
}
use aursmith.Core.Names.{validate_artifact_file_name, is_sha256_hex}
use aursmith.Core.Protocol.{ArtifactRecord, maximum_artifact_bytes}
use aursmith.Daemon.Builds.Report.{
  check_artifact, check_artifacts, compare_outputs, validate_artifacts, file_prefix,
}

abbrev pub files_of : List ArtifactRecord → List String
files_of artifacts = map (λ a. a.file) artifacts

abbrev pub names_of : List ArtifactRecord → List String
names_of artifacts = map (λ a. a.package_name) artifacts

-- what one accepted artifact of a build of this version is
pub record IsArtifact (version : String) (a : ArtifactRecord) : Type 0 where
  pub plain : validate_artifact_file_name a.file ≡ ok a.file
  pub digest : is_sha256_hex a.sha256 ≡ true
  pub not_empty : 1 ≤ a.size
  pub bounded : a.size ≤ maximum_artifact_bytes
  pub versioned : a.package_version ≡ version
  pub built_for : (a.architecture ≡ "x86_64") ⊎ (a.architecture ≡ "any")
  pub named : starts_with a.file (file_prefix a) ≡ true

file_name-same :
    (value : String)
    → is_ok (validate_artifact_file_name value) ≡ true
    → validate_artifact_file_name value ≡ ok value
unfolding validate_artifact_file_name
file_name-same value h = ground arith

check_artifact-ok :
    (version : String) (a : ArtifactRecord)
    → check_artifact version a ≡ ok tt
    → IsArtifact version a
check_artifact-ok version a h = record {
  plain = file_name-same a.file (ground arith);
  digest = ground arith;
  not_empty = ground arith;
  bounded = ground arith;
  versioned = ground (arith, ==_iff a.package_version version);
  built_for = ground (arith, ==_iff a.architecture "x86_64", ==_iff a.architecture "any");
  named = ground arith;
}

-- What a list of artifacts accepted by the loop is: each is an artifact whose file and package name
-- are new, and the result gathers the package names.
record Accepted (version : String) (files names : List String) (artifacts : List ArtifactRecord)
    (result : List String) : Type 0 where
  each : All (IsArtifact version) artifacts
  new_files : (f : String) → contains (files_of artifacts) f ≡ true → contains files f ≡ false
  new_names : (n : String) → contains (names_of artifacts) n ≡ true → contains names n ≡ false
  files_once : Nodup (files_of artifacts)
  names_once : Nodup (names_of artifacts)
  gathered :
      (n : String) → contains result n ≡ (contains names n || contains (names_of artifacts) n)
  ascending : IsSorted names → IsSorted result

Accepted-step :
    (version : String) (files names : List String) (a : ArtifactRecord)
    (artifacts : List ArtifactRecord) (result : List String)
    → IsArtifact version a
    → (contains files a.file || contains names a.package_name) ≡ false
    → Accepted version (insert a.file files) (insert a.package_name names) artifacts result
    → Accepted version files names (a ∷ artifacts) result
Accepted-step version files names a artifacts result h fresh rest = record {
  each = (h, rest.each);
  new_files =
      λ f e. ground (arith, rest.new_files f, contains-insert a.file f files, ==_iff a.file f);
  new_names = λ n e.
      ground
        (arith, rest.new_names n, contains-insert a.package_name n names, ==_iff a.package_name n);
  files_once = (
    ground
        (arith, rest.new_files a.file, contains-insert a.file a.file files, ==_iff a.file a.file),
    rest.files_once,
  );
  names_once = (
    ground (
      arith,
      rest.new_names a.package_name,
      contains-insert a.package_name a.package_name names,
      ==_iff a.package_name a.package_name,
    ),
    rest.names_once,
  );
  gathered = λ n. ground (arith, rest.gathered n, contains-insert a.package_name n names);
  ascending = λ s. rest.ascending (insert-IsSorted a.package_name names s);
}

check_artifacts-ok :
    (version : String) (files names : List String) (artifacts : List ArtifactRecord)
    (result : List String)
    → check_artifacts version files names artifacts ≡ ok result
    → Accepted version files names artifacts result
unfolding check_artifacts
check_artifacts-ok version files names [] result h = record {
  each = tt;
  new_files = λ f e. ground arith;
  new_names = λ n e. ground arith;
  files_once = tt;
  names_once = tt;
  gathered = λ n. ground arith;
  ascending = λ s. ground arith;
}
check_artifacts-ok version files names (a ∷ artifacts) result h =
    elim (Result-cases (check_artifact version a)) [
      | inl (message, bad) ↦ absurd (ground arith)
      | inr (u, good) ↦ elim (Bool-cases (contains files a.file || contains names a.package_name)) [
        | inl old ↦ absurd (ground arith)
        | inr new ↦
            Accepted-step version files names a artifacts result (check_artifact-ok version a good)
              new
              (check_artifacts-ok version (insert a.file files) (insert a.package_name names)
                artifacts result (ground arith))
      ]
    ]

-- what a complete list of the artifacts of a build is
pub record IsManifest (artifacts : List ArtifactRecord) (expected : List String) : Type 0 where
  pub some_artifact : 1 ≤ length artifacts
  pub few : length artifacts ≤ 64
  pub one_version : (version : String) × All (IsArtifact version) artifacts
  pub files_once : Nodup (files_of artifacts)
  pub names_once : Nodup (names_of artifacts)
  pub outputs : (n : String) → contains (names_of artifacts) n ≡ contains expected n

module _ (debug : List String → String) where
  gathered-outputs :
      (version : String) (artifacts : List ArtifactRecord) (expected : List String)
      → compare_outputs debug expected (check_artifacts version [] [] artifacts) ≡ ok tt
      → (result : List String) × (Accepted version [] [] artifacts result
          × (result ≡ to_set expected))
  gathered-outputs version artifacts expected h =
      elim (Result-cases (check_artifacts version [] [] artifacts)) [
        | inl (message, bad) ↦ absurd (ground arith)
        | inr (result, good) ↦ (
          result,
          (
            check_artifacts-ok version [] [] artifacts result good,
            ground (arith, same_iff result (to_set expected)),
          ),
        )
      ]

  -- A list of artifacts that `validate_artifacts` accepts holds 1 to 64 artifacts of one version, each
  -- with a plain file name that starts with its package name, version and architecture, a SHA-256 and
  -- a size within the limit; no two have the same file or package name; and the package names are
  -- exactly the outputs that the `.SRCINFO` announces.
  pub validate_artifacts-ok :
      (artifacts : List ArtifactRecord) (expected : List String)
      → validate_artifacts debug artifacts expected ≡ ok tt
      → IsManifest artifacts expected
  unfolding validate_artifacts
  validate_artifacts-ok [] expected h = absurd (ground arith)
  validate_artifacts-ok (a ∷ artifacts) expected h =
      let (result, (accepted, equal)) =
        gathered-outputs a.package_version (a ∷ artifacts) expected (ground arith) in
      record {
        some_artifact = omega arith;
        few = ground arith;
        one_version = (a.package_version, accepted.each);
        files_once = accepted.files_once;
        names_once = accepted.names_once;
        outputs = λ n. ground (arith, accepted.gathered n, contains-to_set expected n);
      }
