-- ===== src/Signer/Activate/Switch.antt =====
-- crates/aursmithd/src/signer.rs: only a verified release becomes the current one.
use aursmith.Base.{
  ℕ, length, ◌+++◌, String, List, [], ◌∷◌, ◌++◌, true, Option, none, some, Result, ok, err, ◌≡◌,
  refl, subst, arith, Bool-cases, Option-cases, inl, inr, ◌==◌, string_ord, nat_ord, ==_iff, All,
}
use aursmith.Core.Protocol.{ArtifactRecord, FileEntry, PublishManifest}
use aursmith.Daemon.State.{Bytes}
use aursmith.Signer.Disk.{Disk, Failure, Tools, signature_name, release_file, then_check-ok}
use aursmith.Signer.Activate.{
  is_signed, manifest_of, read_manifest, has_size, check_database, check_entry, check_package,
  check_packages, check_release, current_release, switch_checked, activate_read, activate,
}
use aursmith.Signer.Activate.Serving.{IsServing, switch-IsServing}

module _ (tools : Tools) where
  -- a file that gpg verifies with its signature
  abbrev pub IsSigned : Option Bytes → Option Bytes → Type 0
  IsSigned signature file =
      (s : Bytes) × (b : Bytes) × (signature ≡ some s) × (file ≡ some b) × (tools.verify s b ≡ true)

  -- a database that has the digest of the manifest, with its signature
  abbrev pub IsDatabase : String → Disk → FileEntry → Type 0
  IsDatabase release d entry =
      let file = release_file d release entry.file in
      ((bytes : Bytes) × (file ≡ some bytes) × (tools.codec.sha256_hex bytes ≡ entry.sha256))
      × IsSigned (release_file d release (entry.file +++ ".sig")) file

  -- a package that has the size of the manifest, with its signature
  abbrev pub IsPackage : Disk → ArtifactRecord → Type 0
  IsPackage d a =
      ((bytes : Bytes) × (d.arch a.file ≡ some bytes) × (length bytes ≡ a.size))
      × IsSigned (d.arch (a.file +++ ".sig")) (d.arch a.file)

  is_signed-IsSigned :
      (signature file : Option Bytes)
      → is_signed tools signature file ≡ true
      → IsSigned signature file
  is_signed-IsSigned (some s) (some b) e = (s, b, refl, refl, e)
  is_signed-IsSigned none (some b) e = absurd (ground arith)
  is_signed-IsSigned none none e = absurd (ground arith)
  is_signed-IsSigned (some s) none e = absurd (ground arith)

  -- what the activation of a release has verified
  pub record IsRelease (release : String) (d : Disk) (m : PublishManifest) : Type 0 where
    pub signed :
        IsSigned
          (release_file d release "manifest.json.sig")
          (release_file d release "manifest.json")
    pub named : m.plan_sha256 ≡ release
    pub database : IsDatabase release d m.database
    pub files_database : IsDatabase release d m.files_database
    pub packages : All (IsPackage d) (m.artifacts ++ m.repository_keyring ∷ [])

  check_database-IsDatabase :
      (entry : FileEntry) (signature file : Option Bytes)
      → check_database tools entry signature file ≡ ok tt
      → ((bytes : Bytes) × (file ≡ some bytes) × (tools.codec.sha256_hex bytes ≡ entry.sha256))
        × IsSigned signature file
  check_database-IsDatabase entry signature none e = absurd (ground arith)
  check_database-IsDatabase entry signature (some content) e = (
    (content, refl, (==_iff (tools.codec.sha256_hex content) entry.sha256).0 (ground arith)),
    is_signed-IsSigned signature (some content) (ground arith),
  )

  check_entry-IsDatabase :
      (release : String) (d : Disk) (entry : FileEntry)
      → check_entry tools release d entry ≡ ok tt
      → IsDatabase release d entry
  check_entry-IsDatabase release d entry e =
      check_database-IsDatabase entry (release_file d release (signature_name entry.file))
        (release_file d release entry.file) e

  has_size-bytes :
      (size : ℕ) (file : Option Bytes)
      → has_size size file ≡ true
      → (bytes : Bytes) × (file ≡ some bytes) × (length bytes ≡ size)
  has_size-bytes size none e = absurd (ground arith)
  has_size-bytes size (some bytes) e = (bytes, refl, (==_iff (length bytes) size).0 e)

  check_packages-IsPackage :
      (d : Disk) (artifacts : List ArtifactRecord)
      → check_packages tools d artifacts ≡ ok tt
      → All (IsPackage d) artifacts
  unfolding check_packages
  check_packages-IsPackage d [] e = tt
  check_packages-IsPackage d (a ∷ artifacts) e =
      let (first, rest) =
        then_check-ok (check_package tools d a) (check_packages tools d artifacts) e in
      (
        (
          has_size-bytes a.size (d.arch a.file) (ground arith),
          is_signed-IsSigned (d.arch (signature_name a.file)) (d.arch a.file) (ground arith),
        ),
        check_packages-IsPackage d artifacts rest,
      )

  manifest_of-named :
      (release : String) (file : Option Bytes) (m : PublishManifest)
      → manifest_of tools release file ≡ ok m
      → m.plan_sha256 ≡ release
  manifest_of-named release none m e = absurd (ground arith)
  manifest_of-named release (some bytes) m e = elim (Option-cases (tools.read_manifest bytes)) [
    | inl n ↦ absurd (ground (arith, rw (n, manifest_of) at e))
    | inr (found, r) ↦ elim (Bool-cases (found.plan_sha256 == release)) [
      | inl same ↦
          let own : found ≡ m = cc (rw (same, manifest_of) at (rw (r, manifest_of) at e)) in
          subst (λ x. x.plan_sha256 ≡ release) own ((==_iff found.plan_sha256 release).0 same)
      | inr other ↦ absurd (ground (arith, rw (other, manifest_of) at (rw (r, manifest_of) at e)))
    ]
  ]

  pub check_release-IsRelease :
      (release : String) (d : Disk) (m : PublishManifest)
      → read_manifest tools release d ≡ ok m
      → check_release tools release d m ≡ ok tt
      → IsRelease release d m
  unfolding read_manifest check_release
  check_release-IsRelease release d m found checked =
      let file = release_file d release "manifest.json" in
      let signature = release_file d release (signature_name "manifest.json") in
      let (first, later) = then_check-ok (check_entry tools release d m.database) _ checked in
      let (second, rest) = then_check-ok (check_entry tools release d m.files_database) _ later in
      elim (Bool-cases (is_signed tools signature file)) [
        | inr n ↦ absurd (ground (arith, rw n at found))
        | inl e ↦ record {
          signed = is_signed-IsSigned signature file e;
          named = manifest_of-named release file m (rw e at found);
          database = check_entry-IsDatabase release d m.database first;
          files_database = check_entry-IsDatabase release d m.files_database second;
          packages = check_packages-IsPackage d (m.artifacts ++ m.repository_keyring ∷ []) rest;
        }
      ]

  pub current-linked :
      (release : String) (d : Disk)
      → d.release_links "current" ≡ some release
      → current_release tools d ≡ some release
  unfolding current_release
  current-linked release d e = rw e refl

  -- an activation that ended with the result
  abbrev pub Outcome : String → Disk → Result (Unit {0}) Failure → Disk → Type 0
  Outcome release d (err e) t = t ≡ d
  Outcome release d (ok u) t =
      (m : PublishManifest) × (read_manifest tools release d ≡ ok m)
      × IsRelease release d m
      × IsServing release (current_release tools d) m d t
      × ((before : String)
          → d.release_links "current" ≡ some before
          → current_release tools d ≡ some before)

  switch_checked-Outcome :
      (release : String) (m : PublishManifest) (d : Disk) (checked : Result (Unit {0}) Failure)
      → read_manifest tools release d ≡ ok m
      → check_release tools release d m ≡ checked
      → Outcome release d
          (switch_checked tools release m checked d).0
          (switch_checked tools release m checked d).1
  switch_checked-Outcome release m d (err e) found checked = refl
  switch_checked-Outcome release m d (ok u) found checked = (
    m,
    found,
    check_release-IsRelease release d m found checked,
    switch-IsServing release (current_release tools d) m d,
    λ before e. current-linked before d e,
  )

  activate_read-Outcome :
      (release : String) (d : Disk) (read : Result PublishManifest Failure)
      → read_manifest tools release d ≡ read
      → Outcome release d
          (activate_read tools release read d).0
          (activate_read tools release read d).1
  activate_read-Outcome release d (err e) found = refl
  activate_read-Outcome release d (ok m) found =
      switch_checked-Outcome release m d (check_release tools release d m) found refl

  -- An activation that ends with an error leaves the disk as it was. One that ends well has verified the
  -- manifest of the release with its signature, the digests and signatures of both databases, and the
  -- sizes and signatures of all packages and of the keyring. The links of the databases then lead to the
  -- release, it is the current one, and the one before it the previous one; nothing else is changed.
  pub activate-Outcome :
      (release : String) (d : Disk)
      → Outcome release d (activate tools release d).0 (activate tools release d).1
  unfolding activate
  activate-Outcome release d = activate_read-Outcome release d (read_manifest tools release d) refl
