-- ===== src/Signer/Activate/Serving.antt =====
-- crates/aursmithd/src/signer.rs: where the links lead after a switch.
use aursmith.Base.{
  ◌⊎◌, ==_refl, ◌+++◌, some-injective, append_differ, String, false, Option, none, some, ◌≡◌, refl,
  sym, ◌∙◌, ap, subst, arith, Bool-cases, inl, inr, ◌==◌, string_ord, nat_ord,
}
use aursmith.Core.Protocol.{PublishManifest}
use aursmith.Signer.Disk.{link_arch, Disk, signature_name}
use aursmith.Signer.Activate.{target, switch}

-- The repository serves the release: four links of `x86_64` lead to its databases and their signatures, it
-- is the current release, and the one before, if another, is the previous one. No file is changed, and no
-- other link.
pub record IsServing (release : String) (before : Option String) (m : PublishManifest) (d t : Disk)
    : Type 0 where
  pub exchange : t.exchange ≡ d.exchange
  pub packages : t.arch ≡ d.arch
  pub releases : t.releases ≡ d.releases
  pub database :
      t.arch_links (m.repository_name +++ ".db")
      ≡ some ("releases/" +++ release +++ "/" +++ m.database.file)
  pub database_signature :
      t.arch_links (m.repository_name +++ ".db.sig")
      ≡ some ("releases/" +++ release +++ "/" +++ m.database.file +++ ".sig")
  pub files_database :
      t.arch_links (m.repository_name +++ ".files")
      ≡ some ("releases/" +++ release +++ "/" +++ m.files_database.file)
  pub files_signature :
      t.arch_links (m.repository_name +++ ".files.sig")
      ≡ some ("releases/" +++ release +++ "/" +++ m.files_database.file +++ ".sig")
  pub other_links :
      (name : String)
      → (name == m.repository_name +++ ".db") ≡ false
      → (name == m.repository_name +++ ".db.sig") ≡ false
      → (name == m.repository_name +++ ".files") ≡ false
      → (name == m.repository_name +++ ".files.sig") ≡ false
      → t.arch_links name ≡ d.arch_links name
  pub current : t.release_links "current" ≡ some release
  pub previous :
      (other : String)
      → before ≡ some other
      → (other == release) ≡ false
      → t.release_links "previous" ≡ some other
  pub same_previous :
      before ≡ none ⊎ before ≡ some release
      → t.release_links "previous" ≡ d.release_links "previous"
  pub other_releases :
      (name : String)
      → (name == "current") ≡ false
      → (name == "previous") ≡ false
      → t.release_links name ≡ d.release_links name

-- The disk with other links.
abbrev pub with_links : (String → Option String) → (String → Option String) → Disk → Disk
with_links arch_links release_links d = record d {
  arch_links = arch_links;
  release_links = release_links;
}

-- What holds of a disk with any links holds after a switch.
pub switch-links :
    (P : Disk → Type 0) (release : String) (current : Option String) (m : PublishManifest)
    (d : Disk)
    → ((arch_links release_links : String → Option String)
        → P (with_links arch_links release_links d))
    → P (switch release current m d)
switch-links P release none m d h = h _ _
switch-links P release (some current) m d h = elim (Bool-cases (current == release)) [
  | inl e ↦ rw e (h _ _)
  | inr n ↦ rw n (h _ _)
]

pub switch-current :
    (release : String) (current : Option String) (m : PublishManifest) (d : Disk)
    → (switch release current m d).release_links "current" ≡ some release
switch-current release current m d = refl

-- The release before becomes the previous one.
pub switch-previous :
    (release before : String) (m : PublishManifest) (d : Disk)
    → (before == release) ≡ false
    → (switch release (some before) m d).release_links "previous" ≡ some before
switch-previous release before m d n = rw n refl

-- the links of `x86_64` after a switch
abbrev linked : String → PublishManifest → Disk → String → Option String
linked release m d =
    let name = m.repository_name in
    (link_arch (name +++ ".db") (target release m.database.file) (
      link_arch (name +++ ".files") (target release m.files_database.file) (
        link_arch (name +++ ".files.sig") (target release (signature_name m.files_database.file)) (
          link_arch (name +++ ".db.sig") (target release (signature_name m.database.file))
            d)))).arch_links

switch-arch_links :
    (release : String) (before : Option String) (m : PublishManifest) (d : Disk)
    → (switch release before m d).arch_links ≡ linked release m d
switch-arch_links release none m d = refl
switch-arch_links release (some current) m d = elim (Bool-cases (current == release)) [
  | inl e ↦ rw e refl
  | inr n ↦ rw n refl
]

switch-same_previous :
    (release : String) (before : Option String) (m : PublishManifest) (d : Disk)
    → before ≡ none ⊎ before ≡ some release
    → (switch release before m d).release_links "previous" ≡ d.release_links "previous"
switch-same_previous release none m d same = refl
switch-same_previous release (some current) m d (inl e) = absurd (ground arith)
switch-same_previous release (some current) m d (inr e) =
    rw (some-injective current release e, ==_refl release) refl

switch-other_releases :
    (release : String) (before : Option String) (m : PublishManifest) (d : Disk) (name : String)
    → (name == "current") ≡ false
    → (name == "previous") ≡ false
    → (switch release before m d).release_links name ≡ d.release_links name
switch-other_releases release none m d name now before_now = rw now refl
switch-other_releases release (some current) m d name now before_now =
    elim (Bool-cases (current == release)) [
      | inl e ↦ rw (now, e) refl
      | inr n ↦ rw (now, n) (rw before_now refl)
    ]

pub switch-IsServing :
    (release : String) (before : Option String) (m : PublishManifest) (d : Disk)
    → IsServing release before m d (switch release before m d)
switch-IsServing release before m d =
    let name = m.repository_name in
    let links = λ (other : String). ap (λ f. f other) (switch-arch_links release before m d) in
    record {
      exchange = switch-links (λ t. t.exchange ≡ d.exchange) release before m d (λ x y. refl);
      packages = switch-links (λ t. t.arch ≡ d.arch) release before m d (λ x y. refl);
      releases = switch-links (λ t. t.releases ≡ d.releases) release before m d (λ x y. refl);
      database = links (name +++ ".db") ∙ rw (==_refl (name +++ ".db")) refl;
      database_signature =
          links (name +++ ".db.sig")
          ∙ rw
              (
                append_differ name ".db.sig" ".db" refl,
                append_differ name ".db.sig" ".files" refl,
                append_differ name ".db.sig" ".files.sig" refl,
                ==_refl (name +++ ".db.sig"),
              )
              refl;
      files_database =
          links (name +++ ".files")
          ∙ rw (append_differ name ".files" ".db" refl, ==_refl (name +++ ".files")) refl;
      files_signature =
          links (name +++ ".files.sig")
          ∙ rw
              (
                append_differ name ".files.sig" ".db" refl,
                append_differ name ".files.sig" ".files" refl,
                ==_refl (name +++ ".files.sig"),
              )
              refl;
      other_links =
          λ other db db_sig files files_sig. links other ∙ rw (db, files, files_sig, db_sig) refl;
      current = switch-current release before m d;
      previous = λ other e n.
          subst (λ o. (switch release o m d).release_links "previous" ≡ some other) (sym e)
            (switch-previous release other m d n);
      same_previous = λ same. switch-same_previous release before m d same;
      other_releases =
          λ other now before_now. switch-other_releases release before m d other now before_now;
    }
