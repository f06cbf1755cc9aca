-- ===== src/Signer/Activate.antt =====
-- crates/aursmithd/src/signer.rs: a release is verified and becomes the current one; the rollback.
pub mod Serving
pub mod Switch
pub mod Rollback
use aursmith.Base.{
  ℕ, String, ◌+++◌, List, [], ◌∷◌, ◌++◌, Bool, true, false, not, ◌&&◌, Option, none, some, Result,
  ok, err, ◌==◌, nat_ord, string_ord, length, starts_with, ends_with, split, if◌then◌else◌,
}
use aursmith.Base.Run.{check, lift, modify, pure, reads, ◌>>=◌, ◌>>◌}
use aursmith.Core.Protocol.{ArtifactRecord, FileEntry, PublishManifest}
use aursmith.Daemon.State.{Bytes, Directory}
use aursmith.Signer.Disk.{
  Disk, Failure, message, trouble, Tools, Act, link_arch, link_release, signature_name,
  release_file, then_check,
}

-- `verify` of a file with its signature
abbrev pub is_signed : Tools → Option Bytes → Option Bytes → Bool
is_signed tools (some signature) (some content) = tools.verify signature content
is_signed tools _ _ = false

abbrev pub manifest_of : Tools → String → Option Bytes → Result PublishManifest Failure
manifest_of tools release none = err trouble
manifest_of tools release (some bytes) = elim (tools.read_manifest bytes) [
  | none ↦ err trouble
  | some manifest ↦
      if manifest.plan_sha256 == release then ok manifest else err (message "release 清单与目录名不一致")
]

unfoldable pub read_manifest : Tools → String → Disk → Result PublishManifest Failure
read_manifest tools release d =
    let file = release_file d release "manifest.json" in
    let found = manifest_of tools release file in
    if is_signed tools (release_file d release (signature_name "manifest.json")) file
    then found
    else err trouble

abbrev pub has_size : ℕ → Option Bytes → Bool
has_size size none = false
has_size size (some bytes) = length bytes == size

abbrev pub check_database :
    Tools → FileEntry → Option Bytes → Option Bytes → Result (Unit {0}) Failure
check_database tools entry signature none = err trouble
check_database tools entry signature (some content) =
    if not (tools.codec.sha256_hex content == entry.sha256)
    then err (message ("release 数据库摘要不一致：" +++ entry.file))
    else if is_signed tools signature (some content)
    then ok tt
    else err trouble

-- the tests of a database of the release
abbrev pub check_entry : Tools → String → Disk → FileEntry → Result (Unit {0}) Failure
check_entry tools release d entry =
    check_database tools entry (release_file d release (signature_name entry.file))
      (release_file d release entry.file)

-- the tests of a package of the release
abbrev pub check_package : Tools → Disk → ArtifactRecord → Result (Unit {0}) Failure
check_package tools d a =
    if not (has_size a.size (d.arch a.file))
    then err (message ("release 引用的软件包缺失或大小不符：" +++ a.file))
    else if is_signed tools (d.arch (signature_name a.file)) (d.arch a.file)
    then ok tt
    else err trouble

unfoldable pub check_packages : Tools → Disk → List ArtifactRecord → Result (Unit {0}) Failure
check_packages tools d [] = ok tt
check_packages tools d (a ∷ artifacts) =
    then_check (check_package tools d a) (check_packages tools d artifacts)

unfoldable pub check_release : Tools → String → Disk → PublishManifest → Result (Unit {0}) Failure
unfolding check_packages
check_release tools release d manifest =
    then_check (check_entry tools release d manifest.database) (
      then_check (check_entry tools release d manifest.files_database)
        (check_packages tools d (manifest.artifacts ++ manifest.repository_keyring ∷ [])))

-- the release that a link `releases/<release>/…` leads to
abbrev pub release_of_target : List String → Option String
release_of_target (first ∷ release ∷ rest) = if first == "releases" then some release else none
release_of_target _ = none

abbrev release_of_link : Option String → Option String
release_of_link none = none
release_of_link (some target) = release_of_target (split b'/' target)

abbrev or_later : Option String → Option String → Option String
or_later none later = later
or_later (some release) later = some release

unfoldable pub release_of_names : Disk → List String → Option String
release_of_names d [] = none
release_of_names d (name ∷ names) =
    let later = release_of_names d names in
    if ends_with name ".db" then or_later (release_of_link (d.arch_links name)) later else later

-- `releases/current`, or what the link of a database of an older layout leads to
unfoldable pub current_release : Tools → Disk → Option String
unfolding release_of_names
current_release tools d =
    or_later (d.release_links "current") (release_of_names d (tools.arch_names d))

abbrev pub link_previous : String → Option String → Disk → Disk
link_previous release none d = d
link_previous release (some current) d =
    if current == release then d else link_release "previous" current d

abbrev pub target : String → String → String
target release file = "releases/" +++ release +++ "/" +++ file

-- the links of the four files, and those of the releases
abbrev pub switch : String → Option String → PublishManifest → Disk → Disk
switch release current manifest d =
    let name = manifest.repository_name in
    let database = manifest.database.file in
    let files = manifest.files_database.file in
    let signatures =
      link_arch (name +++ ".files.sig") (target release (signature_name files))
        (link_arch (name +++ ".db.sig") (target release (signature_name database)) d) in
    let linked =
      link_arch (name +++ ".db") (target release database)
        (link_arch (name +++ ".files") (target release files) signatures) in
    link_release "current" release (link_previous release current linked)

abbrev pub switch_checked :
    Tools → String → PublishManifest → Result (Unit {0}) Failure → Act (Unit {0})
switch_checked tools release manifest (err e) d = (err e, d)
switch_checked tools release manifest (ok _) d =
    (ok tt, switch release (current_release tools d) manifest d)

abbrev pub activate_read : Tools → String → Result PublishManifest Failure → Act (Unit {0})
activate_read tools release (err e) d = (err e, d)
activate_read tools release (ok manifest) d =
    switch_checked tools release manifest (check_release tools release d manifest) d

unfoldable pub activate : Tools → String → Act (Unit {0})
unfolding read_manifest check_release current_release
activate tools release d = activate_read tools release (read_manifest tools release d) d

abbrev pub rollback_to : Tools → Option String → Act String
rollback_to tools none d = (err (message "没有 previous release，无法回滚"), d)
rollback_to tools (some previous) d = (activate tools previous >> pure previous) d

unfoldable pub rollback : Tools → Act String
unfolding activate
rollback tools d = rollback_to tools (d.release_links "previous") d
