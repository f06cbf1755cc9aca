-- ===== src/Signer/Prune.antt =====
-- crates/aursmithd/src/signer.rs: the releases but the current and the previous one are removed, and the
-- packages that these do not name.
pub mod Kept
pub mod Activates
use aursmith.Base.{
  ℕ, String, List, [], ◌∷◌, map, Bool, true, false, not, ◌&&◌, Option, none, some, is_some, Result,
  ok, err, ◌==◌, string_ord, starts_with, without_suffix, has_text, contains, insert, to_set,
  if◌then◌else◌,
}
use aursmith.Daemon.State.{Bytes, Directory}
use aursmith.Signer.Disk.{Disk, Failure, message, trouble, Tools, Act, release_file}

abbrev optional : Option String → List String → List String
optional none names = names
optional (some name) names = name ∷ names

-- the targets of `current` and `previous`
abbrev pub keep_releases : Disk → List String
keep_releases d =
    to_set (optional (d.release_links "current") (optional (d.release_links "previous") []))

abbrev entry_file : Option String × Option String → Option String
entry_file (some file, path) = some file
entry_file (none, path) = path

abbrev pub entry_files : List (Option String × Option String) → List String
entry_files [] = []
entry_files (entry ∷ entries) = optional (entry_file entry) (entry_files entries)

abbrev manifest_file : Option Bytes → Option Bytes → Option Bytes
manifest_file (some bytes) old = some bytes
manifest_file none old = old

abbrev decoded_files : Option (List (Option String × Option String)) → Result (List String) Failure
decoded_files none = err trouble
decoded_files (some entries) = ok (to_set (entry_files entries))

abbrev pub files_of_manifest : Tools → Option Bytes → Result (List String) Failure
files_of_manifest tools none = err trouble
files_of_manifest tools (some bytes) = decoded_files (tools.manifest_entries bytes)

abbrev pub referenced_files : Tools → Disk → String → Result (List String) Failure
referenced_files tools d release = files_of_manifest tools (
    manifest_file (release_file d release "manifest.json")
      (release_file d release "release-manifest.json"))

abbrev insert_all : List String → List String → List String
insert_all [] files = files
insert_all (file ∷ more) files = insert file (insert_all more files)

abbrev joined :
    Result (List String) Failure → Result (List String) Failure → Result (List String) Failure
joined (err e) rest = err e
joined (ok files) (err e) = err e
joined (ok files) (ok rest) = ok (insert_all files rest)

unfoldable pub all_referenced : Tools → Disk → List String → Result (List String) Failure
all_referenced tools d [] = ok []
all_referenced tools d (release ∷ releases) =
    joined (referenced_files tools d release) (all_referenced tools d releases)

abbrev pub removed : {A : Type 0} → String → (String → Option A) → String → Option A
removed name table = λ other. if other == name then none else table other

-- The loop over the names of a directory.
unfoldable pub remove_stale :
    {A : Type 0} → (String → Bool) → List String → (String → Option A) → String → Option A
remove_stale is_stale [] table = table
remove_stale is_stale (name ∷ names) table =
    remove_stale is_stale names
      (if is_stale name && is_some (table name) then removed name table else table)

abbrev pub is_stale_release : List String → String → Bool
is_stale_release keep name = not (starts_with name ".") && not (contains keep name)

unfoldable pub is_stale_package : List String → String → Bool
unfolding without_suffix
is_stale_package keep name =
    let named = without_suffix ".sig" name in
    has_text ".pkg.tar." named && not (contains keep named)

abbrev pub prune_releases : Tools → List String → Disk → Disk
prune_releases tools keep d = record d {
  releases = remove_stale (is_stale_release keep) (tools.release_names d) d.releases;
}

abbrev pub prune_packages : Tools → List String → Disk → Disk
prune_packages tools keep d = record d {
  arch = remove_stale (is_stale_package keep) (tools.arch_names d) d.arch;
}

abbrev pub prune_files : Tools → List String → Result (List String) Failure → Act (Unit {0})
prune_files tools keep (err e) d = (err e, d)
prune_files tools keep (ok files) d =
    (ok tt, prune_packages tools files (prune_releases tools keep d))

abbrev pub prune_keeping : Tools → List String → Act (Unit {0})
prune_keeping tools [] d = (ok tt, d)
prune_keeping tools (release ∷ releases) d =
    prune_files tools (release ∷ releases) (all_referenced tools d (release ∷ releases)) d

unfoldable pub prune : Tools → Act (Unit {0})
unfolding all_referenced remove_stale is_stale_package
prune tools d = prune_keeping tools (keep_releases d) d
