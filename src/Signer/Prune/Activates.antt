-- ===== src/Signer/Prune/Activates.antt =====
-- crates/aursmithd/src/signer.rs: after the removal the current and the previous release can be activated
-- as before, so that a rollback still works.
use aursmith.Base.{String, List, [], ◌∷◌, ◌++◌, map, Option, none, some, ◌≡◌, string_ord}
use aursmith.Core.Protocol.{ArtifactRecord, PublishManifest}
use aursmith.Signer.Disk.{Disk, Tools, signature_name}

abbrev pub entries_of : List ArtifactRecord → List (Option String × Option String)
entries_of l = map (λ a. (some a.file, none)) l

-- the packages of a release
abbrev pub packages_of : PublishManifest → List ArtifactRecord
packages_of m = m.artifacts ++ m.repository_keyring ∷ []

module _ (tools : Tools) where
  -- what the tests of a package read is the same on both disks
  abbrev SamePackage : Disk → Disk → ArtifactRecord → Type 0
  SamePackage d e a =
      (e.arch a.file ≡ d.arch a.file)
      × (e.arch (signature_name a.file) ≡ d.arch (signature_name a.file))
