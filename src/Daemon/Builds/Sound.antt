-- ===== src/Daemon/Builds/Sound.antt =====
-- The invariant of the builds: the ids are a key, an attempt is one of the three that the retries allow,
-- and the artifact store agrees with the states. SHA-256 is a parameter.
pub mod Failing
pub mod Scheduling
pub mod Leasing
pub mod Reporting
pub mod Files
pub mod Storing
pub mod Uploading
pub mod Completing
pub mod Reachable
use aursmith.Base.{
  ℕ, ◌+◌, String, List, [], ◌∷◌, map, Bool, true, false, Option, none, some, ◌≡◌, refl, ◌≤◌, arith,
  ◌==◌, string_ord, contains, Nodup, All, length, subst, sym, ap,
}
use aursmith.Core.Protocol.{ArtifactRecord}
use aursmith.Daemon.State.{
  AppState, Build, BuildState, Bytes, queued, running, uploading, succeeded, failed,
}
use aursmith.Daemon.Keyed.{All-imp}
use aursmith.Daemon.Builds.Usable.{artifact_file, file_in}
use aursmith.Daemon.Builds.Upload.{part_name}
use aursmith.Daemon.Builds.Manifest.{files_of}
use aursmith.Daemon.Builds.Rows.{ids}

-- no file of the list is the partial file of another
abbrev pub Apart : List ArtifactRecord → Type 0
Apart artifacts =
    (file : String)
    → contains (files_of artifacts) file ≡ true
    → contains (files_of artifacts) (part_name file) ≡ false

module _ (digest : Bytes → String) where
  -- a file, where it is there, has the digest and the size that the artifact announces
  abbrev pub IsVerified : (String → Option Bytes) → ArtifactRecord → Type 0
  IsVerified files a =
      (bytes : Bytes)
      → files a.file ≡ some bytes
      → (digest bytes ≡ a.sha256) × (length bytes ≡ a.size)

  abbrev pub AllVerified : List ArtifactRecord → (String → Option Bytes) → Type 0
  AllVerified artifacts files =
      Nodup (files_of artifacts) × (Apart artifacts → All (IsVerified files) artifacts)

  -- what the files of a build may be in each of its states
  abbrev pub IsStored : BuildState → List ArtifactRecord → (String → Option Bytes) → Type 0
  IsStored queued artifacts files = (file : String) → files file ≡ none
  IsStored running artifacts files = (file : String) → files file ≡ none
  IsStored uploading artifacts files = AllVerified artifacts files
  IsStored succeeded artifacts files = AllVerified artifacts files
  IsStored failed artifacts files = Unit

  abbrev pub IsRow : AppState → Build → Type 0
  IsRow s b =
      (1 ≤ b.attempt) × (b.attempt ≤ 3) × IsStored b.state b.artifacts (artifact_file s b.id)

  abbrev pub IsSound : AppState → Type 0
  IsSound s = Nodup (ids s.builds) × All (IsRow s) s.builds

  -- A row stays as it is where its directory does.
  pub IsRow-same :
      (s t : AppState) (r : Build) → t.artifacts r.id ≡ s.artifacts r.id → IsRow s r → IsRow t r
  IsRow-same s t r same row =
      (row.0, row.1, subst (λ d. IsStored r.state r.artifacts (file_in d)) (sym same) row.2)

  -- The soundness concerns the builds and the artifacts.
  pub same-IsSound :
      (s t : AppState) → t.builds ≡ s.builds → t.artifacts ≡ s.artifacts → IsSound s → IsSound t
  same-IsSound s t rows files sound = (
    subst (λ xs. Nodup (ids xs)) (sym rows) sound.0,
    subst (λ xs. All (IsRow t) xs) (sym rows)
        (All-imp (IsRow s) (IsRow t) s.builds
          (λ r row. IsRow-same s t r (ap (λ f. f r.id) files) row) sound.1),
  )
