-- ===== src/Daemon/Publish/Garbage/Sound.antt =====
-- The removal of artifacts keeps the builds sound.
use aursmith.Base.{
  String, List, Option, none, some, ◌≡◌, refl, sym, subst, arith, not, ◌&&◌, contains, string_ord,
  Bool-cases, inl, inr,
}
use aursmith.Core.Protocol.{ArtifactRecord}
use aursmith.Daemon.State.{
  AppState, Bytes, BuildState, queued, running, uploading, succeeded, failed,
}
use aursmith.Daemon.Keyed.{All-imp}
use aursmith.Daemon.Builds.Usable.{artifact_file, file_in}
use aursmith.Daemon.Builds.Sound.{IsSound, IsRow, IsStored, IsVerified, AllVerified}
use aursmith.Daemon.Publish.Garbage.{collect_garbage, kept_ids, in_progress}
use aursmith.Daemon.Publish.Garbage.Pruned.{with_artifacts, pruned, collect_garbage-pruned}

-- every file of the one is a file of the other
abbrev pub HasFewer : (String → Option Bytes) → (String → Option Bytes) → Type 0
HasFewer fewer files =
    (file : String) (bytes : Bytes) → fewer file ≡ some bytes → files file ≡ some bytes

module _ (digest : Bytes → String) (fewer files : String → Option Bytes)
    (h : HasFewer fewer files) where
  fewer-none : ((file : String) → files file ≡ none) → (file : String) → fewer file ≡ none
  fewer-none empty file = gone (fewer file) refl
    where
      gone : (o : Option Bytes) → fewer file ≡ o → o ≡ none
      gone none e = refl
      gone (some bytes) e = absurd (ground (arith, empty file, h file bytes e))

  fewer-AllVerified :
      (artifacts : List ArtifactRecord)
      → AllVerified digest artifacts files
      → AllVerified digest artifacts fewer
  fewer-AllVerified artifacts (once, verified) = (
    once,
    λ apart.
        All-imp (IsVerified digest files) (IsVerified digest fewer) artifacts
          (λ a v bytes e. v bytes (h a.file bytes e)) (verified apart),
  )

  fewer-IsStored :
      (state : BuildState) (artifacts : List ArtifactRecord)
      → IsStored digest state artifacts files
      → IsStored digest state artifacts fewer
  fewer-IsStored queued artifacts stored = fewer-none stored
  fewer-IsStored running artifacts stored = fewer-none stored
  fewer-IsStored uploading artifacts stored = fewer-AllVerified artifacts stored
  fewer-IsStored succeeded artifacts stored = fewer-AllVerified artifacts stored
  fewer-IsStored failed artifacts stored = tt

pub pruned-HasFewer :
    (s : AppState) (kept entries : List String) (id : String)
    → HasFewer (file_in (pruned s kept entries id)) (artifact_file s id)
pruned-HasFewer s kept entries id file bytes e =
    elim (Bool-cases (contains entries id && not (contains kept id) && not (in_progress s id))) [
      | inl gone ↦ absurd (ground (arith, rw gone at e))
      | inr stays ↦ rw stays at e
    ]

pub collect_garbage-IsSound :
    (digest : Bytes → String) (entries : List String) (s : AppState)
    → IsSound digest s
    → IsSound digest (collect_garbage entries s).0
collect_garbage-IsSound digest entries s sound =
    let left = with_artifacts (pruned s (kept_ids s) entries) s in
    subst (IsSound digest) (sym (collect_garbage-pruned entries s)) (
      sound.0,
      All-imp (IsRow digest s) (IsRow digest left) s.builds
          (λ b row. (
            row.0,
            row.1,
            fewer-IsStored digest (artifact_file left b.id) (artifact_file s b.id)
                (pruned-HasFewer s (kept_ids s) entries b.id) b.state b.artifacts row.2,
          ))
          sound.1,
    )
