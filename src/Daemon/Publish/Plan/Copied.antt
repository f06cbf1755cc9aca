-- ===== src/Daemon/Publish/Plan/Copied.antt =====
-- crates/aursmithd/src/publish.rs: the directory that `write_plan` leaves in the inbox.
use aursmith.Base.{
  ℕ, String, List, [], ◌∷◌, ◌++◌, Bool, true, false, not, ◌&&◌, ◌||◌, none, some, ok, ◌≡◌, refl, ap,
  ◌∙◌, arith, ◌==◌, string_ord, contains, All, any, is_some, Bool-cases, Option-cases, inl, inr,
  ==_iff, ==_refl, if◌then◌else◌,
}
use aursmith.Core.Protocol.{ArtifactRecord}
use aursmith.Daemon.State.{AppState, Bytes, Directory}
use aursmith.Daemon.Publish.Desired.{Desired}
use aursmith.Daemon.Publish.Plan.{
  Codec, copy_artifacts, source_file, add_file, no_files, write_plan, published_digests,
  new_publication, commit_plan,
}

-- whether an artifact that the signer lacks has the file
abbrev pub is_copied : List String → List ArtifactRecord → String → Bool
is_copied held artifacts file = any (λ a. a.file == file && not (contains held a.sha256)) artifacts

abbrev pub AllReadable : AppState → List (String × String) → List ArtifactRecord → Type 0
AllReadable s sources artifacts = All (λ a. is_some (source_file s sources a.file) ≡ true) artifacts

module _ (s : AppState) (sources : List (String × String)) (held : List String) where
  copied_file :
      (artifacts : List ArtifactRecord) (a : ArtifactRecord) (bytes : Bytes) (directory : Directory)
      (file : String)
      → source_file s sources a.file ≡ some bytes
      → (if is_copied held artifacts file
          then source_file s sources file
          else add_file a.file bytes directory file)
        ≡ (if a.file == file || is_copied held artifacts file
            then source_file s sources file
            else directory file)
  copied_file artifacts a bytes directory file e = elim (Bool-cases (file == a.file)) [
    | inl same ↦
        let here = ap (source_file s sources) ((==_iff file a.file).0 same) ∙ e in
        ground (arith, here, ==_iff file a.file, ==_iff a.file file)
    | inr other ↦ ground (arith, ==_iff file a.file, ==_iff a.file file)
  ]

  -- All files that are to be copied can be read: the loop ends well, and they are what it copies.
  pub copy_artifacts-copies :
      (artifacts : List ArtifactRecord) (directory : Directory)
      → AllReadable s sources artifacts
      → ((copy_artifacts s sources held artifacts directory).0 ≡ ok tt)
        × ((file : String)
            → (copy_artifacts s sources held artifacts directory).1 file ≡ (
                if is_copied held artifacts file
                then source_file s sources file
                else directory file))
  unfolding copy_artifacts
  copy_artifacts-copies [] directory h = (refl, λ file. refl)
  copy_artifacts-copies (a ∷ artifacts) directory h = elim (Bool-cases (contains held a.sha256)) [
    | inl old ↦
        let (ends, copies) = copy_artifacts-copies artifacts directory h.1 in
        (
          rw (old, copy_artifacts) ends,
          λ file. rw (old, copy_artifacts) (ground (arith, copies file)),
        )
    | inr new ↦ elim (Option-cases (source_file s sources a.file)) [
      | inl n ↦ absurd (ground (arith, h.0))
      | inr (bytes, e) ↦
          let (ends, copies) =
            copy_artifacts-copies artifacts (add_file a.file bytes directory) h.1 in
          (
            rw (new, copy_artifacts) (rw (e, copy_artifacts) ends),
            λ file.
                rw (new, copy_artifacts)
                  (rw (e, copy_artifacts)
                    (ground (arith, copies file, copied_file artifacts a bytes directory file e))),
          )
    ]
  ]

-- what `write_plan` makes of a state
pub record IsWritten (codec : Codec) (now : ℕ) (id sha256 : String) (d : Desired) (s t : AppState)
    : Type 0 where
  pub directory : Directory
  pub stored : t.exchange.inbox sha256 ≡ some directory
  pub plan : directory "plan.json" ≡ some (codec.canonical_bytes d.plan)
  pub files :
      (file : String)
      → (file == "plan.json") ≡ false
      → directory file ≡ (
          if is_copied (published_digests s) d.plan.artifacts file
          then source_file s d.sources file
          else none)
  pub row : t.publications ≡ s.publications ++ new_publication now id sha256 d.plan ∷ []

pub write_plan-IsWritten :
    (codec : Codec) (now : ℕ) (id sha256 : String) (d : Desired) (s : AppState)
    → AllReadable s d.sources d.plan.artifacts
    → ((write_plan codec now id d sha256 s).0 ≡ ok tt)
      × IsWritten codec now id sha256 d s (write_plan codec now id d sha256 s).1
unfolding write_plan
write_plan-IsWritten codec now id sha256 d s h =
    let (ends, copies) =
      copy_artifacts-copies s d.sources (published_digests s) d.plan.artifacts no_files h in
    rw (ends, commit_plan)
      (
        refl,
        record {
          directory =
              add_file "plan.json" (codec.canonical_bytes d.plan)
                (copy_artifacts s d.sources (published_digests s) d.plan.artifacts no_files).1;
          stored = rw (==_refl sha256) refl;
          plan = refl;
          files = λ file n. rw n (copies file);
          row = refl;
        },
      )
