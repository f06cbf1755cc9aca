-- ===== src/Daemon/Publish/Plan/Verified.antt =====
-- crates/aursmithd/src/publish.rs: the files of a written plan are those that the builder reported.
use aursmith.Base.{
  ℕ, String, List, [], ◌∷◌, Bool, true, false, ◌&&◌, Option, some, ◌≡◌, refl, sym, ap, ◌∙◌, arith,
  ◌==◌, string_ord, nat_ord, contains, All, any, is_some, Bool-cases, Nodup, inl, inr, ==_iff,
  ==_refl, subst, length, Option-cases,
}
use aursmith.Core.Protocol.{ArtifactRecord}
use aursmith.Daemon.State.{AppState, Bytes, Directory, BuildState, succeeded}
use aursmith.Daemon.Keyed.{All-imp, All-zip}
use aursmith.Daemon.Closure.{Closure}
use aursmith.Daemon.Builds.Usable.{usable_build, artifact_file, is_succeeded}
use aursmith.Daemon.Builds.Manifest.{files_of}
use aursmith.Daemon.Builds.Found.{usable_build-IsUsable, usable_build-readable}
use aursmith.Daemon.Builds.Sound.{IsSound, IsRow, IsStored, IsVerified, Apart, AllVerified}
use aursmith.Daemon.Publish.Desired.{Desired}
use aursmith.Daemon.Publish.Desired.Closed.{IsDesired, artifacts_of, files_of-All}
use aursmith.Daemon.Publish.Plan.{Codec, source_file, published_digests}
use aursmith.Daemon.Publish.Plan.Copied.{AllReadable, IsWritten, is_copied}

-- The sources of a desired state can be read.
pub IsDesired-AllReadable :
    (s : AppState) (c : Closure) (d : Desired)
    → IsDesired s c d
    → AllReadable s d.sources d.plan.artifacts
IsDesired-AllReadable s c d h =
    All-imp (λ a. contains (files_of d.plan.artifacts) a.file ≡ true)
      (λ a. is_some (source_file s d.sources a.file) ≡ true) d.plan.artifacts
      (λ a listed.
        let (id, (found, (base, records, served, usable, file))) = h.sources a.file listed in
        rw (found, source_file) (usable_build-readable s base id a.file records usable file))
      (files_of-All d.plan.artifacts)

-- an artifact of this file, digest and size
abbrev pub matches : String → String → ℕ → ArtifactRecord → Bool
matches file sha256 size a = a.file == file && (a.sha256 == sha256 && a.size == size)

matches_self :
    (artifacts : List ArtifactRecord)
    → All (λ a. any (matches a.file a.sha256 a.size) artifacts ≡ true) artifacts
matches_self [] = tt
matches_self (a ∷ artifacts) = (
  ground (arith, ==_refl a.file, ==_refl a.sha256, ==_refl a.size),
  All-imp (λ x. any (matches x.file x.sha256 x.size) artifacts ≡ true)
      (λ x. any (matches x.file x.sha256 x.size) (a ∷ artifacts) ≡ true) artifacts
      (λ x h. ground arith) (matches_self artifacts),
)

-- the artifact of a file, with a property of all
file-witness :
    (P : ArtifactRecord → Type 0) (file : String) (records : List ArtifactRecord)
    → All P records
    → contains (files_of records) file ≡ true
    → (a : ArtifactRecord) × (P a
        × (a.file ≡ file)
        × (any (matches file a.sha256 a.size) records ≡ true))
file-witness P file [] h e = absurd (ground arith)
file-witness P file (a ∷ records) h e = elim (Bool-cases (a.file == file)) [
  | inl here ↦
      (a, (h.0, (==_iff a.file file).0 here, ground (arith, ==_refl a.sha256, ==_refl a.size)))
  | inr there ↦
      let (x, (p, name, found)) = file-witness P file records h.1 (ground arith) in
      (x, (p, name, ground (arith, found)))
]

no-match :
    (file sha256 : String) (size : ℕ) (artifacts : List ArtifactRecord)
    → contains (files_of artifacts) file ≡ false
    → any (matches file sha256 size) artifacts ≡ false
no-match file sha256 size [] h = refl
no-match file sha256 size (a ∷ artifacts) h = ground (arith, no-match file sha256 size artifacts)

-- Where no file is twice, a file has one digest and one size.
matches-same :
    (file sha256 other : String) (size length : ℕ) (artifacts : List ArtifactRecord)
    → Nodup (files_of artifacts)
    → any (matches file sha256 size) artifacts ≡ true
    → any (matches file other length) artifacts ≡ true
    → (sha256 ≡ other) × (size ≡ length)
matches-same file sha256 other size length [] once h k = absurd (ground arith)
matches-same file sha256 other size length (a ∷ artifacts) once h k =
    elim (Bool-cases (a.file == file)) [
      | inl here ↦
          let absent =
            subst (λ f. contains (files_of artifacts) f ≡ false) ((==_iff a.file file).0 here)
              once.0 in
          let one = no-match file sha256 size artifacts absent in
          let two = no-match file other length artifacts absent in
          (
            ground (arith, one, two, ==_iff a.sha256 sha256, ==_iff a.sha256 other),
            ground (arith, one, two, ==_iff a.size size, ==_iff a.size length),
          )
      | inr there ↦
          matches-same file sha256 other size length artifacts once.1 (ground arith) (ground arith)
    ]

module _ (digest : Bytes → String) where
  stored-AllVerified :
      (state : BuildState) (artifacts : List ArtifactRecord) (files : String → Option Bytes)
      → is_succeeded state ≡ true
      → IsStored digest state artifacts files
      → AllVerified digest artifacts files
  stored-AllVerified succeeded artifacts files e h = h
  stored-AllVerified _ artifacts files e h = absurd (ground arith)

  -- the artifacts of a usable build
  usable-IsVerified :
      (s : AppState) (base id : String) (records : List ArtifactRecord)
      → IsSound digest s
      → All (λ b. Apart b.artifacts) s.builds
      → usable_build s base ≡ some (id, records)
      → All (IsVerified digest (artifact_file s id)) records
  usable-IsVerified s base id records sound apart e =
      let (b, ((row, own), usable)) =
        usable_build-IsUsable (λ b. IsRow digest s b × Apart b.artifacts) s base id records
          (All-zip (IsRow digest s) (λ b. Apart b.artifacts)
            (λ b. IsRow digest s b × Apart b.artifacts) s.builds (λ b p q. (p, q)) sound.1 apart)
          e in
      let verified =
        (stored-AllVerified b.state b.artifacts (artifact_file s b.id) usable.succeeds row.2).1
          own in
      subst (λ i. All (IsVerified digest (artifact_file s i)) records) usable.own_id
        (subst (All (IsVerified digest (artifact_file s b.id))) usable.own_artifacts verified)

  -- the source of an artifact of the plan, as the builder reported it
  source-verified :
      (s : AppState) (c : Closure) (d : Desired) (file sha256 : String) (size : ℕ)
      → IsSound digest s
      → All (λ b. Apart b.artifacts) s.builds
      → IsDesired s c d
      → Nodup (files_of d.plan.artifacts)
      → contains (files_of d.plan.artifacts) file ≡ true
      → any (matches file sha256 size) d.plan.artifacts ≡ true
      → (bytes : Bytes) × ((source_file s d.sources file ≡ some bytes)
          × (digest bytes ≡ sha256)
          × (length bytes ≡ size))
  source-verified s c d file sha256 size sound apart h once listed planned =
      let (id, (found, (base, records, served, usable, has))) = h.sources file listed in
      let (a, (verified, name, matching)) =
        file-witness (IsVerified digest (artifact_file s id)) file records
          (usable-IsVerified s base id records sound apart usable) has in
      let in_plan : any (matches file a.sha256 a.size) d.plan.artifacts ≡ true =
        h.complete (matches file a.sha256 a.size) base served
          (ap (λ o. any (matches file a.sha256 a.size) (artifacts_of o)) usable ∙ matching) in
      let (same_digest, same_size) =
        matches-same file a.sha256 sha256 a.size size d.plan.artifacts once in_plan planned in
      elim (Option-cases (artifact_file s id file)) [
        | inl n ↦ absurd (ground (arith, usable_build-readable s base id file records usable has))
        | inr (bytes, e) ↦
            let (right_digest, right_size) = verified bytes (ap (artifact_file s id) name ∙ e) in
            (bytes, (rw (found, source_file) e, right_digest ∙ same_digest, right_size ∙ same_size))
      ]

  -- the file that a directory holds for an artifact
  abbrev pub Holds : Directory → ArtifactRecord → Type 0
  Holds directory a =
      (bytes : Bytes) × ((directory a.file ≡ some bytes)
        × (digest bytes ≡ a.sha256)
        × (length bytes ≡ a.size))

  matches-is_copied :
      (held : List String) (file sha256 : String) (size : ℕ) (artifacts : List ArtifactRecord)
      → any (matches file sha256 size) artifacts ≡ true
      → contains held sha256 ≡ false
      → is_copied held artifacts file ≡ true
  matches-is_copied held file sha256 size [] h n = absurd (ground arith)
  matches-is_copied held file sha256 size (a ∷ artifacts) h n =
      elim (Bool-cases (matches file sha256 size a)) [
        | inl here ↦
            let new =
              subst (λ x. contains held x ≡ false) (sym ((==_iff a.sha256 sha256).0 (ground arith)))
                n in
            ground arith
        | inr there ↦
            ground (arith, matches-is_copied held file sha256 size artifacts (ground arith) n)
      ]

  -- A written plan has the artifacts that the signer lacks, as the builder reported them.
  pub IsWritten-Holds :
      (codec : Codec) (now : ℕ) (id sha256 : String) (s t : AppState) (c : Closure) (d : Desired)
      → IsSound digest s
      → All (λ b. Apart b.artifacts) s.builds
      → IsDesired s c d
      → Nodup (files_of d.plan.artifacts)
      → (w : IsWritten codec now id sha256 d s t)
      → All
          (λ a.
            contains (published_digests s) a.sha256 ≡ false
            → (a.file == "plan.json") ≡ false
            → Holds w.directory a)
          d.plan.artifacts
  IsWritten-Holds codec now id sha256 s t c d sound apart h once w =
      All-zip (λ a. any (matches a.file a.sha256 a.size) d.plan.artifacts ≡ true)
        (λ a. contains (files_of d.plan.artifacts) a.file ≡ true)
        (λ a.
          contains (published_digests s) a.sha256 ≡ false
          → (a.file == "plan.json") ≡ false
          → Holds w.directory a)
        d.plan.artifacts
        (λ a planned listed new plain.
          let (bytes, (e, right_digest, right_size)) =
            source-verified s c d a.file a.sha256 a.size sound apart h once listed planned in
          let copied =
            matches-is_copied (published_digests s) a.file a.sha256 a.size d.plan.artifacts planned
              new in
          (bytes, (ground (arith, w.files a.file plain, copied, e), right_digest, right_size)))
        (matches_self d.plan.artifacts) (files_of-All d.plan.artifacts)
