-- ===== src/Daemon/Builds/Sound/Files.antt =====
-- What a change of one file and of its partial file does to the verified files of a build.
use aursmith.Base.{
  String, List, [], ◌∷◌, true, false, Option, some, ◌≡◌, arith, ◌==◌, string_ord, contains, Nodup,
  All, find, ==_iff, if◌then◌else◌, Bool-cases, inl, inr, sym, ap, subst, ◌∙◌, some-injective,
}
use aursmith.Core.Protocol.{ArtifactRecord}
use aursmith.Daemon.State.{Bytes}
use aursmith.Daemon.Builds.Upload.{part_name}
use aursmith.Daemon.Builds.Manifest.{files_of}
use aursmith.Daemon.Builds.Sound.{IsVerified}

-- the first artifact of a list, where it has the name
pub first-found :
    (file : String) (x a : ArtifactRecord) (artifacts : List ArtifactRecord)
    → find (λ y. y.file == file) (x ∷ artifacts) ≡ some a
    → (x.file == file) ≡ true
    → x ≡ a
first-found file x a artifacts h e =
    some-injective x a
      (subst (λ t. (if t then some x else find (λ y. y.file == file) artifacts) ≡ some a) e h)

-- An artifact that `find` gives has the name, and the list holds it.
pub found-name :
    (file : String) (a : ArtifactRecord) (artifacts : List ArtifactRecord)
    → find (λ x. x.file == file) artifacts ≡ some a
    → (a.file ≡ file) × (contains (files_of artifacts) file ≡ true)
found-name file a [] h = absurd (ground arith)
found-name file a (x ∷ artifacts) h = elim (Bool-cases (x.file == file)) [
  | inl e ↦ (
    sym (ap (λ y. y.file) (first-found file x a artifacts h e)) ∙ (==_iff x.file file).0 e,
    ground arith,
  )
  | inr n ↦ ground (arith, found-name file a artifacts)
]

-- two directories that agree but for one file and its partial file
abbrev pub AgreeBut : String → (String → Option Bytes) → (String → Option Bytes) → Type 0
AgreeBut file before after =
    (other : String)
    → (other == file) ≡ false
    → (other == part_name file) ≡ false
    → after other ≡ before other

module _ (digest : Bytes → String) (a : ArtifactRecord) (before after : String → Option Bytes)
    (agree : AgreeBut a.file before after) where
  IsVerified-same :
      (x : ArtifactRecord)
      → (x.file == a.file) ≡ false
      → (x.file == part_name a.file) ≡ false
      → IsVerified digest before x
      → IsVerified digest after x
  IsVerified-same x n m h = λ bytes e. h bytes (sym (agree x.file n m) ∙ e)

  IsVerified-others :
      (artifacts : List ArtifactRecord)
      → contains (files_of artifacts) a.file ≡ false
      → contains (files_of artifacts) (part_name a.file) ≡ false
      → All (IsVerified digest before) artifacts
      → All (IsVerified digest after) artifacts
  IsVerified-others [] n m h = tt
  IsVerified-others (x ∷ artifacts) n m h = (
    IsVerified-same x (ground arith) (ground arith) h.0,
    IsVerified-others artifacts (ground arith) (ground arith) h.1,
  )

  -- Where the changed file is verified, all the files stay so.
  pub IsVerified-after :
      (artifacts : List ArtifactRecord)
      → find (λ x. x.file == a.file) artifacts ≡ some a
      → Nodup (files_of artifacts)
      → contains (files_of artifacts) (part_name a.file) ≡ false
      → IsVerified digest after a
      → All (IsVerified digest before) artifacts
      → All (IsVerified digest after) artifacts
  IsVerified-after [] found once absent new h = tt
  IsVerified-after (x ∷ artifacts) found once absent new h = elim (Bool-cases (x.file == a.file)) [
    | inl e ↦
        let same = first-found a.file x a artifacts found e in
        (
          subst (IsVerified digest after) (sym same) new,
          IsVerified-others artifacts
              (subst (λ f. contains (files_of artifacts) f ≡ false) ((==_iff x.file a.file).0 e)
                once.0)
              (ground arith) h.1,
        )
    | inr n ↦ (
      IsVerified-same x n (ground arith) h.0,
      IsVerified-after artifacts (ground arith) once.1 (ground arith) new h.1,
    )
  ]
