-- ===== src/Daemon/Builds/Sound/Storing.antt =====
-- A change of one file of a build and of its partial file keeps the builds sound.
use aursmith.Base.{
  String, List, Bool, true, false, Option, none, some, ◌≡◌, refl, arith, ◌==◌, string_ord, nat_ord,
  contains, Bool-cases, inl, inr, subst, sym, ap, ◌∙◌, find, length, ==_iff, ==_refl,
  some-injective,
}
use aursmith.Core.Protocol.{ArtifactRecord}
use aursmith.Daemon.State.{AppState, Build, BuildState, uploading, Bytes, Directory}
use aursmith.Daemon.Builds.Usable.{file_in}
use aursmith.Daemon.Builds.Report.{find_build}
use aursmith.Daemon.Builds.Upload.{finish_file, put_directory, with_file, part_name}
use aursmith.Daemon.Builds.Manifest.{files_of}
use aursmith.Daemon.Builds.Rows.{All-found}
use aursmith.Daemon.Builds.Sound.{
  IsRow, IsSound, IsStored, AllVerified, Apart, IsVerified, IsRow-same,
}
use aursmith.Daemon.Builds.Sound.Files.{AgreeBut, IsVerified-after, found-name}

-- the build that an upload is for, its artifact, and the directory
pub record Uploads (s : AppState) (id : String) (a : ArtifactRecord) (b : Build) (old : Directory)
    : Type 0 where
  pub found : find_build s id ≡ some b
  pub state : b.state ≡ uploading
  pub listed : find (λ x. x.file == a.file) b.artifacts ≡ some a
  pub directory : s.artifacts id ≡ some old

other-directory :
    (id other : String) (directory : Directory) (s : AppState)
    → (other == id) ≡ false
    → (put_directory id directory s).artifacts other ≡ s.artifacts other
other-directory id other directory s n = rw n refl

written :
    (file : String) (bytes : Bytes) (directory : Directory)
    → with_file file (some bytes) directory file ≡ some bytes
written file bytes directory = rw (==_refl file) refl

put-directory :
    (id : String) (directory : Directory) (s : AppState)
    → (put_directory id directory s).artifacts id ≡ some directory
put-directory id directory s = rw (==_refl id) refl

module _ (digest : Bytes → String) where
  stored_in :
      (state : BuildState) (artifacts : List ArtifactRecord) (place : Option Directory)
      (directory : Directory)
      → state ≡ uploading
      → place ≡ some directory
      → IsStored digest state artifacts (file_in place)
      → AllVerified digest artifacts directory
  stored_in state artifacts place directory e d h =
      subst (λ x. IsStored digest uploading artifacts (file_in x)) d
        (subst (λ x. IsStored digest x artifacts (file_in place)) e h)

  stores :
      (state : BuildState) (artifacts : List ArtifactRecord) (place : Option Directory)
      (directory : Directory)
      → state ≡ uploading
      → place ≡ some directory
      → AllVerified digest artifacts directory
      → IsStored digest state artifacts (file_in place)
  stores state artifacts place directory e d h =
      subst (λ x. IsStored digest x artifacts (file_in place)) (sym e)
        (subst (λ x. IsStored digest uploading artifacts (file_in x)) (sym d) h)

module _ (digest : Bytes → String) (id : String) (a : ArtifactRecord) (s : AppState) (b : Build)
    (old : Directory) (u : Uploads s id a b old) where
  -- A directory that differs in one artifact's file, which is verified, or in its partial file.
  put-IsSound :
      (new : Directory)
      → AgreeBut a.file old new
      → (Apart b.artifacts → IsVerified digest new a)
      → IsSound digest s
      → IsSound digest (put_directory id new s)
  put-IsSound new agree verified sound =
      let t = put_directory id new s in
      (
        sound.0,
        All-found (IsRow digest s) (IsRow digest t) id b s.builds u.found sound.0
            (λ row same.
              let kept =
                stored_in digest b.state b.artifacts (s.artifacts b.id) old u.state
                  (ap s.artifacts same ∙ u.directory) row.2 in
              let (name, listed) = found-name a.file a b.artifacts u.listed in
              (
                row.0,
                row.1,
                stores digest b.state b.artifacts (t.artifacts b.id) new u.state
                    (ap t.artifacts same ∙ put-directory id new s)
                    (
                      kept.0,
                      λ apart.
                          IsVerified-after digest a old new agree b.artifacts u.listed kept.0
                            (apart a.file listed) (verified apart) (kept.1 apart),
                    ),
              ))
            (λ r row n. IsRow-same digest s t r (other-directory id r.id new s n) row) sound.1,
      )

  own_name : Apart b.artifacts → (a.file == part_name a.file) ≡ false
  own_name apart =
      let (name, listed) = found-name a.file a b.artifacts u.listed in
      elim (Bool-cases (a.file == part_name a.file)) [
        | inl e ↦ absurd (
            ground (
              arith,
              apart a.file listed,
              ap (contains (files_of b.artifacts)) ((==_iff a.file (part_name a.file)).0 e),
            ))
        | inr n ↦ n
      ]

  -- A new partial file, or none.
  partial-IsSound :
      (content : Option Bytes)
      → old a.file ≡ none
      → IsSound digest s
      → IsSound digest (put_directory id (with_file (part_name a.file) content old) s)
  partial-IsSound content absent sound =
      put-IsSound (with_file (part_name a.file) content old) (λ other n m. rw m refl)
        (λ apart bytes e. absurd (ground (arith, own_name apart))) sound

  -- The whole file under its own name.
  finished-IsSound :
      (bytes : Bytes)
      → digest bytes ≡ a.sha256
      → length bytes ≡ a.size
      → IsSound digest s
      → IsSound digest (
          put_directory id
            (with_file a.file (some bytes) (with_file (part_name a.file) none old))
            s)
  finished-IsSound bytes same_digest same_size sound =
      put-IsSound (with_file a.file (some bytes) (with_file (part_name a.file) none old))
        (λ other n m. rw n (rw m refl))
        (λ apart content e.
          let same =
            some-injective bytes content
              (sym (written a.file bytes (with_file (part_name a.file) none old)) ∙ e) in
          (ap digest (sym same) ∙ same_digest, ap length (sym same) ∙ same_size))
        sound

  pub finish_file-IsSound :
      (bytes : Bytes) (last : Bool)
      → old a.file ≡ none
      → (last ≡ true → length bytes ≡ a.size)
      → IsSound digest s
      → IsSound digest (finish_file digest id a bytes last old s).1
  finish_file-IsSound bytes false absent whole sound = partial-IsSound (some bytes) absent sound
  finish_file-IsSound bytes true absent whole sound = elim (Bool-cases (digest bytes == a.sha256)) [
    | inl e ↦
        rw (e, finish_file)
          (finished-IsSound bytes ((==_iff (digest bytes) a.sha256).0 e) (whole refl) sound)
    | inr n ↦ rw (n, finish_file) (partial-IsSound none absent sound)
  ]
