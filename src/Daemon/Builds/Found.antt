-- ===== src/Daemon/Builds/Found.antt =====
-- crates/aursmithd/src/builds.rs: the build that `usable_build` finds.
use aursmith.Base.{
  ℕ, zero, suc, String, List, [], ◌∷◌, Bool, true, ◌&&◌, some, ◌≡◌, ap, ◌∙◌, subst, arith, ◌==◌,
  string_ord, contains, All, all, keep, find, is_some, inl, inr, Option-cases, Bool-cases, All-keep,
  All-kept, All-find, All-sort_by, sort_by, some-injective, ==_iff,
}
use aursmith.Core.Protocol.{ArtifactRecord}
use aursmith.Daemon.State.{AppState, Build}
use aursmith.Daemon.Keyed.{All-zip}
use aursmith.Daemon.Builds.Usable.{
  usable_build, has_files, found_build, is_succeeded, better, take, artifact_file,
}
use aursmith.Daemon.Builds.Manifest.{files_of}

pub All-take : {A : Type 0} (P : A → Type 0) (n : ℕ) (xs : List A) → All P xs → All P (take n xs)
All-take P zero xs h = tt
All-take P (suc n) [] h = tt
All-take P (suc n) (x ∷ xs) h = (h.0, All-take P n xs h.1)

-- a build that has succeeded, whose files are there
pub record IsUsable (s : AppState) (base id : String) (records : List ArtifactRecord) (b : Build)
    : Type 0 where
  pub own_id : b.id ≡ id
  pub own_artifacts : b.artifacts ≡ records
  pub own_base : b.package_base ≡ base
  pub succeeds : is_succeeded b.state ≡ true
  pub complete : has_files s b ≡ true

-- the rows that `usable_build` looks at
abbrev pub candidates : AppState → String → List Build
candidates s base =
    take 5 (
      sort_by (better s base) (keep (λ b. b.package_base == base && is_succeeded b.state) s.builds))

candidates-All :
    (P : Build → Type 0) (s : AppState) (base : String)
    → All P s.builds
    → All (λ b. P b × ((b.package_base == base && is_succeeded b.state) ≡ true)) (candidates s base)
candidates-All P s base h =
    let Q : Build → Type 0 = λ b. P b × ((b.package_base == base && is_succeeded b.state) ≡ true) in
    let test : Build → Bool = λ b. b.package_base == base && is_succeeded b.state in
    All-take Q 5 (sort_by (better s base) (keep test s.builds)) (
      All-sort_by Q (better s base) (keep test s.builds) (
        All-zip P (λ b. test b ≡ true) Q (keep test s.builds) (λ b p q. (p, q))
          (All-keep P test s.builds h) (All-kept test s.builds)))

-- The usable build is a row of the table, with what all the rows have.
pub usable_build-IsUsable :
    (P : Build → Type 0) (s : AppState) (base id : String) (records : List ArtifactRecord)
    → All P s.builds
    → usable_build s base ≡ some (id, records)
    → (b : Build) × (P b × IsUsable s base id records b)
unfolding usable_build
usable_build-IsUsable P s base id records h e =
    elim (Option-cases (find (has_files s) (candidates s base))) [
      | inl n ↦ absurd (ground (arith, rw (n, found_build) at e))
      | inr (b, found) ↦
          let same =
            some-injective (b.id, b.artifacts) (id, records) (rw (found, found_build) at e) in
          let (row, complete) =
            All-find (λ x. P x × ((x.package_base == base && is_succeeded x.state) ≡ true))
              (has_files s) (candidates s base) b found (candidates-All P s base h) in
          (
            b,
            (
              row.0,
              record {
                own_id = ap (λ x. x.0) same;
                own_artifacts = ap (λ x. x.1) same;
                own_base = ground (arith, row.1, ==_iff b.package_base base);
                succeeds = ground (arith, row.1);
                complete = complete;
              },
            ),
          )
    ]

all-file :
    (s : AppState) (id file : String) (records : List ArtifactRecord)
    → all (λ a. is_some (artifact_file s id a.file)) records ≡ true
    → contains (files_of records) file ≡ true
    → is_some (artifact_file s id file) ≡ true
all-file s id file [] h e = absurd (ground arith)
all-file s id file (a ∷ records) h e = elim (Bool-cases (a.file == file)) [
  | inl same ↦
      subst (λ f. is_some (artifact_file s id f) ≡ true) ((==_iff a.file file).0 same)
        (ground arith)
  | inr other ↦ all-file s id file records (ground arith) (ground arith)
]

-- Its files can be read.
pub usable_build-readable :
    (s : AppState) (base id file : String) (records : List ArtifactRecord)
    → usable_build s base ≡ some (id, records)
    → contains (files_of records) file ≡ true
    → is_some (artifact_file s id file) ≡ true
unfolding has_files
usable_build-readable s base id file records e listed =
    let (b, (row, usable)) =
      usable_build-IsUsable (λ b. Unit {0}) s base id records (every s.builds) e in
    let there = all-file s b.id file b.artifacts (ground (arith, usable.complete)) in
    subst (λ i. is_some (artifact_file s i file) ≡ true) usable.own_id
      (there (ap (λ xs. contains (files_of xs) file) usable.own_artifacts ∙ listed))
  where
    every : (rows : List Build) → All {0, 0} (λ b. Unit {0}) rows
    every [] = tt
    every (b ∷ rows) = (tt, every rows)
