-- ===== src/Daemon/Publish/Desired/Gathering.antt =====
-- crates/aursmithd/src/publish.rs: what the third loop of `desired_state` gathers.
use aursmith.Base.{
  String, List, [], ◌∷◌, ◌++◌, map, Bool, true, false, ◌||◌, ok, ◌≡◌, refl, sym, subst, ◌∙◌, arith,
  string_ord, contains, keys, Nodup, All, any, Bool-cases, Result-cases, inl, inr, contains-append,
  contains-insert, Nodup-snoc, keys-put, All-put, any-append,
}
use aursmith.Core.Protocol.{ArtifactRecord}
use aursmith.Daemon.Builds.Manifest.{files_of, names_of}
use aursmith.Daemon.Publish.Desired.{
  Gathered, Chosen, gather, gather_artifacts, gather_base, gather_all,
}

pub map-append :
    (f : ArtifactRecord → String) (xs ys : List ArtifactRecord)
    → map f (xs ++ ys) ≡ map f xs ++ map f ys
map-append f [] ys = refl
map-append f (x ∷ xs) ys = ground (arith, map-append f xs ys)

-- what has been gathered: no name twice, and a source that is right for each file
pub record IsGathered (Source : String × String → Type 0) (g : Gathered) : Type 0 where
  pub names_once : Nodup (names_of g.artifacts)
  pub names_known : (n : String) → contains g.names n ≡ contains (names_of g.artifacts) n
  pub files_known : (f : String) → contains (keys g.sources) f ≡ contains (files_of g.artifacts) f
  pub sourced : All Source g.sources

gather-IsGathered :
    (Source : String × String → Type 0) (id : String) (a : ArtifactRecord) (g : Gathered)
    → Source (a.file, id)
    → contains g.names a.package_name ≡ false
    → IsGathered Source g
    → IsGathered Source (gather id a g)
gather-IsGathered Source id a g right new h =
    let names = map-append (λ x. x.package_name) g.artifacts (a ∷ []) in
    let files = map-append (λ x. x.file) g.artifacts (a ∷ []) in
    record {
      names_once = subst Nodup (sym names) (
          Nodup-snoc (names_of g.artifacts) a.package_name h.names_once
            (sym (h.names_known a.package_name) ∙ new));
      names_known = λ n. ground (
        arith,
        names,
        h.names_known n,
        contains-insert a.package_name n g.names,
        contains-append (names_of g.artifacts) (a.package_name ∷ []) n,
      );
      files_known = λ f. ground (
        arith,
        files,
        h.files_known f,
        keys-put a.file id g.sources,
        contains-insert a.file f (keys g.sources),
        contains-append (files_of g.artifacts) (a.file ∷ []) f,
      );
      sourced = All-put Source a.file id g.sources right h.sourced;
    }

-- The artifacts of one build.
gather_artifacts-ok :
    (Source : String × String → Type 0) (id : String) (records : List ArtifactRecord)
    (g result : Gathered)
    → All (λ a. Source (a.file, id)) records
    → IsGathered Source g
    → gather_artifacts id records g ≡ ok result
    → IsGathered Source result
      × ((p : ArtifactRecord → Bool)
          → any p result.artifacts ≡ (any p g.artifacts || any p records))
unfolding gather_artifacts
gather_artifacts-ok Source id [] g result right h e =
    let same : g ≡ result = cc in (subst (IsGathered Source) same h, λ p. ground (arith, same))
gather_artifacts-ok Source id (a ∷ records) g result right h e =
    elim (Bool-cases (contains g.names a.package_name)) [
      | inl old ↦ absurd (ground (arith, rw (old, gather_artifacts) at e))
      | inr new ↦
          let (whole, passed) =
            gather_artifacts-ok Source id records (gather id a g) result right.1
              (gather-IsGathered Source id a g right.0 new h) (rw (new, gather_artifacts) at e) in
          (whole, λ p. ground (arith, passed p, any-append p g.artifacts (a ∷ [])))
    ]

-- the artifacts that one chosen build adds
abbrev pub added : List String → String × (String × List ArtifactRecord) → List ArtifactRecord
added withheld (base, (id, records)) = elim (contains withheld base) [ true ↦ [] | false ↦ records ]

abbrev pub Sourced :
    List String → (String × String → Type 0) → String × (String × List ArtifactRecord) → Type 0
Sourced withheld Source (base, (id, records)) =
    contains withheld base ≡ false → All (λ a. Source (a.file, id)) records

gather_base-ok :
    (Source : String × String → Type 0) (withheld : List String) (base : String)
    (build : String × List ArtifactRecord) (g result : Gathered)
    → Sourced withheld Source (base, build)
    → IsGathered Source g
    → gather_base withheld base build g ≡ ok result
    → IsGathered Source result
      × ((p : ArtifactRecord → Bool)
          → any p result.artifacts ≡ (any p g.artifacts || any p (added withheld (base, build))))
unfolding gather_artifacts
gather_base-ok Source withheld base (id, records) g result right h e =
    elim (Bool-cases (contains withheld base)) [
      | inl out ↦
          let same : g ≡ result = cc (rw (out, gather_base) at e) in
          (subst (IsGathered Source) same h, λ p. ground (arith, same))
      | inr in_plan ↦
          let (whole, passed) =
            gather_artifacts-ok Source id records g result (right in_plan) h
              (rw (in_plan, gather_base) at e) in
          (whole, λ p. ground (arith, passed p))
    ]

-- All the chosen builds: what is gathered has no name twice, a right source for each file, and is what
-- the builds add.
pub gather_all-ok :
    (Source : String × String → Type 0) (withheld : List String) (chosen : Chosen)
    (g result : Gathered)
    → All (Sourced withheld Source) chosen
    → IsGathered Source g
    → gather_all withheld chosen g ≡ ok result
    → IsGathered Source result
      × ((p : ArtifactRecord → Bool)
          → any p result.artifacts
            ≡ (any p g.artifacts || any (λ entry. any p (added withheld entry)) chosen))
unfolding gather_all
gather_all-ok Source withheld [] g result right h e =
    let same : g ≡ result = cc in (subst (IsGathered Source) same h, λ p. ground (arith, same))
gather_all-ok Source withheld ((base, build) ∷ chosen) g result right h e =
    elim (Result-cases (gather_base withheld base build g)) [
      | inl (error, bad) ↦ absurd (ground (arith, rw (bad, gather_all) at e))
      | inr (next, good) ↦
          let (first, passed) = gather_base-ok Source withheld base build g next right.0 h good in
          let (whole, rest) =
            gather_all-ok Source withheld chosen next result right.1 first
              (rw (good, gather_all) at e) in
          (whole, λ p. ground (arith, passed p, rest p))
    ]
