-- ===== src/Daemon/Publish/Desired/Closed.antt =====
-- crates/aursmithd/src/publish.rs: what the desired state promises.
use aursmith.Base.{
  String, List, [], ◌∷◌, Bool, true, false, not, ◌&&◌, Option, none, some, ok, ◌≡◌, refl, sym,
  subst, ◌∙◌, arith, string_ord, contains, keys, lookup, Nodup, All, any, Bool-cases, Option-cases,
  Result-cases, fun_ext, sort_by, inl, inr, is_some, contains-keys, All-lookup, any-lookup,
  any-witness, any-false, any-contains, any-sort_by, sort_by-Nodup, contains-sort_by, ==_refl,
}
use aursmith.Core.Protocol.{ArtifactRecord, publish_plan_format}
use aursmith.Daemon.State.{AppState}
use aursmith.Daemon.Keyed.{All-imp}
use aursmith.Daemon.Closure.{Closure}
use aursmith.Daemon.Builds.Usable.{usable_build, closure_of}
use aursmith.Daemon.Builds.Needed.{closure_of_self, closure_of_trans}
use aursmith.Daemon.Builds.Manifest.{files_of, names_of}
use aursmith.Daemon.Publish.Desired.{
  Desired, Chosen, choose_all, withhold, is_missing, gather_all, nothing_gathered, desired_of,
  desired_state, artifact_cmp, Gathered,
}
use aursmith.Daemon.Publish.Desired.Choosing.{
  IsChosen, choose_all-IsChosen, contains-withhold, keys-choose_all,
}
use aursmith.Daemon.Publish.Desired.Gathering.{gather_all-ok, IsGathered, added, Sourced}

-- the artifacts of a package's usable build
abbrev pub artifacts_of : Option (String × List ArtifactRecord) → List ArtifactRecord
artifacts_of none = []
artifacts_of (some (id, records)) = records

abbrev pub usable_artifacts : AppState → String → List ArtifactRecord
usable_artifacts s base = artifacts_of (usable_build s base)

-- a member of the closure that is not withheld
abbrev pub IsServed : Closure → List String → String → Type 0
IsServed c withheld base = (contains c.members base ≡ true) × (contains withheld base ≡ false)

-- a file of the usable build of a package that is served
abbrev pub IsSource : AppState → Closure → List String → String × String → Type 0
IsSource s c withheld (file, id) =
    (base : String) × (records : List ArtifactRecord) × IsServed c withheld base
    × (usable_build s base ≡ some (id, records))
    × (contains (files_of records) file ≡ true)

pub record IsDesired (s : AppState) (c : Closure) (d : Desired) : Type 0 where
  pub names_once : Nodup (names_of d.plan.artifacts)
  pub sound :
      (p : ArtifactRecord → Bool)
      → any p d.plan.artifacts ≡ true
      → (base : String) × (IsServed c d.withheld base × (any p (usable_artifacts s base) ≡ true))
  pub complete :
      (p : ArtifactRecord → Bool) (base : String)
      → IsServed c d.withheld base
      → any p (usable_artifacts s base) ≡ true
      → any p d.plan.artifacts ≡ true
  pub closed :
      (base m : String)
      → IsServed c d.withheld base
      → contains (closure_of c.graph base) m ≡ true
      → IsServed c d.withheld m × (is_some (usable_build s m) ≡ true)
  pub withheld_lacks :
      (base : String)
      → contains d.withheld base ≡ true
      → any
          (λ m. not (contains c.members m && is_some (usable_build s m)))
          (closure_of c.graph base)
        ≡ true
  pub sources :
      (file : String)
      → contains (files_of d.plan.artifacts) file ≡ true
      → (id : String) × ((lookup file d.sources ≡ some id) × IsSource s c d.withheld (file, id))

pub files_of-All :
    (records : List ArtifactRecord) → All (λ a. contains (files_of records) a.file ≡ true) records
files_of-All [] = tt
files_of-All (a ∷ records) = (
  ground (arith, ==_refl a.file),
  All-imp (λ x. contains (files_of records) x.file ≡ true)
      (λ x. contains (files_of (a ∷ records)) x.file ≡ true) records (λ x h. ground arith)
      (files_of-All records),
)

module _ (s : AppState) (c : Closure) where
  -- what the loops compute
  chosen : Chosen
  chosen = choose_all s c.members

  withheld : List String
  unfolding chosen
  withheld = withhold c chosen c.members

  withheld-missing :
      (base : String)
      → contains withheld base ≡ (contains c.members base && is_missing c chosen base)
  unfolding withheld
  withheld-missing base = contains-withhold s c chosen c.members base

  keys-chosen :
      (m : String) → contains (keys chosen) m ≡ (contains c.members m && is_some (usable_build s m))
  unfolding chosen
  keys-chosen m = keys-choose_all s c.members m

  -- a package that is served has all that it needs
  needed-chosen :
      (base m : String)
      → IsServed c withheld base
      → contains (closure_of c.graph base) m ≡ true
      → contains (keys chosen) m ≡ true
  needed-chosen base m served needed =
      let none_missing : is_missing c chosen base ≡ false = ground (arith, withheld-missing base) in
      ground (
        arith,
        any-false (λ x. not (contains (keys chosen) x)) (closure_of c.graph base) m none_missing
            needed,
      )

  needed-IsServed :
      (base m : String)
      → IsServed c withheld base
      → contains (closure_of c.graph base) m ≡ true
      → IsServed c withheld m × (is_some (usable_build s m) ≡ true)
  needed-IsServed base m served needed =
      let none_missing : is_missing c chosen m ≡ false =
        any-contains (λ x. not (contains (keys chosen) x)) (closure_of c.graph m)
          (λ n e.
            ground
              (arith, needed-chosen base n served (closure_of_trans c.graph base m n needed e))) in
      let there = needed-chosen base m served needed in
      let known = keys-chosen m in
      (
        (ground (arith, there, known), ground (arith, withheld-missing m, none_missing)),
        ground (arith, there, known),
      )

  chosen-IsChosen : All (IsChosen s c.members) chosen
  unfolding chosen
  chosen-IsChosen = choose_all-IsChosen s c.members

  chosen-Sourced : All (Sourced withheld (IsSource s c withheld)) chosen
  chosen-Sourced =
      All-imp (IsChosen s c.members) (Sourced withheld (IsSource s c withheld)) chosen
        (λ entry h served.
          let (base, (id, records)) = entry in
          All-imp (λ a. contains (files_of records) a.file ≡ true)
            (λ a. IsSource s c withheld (a.file, id)) records
            (λ a file. (base, records, (h.0, served), h.1, file)) (files_of-All records))
        chosen-IsChosen

  -- what a served package's usable build holds, some entry adds, and the other way round
  added-IsServed :
      (p : ArtifactRecord → Bool)
      → any (λ entry. any p (added withheld entry)) chosen ≡ true
      → (base : String) × (IsServed c withheld base × (any p (usable_artifacts s base) ≡ true))
  added-IsServed p e =
      let (entry, (h, passes)) =
        any-witness (IsChosen s c.members) (λ x. any p (added withheld x)) chosen chosen-IsChosen
          e in
      let (base, (id, records)) = entry in
      elim (Bool-cases (contains withheld base)) [
        | inl out ↦ absurd (ground (arith, rw (out, added) at passes))
        | inr served ↦
            (base, ((h.0, served), rw (h.1, artifacts_of) (rw (served, added) at passes)))
      ]

  IsServed-added :
      (p : ArtifactRecord → Bool) (base : String)
      → IsServed c withheld base
      → any p (usable_artifacts s base) ≡ true
      → any (λ entry. any p (added withheld entry)) chosen ≡ true
  IsServed-added p base served passes =
      let here = needed-chosen base base served (closure_of_self c.graph base) in
      elim (Option-cases (lookup base chosen)) [
        | inl e ↦ absurd (ground (arith, contains-keys chosen base))
        | inr ((id, records), e) ↦
            let h = All-lookup (IsChosen s c.members) base (id, records) chosen e chosen-IsChosen in
            any-lookup (λ x. any p (added withheld x)) base (id, records) chosen e
              (rw (served.1, added) (rw (h.1, artifacts_of) at passes))
      ]

  lacking :
      (base : String)
      → contains withheld base ≡ true
      → any
          (λ m. not (contains c.members m && is_some (usable_build s m)))
          (closure_of c.graph base)
        ≡ true
  lacking base out =
      let missing : is_missing c chosen base ≡ true = ground (arith, withheld-missing base) in
      subst (λ known. any (λ m. not (known m)) (closure_of c.graph base) ≡ true)
        (fun_ext keys-chosen) missing

  -- the desired state that the gathered artifacts make
  desired_from : Gathered → Desired
  unfolding withheld
  desired_from g = record {
    plan = record {
      format = publish_plan_format;
      repository_name = s.config.repository_name;
      artifacts = sort_by artifact_cmp g.artifacts;
    };
    sources = g.sources;
    withheld = withheld;
  }

  desired_from-IsDesired :
      (g : Gathered)
      → gather_all withheld chosen nothing_gathered ≡ ok g
      → IsDesired s c (desired_from g)
  unfolding desired_from
  desired_from-IsDesired g e =
      let (whole, passed) =
        gather_all-ok (IsSource s c withheld) withheld chosen nothing_gathered g chosen-Sourced
          (record {
            names_once = tt;
            names_known = λ n. refl;
            files_known = λ f. refl;
            sourced = tt;
          })
          e in
      record {
        names_once = sort_by-Nodup (λ a. a.package_name) artifact_cmp g.artifacts whole.names_once;
        sound = λ p h.
            added-IsServed p (sym (passed p) ∙ sym (any-sort_by p artifact_cmp g.artifacts) ∙ h);
        complete = λ p base served h.
            any-sort_by p artifact_cmp g.artifacts ∙ passed p ∙ IsServed-added p base served h;
        closed = needed-IsServed;
        withheld_lacks = lacking;
        sources = λ file h. sourced_file g whole file (
            whole.files_known file
            ∙ sym (contains-sort_by (λ a. a.file) artifact_cmp g.artifacts file)
            ∙ h);
      }
    where
      sourced_file :
          (g : Gathered)
          → IsGathered (IsSource s c withheld) g
          → (file : String) → contains (keys g.sources) file ≡ true
          → (id : String) × ((lookup file g.sources ≡ some id) × IsSource s c withheld (file, id))
      sourced_file g whole file h = elim (Option-cases (lookup file g.sources)) [
        | inl e ↦ absurd (ground (arith, contains-keys g.sources file))
        | inr (id, e) ↦
            (id, (e, All-lookup (IsSource s c withheld) file id g.sources e whole.sourced))
      ]

-- Where `desired_state` ends well: no package name is twice in the plan; an artifact is in the plan
-- exactly if it belongs to the usable build of a member that is not withheld; such a member has every
-- package that it needs, directly or not, in the plan too, each with a usable build; a withheld member
-- needs a package that is no member or has no usable build; and the source of a file of the plan is the
-- usable build of a member that is not withheld, with an artifact of this file.
pub desired_state-closed :
    (s : AppState) (c : Closure) (d : Desired) → desired_state s c ≡ ok d → IsDesired s c d
unfolding desired_state chosen withheld desired_from
desired_state-closed s c d h =
    elim (Result-cases (gather_all (withheld s c) (chosen s c) nothing_gathered)) [
      | inl (error, bad) ↦ absurd (ground (arith, rw (bad, desired_of) at h))
      | inr (g, good) ↦
          let same : desired_from s c g ≡ d = cc (rw (good, desired_of) at h) in
          subst (IsDesired s c) same (desired_from-IsDesired s c g good)
    ]
