-- ===== src/Daemon/Packages/Requests/Choices.antt =====
-- crates/aursmithd/src/packages.rs: what the choice of a provider does to the closure's targets.
use aursmith.Base.{
  ℕ, String, List, [], ◌∷◌, Bool, true, false, ◌&&◌, Option, none, some, ok, ◌≡◌, refl, sym, ◌∙◌,
  ap, subst, arith, Bool-cases, inl, inr, ◌==◌, string_ord, pair_ord, contains, lookup, put,
  lookup-put, any, All-find, All, ==_iff, ==_refl, if◌then◌else◌,
}
use aursmith.Daemon.State.{
  AppState, ResolvedDependency, DependencyState, needs_selection, Revision, wake,
}
use aursmith.Daemon.Handler.{
  bind-ok, check-ok, reads_result, lift, modify, pure, ◌>>◌, bad_request_error,
}
use aursmith.Daemon.Closure.{target_of, dependency_revision}
use aursmith.Daemon.Revisions.{ensure_package}
use aursmith.Daemon.Packages.Sync.Keeping.{ensure_package-Untouched}
use aursmith.Daemon.Packages.Requests.{
  select_provider, choose_among, choose_candidate, dependencies_found, find_selectable, or_error,
  choose_provider, is_selectable,
}

abbrev pub same_key : String × String → String × String → Bool
same_key a b = a == b

key_refl : (a : String × String) → same_key a a ≡ true
key_refl a = ==_refl a

-- what a choice that is accepted does
pub record IsChosen (base dependency selected : String) (s t : AppState) : Type 0 where
  pub revision : Revision
  pub candidate : ResolvedDependency
  pub found : dependency_revision s base ≡ some revision
  pub listed : find_selectable dependency revision.dependencies ≡ some candidate
  pub allowed : contains candidate.candidates selected ≡ true
  pub same : dependency_revision t base ≡ some revision
  pub target : target_of candidate.state t base candidate ≡ some selected
  pub others :
      (b d : String)
      → same_key (base, dependency) (b, d) ≡ false
      → lookup (b, d) t.provider_choices ≡ lookup (b, d) s.provider_choices

revision_of :
    (found : Option Revision) (dependencies : List ResolvedDependency)
    → dependencies_found found ≡ ok dependencies
    → (r : Revision) × ((found ≡ some r) × (r.dependencies ≡ dependencies))
revision_of none dependencies e = absurd (ground arith)
revision_of (some r) dependencies e = (r, (refl, cc))

candidate_of :
    (found : Option ResolvedDependency) (d : ResolvedDependency)
    → or_error (bad_request_error "PROVIDER_NOT_REQUIRED") found ≡ ok d
    → found ≡ some d
candidate_of none d e = absurd (ground arith)
candidate_of (some x) d e = let same : x ≡ d = cc in ap some same

selectable-target :
    (state : DependencyState) (s : AppState) (base : String) (d : ResolvedDependency)
    → is_selectable state ≡ true
    → target_of state s base d ≡ lookup (base, d.name) s.provider_choices
selectable-target needs_selection s base d e = refl
selectable-target _ s base d e = absurd (ground arith)

chosen-revision :
    (now : ℕ) (base dependency selected b : String) (s : AppState)
    → dependency_revision (wake (choose_provider now base dependency selected s)) b
      ≡ dependency_revision s b
unfolding ensure_package dependency_revision
chosen-revision now base dependency selected b s =
    elim (Bool-cases (any (λ p. p.package_base == selected) s.packages)) [
      | inl e ↦ rw e refl
      | inr n ↦ rw n refl
    ]

chosen-choices :
    (now : ℕ) (base dependency selected : String) (s : AppState)
    → (choose_provider now base dependency selected s).provider_choices
      ≡ put (base, dependency) selected s.provider_choices
chosen-choices now base dependency selected s =
    ap (λ x. x.1)
      (ensure_package-Untouched selected now
        (record s { provider_choices = put (base, dependency) selected s.provider_choices }))

choose_provider-IsChosen :
    (now : ℕ) (base dependency selected : String) (s : AppState) (r : Revision)
    (d : ResolvedDependency)
    → dependency_revision s base ≡ some r
    → find_selectable dependency r.dependencies ≡ some d
    → contains d.candidates selected ≡ true
    → IsChosen base dependency selected s (wake (choose_provider now base dependency selected s))
choose_provider-IsChosen now base dependency selected s r d found listed allowed =
    let (everything, passes) =
      All-find (λ x. Unit {0}) (λ x. x.name == dependency && is_selectable x.state) r.dependencies d
        listed (units r.dependencies) in
    let t = wake (choose_provider now base dependency selected s) in
    let choices = chosen-choices now base dependency selected s in
    let name : d.name ≡ dependency = (==_iff d.name dependency).0 (ground (arith, passes)) in
    record {
      revision = r;
      candidate = d;
      found = found;
      listed = listed;
      allowed = allowed;
      same = chosen-revision now base dependency selected base s ∙ found;
      target =
          selectable-target d.state t base d (ground (arith, passes))
          ∙ ap (λ m. lookup (base, d.name) m) choices
          ∙ lookup-put (base, dependency) (base, d.name) selected s.provider_choices
          ∙ ap
              (λ n.
                if same_key (base, dependency) (base, n)
                then some selected
                else lookup (base, n) s.provider_choices)
              name
          ∙ ap (λ b. if b then some selected else lookup (base, dependency) s.provider_choices)
              (key_refl (base, dependency));
      others = λ b n e.
          ap (λ m. lookup (b, n) m) choices
          ∙ lookup-put (base, dependency) (b, n) selected s.provider_choices
          ∙ ap (λ c. if c then some selected else lookup (b, n) s.provider_choices) e;
    }
  where
    units : (dependencies : List ResolvedDependency) → All {0, 0} (λ x. Unit {0}) dependencies
    units [] = tt
    units (x ∷ dependencies) = (tt, units dependencies)

-- A choice that is accepted is for a dependency of the package's revision that needs a selection, and of
-- one of its candidates. Afterwards the package has the same revision, the dependency stands for the
-- package chosen, and all other choices are what they were.
pub select_provider-IsChosen :
    (now : ℕ) (base dependency selected : String) (s : AppState) (result : String × String × String)
    → (select_provider now base dependency selected s).0 ≡ ok result
    → IsChosen base dependency selected s (select_provider now base dependency selected s).1
unfolding select_provider
select_provider-IsChosen now base dependency selected s result h =
    let (dependencies, (asked, run)) =
      bind-ok (reads_result (λ t. dependencies_found (dependency_revision t base)))
        (choose_among now base dependency selected) s result h in
    let (r, (found, own)) = revision_of (dependency_revision s base) dependencies asked in
    let h1 = sym (ap (λ x. x.0) run) ∙ h in
    let (d, (picked, run1)) =
      bind-ok
        (lift (
          or_error (bad_request_error "PROVIDER_NOT_REQUIRED")
            (find_selectable dependency dependencies)))
        (choose_candidate now base dependency selected) s result h1 in
    let listed = candidate_of (find_selectable dependency dependencies) d picked in
    let h2 = sym (ap (λ x. x.0) run1) ∙ h1 in
    let (allowed, run2) =
      check-ok (contains d.candidates selected) (bad_request_error "PROVIDER_NOT_CANDIDATE")
        (modify (choose_provider now base dependency selected)
          >> modify wake
          >> pure (base, dependency, selected))
        s result h2 in
    subst (IsChosen base dependency selected s)
      (sym (ap (λ x. x.1) run ∙ ap (λ x. x.1) run1 ∙ ap (λ x. x.1) run2))
      (choose_provider-IsChosen now base dependency selected s r d found
        (ap (find_selectable dependency) own ∙ listed) allowed)
