-- ===== src/Signer/Activate/Rollback.antt =====
-- crates/aursmithd/src/signer.rs: a rollback undoes the last switch.
use aursmith.Base.{
  ◌⊎◌, String, List, [], ◌∷◌, ◌++◌, false, Option, none, some, Result, ok, err, ◌≡◌, refl, sym, ◌∙◌,
  ap, subst, arith, Result-cases, inl, inr, ◌==◌, string_ord, nat_ord, ==_iff,
}
use aursmith.Base.Run.{continue, pure}
use aursmith.Core.Protocol.{ArtifactRecord, PublishManifest}
use aursmith.Signer.Disk.{Disk, Failure, Tools, then_check}
use aursmith.Signer.Activate.{
  read_manifest, check_entry, check_package, check_packages, check_release, current_release, switch,
  switch_checked, activate_read, activate, rollback_to, rollback,
}
use aursmith.Signer.Activate.Serving.{
  IsServing, with_links, switch-links, switch-current, switch-previous, switch-IsServing,
}
use aursmith.Signer.Activate.Switch.{
  IsRelease, Outcome, check_release-IsRelease, current-linked, activate-Outcome,
}

module _ (tools : Tools) where
  -- the tests of a release give the same on both disks
  abbrev SameTests : String → Disk → Disk → Type 0
  SameTests release d e =
      (read_manifest tools release e ≡ read_manifest tools release d)
      × ((m : PublishManifest) → check_release tools release e m ≡ check_release tools release d m)

  check_packages-links :
      (arch_links release_links : String → Option String) (d : Disk)
      (artifacts : List ArtifactRecord)
      → check_packages tools (with_links arch_links release_links d) artifacts
        ≡ check_packages tools d artifacts
  unfolding check_packages
  check_packages-links arch_links release_links d [] = refl
  check_packages-links arch_links release_links d (a ∷ artifacts) =
      ap (then_check (check_package tools d a))
        (check_packages-links arch_links release_links d artifacts)

  switch-SameTests :
      (release other : String) (current : Option String) (m : PublishManifest) (d : Disk)
      → SameTests release d (switch other current m d)
  unfolding read_manifest check_release
  switch-SameTests release other current m d =
      switch-links (SameTests release d) other current m d (λ arch_links release_links. (
        refl,
        λ x.
            ap
              (λ rest.
                then_check (check_entry tools release d x.database)
                  (then_check (check_entry tools release d x.files_database) rest))
              (check_packages-links arch_links release_links d
                (x.artifacts ++ x.repository_keyring ∷ [])),
      ))

  -- what an activation that ended well has done
  activated :
      (release : String) (d : Disk)
      → (activate tools release d).0 ≡ ok tt
      → (m : PublishManifest) × (read_manifest tools release d ≡ ok m)
        × (check_release tools release d m ≡ ok tt)
        × ((activate tools release d).1 ≡ switch release (current_release tools d) m d)
  unfolding activate
  activated release d h = elim (Result-cases (read_manifest tools release d)) [
    | inl (e, bad) ↦ absurd (ground (arith, rw (bad, activate_read) at h))
    | inr (m, found) ↦ elim (Result-cases (check_release tools release d m)) [
      | inl (e, bad) ↦
          absurd (ground (arith, rw (bad, switch_checked) at (rw (found, activate_read) at h)))
      | inr (u, good) ↦ (m, found, good, rw (found, activate_read) (rw (good, switch_checked) refl))
    ]
  ]

  -- An activation whose tests succeed ends well.
  activates :
      (release : String) (d : Disk) (m : PublishManifest)
      → read_manifest tools release d ≡ ok m
      → check_release tools release d m ≡ ok tt
      → activate tools release d ≡ (ok tt, switch release (current_release tools d) m d)
  unfolding activate
  activates release d m found good = rw (found, activate_read) (rw (good, switch_checked) refl)

  -- a rollback from a disk whose previous release passes the tests
  rollback-previous :
      (previous current : String) (e : Disk) (m : PublishManifest)
      → e.release_links "previous" ≡ some previous
      → e.release_links "current" ≡ some current
      → (current == previous) ≡ false
      → read_manifest tools previous e ≡ ok m
      → check_release tools previous e m ≡ ok tt
      → ((rollback tools e).0 ≡ ok previous)
        × ((rollback tools e).1.release_links "current" ≡ some previous)
        × ((rollback tools e).1.release_links "previous" ≡ some current)
        × IsServing previous (some current) m e (rollback tools e).1
  unfolding rollback
  rollback-previous previous current e m before now differ found good =
      let run = activates previous e m found good in
      rw (before, rollback_to)
        (rw (run, continue)
          (
            refl,
            switch-current previous (current_release tools e) m e,
            rw (current-linked tools current e now) (switch-previous previous current m e differ),
            rw (current-linked tools current e now) (switch-IsServing previous (some current) m e),
          ))

  -- A rollback undoes the last activation: where a release and then another one have been activated, it
  -- ends well, the first is the current release again, and the second becomes the previous one. The links
  -- of the databases and of their signatures lead to those of the first release again, whose manifest,
  -- databases and packages pass the tests; no file and no other link is changed.
  pub rollback-activate :
      (first second : String) (d : Disk)
      → (first == second) ≡ false
      → (activate tools first d).0 ≡ ok tt
      → (activate tools second (activate tools first d).1).0 ≡ ok tt
      → ((rollback tools (activate tools second (activate tools first d).1).1).0 ≡ ok first)
        × ((rollback tools (activate tools second (activate tools first d).1).1).1.release_links
              "current"
            ≡ some first)
        × ((rollback tools (activate tools second (activate tools first d).1).1).1.release_links
              "previous"
            ≡ some second)
        × (m : PublishManifest) × (read_manifest tools first d ≡ ok m)
        × IsRelease tools first (activate tools second (activate tools first d).1).1 m
        × IsServing first
            (some second)
            m
            (activate tools second (activate tools first d).1).1
            (rollback tools (activate tools second (activate tools first d).1).1).1
  rollback-activate first second d differ went_well then_well =
      let (m, found, good, done) = activated first d went_well in
      let one = (activate tools first d).1 in
      let (m2, found2, good2, done2) = activated second one then_well in
      let two = (activate tools second one).1 in
      let tests : SameTests first d one =
        subst (SameTests first d) (sym done)
          (switch-SameTests first first (current_release tools d) m d) in
      let tests2 : SameTests first one two =
        subst (SameTests first one) (sym done2)
          (switch-SameTests first second (current_release tools one) m2 one) in
      let was_current : one.release_links "current" ≡ some first =
        subst (λ x. x.release_links "current" ≡ some first) (sym done)
          (switch-current first (current_release tools d) m d) in
      let is_current : two.release_links "current" ≡ some second =
        subst (λ x. x.release_links "current" ≡ some second) (sym done2)
          (switch-current second (current_release tools one) m2 one) in
      let is_previous : two.release_links "previous" ≡ some first =
        subst (λ x. x.release_links "previous" ≡ some first)
          (sym
            (done2 ∙ ap (λ c. switch second c m2 one) (current-linked tools first one was_current)))
          (switch-previous second first m2 one differ) in
      let still_found = tests2.0 ∙ tests.0 ∙ found in
      let still_good = tests2.1 m ∙ tests.1 m ∙ good in
      let (ends, now, before, serving) =
        rollback-previous first second two m is_previous is_current
          (ground (arith, ==_iff first second, ==_iff second first, differ)) still_found
          still_good in
      (
        ends,
        now,
        before,
        m,
        found,
        check_release-IsRelease tools first two m still_found still_good,
        serving,
      )

  -- a rollback to the previous release, where there is one
  abbrev pub RolledBack : Option String → Disk → Result String Failure → Disk → Type 0
  RolledBack none d result t = (f : Failure) × (result ≡ err f) × (t ≡ d)
  RolledBack (some previous) d result t =
      ((result ≡ ok previous) × Outcome tools previous d (ok tt) t)
      ⊎ ((f : Failure) × (result ≡ err f) × (t ≡ d))

  continued-RolledBack :
      (previous : String) (d : Disk) (run : Result (Unit {0}) Failure × Disk)
      → Outcome tools previous d run.0 run.1
      → RolledBack
          (some previous)
          d
          (continue (λ u. pure previous) run).0
          (continue (λ u. pure previous) run).1
  continued-RolledBack previous d (ok u, t) h = inl (refl, h)
  continued-RolledBack previous d (err f, t) h = inr (f, refl, h)

  rollback_to-RolledBack :
      (previous : Option String) (d : Disk)
      → RolledBack previous d (rollback_to tools previous d).0 (rollback_to tools previous d).1
  rollback_to-RolledBack none d = (_, refl, refl)
  rollback_to-RolledBack (some previous) d =
      continued-RolledBack previous d (activate tools previous d)
        (activate-Outcome tools previous d)

  -- A rollback that fails, as it does where there is no previous release, leaves the disk as it was. One that
  -- ends well has verified the manifest, the databases and the packages of the previous release, and serves it.
  pub rollback-RolledBack :
      (d : Disk)
      → RolledBack (d.release_links "previous") d (rollback tools d).0 (rollback tools d).1
  unfolding rollback
  rollback-RolledBack d = rollback_to-RolledBack (d.release_links "previous") d
