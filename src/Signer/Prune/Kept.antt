-- ===== src/Signer/Prune/Kept.antt =====
-- crates/aursmithd/src/signer.rs: the removal keeps what the current and the previous release need.
use aursmith.Base.{
  String, List, [], ◌∷◌, Bool, true, false, ◌&&◌, ◌||◌, Option, is_some, ok, ◌≡◌, refl, sym, ◌∙◌,
  ap, subst, arith, ◌==◌, string_ord, ==_iff, without_suffix, contains, contains-insert, Bool-cases,
  Result-cases, inl, inr,
}
use aursmith.Signer.Disk.{Disk, Tools}
use aursmith.Signer.Prune.{
  referenced_files, insert_all, all_referenced, removed, remove_stale, is_stale_release,
  is_stale_package, prune_releases, prune_files, prune_keeping,
}

remove_stale-kept :
    {A : Type 0} (is_stale : String → Bool) (names : List String) (table : String → Option A)
    (name : String)
    → is_stale name ≡ false
    → remove_stale is_stale names table name ≡ table name
unfolding remove_stale
remove_stale-kept is_stale [] table name h = refl
remove_stale-kept is_stale (n ∷ names) table name h =
    elim (Bool-cases (is_stale n && is_some (table n))) [
      | inl e ↦ elim (Bool-cases (name == n)) [
        | inl same ↦
            let own : is_stale n ≡ false =
              subst (λ x. is_stale x ≡ false) ((==_iff name n).0 same) h in
            absurd (ground (arith, own, e))
        | inr other ↦
            rw e (remove_stale-kept is_stale names (removed n table) name h ∙ rw other refl)
      ]
      | inr stays ↦ rw stays (remove_stale-kept is_stale names table name h)
    ]

contains-insert_all :
    (more files : List String) (a : String)
    → contains (insert_all more files) a ≡ (contains more a || contains files a)
contains-insert_all [] files a = refl
contains-insert_all (file ∷ more) files a =
    ground (arith, contains-insert file a (insert_all more files), contains-insert_all more files a)

-- All files that a kept release names are among the files that are kept.
all_referenced-contains :
    (tools : Tools) (d : Disk) (releases : List String) (files own : List String)
    (release file : String)
    → all_referenced tools d releases ≡ ok files
    → contains releases release ≡ true
    → referenced_files tools d release ≡ ok own
    → contains own file ≡ true
    → contains files file ≡ true
unfolding all_referenced
all_referenced-contains tools d [] files own release file e h named has = absurd (ground arith)
all_referenced-contains tools d (r ∷ releases) files own release file e h named has =
    elim (Result-cases (referenced_files tools d r)) [
      | inl (x, bad) ↦ absurd (ground (arith, rw bad at e))
      | inr (first, found) ↦ elim (Result-cases (all_referenced tools d releases)) [
        | inl (x, bad) ↦ absurd (ground (arith, rw bad at (rw found at e)))
        | inr (rest, later) ↦
            let joint : insert_all first rest ≡ files = cc (rw later at (rw found at e)) in
            let either : (contains first file || contains rest file) ≡ contains files file =
              sym (contains-insert_all first rest file) ∙ ap (λ l. contains l file) joint in
            elim (Bool-cases (r == release)) [
              | inl same ↦
                  let all_own : first ≡ own =
                    cc (found, named, ap (referenced_files tools d) ((==_iff r release).0 same)) in
                  sym either ∙ ground (arith, subst (λ l. contains l file ≡ true) (sym all_own) has)
              | inr other ↦
                  let kept =
                    all_referenced-contains tools d releases rest own release file later
                      (ground arith) named has in
                  sym either ∙ ground arith
            ]
      ]
    ]

module _ (tools : Tools) where
  pub prune_keeping-releases :
      (keep : List String) (d : Disk) (release : String)
      → contains keep release ≡ true
      → (prune_keeping tools keep d).1.releases release ≡ d.releases release
  prune_keeping-releases [] d release h = refl
  prune_keeping-releases (r ∷ releases) d release h =
      elim (Result-cases (all_referenced tools d (r ∷ releases))) [
        | inl (x, bad) ↦ rw (bad, prune_files) refl
        | inr (files, found) ↦
            rw (found, prune_files)
              (remove_stale-kept (is_stale_release (r ∷ releases)) (tools.release_names d)
                d.releases release (ground arith))
      ]

  pub prune_keeping-arch :
      (keep : List String) (d : Disk) (release : String) (own : List String) (name : String)
      → contains keep release ≡ true
      → referenced_files tools d release ≡ ok own
      → contains own (without_suffix ".sig" name) ≡ true
      → (prune_keeping tools keep d).1.arch name ≡ d.arch name
  unfolding is_stale_package
  prune_keeping-arch [] d release own name h named has = refl
  prune_keeping-arch (r ∷ releases) d release own name h named has =
      elim (Result-cases (all_referenced tools d (r ∷ releases))) [
        | inl (x, bad) ↦ rw (bad, prune_files) refl
        | inr (files, found) ↦
            let kept =
              all_referenced-contains tools d (r ∷ releases) files own release
                (without_suffix ".sig" name) found h named has in
            rw (found, prune_files)
              (remove_stale-kept (is_stale_package files)
                (tools.arch_names (prune_releases tools (r ∷ releases) d)) d.arch name
                (ground arith))
      ]
