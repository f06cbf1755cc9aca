-- ===== src/Daemon/Publish/Desired/Choosing.antt =====
-- crates/aursmithd/src/publish.rs: what the first two loops of `desired_state` compute.
use aursmith.Base.{
  String, List, [], ◌∷◌, true, ◌&&◌, Option, none, some, ◌≡◌, refl, sym, ap, ◌∙◌, arith, ◌==◌,
  string_ord, contains, keys, All, Bool-cases, Option-cases, inl, inr, is_some, contains-insert,
  keys-put, All-put, ==_iff, ==_refl,
}
use aursmith.Core.Protocol.{ArtifactRecord}
use aursmith.Daemon.State.{AppState}
use aursmith.Daemon.Keyed.{All-imp}
use aursmith.Daemon.Closure.{Closure}
use aursmith.Daemon.Builds.Usable.{usable_build}
use aursmith.Daemon.Publish.Desired.{Chosen, choose, choose_all, withhold, is_missing}

module _ (s : AppState) where
  pub keys-choose_all :
      (members : List String) (m : String)
      → contains (keys (choose_all s members)) m
        ≡ (contains members m && is_some (usable_build s m))
  unfolding choose_all
  keys-choose_all [] m = refl
  keys-choose_all (base ∷ members) m = elim (Option-cases (usable_build s base)) [
    | inl e ↦ elim (Bool-cases (base == m)) [
      | inl same ↦
          let gone = sym (ap (usable_build s) ((==_iff base m).0 same)) ∙ e in
          rw (e, choose) (ground (arith, keys-choose_all members m, gone))
      | inr other ↦ rw (e, choose) (ground (arith, keys-choose_all members m))
    ]
    | inr (build, e) ↦ elim (Bool-cases (base == m)) [
      | inl same ↦
          let there = sym (ap (usable_build s) ((==_iff base m).0 same)) ∙ e in
          rw (e, choose)
            (ground (
              arith,
              keys-put base build (choose_all s members),
              contains-insert base m (keys (choose_all s members)),
              there,
            ))
      | inr other ↦
          rw (e, choose)
            (ground (
              arith,
              keys-put base build (choose_all s members),
              contains-insert base m (keys (choose_all s members)),
              keys-choose_all members m,
            ))
    ]
  ]

  -- an entry of the first loop
  abbrev pub IsChosen : List String → String × (String × List ArtifactRecord) → Type 0
  IsChosen members entry =
      (contains members entry.0 ≡ true) × (usable_build s entry.0 ≡ some entry.1)

  choose-IsChosen :
      (base : String) (members : List String) (found : Option (String × List ArtifactRecord))
      (chosen : Chosen)
      → usable_build s base ≡ found
      → All (IsChosen (base ∷ members)) chosen
      → All (IsChosen (base ∷ members)) (choose base found chosen)
  choose-IsChosen base members none chosen e h = h
  choose-IsChosen base members (some build) chosen e h =
      All-put (IsChosen (base ∷ members)) base build chosen (ground (arith, ==_refl base), e) h

  pub choose_all-IsChosen : (members : List String) → All (IsChosen members) (choose_all s members)
  unfolding choose_all
  choose_all-IsChosen [] = tt
  choose_all-IsChosen (base ∷ members) =
      choose-IsChosen base members (usable_build s base) (choose_all s members) refl (
        All-imp (IsChosen members) (IsChosen (base ∷ members)) (choose_all s members)
          (λ entry h. (ground arith, h.1)) (choose_all-IsChosen members))

  pub contains-withhold :
      (c : Closure) (chosen : Chosen) (members : List String) (base : String)
      → contains (withhold c chosen members) base
        ≡ (contains members base && is_missing c chosen base)
  unfolding withhold
  contains-withhold c chosen [] base = refl
  contains-withhold c chosen (x ∷ members) base = elim (Bool-cases (x == base)) [
    | inl same ↦
        let missing = ap (is_missing c chosen) ((==_iff x base).0 same) in
        ground (
          arith,
          contains-withhold c chosen members base,
          contains-insert x base (withhold c chosen members),
          missing,
        )
    | inr other ↦ ground (
      arith,
      contains-withhold c chosen members base,
      contains-insert x base (withhold c chosen members),
    )
  ]
