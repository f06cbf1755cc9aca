-- ===== src/Daemon/Publish/Garbage/Pruned.antt =====
-- crates/aursmithd/src/publish.rs: what the removal of artifacts leaves, and that the desired state is
-- the same after it.
use aursmith.Base.{
  ℕ, String, List, [], ◌∷◌, true, false, not, ◌&&◌, Option, none, ◌≡◌, refl, sym, ◌∙◌, ap, subst,
  arith, fun_ext, Bool-cases, inl, inr, contains, string_ord, ◌==◌, ==_iff, ==_refl, if◌then◌else◌,
}
use aursmith.Daemon.State.{AppState, Directory}
use aursmith.Daemon.Builds.Failure.{remove_directory}
use aursmith.Daemon.Publish.Garbage.{collect_garbage, remove_unreferenced, kept_ids, in_progress}

-- the state with other artifacts
abbrev pub with_artifacts : (String → Option Directory) → AppState → AppState
with_artifacts artifacts s = record s { artifacts = artifacts }

-- the artifacts without the entries that nothing keeps
abbrev pub pruned : AppState → List String → List String → String → Option Directory
pruned s kept entries id =
    if contains entries id && not (contains kept id) && not (in_progress s id)
    then none
    else s.artifacts id

pruned-removed :
    (s : AppState) (kept : List String) (name : String) (entries : List String) (id : String)
    → (not (contains kept name) && not (in_progress s name)) ≡ true
    → pruned (remove_directory name s) kept entries id ≡ pruned s kept (name ∷ entries) id
pruned-removed s kept name entries id gone = elim (Bool-cases (id == name)) [
  | inl e ↦
      let same = (==_iff id name).0 e in
      subst
        (λ n.
          (not (contains kept n) && not (in_progress s n)) ≡ true
          → pruned (remove_directory n s) kept entries id ≡ pruned s kept (n ∷ entries) id)
        same (λ g. rw (==_refl id) (ground (arith, ==_refl id))) gone
  | inr n ↦ rw n (ground (arith, ==_iff id name, ==_iff name id))
]

pruned-kept :
    (s : AppState) (kept : List String) (name : String) (entries : List String) (id : String)
    → (not (contains kept name) && not (in_progress s name)) ≡ false
    → pruned s kept entries id ≡ pruned s kept (name ∷ entries) id
pruned-kept s kept name entries id stays = elim (Bool-cases (name == id)) [
  | inl e ↦
      subst
        (λ n.
          (not (contains kept n) && not (in_progress s n)) ≡ false
          → pruned s kept entries id ≡ pruned s kept (n ∷ entries) id)
        (sym ((==_iff name id).0 e)) (λ g. ground (arith, ==_refl id)) stays
  | inr n ↦ ground arith
]

remove_unreferenced-pruned :
    (kept entries : List String) (s : AppState) (removed : ℕ)
    → (remove_unreferenced kept entries (s, removed)).0 ≡ with_artifacts (pruned s kept entries) s
unfolding remove_unreferenced
remove_unreferenced-pruned kept [] s removed = refl
remove_unreferenced-pruned kept (name ∷ entries) s removed =
    elim (Bool-cases (not (contains kept name) && not (in_progress s name))) [
      | inl gone ↦
          rw (gone, remove_unreferenced)
            (remove_unreferenced-pruned kept entries (remove_directory name s) _
              ∙ ap (λ f. with_artifacts f s)
                  (fun_ext (λ id. pruned-removed s kept name entries id gone)))
      | inr stays ↦
          rw (stays, remove_unreferenced)
            (remove_unreferenced-pruned kept entries s removed
              ∙ ap (λ f. with_artifacts f s)
                  (fun_ext (λ id. pruned-kept s kept name entries id stays)))
    ]

-- what is left of the artifacts
pub collect_garbage-pruned :
    (entries : List String) (s : AppState)
    → (collect_garbage entries s).0 ≡ with_artifacts (pruned s (kept_ids s) entries) s
unfolding collect_garbage
collect_garbage-pruned entries s = remove_unreferenced-pruned (kept_ids s) entries s 0
