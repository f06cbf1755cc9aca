-- ===== src/Daemon/Publish/Garbage/Same.antt =====
-- crates/aursmithd/src/publish.rs: the desired state is the same after artifacts have been removed.
use aursmith.Base.{
  ℕ, zero, suc, String, List, [], ◌∷◌, Bool, true, Option, none, some, ◌≡◌, refl, ◌∙◌, ap, subst,
  arith, Bool-cases, Option-cases, inl, inr, all, find, keep, contains, contains-insert, string_ord,
  ◌==◌, ==_iff, ==_refl, is_some, foldl, some-injective,
}
use aursmith.Core.Protocol.{ArtifactRecord}
use aursmith.Daemon.State.{
  AppState, Bytes, Directory, Build, DependencyState, official, aur, needs_selection, unknown,
  ResolvedDependency,
}
use aursmith.Daemon.Closure.{
  Closure, compute_closure, closure_run, closure_loop, closure_fuel, start_closure,
  visit_dependency, target_of, enter, is_full, found_dependencies, dependency_revision,
}
use aursmith.Daemon.Builds.Usable.{
  usable_build, has_files, found_build, artifact_file, is_succeeded,
}
use aursmith.Daemon.Builds.Found.{candidates}
use aursmith.Daemon.Publish.Desired.{
  desired_state, choose_all, choose, withhold, gather_all, nothing_gathered, desired_of,
}
use aursmith.Daemon.Publish.Garbage.{
  collect_garbage, kept_ids, usable_ids, keep_usable, add_referenced, referenced,
  recent_publications,
}
use aursmith.Daemon.Publish.Garbage.Pruned.{with_artifacts, pruned, collect_garbage-pruned}
use aursmith.Daemon.Publish.Garbage.Sound.{HasFewer, pruned-HasFewer}

module _ (f : String → Option Directory) (s : AppState) where
  target_of-same :
      (state : DependencyState) (base : String) (d : ResolvedDependency)
      → target_of state (with_artifacts f s) base d ≡ target_of state s base d
  target_of-same official base d = refl
  target_of-same aur base d = refl
  target_of-same needs_selection base d = refl
  target_of-same unknown base d = refl

  visit_all-same :
      (base : String) (dependencies : List ResolvedDependency) (c : Closure) (queue : List String)
      → foldl (visit_dependency (with_artifacts f s) base) (c, queue) dependencies
        ≡ foldl (visit_dependency s base) (c, queue) dependencies
  unfolding visit_dependency
  visit_all-same base [] c queue = refl
  visit_all-same base (d ∷ rest) c queue =
      let (next, pushed) = visit_dependency s base (c, queue) d in
      rw (target_of-same d.state base d) (visit_all-same base rest next pushed)

  closure_loop-same :
      (fuel : ℕ) (c : Closure) (queue : List String)
      → closure_loop (with_artifacts f s) fuel c queue ≡ closure_loop s fuel c queue
  unfolding closure_loop dependency_revision
  closure_loop-same fuel c [] = refl
  closure_loop-same zero c (base ∷ queue) = refl
  closure_loop-same (suc fuel) c (base ∷ queue) = elim (Bool-cases (contains c.members base)) [
    | inl old ↦ rw (old, closure_loop) (closure_loop-same fuel c queue)
    | inr new ↦ elim (Bool-cases (is_full (enter base c))) [
      | inl full ↦ rw (new, closure_loop) (rw (full, closure_loop) refl)
      | inr room ↦
          let (next, pushed) =
            foldl (visit_dependency s base) (enter base c, queue) (found_dependencies s base) in
          let visited = visit_all-same base (found_dependencies s base) (enter base c) queue in
          rw (new, closure_loop)
            (rw (room, closure_loop)
              (ap (λ x. closure_loop (with_artifacts f s) fuel x.0 x.1) visited
                ∙ closure_loop-same fuel next pushed))
    ]
  ]

  pub compute_closure-same : compute_closure (with_artifacts f s) ≡ compute_closure s
  unfolding closure_run
  compute_closure-same =
      ap (λ x. x.0) (closure_loop-same (closure_fuel s) (start_closure s) (start_closure s).direct)

-- Two tests that agree on what one of them finds, of which the other passes no more.
find-same :
    (p q : Build → Bool) (rows : List Build)
    → ((b : Build) → q b ≡ true → p b ≡ true)
    → ((b : Build) → find p rows ≡ some b → q b ≡ true)
    → find q rows ≡ find p rows
find-same p q [] h k = refl
find-same p q (b ∷ rows) h k = elim (Bool-cases (p b)) [
  | inl e ↦ let there = k b (rw (e, find) refl) in rw (e, find) (rw (there, find) refl)
  | inr n ↦ elim (Bool-cases (q b)) [
    | inl e ↦ absurd (ground (arith, h b e))
    | inr m ↦
        rw (n, find) (rw (m, find) (find-same p q rows h (λ x found. k x (rw (n, find) found))))
  ]
]

all_mono :
    (p q : ArtifactRecord → Bool) (artifacts : List ArtifactRecord)
    → ((a : ArtifactRecord) → p a ≡ true → q a ≡ true)
    → all p artifacts ≡ true
    → all q artifacts ≡ true
all_mono p q [] h e = refl
all_mono p q (a ∷ artifacts) h e = ground (arith, h a, all_mono p q artifacts h)

fewer-is_some :
    (fewer files : String → Option Bytes) (file : String)
    → HasFewer fewer files
    → is_some (fewer file) ≡ true
    → is_some (files file) ≡ true
fewer-is_some fewer files file h e = elim (Option-cases (fewer file)) [
  | inl n ↦ absurd (ground arith)
  | inr (bytes, there) ↦ ground (arith, h file bytes there)
]

module _ (s : AppState) (kept entries : List String) where
  left : AppState
  left = with_artifacts (pruned s kept entries) s

  has_files-left : (b : Build) → has_files left b ≡ true → has_files s b ≡ true
  unfolding has_files left
  has_files-left b h = ground (
    arith,
    all_mono (λ a. is_some (artifact_file left b.id a.file))
        (λ a. is_some (artifact_file s b.id a.file)) b.artifacts
        (λ a.
          fewer-is_some (artifact_file left b.id) (artifact_file s b.id) a.file
            (pruned-HasFewer s kept entries b.id)),
  )

  kept-has_files : (b : Build) → contains kept b.id ≡ true → has_files left b ≡ has_files s b
  unfolding has_files left
  kept-has_files b h = rw h (ground arith)

  -- The usable build of a package, where it is kept, is the usable build still.
  pub usable_build-left :
      (base : String)
      → ((id : String) (records : List ArtifactRecord)
          → usable_build s base ≡ some (id, records)
          → contains kept id ≡ true)
      → usable_build (with_artifacts (pruned s kept entries) s) base ≡ usable_build s base
  unfolding usable_build left
  usable_build-left base h = ap found_build (
      find-same (has_files s) (has_files left) (candidates s base) has_files-left (λ b found.
        let stays = h b.id b.artifacts (ap found_build found) in
        kept-has_files b stays ∙ passes (candidates s base) b found))
    where
      passes :
          (rows : List Build) (b : Build) → find (has_files s) rows ≡ some b → has_files s b ≡ true
      passes [] b e = absurd (ground arith)
      passes (x ∷ rows) b e = elim (Bool-cases (has_files s x)) [
        | inl here ↦
            subst (λ y. has_files s y ≡ true) (some-injective x b (rw (here, find) at e)) here
        | inr there ↦ passes rows b (rw (there, find) at e)
      ]

-- The usable build of each member is kept.
add_referenced-keeps :
    (digests : List String) (builds : List Build) (kept : List String) (id : String)
    → contains kept id ≡ true
    → contains (add_referenced digests builds kept) id ≡ true
add_referenced-keeps digests [] kept id h = h
add_referenced-keeps digests (b ∷ builds) kept id h = ground (
  arith,
  add_referenced-keeps digests builds kept id h,
  contains-insert b.id id (add_referenced digests builds kept),
)

contains-keep_usable :
    (id : String) (found : Option (String × List ArtifactRecord)) (kept : List String)
    → contains kept id ≡ true
    → contains (keep_usable found kept) id ≡ true
contains-keep_usable id none kept h = h
contains-keep_usable id (some (other, records)) kept h =
    ground (arith, contains-insert other id kept)

usable_ids-keeps :
    (s : AppState) (members : List String) (base id : String) (records : List ArtifactRecord)
    → contains members base ≡ true
    → usable_build s base ≡ some (id, records)
    → contains (usable_ids s members) id ≡ true
unfolding usable_ids
usable_ids-keeps s [] base id records h e = absurd (ground arith)
usable_ids-keeps s (x ∷ members) base id records h e = elim (Bool-cases (x == base)) [
  | inl same ↦
      rw (ap (usable_build s) ((==_iff x base).0 same) ∙ e, keep_usable)
        (ground (arith, contains-insert id id (usable_ids s members), ==_refl id))
  | inr other ↦
      contains-keep_usable id (usable_build s x) (usable_ids s members)
        (usable_ids-keeps s members base id records (ground arith) e)
]

kept_ids-usable :
    (s : AppState) (base id : String) (records : List ArtifactRecord)
    → contains (compute_closure s).members base ≡ true
    → usable_build s base ≡ some (id, records)
    → contains (kept_ids s) id ≡ true
unfolding kept_ids
kept_ids-usable s base id records member e =
    add_referenced-keeps (referenced (recent_publications s))
      (keep (λ b. is_succeeded b.state) s.builds) (usable_ids s (compute_closure s).members) id
      (usable_ids-keeps s (compute_closure s).members base id records member e)

choose_all-same :
    (s t : AppState) (members : List String)
    → ((base : String) → contains members base ≡ true → usable_build t base ≡ usable_build s base)
    → choose_all t members ≡ choose_all s members
unfolding choose_all
choose_all-same s t [] h = refl
choose_all-same s t (base ∷ members) h =
    let rest = choose_all-same s t members (λ x e. h x (ground arith)) in
    rw (h base (ground (arith, ==_refl base))) (ap (choose base (usable_build s base)) rest)

-- The removal of artifacts, whatever the entries of the store, changes neither the closure of the
-- subscriptions nor the desired state of the repository.
pub collect_garbage-desired :
    (entries : List String) (s : AppState)
    → (compute_closure (collect_garbage entries s).0 ≡ compute_closure s)
      × (desired_state (collect_garbage entries s).0 (compute_closure s)
          ≡ desired_state s (compute_closure s))
unfolding desired_state
collect_garbage-desired entries s = rw (collect_garbage-pruned entries s) (
  compute_closure-same (pruned s (kept_ids s) entries) s,
  ap
      (λ chosen.
        let withheld = withhold (compute_closure s) chosen (compute_closure s).members in
        desired_of s withheld (gather_all withheld chosen nothing_gathered))
      (choose_all-same s (with_artifacts (pruned s (kept_ids s) entries) s)
        (compute_closure s).members
        (λ base member.
          usable_build-left s (kept_ids s) entries base
            (λ id records e. kept_ids-usable s base id records member e))),
)
