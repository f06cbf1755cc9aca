-- ===== src/Daemon/Closure/Fuel.antt =====
-- The loop of `compute_closure` ends by itself: with an empty queue, or at the maximum of members.
use aursmith.Base.{
  ℕ, zero, suc, ◌+◌, ◌≤◌, String, List, [], ◌∷◌, Bool, true, false, ◌&&◌, Option, none, some, ◌==◌,
  ==_iff, string_ord, ◌≡◌, refl, ◌⊎◌, inl, inr, arith, contains, insert, contains-insert, keep,
  length, length-append, newest, foldl, to_set, if◌then◌else◌, Bool-cases,
}
use aursmith.Daemon.State.{AppState, Revision, RevisionState, ResolvedDependency}
use aursmith.Daemon.Closure.{
  Closure, is_approved, in_review, dependency_revision, dependencies_of_row, found_dependencies,
  visit_dependency, enter, is_full, closure_loop, follow, not_base, target_of, needs_choice,
  note_unresolved, dependency_count, start_closure, closure_fuel, closure_run,
}

abbrev counted : (Revision → Bool) → List Revision → ℕ
counted p [] = 0
counted p (r ∷ rows) = (if p r then length r.dependencies else 0) + counted p rows

newest-le-counted :
    (key : Revision → ℕ) (p : Revision → Bool) (rows : List Revision)
    → length (dependencies_of_row (newest key (keep p rows))) ≤ counted p rows
newest-le-counted key p [] = omega arith
newest-le-counted key p (r ∷ rows) = ground (arith, newest-le-counted key p rows)

-- the dependencies of the revisions of packages that are no members
abbrev pending : List String → List Revision → ℕ
pending members [] = 0
pending members (r ∷ rows) =
    (if contains members r.package_base then 0 else length r.dependencies) + pending members rows

pending-insert :
    (base : String) (members : List String) (test : RevisionState → Bool) (rows : List Revision)
    → contains members base ≡ false
    → pending (insert base members) rows
        + counted (λ r. r.package_base == base && test r.state) rows
      ≤ pending members rows
pending-insert base members test [] h = omega arith
pending-insert base members test (r ∷ rows) h = ground (
  arith,
  pending-insert base members test rows h,
  contains-insert base r.package_base members,
  ==_iff r.package_base base,
  ==_iff base r.package_base,
)

pending-nil : (rows : List Revision) → pending [] rows ≡ dependency_count rows
pending-nil [] = refl
pending-nil (r ∷ rows) = omega (arith, pending-nil rows)

follow_lem :
    (base : String) (target : Option String) (c : Closure) (queue : List String)
    → ((follow base target (c, queue)).0.members ≡ c.members)
      × (length (follow base target (c, queue)).1 ≤ length queue + 1)
follow_lem base none c queue = (refl, omega arith)
follow_lem base (some target) c queue = ground (arith, length-append queue (target ∷ []))

module _ (s : AppState) where
  found_dependencies-le :
      (base : String) (members : List String)
      → contains members base ≡ false
      → pending (insert base members) s.revisions + length (found_dependencies s base)
        ≤ pending members s.revisions
  unfolding dependency_revision
  found_dependencies-le base members h = ground (
    arith,
    pending-insert base members is_approved s.revisions h,
    pending-insert base members in_review s.revisions h,
    newest-le-counted (λ r. r.created_at) (λ r. r.package_base == base && is_approved r.state)
        s.revisions,
    newest-le-counted (λ r. r.created_at) (λ r. r.package_base == base && in_review r.state)
        s.revisions,
  )

  visit_dependency_lem :
      (base : String) (c : Closure) (queue : List String) (d : ResolvedDependency)
      → ((visit_dependency s base (c, queue) d).0.members ≡ c.members)
        × (length (visit_dependency s base (c, queue) d).1 ≤ length queue + 1)
  unfolding visit_dependency
  visit_dependency_lem base c queue d =
      let target = not_base base (target_of d.state s base d) in
      let noted =
        if needs_choice d.state (target_of d.state s base d)
        then note_unresolved base d.name c
        else c in
      ground (arith, follow_lem base target noted queue)

  visits_lem :
      (base : String) (c : Closure) (queue : List String) (ds : List ResolvedDependency)
      → ((foldl (visit_dependency s base) (c, queue) ds).0.members ≡ c.members)
        × (length (foldl (visit_dependency s base) (c, queue) ds).1 ≤ length queue + length ds)
  visits_lem base c queue [] = (refl, omega arith)
  visits_lem base c queue (d ∷ ds) =
      let (next, pushed) = visit_dependency s base (c, queue) d in
      ground (arith, visit_dependency_lem base c queue d, visits_lem base next pushed ds)

  loop_ends :
      (fuel : ℕ) (c : Closure) (queue : List String)
      → length queue + pending c.members s.revisions ≤ fuel
      → ((closure_loop s fuel c queue).1 ≡ []) ⊎ (is_full (closure_loop s fuel c queue).0 ≡ true)
  unfolding closure_loop
  loop_ends fuel c [] h = inl refl
  loop_ends zero c (base ∷ queue) h = absurd (omega arith)
  loop_ends (suc fuel) c (base ∷ queue) h = elim (Bool-cases (contains c.members base)) [
    | inl old ↦ rw (old, closure_loop) (loop_ends fuel c queue (omega arith))
    | inr new ↦ elim (Bool-cases (is_full (enter base c))) [
      | inl full ↦ inr (simp (new, full, closure_loop))
      | inr room ↦
          let visits = visits_lem base (enter base c) queue (found_dependencies s base) in
          let (next, pushed) =
            foldl (visit_dependency s base) (enter base c, queue) (found_dependencies s base) in
          rw (new, closure_loop)
            (rw (room, closure_loop)
              (loop_ends fuel next pushed
                (ground (arith, visits, found_dependencies-le base c.members new))))
    ]
  ]

-- `compute_closure` leaves its loop with an empty queue or with more than the maximum of members,
-- never for want of fuel.
pub closure_run_ends :
    (s : AppState) → ((closure_run s).1 ≡ []) ⊎ (is_full (closure_run s).0 ≡ true)
unfolding closure_run
closure_run_ends s =
    loop_ends s (closure_fuel s) (start_closure s) (to_set s.subscriptions)
      (omega (arith, pending-nil s.revisions))
