-- ===== src/Daemon/Closure.antt =====
-- crates/aursmithd/src/packages.rs, the closure: which packages the subscriptions need, computed from
-- the dependencies of each package's newest revision. The `while let` loop takes fuel; `Fuel` shows
-- that it ends by itself within the fuel given.
pub mod Fuel
mod Examples
use aursmith.Base.{
  ℕ, zero, suc, ◌+◌, String, List, [], ◌∷◌, ◌++◌, Bool, true, false, not, ◌&&◌, ◌||◌, Option, none,
  some, ◌==◌, string_ord, pair_ord, contains, insert, lookup, put, keep, length, newest, ltb, foldl,
  to_set, is_some, if◌then◌else◌,
}
use aursmith.Core.Graph
use aursmith.Core.Graph.{DependencyGraph, add_package, add_dependency}
use aursmith.Daemon.State.{
  AppState, Revision, RevisionState, pending_review, manual_review, approved, rejected, superseded,
  ResolvedDependency, official, aur, needs_selection, unknown, DependencyState,
}

abbrev pub maximum_closure : ℕ
maximum_closure = 256

pub record Closure : Type 0 where
  pub direct : List String
  pub members : List String
  pub graph : DependencyGraph
  pub unresolved : List (String × List String)
  pub required_by : List (String × List String)

abbrev pub is_approved : RevisionState → Bool
is_approved approved = true
is_approved _ = false

abbrev pub in_review : RevisionState → Bool
in_review pending_review = true
in_review manual_review = true
in_review _ = false

-- the rows of `WHERE package_base = ? AND state …`
abbrev pub revisions_of : (RevisionState → Bool) → AppState → String → List Revision
revisions_of test s base = keep (λ r. r.package_base == base && test r.state) s.revisions

abbrev pub or_else : Option Revision → Option Revision → Option Revision
or_else none other = other
or_else (some r) other = some r

-- `ORDER BY CASE state WHEN 'approved' THEN 0 ELSE 1 END, created_at DESC LIMIT 1`
unfoldable pub dependency_revision : AppState → String → Option Revision
dependency_revision s base =
    or_else (newest (λ r. r.created_at) (revisions_of is_approved s base))
      (newest (λ r. r.created_at) (revisions_of in_review s base))

abbrev pub dependencies_of_row : Option Revision → List ResolvedDependency
dependencies_of_row none = []
dependencies_of_row (some r) = r.dependencies

abbrev pub found_dependencies : AppState → String → List ResolvedDependency
found_dependencies s base = dependencies_of_row (dependency_revision s base)

abbrev or_nil : Option (List String) → List String
or_nil none = []
or_nil (some xs) = xs

-- `match dependency.state`: the package that a dependency stands for
abbrev pub target_of : DependencyState → AppState → String → ResolvedDependency → Option String
target_of aur s base dependency = dependency.target
target_of needs_selection s base dependency = lookup (base, dependency.name) s.provider_choices
target_of official s base dependency = none
target_of unknown s base dependency = none

abbrev pub not_base : String → Option String → Option String
not_base base none = none
not_base base (some target) = if target == base then none else some target

abbrev pub needs_choice : DependencyState → Option String → Bool
needs_choice needs_selection none = true
needs_choice _ _ = false

abbrev pub note_unresolved : String → String → Closure → Closure
note_unresolved base name c = record c {
  unresolved = put base (or_nil (lookup base c.unresolved) ++ name ∷ []) c.unresolved;
}

abbrev add_edge : String → String → Closure → Closure
add_edge base target c = record c {
  graph = add_dependency c.graph base target;
  required_by = put target (insert base (or_nil (lookup target c.required_by))) c.required_by;
}

-- `if let Some(target) = target.filter(…)`, with the queue
abbrev pub follow : String → Option String → Closure × List String → Closure × List String
follow base none (c, queue) = (c, queue)
follow base (some target) (c, queue) =
    (add_edge base target c, if contains c.members target then queue else queue ++ target ∷ [])

-- one round of `for dependency in dependencies`
unfoldable pub visit_dependency :
    AppState → String → Closure × List String → ResolvedDependency → Closure × List String
visit_dependency s base (c, queue) dependency =
    let target = target_of dependency.state s base dependency in
    let noted =
      if needs_choice dependency.state target then note_unresolved base dependency.name c else c in
    follow base (not_base base target) (noted, queue)

-- a package taken from the queue that is no member yet
abbrev pub enter : String → Closure → Closure
enter base c = record c { members = insert base c.members; graph = add_package c.graph base }

abbrev pub is_full : Closure → Bool
is_full c = ltb maximum_closure (length c.members)

unfoldable pub closure_loop : AppState → ℕ → Closure → List String → Closure × List String
unfolding visit_dependency
closure_loop s fuel c [] = (c, [])
closure_loop s zero c (base ∷ queue) = (c, base ∷ queue)
closure_loop s (suc fuel) c (base ∷ queue) = elim (contains c.members base) [
  | true ↦ closure_loop s fuel c queue
  | false ↦ elim (is_full (enter base c)) [
    | true ↦ (enter base c, base ∷ queue)
    | false ↦
        let (next, pushed) =
          foldl (visit_dependency s base) (enter base c, queue) (found_dependencies s base) in
        closure_loop s fuel next pushed
  ]
]

-- all the dependencies of all the revisions
abbrev pub dependency_count : List Revision → ℕ
dependency_count [] = 0
dependency_count (r ∷ rows) = length r.dependencies + dependency_count rows

abbrev pub start_closure : AppState → Closure
start_closure s = record {
  direct = to_set s.subscriptions;
  members = [];
  graph = Graph.empty;
  unresolved = [];
  required_by = [];
}

abbrev pub closure_fuel : AppState → ℕ
closure_fuel s = length (to_set s.subscriptions) + dependency_count s.revisions

-- the closure with what was left in the queue
unfoldable pub closure_run : AppState → Closure × List String
unfolding closure_loop dependency_revision
closure_run s = closure_loop s (closure_fuel s) (start_closure s) (to_set s.subscriptions)

abbrev pub compute_closure : AppState → Closure
compute_closure s = (closure_run s).0
