-- ===== src/Core/Graph.antt =====
-- crates/aursmith-core/src/graph.rs: the dependency graph of package bases, its topological order
-- and the closure of a set of roots. A `BTreeMap` is an ascending association list, a `VecDeque` a
-- list whose front is the head; the `while let` loops take fuel, which the modules below show to
-- suffice.
pub mod WellFormed
pub mod Release
pub mod Reachable
pub mod Topological
mod Examples
use aursmith.Base.{
  ℕ, zero, suc, ◌+◌, String, List, [], ◌∷◌, ◌++◌, Bool, true, false, not, ◌&&◌, Option, none, some,
  ◌==◌, string_ord, Result, ok, err, length, is_empty, keep, contains, insert, remove, lookup, put,
  drop_key, keys, is_some, if◌then◌else◌, to_set,
}

abbrev pub Edges : Type 0
Edges = List (String × List String)

pub record DependencyGraph : Type 0 where
  pub dependencies : Edges

pub data GraphError : Type 0 where
  cycle : List String → GraphError

abbrev pub empty : DependencyGraph
empty = record { dependencies = [] }

-- `get(k).unwrap_or_default()`
abbrev pub or_default : Option (List String) → List String
or_default none = []
or_default (some s) = s

-- `entry(k).or_default()`
abbrev pub entry_or_default : String → Edges → Edges
entry_or_default k m = elim (lookup k m) [ none ↦ put k [] m | some s ↦ m ]

unfoldable pub add_package : DependencyGraph → String → DependencyGraph
add_package g base = record { dependencies = entry_or_default base g.dependencies }

unfoldable pub add_dependency : DependencyGraph → String → String → DependencyGraph
unfolding add_package
add_dependency g base dependency =
    let entered = entry_or_default dependency g.dependencies in
    if base == dependency then add_package g base else record {
      dependencies = put base (insert dependency (or_default (lookup base entered))) entered;
    }

unfoldable pub dependencies_of : DependencyGraph → String → List String
dependencies_of g base = or_default (lookup base g.dependencies)

unfoldable pub contains_package : DependencyGraph → String → Bool
contains_package g base = is_some (lookup base g.dependencies)

-- `for (dependent, dependencies) in &mut remaining { if dependencies.remove(&node) && … }`: the
-- map that is left, and the dependents that are pushed.
pub release : String → Edges → Edges × List String
release node [] = ([], [])
release node ((dependent, ds) ∷ m) =
    let (rest, ready) = release node m in
    let left = remove node ds in
    (
      (dependent, left) ∷ rest,
      if contains ds node && is_empty left then dependent ∷ ready else ready,
    )

pub record Sorting : Type 0 where
  pub remaining : Edges
  pub ready : List String
  pub ordered : List String

-- one round of `while let Some(node) = ready.pop_front()`
pub visit : String → List String → Sorting → Sorting
unfolding release
visit node ready s =
    let (remaining, released) = release node (drop_key node s.remaining) in
    if is_some (lookup node s.remaining)
    then record {
      remaining = remaining;
      ready = ready ++ released;
      ordered = s.ordered ++ node ∷ [];
    }
    else record s { ready = ready }

pub sort_loop : ℕ → Sorting → Option Sorting
sort_loop zero s = elim s.ready [ [] ↦ some s | node ∷ ready ↦ none ]
sort_loop (suc fuel) s = elim s.ready [
  | [] ↦ some s
  | node ∷ ready ↦ sort_loop fuel (visit node ready s)
]

abbrev pub sort_start : DependencyGraph → Sorting
sort_start g = record {
  remaining = g.dependencies;
  ready = keys (keep (λ entry. is_empty entry.1) g.dependencies);
  ordered = [];
}

abbrev pub sort_end : Sorting → Result (List String) GraphError
sort_end s = if is_empty s.remaining then ok s.ordered else err (cycle (keys s.remaining))

abbrev pub map_option {ℓ κ} : {A : Type ℓ} {B : Type κ} → (A → B) → Option A → Option B
map_option f none = none
map_option f (some a) = some (f a)

-- `none` means that the fuel ran out.
unfoldable pub topological_order : DependencyGraph → Option (Result (List String) GraphError)
unfolding sort_loop visit
topological_order g = map_option sort_end (sort_loop (length g.dependencies) (sort_start g))

-- the dependencies that `closure` pushes: those not seen yet
abbrev pub unseen_of : List String → List String → List String
unseen_of seen ds = keep (λ d. not (contains seen d)) ds

pub closure_loop : DependencyGraph → ℕ → List String → List String → Option (List String)
closure_loop g fuel [] seen = some seen
closure_loop g zero (node ∷ queue) seen = none
closure_loop g (suc fuel) (node ∷ queue) seen = elim (contains seen node) [
  | true ↦ closure_loop g fuel queue seen
  | false ↦
      closure_loop g fuel (queue ++ unseen_of (insert node seen) (dependencies_of g node))
        (insert node seen)
]

abbrev pub edge_count : Edges → ℕ
edge_count [] = 0
edge_count ((base, ds) ∷ m) = length ds + edge_count m

-- A dependency is pushed once for each edge at most.
unfoldable pub closure : DependencyGraph → List String → Option (List String)
unfolding closure_loop dependencies_of
closure g roots = closure_loop g (length roots + edge_count g.dependencies) roots []
