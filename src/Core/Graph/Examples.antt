-- ===== src/Core/Graph/Examples.antt =====
-- Tests of the graph's module, those of graph.rs among them.
use aursmith.Base.{
  ℕ, ◌<◌, String, ◌≡◌, refl, List, [], ◌∷◌, true, ◌&&◌, ◌||◌, not, some, ok, err, ◌==◌, ==_iff,
  string_ord, ◌↔◌, ◌⊎◌, arith, contains, IsSorted, if◌then◌else◌,
}
use mathlib.Core.Bool.{false≢true}
use aursmith.Core.Graph.{
  DependencyGraph, empty, add_package, add_dependency, dependencies_of, contains_package,
  topological_order, closure, cycle,
}
use aursmith.Core.Graph.WellFormed.{
  IsWellFormed, add_package-IsWellFormed, add_dependency-IsWellFormed, add_dependency_adds,
}
use aursmith.Core.Graph.Reachable.{Reach, closure_correct}
use aursmith.Core.Graph.Topological.{
  IsBuildOrder, IsStuck, topological_order_correct, topological_order_complete,
}

abbrev chain : DependencyGraph
chain = add_dependency (add_dependency empty "app" "library") "library" "toolchain-addon"

abbrev sample : DependencyGraph
sample = add_package chain "unrelated"

sample_order :
    topological_order sample ≡ some (ok ("toolchain-addon" ∷ "unrelated" ∷ "library" ∷ "app" ∷ []))
unfolding add_dependency topological_order
sample_order = refl

sample-closure : closure sample ("app" ∷ []) ≡ some ("app" ∷ "library" ∷ "toolchain-addon" ∷ [])
unfolding add_dependency closure
sample-closure = refl

cyclic_order :
    topological_order (add_dependency sample "toolchain-addon" "app")
    ≡ some (err (cycle ("app" ∷ "library" ∷ "toolchain-addon" ∷ [])))
unfolding add_dependency topological_order
cyclic_order = refl

self_dependency : topological_order (add_dependency empty "a" "a") ≡ some (ok ("a" ∷ []))
unfolding add_dependency topological_order
self_dependency = refl

empty-IsWellFormed : IsWellFormed empty
unfolding dependencies_of
empty-IsWellFormed = record {
  sorted = tt;
  closed = λ n d e. absurd (false≢true e);
  irreflexive = λ n. refl;
}

chain-IsWellFormed : IsWellFormed chain
chain-IsWellFormed =
    add_dependency-IsWellFormed (add_dependency empty "app" "library") "library" "toolchain-addon"
      (add_dependency-IsWellFormed empty "app" "library" empty-IsWellFormed)

sample-IsWellFormed : IsWellFormed sample
sample-IsWellFormed = add_package-IsWellFormed chain "unrelated" chain-IsWellFormed

add_dependency-IsWellFormed_example : IsWellFormed (add_dependency chain "app" "toolchain-addon")
add_dependency-IsWellFormed_example =
    add_dependency-IsWellFormed chain "app" "toolchain-addon" chain-IsWellFormed

abbrev app : String
app = "app"

abbrev library : String
library = "library"

abbrev addon : String
addon = "toolchain-addon"

add_dependency_adds_example :
    (contains_package (add_dependency empty app library) app
      ≡ (app == app || (library == app || contains_package empty app)))
    × (contains (dependencies_of (add_dependency empty app library) app) library ≡ (
        contains (dependencies_of empty app) library
        || (app == app && library == library && not (app == library))))
add_dependency_adds_example = add_dependency_adds empty app library app library

closure_correct_example :
    (result : List String) × (closure sample ("app" ∷ []) ≡ some result)
    × IsSorted result
    × ((n : String) → (contains result n ≡ true) ↔ ∥ Reach sample ("app" ∷ []) n ∥₁)
closure_correct_example = closure_correct sample ("app" ∷ [])

topological_order_correct_example :
    ((order : List String) × (topological_order sample ≡ some (ok order))
      × IsBuildOrder sample order)
    ⊎ ((stuck : List String) × (topological_order sample ≡ some (err (cycle stuck)))
        × IsStuck sample stuck)
topological_order_correct_example = topological_order_correct sample sample-IsWellFormed

abbrev rank : String → ℕ
rank n = if "app" == n then 2 else if "library" == n then 1 else 0

chain_descends : (n d : String) → contains (dependencies_of chain n) d ≡ true → rank d < rank n
unfolding dependencies_of add_dependency
chain_descends n d e = ground (
  arith,
  ==_iff "app" n,
  ==_iff "library" n,
  ==_iff "app" d,
  ==_iff "library" d,
  ==_iff "toolchain-addon" d,
  ==_iff app library,
  ==_iff app addon,
  ==_iff library addon,
)

topological_order_complete_example :
    (order : List String) × (topological_order chain ≡ some (ok order)) × IsBuildOrder chain order
topological_order_complete_example =
    topological_order_complete chain chain-IsWellFormed rank chain_descends
