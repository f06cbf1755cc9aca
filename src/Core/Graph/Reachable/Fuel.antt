-- ===== src/Core/Graph/Reachable/Fuel.antt =====
-- The loop of `closure` ends within its fuel: a round that visits a package pushes at most as many
-- as that package has edges, and no package is visited twice.
use aursmith.Base.{
  ℕ, zero, suc, ◌+◌, ◌≤◌, String, List, [], ◌∷◌, ◌++◌, false, not, some, ==_iff, string_ord, ◌≡◌,
  refl, arith, length, length-append, length-keep, contains, insert, contains-insert, lookup,
  if◌then◌else◌, Bool-cases, inl, inr,
}
use aursmith.Core.Graph.{
  Edges, DependencyGraph, or_default, dependencies_of, unseen_of, closure_loop, edge_count, closure,
}

-- the edges that leave packages not seen yet
abbrev pub edges_unseen : List String → Edges → ℕ
edges_unseen seen [] = 0
edges_unseen seen ((base, ds) ∷ m) =
    (if contains seen base then 0 else length ds) + edges_unseen seen m

edges_unseen-nil : (m : Edges) → edges_unseen [] m ≡ edge_count m
edges_unseen-nil [] = refl
edges_unseen-nil ((base, ds) ∷ m) = omega (arith, edges_unseen-nil m)

edges_unseen_mono :
    (node : String) (seen : List String) (m : Edges)
    → edges_unseen (insert node seen) m ≤ edges_unseen seen m
edges_unseen_mono node seen [] = omega arith
edges_unseen_mono node seen ((base, ds) ∷ m) =
    ground (arith, edges_unseen_mono node seen m, contains-insert node base seen)

edges_unseen-insert :
    (node : String) (seen : List String) (m : Edges)
    → contains seen node ≡ false
    → edges_unseen (insert node seen) m + length (or_default (lookup node m)) ≤ edges_unseen seen m
edges_unseen-insert node seen [] h = omega arith
edges_unseen-insert node seen ((base, ds) ∷ m) h = ground (
  arith,
  edges_unseen-insert node seen m,
  edges_unseen_mono node seen m,
  contains-insert node base seen,
  ==_iff base node,
  ==_iff node base,
)

module _ (g : DependencyGraph) where
  closure_loop_ends :
      (fuel : ℕ) (queue seen : List String)
      → length queue + edges_unseen seen g.dependencies ≤ fuel
      → (result : List String) × (closure_loop g fuel queue seen ≡ some result)
  unfolding closure_loop dependencies_of
  closure_loop_ends fuel [] seen h = (seen, refl)
  closure_loop_ends zero (node ∷ queue) seen h = absurd (omega arith)
  closure_loop_ends (suc fuel) (node ∷ queue) seen h = elim (Bool-cases (contains seen node)) [
    | inl old ↦ rw (old, closure_loop) (closure_loop_ends fuel queue seen (omega arith))
    | inr new ↦
        rw (new, closure_loop)
          (closure_loop_ends fuel (queue ++ unseen_of (insert node seen) (dependencies_of g node))
            (insert node seen)
            (omega (
              arith,
              length-append queue (unseen_of (insert node seen) (dependencies_of g node)),
              length-keep (λ d. not (contains (insert node seen) d)) (dependencies_of g node),
              edges_unseen-insert node seen g.dependencies new,
            )))
  ]

  -- The fuel of `closure` suffices for any roots.
  pub closure_total :
      (roots : List String) → (result : List String) × (closure g roots ≡ some result)
  unfolding closure
  closure_total roots =
      closure_loop_ends (length roots + edge_count g.dependencies) roots []
        (omega (arith, edges_unseen-nil g.dependencies))
