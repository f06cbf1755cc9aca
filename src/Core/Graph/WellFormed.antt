-- ===== src/Core/Graph/WellFormed.antt =====
-- What the two ways to extend a graph do to its packages and edges, and the invariant they keep.
use aursmith.Base.{
  String, [], true, false, not, ◌&&◌, ◌||◌, some, ◌==◌, ==_iff, string_ord, ◌≡◌, arith, contains,
  insert, lookup, keys, if◌then◌else◌, IsSorted, insert-IsSorted, keys-put, lookup-put,
  contains-insert, Bool-cases, inl, inr, Option-cases,
}
use aursmith.Core.Graph.{
  Edges, DependencyGraph, or_default, entry_or_default, add_package, add_dependency,
  dependencies_of, contains_package,
}

-- The keys ascend, every dependency is a package of the graph, and none depends on itself.
pub record IsWellFormed (g : DependencyGraph) : Type 0 where
  pub sorted : IsSorted (keys g.dependencies)
  pub closed :
      (n d : String) → contains (dependencies_of g n) d ≡ true → contains_package g d ≡ true
  pub irreflexive : (n : String) → contains (dependencies_of g n) n ≡ false

lookup-entry_or_default :
    (k j : String) (m : Edges)
    → lookup j (entry_or_default k m)
      ≡ (if k == j then some (or_default (lookup k m)) else lookup j m)
lookup-entry_or_default k j m = ground (arith, lookup-put k j [] m, ==_iff k j)

entry_or_default-IsSorted :
    (k : String) (m : Edges) → IsSorted (keys m) → IsSorted (keys (entry_or_default k m))
entry_or_default-IsSorted k m h = elim (Option-cases (lookup k m)) [
  | inl e ↦ rw (e, entry_or_default) (rw keys-put (insert-IsSorted k (keys m) h))
  | inr (s, e) ↦ rw (e, entry_or_default) h
]

module _ (g : DependencyGraph) (b : String) where
  contains_package-add_package :
      (n : String) → contains_package (add_package g b) n ≡ (b == n || contains_package g n)
  unfolding add_package contains_package
  contains_package-add_package n = ground (arith, lookup-entry_or_default b n g.dependencies)

  dependencies_of-add_package :
      (n : String) → dependencies_of (add_package g b) n ≡ dependencies_of g n
  unfolding add_package dependencies_of
  dependencies_of-add_package n =
      ground (arith, lookup-entry_or_default b n g.dependencies, ==_iff b n)

  -- Adding a package keeps a graph well formed.
  pub add_package-IsWellFormed : IsWellFormed g → IsWellFormed (add_package g b)
  add_package-IsWellFormed h = record {
    sorted = unfold add_package in entry_or_default-IsSorted b g.dependencies h.sorted;
    closed = λ n d e.
        ground (arith, dependencies_of-add_package n, contains_package-add_package d, h.closed n d);
    irreflexive = λ n. ground (arith, dependencies_of-add_package n, h.irreflexive n);
  }

  module _ (d : String) where
    contains_package-add_dependency :
        (n : String)
        → contains_package (add_dependency g b d) n ≡ (b == n || (d == n || contains_package g n))
    unfolding add_dependency contains_package
    contains_package-add_dependency n = ground (
      arith,
      lookup-entry_or_default d n g.dependencies,
      lookup-entry_or_default b n g.dependencies,
      lookup-put b n (insert d (or_default (lookup b (entry_or_default d g.dependencies))))
          (entry_or_default d g.dependencies),
      ==_iff b d,
      ==_iff b n,
      ==_iff d n,
    )

    dependencies_of-add_dependency :
        (n e : String)
        → contains (dependencies_of (add_dependency g b d) n) e
          ≡ (contains (dependencies_of g n) e || (b == n && d == e && not (b == d)))
    unfolding add_dependency dependencies_of
    dependencies_of-add_dependency n e = ground (
      arith,
      lookup-entry_or_default d n g.dependencies,
      lookup-entry_or_default d b g.dependencies,
      lookup-entry_or_default b n g.dependencies,
      lookup-put b n (insert d (or_default (lookup b (entry_or_default d g.dependencies))))
          (entry_or_default d g.dependencies),
      contains-insert d e (or_default (lookup b (entry_or_default d g.dependencies))),
      ==_iff b d,
      ==_iff b n,
      ==_iff d n,
    )

    add_dependency-IsSorted :
        IsSorted (keys g.dependencies) → IsSorted (keys (add_dependency g b d).dependencies)
    unfolding add_dependency add_package
    add_dependency-IsSorted h = elim (Bool-cases (b == d)) [
      | inl e ↦ rw e (entry_or_default-IsSorted b g.dependencies h)
      | inr e ↦ rw e (
          rw keys-put (
            insert-IsSorted b (keys (entry_or_default d g.dependencies))
              (entry_or_default-IsSorted d g.dependencies h)))
    ]

    -- Adding a dependency keeps a graph well formed, also where it names the package itself.
    pub add_dependency-IsWellFormed : IsWellFormed g → IsWellFormed (add_dependency g b d)
    add_dependency-IsWellFormed h = record {
      sorted = add_dependency-IsSorted h.sorted;
      closed = λ n e. ground (
        arith,
        dependencies_of-add_dependency n e,
        contains_package-add_dependency e,
        h.closed n e,
        ==_iff d e,
      );
      irreflexive = λ n. ground (
        arith,
        dependencies_of-add_dependency n n,
        h.irreflexive n,
        ==_iff b n,
        ==_iff d n,
        ==_iff b d,
      );
    }

    -- A new dependency adds its two packages, and the one edge between them unless it names the
    -- package itself; everything else stays.
    pub add_dependency_adds :
        (n e : String)
        → (contains_package (add_dependency g b d) n ≡ (b == n || (d == n || contains_package g n)))
          × (contains (dependencies_of (add_dependency g b d) n) e
              ≡ (contains (dependencies_of g n) e || (b == n && d == e && not (b == d))))
    add_dependency_adds n e =
        (contains_package-add_dependency n, dependencies_of-add_dependency n e)
