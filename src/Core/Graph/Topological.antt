-- ===== src/Core/Graph/Topological.antt =====
-- The order that `topological_order` finds, and what it reports where there is none.
pub mod Invariant
use aursmith.Base.{
  ℕ, zero, suc, ◌+◌, ◌<◌, String, List, [], ◌∷◌, Bool, true, false, not, ◌&&◌, Option, none, some,
  ◌==◌, string_ord, ◌≡◌, refl, ◌⊎◌, inl, inr, arith, ok, err, is_empty, contains, lookup, keys,
  contains-keys, is_some, Nodup, Bool-cases, Option-cases, List-cases, length, if◌then◌else◌, subst,
  any, ==_refl,
}
use aursmith.Core.Graph.{
  Edges, DependencyGraph, cycle, dependencies_of, contains_package, map_option, Sorting, sort_loop,
  sort_start, sort_end, topological_order,
}
use aursmith.Core.Graph.WellFormed.{IsWellFormed}
use aursmith.Core.Graph.Release.{sort_ends}
use Invariant.{DependenciesFirst, Inv, Inv-start, Inv-loop}

module _ (g : DependencyGraph) where
  -- the order of all packages
  pub record IsBuildOrder (order : List String) : Type 0 where
    pub first : DependenciesFirst g [] order
    pub once : Nodup order
    pub whole : (n : String) → contains order n ≡ contains_package g n

  -- packages that wait for one another: there are some, and each depends on another of them
  pub record IsStuck (stuck : List String) : Type 0 where
    pub some_package : (n : String) × (contains stuck n ≡ true)
    pub packages : (n : String) → contains stuck n ≡ true → contains_package g n ≡ true
    pub waits :
        (n : String)
        → contains stuck n ≡ true
        → (d : String) × (contains (dependencies_of g n) d ≡ true) × (contains stuck d ≡ true)

  sort_end-ok : (t : Sorting) → Inv g t → t.remaining ≡ [] → IsBuildOrder t.ordered
  sort_end-ok t h e = record {
    first = h.first;
    once = h.once;
    whole = λ n. ground (arith, rw e at (h.present n), h.known n);
  }

  some_member : (ds : List String) → is_empty ds ≡ false → (d : String) × (contains ds d ≡ true)
  some_member [] h = absurd (cc)
  some_member (d ∷ ds) h = (d, ground (arith, ==_refl d))

  some_key : (m : Edges) → is_empty m ≡ false → (n : String) × (contains (keys m) n ≡ true)
  some_key [] h = absurd (cc)
  some_key ((n, ds) ∷ m) h = (n, ground (arith, ==_refl n))

  module _ (wf : IsWellFormed g) where
    -- A package that is left depends on another that is left.
    waits_lem :
        (t : Sorting)
        → Inv g t
        → t.ready ≡ []
        → (n : String) → contains (keys t.remaining) n ≡ true
        → (d : String) × (contains (dependencies_of g n) d ≡ true)
          × (contains (keys t.remaining) d ≡ true)
    waits_lem t h idle n left = elim (Option-cases (lookup n t.remaining)) [
      | inl gone ↦ absurd (ground (arith, contains-keys t.remaining n))
      | inr (ds, here) ↦ elim (Bool-cases (is_empty ds)) [
        | inl free ↦ absurd (ground (arith, rw idle at (h.free_ready n ds here free)))
        | inr blocked ↦
            let (d, m) = some_member ds blocked in
            (
              d,
              ground (arith, h.exact n ds here d),
              ground (
                arith,
                h.exact n ds here d,
                contains-keys t.remaining d,
                h.present d,
                wf.closed n d,
              ),
            )
      ]
    ]

    sort_end-cycle :
        (t : Sorting)
        → Inv g t
        → t.ready ≡ []
        → is_empty t.remaining ≡ false
        → IsStuck (keys t.remaining)
    sort_end-cycle t h idle more = record {
      some_package = some_key t.remaining more;
      packages = λ n e. ground (arith, contains-keys t.remaining n, h.present n);
      waits = waits_lem t h idle;
    }

    -- `topological_order` returns. Either it orders the packages, each once and behind its
    -- dependencies, or it reports a set of packages each of which depends on another of the set.
    pub topological_order_correct :
        ((order : List String) × (topological_order g ≡ some (ok order)) × IsBuildOrder order)
        ⊎ ((stuck : List String) × (topological_order g ≡ some (err (cycle stuck))) × IsStuck stuck)
    unfolding topological_order
    topological_order_correct =
        let (t, ends) = sort_ends g in
        let (inv, idle) = Inv-loop g _ (sort_start g) t (Inv-start g wf) ends in
        elim (List-cases t.remaining) [
          | inl e ↦ inl (t.ordered, ground arith, sort_end-ok t inv e)
          | inr (x, rest, e) ↦
              inr (keys t.remaining, ground arith, sort_end-cycle t inv idle (ground arith))
        ]

    unstuck :
        (stuck : List String)
        → IsStuck stuck
        → (rank : String → ℕ)
        → ((n d : String) → contains (dependencies_of g n) d ≡ true → rank d < rank n)
        → (k : ℕ) (n : String) → rank n < k
        → contains stuck n ≡ true
        → ⊥
    unstuck stuck h rank falls zero n lt e = omega arith
    unstuck stuck h rank falls (suc k) n lt e =
        let (d, edge, m) = h.waits n e in
        unstuck stuck h rank falls k d (omega (arith, falls n d edge)) m

    -- Where the edges descend along some rank, so that no cycle exists, `topological_order` finds an
    -- order of all the packages.
    pub topological_order_complete :
        (rank : String → ℕ)
        → ((n d : String) → contains (dependencies_of g n) d ≡ true → rank d < rank n)
        → (order : List String) × (topological_order g ≡ some (ok order)) × IsBuildOrder order
    topological_order_complete rank falls = elim topological_order_correct [
      | inl found ↦ found
      | inr (stuck, e, h) ↦ absurd (
          unstuck stuck h rank falls (suc (rank h.some_package.0)) h.some_package.0 (omega arith)
            h.some_package.1)
    ]
