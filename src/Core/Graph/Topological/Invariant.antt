-- ===== src/Core/Graph/Topological/Invariant.antt =====
-- What holds between two rounds of `topological_order`.
use mathlib.Core.Bool.{false≢true}
use aursmith.Base.{
  keep, contains-keys, ℕ, zero, suc, String, List, [], ◌∷◌, ◌++◌, Bool, true, false, not, ◌&&◌,
  ◌||◌, Option, none, some, ◌==◌, ==_iff, ==_refl, string_ord, ◌≡◌, refl, subst, inl, inr, arith,
  is_empty, contains, contains-append, contains-remove, remove, lookup, lookup-drop_key, drop_key,
  keys, keys-drop_key, is_some, IsSorted, remove-IsSorted, IsSorted-Nodup, Nodup, Nodup-snoc,
  Option-cases, List-cases, if◌then◌else◌,
}
use aursmith.Core.Graph.{
  Edges, DependencyGraph, dependencies_of, contains_package, map_option, release, Sorting, visit,
  sort_loop, sort_start,
}
use aursmith.Core.Graph.WellFormed.{IsWellFormed}
use aursmith.Core.Graph.Release.{
  freed, keys-release, lookup-release, contains-release, is_empty_of_remove, is_empty-remove,
}

abbrev free : Option (List String) → Bool
free none = false
free (some ds) = is_empty ds

module _ (g : DependencyGraph) where
  -- Each package comes after all its dependencies, where those of `before` have come already.
  abbrev pub DependenciesFirst : List String → List String → Type 0
  DependenciesFirst before [] = Unit
  DependenciesFirst before (n ∷ order) =
      ((d : String) → contains (dependencies_of g n) d ≡ true → contains before d ≡ true)
      × DependenciesFirst (before ++ n ∷ []) order

  pub record Inv (s : Sorting) : Type 0 where
    pub sorted : IsSorted (keys s.remaining)
    pub exact :
        (n : String) (ds : List String)
        → lookup n s.remaining ≡ some ds
        → (d : String)
        → contains ds d ≡ (contains (dependencies_of g n) d && not (contains s.ordered d))
    pub present :
        (n : String)
        → is_some (lookup n s.remaining) ≡ (contains_package g n && not (contains s.ordered n))
    pub ready_free :
        (n : String) (ds : List String)
        → contains s.ready n ≡ true
        → lookup n s.remaining ≡ some ds
        → is_empty ds ≡ true
    pub free_ready :
        (n : String) (ds : List String)
        → lookup n s.remaining ≡ some ds
        → is_empty ds ≡ true
        → contains s.ready n ≡ true
    pub known : (n : String) → contains s.ordered n ≡ true → contains_package g n ≡ true
    pub once : Nodup s.ordered
    pub first : DependenciesFirst [] s.ordered

  DependenciesFirst-snoc :
      (before order : List String) (n : String)
      → DependenciesFirst before order
      → ((d : String)
          → contains (dependencies_of g n) d ≡ true
          → contains (before ++ order) d ≡ true)
      → DependenciesFirst before (order ++ n ∷ [])
  DependenciesFirst-snoc before [] n h k =
      (λ d e. ground (arith, k d e, contains-append before [] d), tt)
  DependenciesFirst-snoc before (m ∷ order) n h k = (
    h.0,
    DependenciesFirst-snoc (before ++ m ∷ []) order n h.1 (λ d e. ground (
      arith,
      k d e,
      contains-append before (m ∷ order) d,
      contains-append (before ++ m ∷ []) order d,
      contains-append before (m ∷ []) d,
    )),
  )

  module _ (node : String) (ready : List String) (s : Sorting) (popped : s.ready ≡ node ∷ ready)
      (h : Inv s) where
    -- the round that finds its package gone
    module _ (gone : lookup node s.remaining ≡ none) where
      Inv-skip : Inv (record s { ready = ready })
      Inv-skip = record {
        sorted = h.sorted;
        exact = h.exact;
        present = h.present;
        ready_free = λ n ds e k. h.ready_free n ds (rw popped (ground arith)) k;
        free_ready =
            λ n ds e k. ground (arith, rw popped at (h.free_ready n ds e k), ==_iff node n);
        known = h.known;
        once = h.once;
        first = h.first;
      }

    -- the round that takes its package
    module _ (ds₀ : List String) (found : lookup node s.remaining ≡ some ds₀) where
      abbrev left : Edges × List String
      left = release node (drop_key node s.remaining)

      abbrev after : Sorting
      after = record {
        remaining = left.0;
        ready = ready ++ left.1;
        ordered = s.ordered ++ node ∷ [];
      }

      keys_after-IsSorted : IsSorted (keys (drop_key node s.remaining))
      keys_after-IsSorted = rw keys-drop_key (remove-IsSorted node (keys s.remaining) h.sorted)

      lookup_after :
          (n : String)
          → lookup n left.0
            ≡ (if node == n then none else map_option (remove node) (lookup n s.remaining))
      lookup_after n = ground (
        arith,
        lookup-release node n (drop_key node s.remaining),
        lookup-drop_key node n s.remaining,
      )

      pushed_after :
          (n : String)
          → contains left.1 n ≡ (if node == n then false else freed node (lookup n s.remaining))
      pushed_after n = ground (
        arith,
        contains-release node n (drop_key node s.remaining)
            (IsSorted-Nodup (keys (drop_key node s.remaining)) keys_after-IsSorted),
        lookup-drop_key node n s.remaining,
      )

      ordered_after :
          (n : String) → contains (s.ordered ++ node ∷ []) n ≡ (contains s.ordered n || node == n)
      ordered_after n = ground (arith, contains-append s.ordered (node ∷ []) n)

      ready_before : (n : String) → contains s.ready n ≡ (node == n || contains ready n)
      ready_before n = rw popped refl

      after_exact :
          (n : String) (ds : List String)
          → lookup n left.0 ≡ some ds
          → (d : String)
          → contains ds d
            ≡ (contains (dependencies_of g n) d && not (contains (s.ordered ++ node ∷ []) d))
      after_exact n ds e d = elim (Option-cases (lookup n s.remaining)) [
        | inl none_left ↦ ground (arith, lookup_after n)
        | inr (old, was) ↦ ground (
          arith,
          lookup_after n,
          h.exact n old was d,
          contains-remove node d old,
          ordered_after d,
        )
      ]

      after_ready_free :
          (n : String) (ds : List String)
          → contains (ready ++ left.1) n ≡ true
          → lookup n left.0 ≡ some ds
          → is_empty ds ≡ true
      after_ready_free n ds e k = elim (Option-cases (lookup n s.remaining)) [
        | inl none_left ↦ ground (arith, lookup_after n)
        | inr (old, was) ↦ ground (
          arith,
          lookup_after n,
          pushed_after n,
          contains-append ready left.1 n,
          ready_before n,
          h.ready_free n old,
          is_empty-remove node old,
        )
      ]

      after_free_ready :
          (n : String) (ds : List String)
          → lookup n left.0 ≡ some ds
          → is_empty ds ≡ true
          → contains (ready ++ left.1) n ≡ true
      after_free_ready n ds e k = elim (Option-cases (lookup n s.remaining)) [
        | inl none_left ↦ ground (arith, lookup_after n)
        | inr (old, was) ↦ ground (
          arith,
          lookup_after n,
          pushed_after n,
          contains-append ready left.1 n,
          ready_before n,
          h.free_ready n old,
          is_empty_of_remove node old,
        )
      ]

      Inv-after : Inv after
      Inv-after = record {
        sorted = rw keys-release keys_after-IsSorted;
        exact = after_exact;
        present = λ n. ground (arith, h.present n, lookup_after n, ordered_after n);
        ready_free = after_ready_free;
        free_ready = after_free_ready;
        known =
            λ n e. ground (arith, h.known n, h.present n, found, ordered_after n, ==_iff node n);
        once = Nodup-snoc s.ordered node h.once (ground (arith, h.present node, found));
        first = DependenciesFirst-snoc [] s.ordered node h.first (λ d e. ground (
          arith,
          h.exact node ds₀ found d,
          h.ready_free node ds₀,
          ready_before node,
          ==_refl node,
        ));
      }

    Inv-visit : Inv (visit node ready s)
    unfolding visit
    Inv-visit = elim (Option-cases (lookup node s.remaining)) [
      | inl gone ↦ rw (gone, visit) (Inv-skip gone)
      | inr (ds, found) ↦ rw (found, visit) (Inv-after ds found)
    ]

  pub Inv-loop :
      (fuel : ℕ) (s t : Sorting) → Inv s → sort_loop fuel s ≡ some t → Inv t × (t.ready ≡ [])
  unfolding sort_loop
  Inv-loop zero s t h e = elim (List-cases s.ready) [
    | inl done ↦
        let same : s ≡ t = ground arith in subst (λ x. Inv x × (x.ready ≡ [])) same (h, done)
    | inr (node, ready, popped) ↦ ground arith
  ]
  Inv-loop (suc fuel) s t h e = elim (List-cases s.ready) [
    | inl done ↦
        let same : s ≡ t = ground arith in subst (λ x. Inv x × (x.ready ≡ [])) same (h, done)
    | inr (node, ready, popped) ↦
        Inv-loop fuel (visit node ready s) t (Inv-visit node ready s popped h)
          (rw (popped, sort_loop) at e)
  ]

  free_packages :
      (m : Edges) (n : String)
      → Nodup (keys m)
      → contains (keys (keep (λ entry. is_empty entry.1) m)) n ≡ free (lookup n m)
  free_packages [] n h = refl
  free_packages ((base, ds) ∷ m) n h =
      ground (arith, free_packages m n, contains-keys m base, ==_iff base n)

  pub Inv-start : IsWellFormed g → Inv (sort_start g)
  Inv-start h = record {
    sorted = h.sorted;
    exact = λ n ds e d. unfold dependencies_of in ground arith;
    present = λ n. unfold contains_package in ground arith;
    ready_free = λ n ds e k.
        ground
          (arith, free_packages g.dependencies n (IsSorted-Nodup (keys g.dependencies) h.sorted));
    free_ready = λ n ds e k.
        ground
          (arith, free_packages g.dependencies n (IsSorted-Nodup (keys g.dependencies) h.sorted));
    known = λ n e. absurd (false≢true e);
    once = tt;
    first = tt;
  }
