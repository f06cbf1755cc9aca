-- ===== src/Core/Graph/Release.antt =====
-- One round of `topological_order`: what `release` leaves and pushes, and why the loop ends.
use aursmith.Base.{
  ℕ, zero, suc, ◌+◌, ◌≤◌, String, List, [], ◌∷◌, Bool, true, false, ◌&&◌, Option, none, some,
  ==_iff, string_ord, ◌≡◌, refl, arith, length, length-append, is_empty, keep, contains, remove,
  lookup, drop_key, keys, contains-keys, Nodup, if◌then◌else◌, inl, inr, ap, List-cases,
}
use aursmith.Core.Graph.{
  Edges, DependencyGraph, map_option, release, Sorting, visit, sort_loop, sort_start,
}

-- whether a package whose dependencies are `o` is pushed when `node` is taken
abbrev pub freed : String → Option (List String) → Bool
freed node none = false
freed node (some ds) = contains ds node && is_empty (remove node ds)

pub keys-release : (node : String) (m : Edges) → keys (release node m).0 ≡ keys m
unfolding release
keys-release node [] = refl
keys-release node ((base, ds) ∷ m) = ground (arith, keys-release node m)

pub lookup-release :
    (node n : String) (m : Edges)
    → lookup n (release node m).0 ≡ map_option (remove node) (lookup n m)
unfolding release
lookup-release node n [] = refl
lookup-release node n ((base, ds) ∷ m) = ground (arith, lookup-release node n m)

pub contains-release :
    (node n : String) (m : Edges)
    → Nodup (keys m)
    → contains (release node m).1 n ≡ freed node (lookup n m)
unfolding release
contains-release node n [] h = refl
contains-release node n ((base, ds) ∷ m) h =
    ground (arith, contains-release node n m, contains-keys m base, ==_iff base n)

pub is_empty_of_remove :
    (a : String) (xs : List String)
    → is_empty (remove a xs) ≡ true
    → contains xs a ≡ false
    → is_empty xs ≡ true
is_empty_of_remove a [] h k = refl
is_empty_of_remove a (x ∷ xs) h k = ground arith

pub is_empty-remove :
    (a : String) (xs : List String) → is_empty xs ≡ true → is_empty (remove a xs) ≡ true
is_empty-remove a [] h = refl
is_empty-remove a (x ∷ xs) h = ground arith

-- the packages with dependencies left
abbrev blocked : Edges → ℕ
blocked [] = 0
blocked ((base, ds) ∷ m) = (if is_empty ds then 0 else 1) + blocked m

blocked-release :
    (node : String) (m : Edges) → length (release node m).1 + blocked (release node m).0 ≤ blocked m
unfolding release
blocked-release node [] = omega arith
blocked-release node ((base, ds) ∷ m) =
    ground (arith, blocked-release node m, is_empty-remove node ds)

blocked-drop_key : (node : String) (m : Edges) → blocked (drop_key node m) ≤ blocked m
blocked-drop_key node [] = omega arith
blocked-drop_key node ((base, ds) ∷ m) = ground (arith, blocked-drop_key node m)

free_or_blocked :
    (m : Edges) → length (keys (keep (λ entry. is_empty entry.1) m)) + blocked m ≡ length m
free_or_blocked [] = omega arith
free_or_blocked ((base, ds) ∷ m) = ground (arith, free_or_blocked m)

abbrev work : Sorting → ℕ
work s = length s.ready + blocked s.remaining

work-visit :
    (node : String) (ready : List String) (s : Sorting)
    → work (visit node ready s) ≤ length ready + blocked s.remaining
unfolding visit
work-visit node ready s = ground (
  arith,
  blocked-release node (drop_key node s.remaining),
  blocked-drop_key node s.remaining,
  length-append ready (release node (drop_key node s.remaining)).1,
)

sort_loop_ends :
    (fuel : ℕ) (s : Sorting) → work s ≤ fuel → (t : Sorting) × (sort_loop fuel s ≡ some t)
unfolding sort_loop
sort_loop_ends zero s h = (s, ground arith)
sort_loop_ends (suc fuel) s h = elim (List-cases s.ready) [
  | inl done ↦ (s, simp (done, sort_loop))
  | inr (node, ready, e) ↦
      rw (e, sort_loop)
        (sort_loop_ends fuel (visit node ready s)
          (omega (arith, work-visit node ready s, ap length e)))
]

pub sort_ends :
    (g : DependencyGraph)
    → (t : Sorting) × (sort_loop (length g.dependencies) (sort_start g) ≡ some t)
sort_ends g =
    sort_loop_ends (length g.dependencies) (sort_start g)
      (omega (arith, free_or_blocked g.dependencies))
