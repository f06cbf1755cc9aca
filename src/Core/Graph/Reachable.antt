-- ===== src/Core/Graph/Reachable.antt =====
-- The closure of a set of roots against the walks along the dependency edges.
pub mod Fuel
use aursmith.Base.{
  ℕ, zero, suc, String, List, [], ◌∷◌, ◌++◌, Bool, true, false, not, ◌&&◌, ◌||◌, none, some, ◌==◌,
  ==_iff, ==_refl, string_ord, ◌≡◌, refl, sym, ◌∙◌, subst, ◌↔◌, ◌⊎◌, inl, inr, arith, contains,
  insert, contains-append, contains-insert, contains-keep, keep, Bool-cases, some-injective,
  IsSorted, insert-IsSorted,
}
use mathlib.Core.Bool.{false≢true, So-prop}
use mathlib.Core.Logic.{∥∥₁_elim}
use aursmith.Core.Graph.{DependencyGraph, dependencies_of, unseen_of, closure_loop, closure}
use Fuel.{closure_total}

-- the packages that a walk along dependency edges reaches from a root
pub data Reach (g : DependencyGraph) (roots : List String) : String → Type 0 where
  root : {n : String} → contains roots n ≡ true → Reach g roots n
  step :
      {n d : String} → Reach g roots n → contains (dependencies_of g n) d ≡ true → Reach g roots d

module _ (g : DependencyGraph) (roots : List String) where
  record Inv (queue seen : List String) : Type 0 where
    sound : (n : String) → (contains seen n || contains queue n) ≡ true → Reach g roots n
    rooted : (n : String) → contains roots n ≡ true → (contains seen n || contains queue n) ≡ true
    closed :
        (n d : String)
        → contains seen n ≡ true
        → contains (dependencies_of g n) d ≡ true
        → (contains seen d || contains queue d) ≡ true
    sorted : IsSorted seen

  Inv-skip :
      (node : String) (queue seen : List String)
      → contains seen node ≡ true
      → Inv (node ∷ queue) seen
      → Inv queue seen
  Inv-skip node queue seen old h = record {
    sound = λ n e. h.sound n (ground (arith, e));
    rooted = λ n e. ground (arith, h.rooted n, ==_iff node n);
    closed = λ n d e k. ground (arith, h.closed n d, ==_iff node d);
    sorted = h.sorted;
  }

  pushed : String → List String → List String → List String
  pushed node queue seen = queue ++ unseen_of (insert node seen) (dependencies_of g node)

  known_after :
      (node : String) (queue seen : List String) (n : String)
      → (contains (insert node seen) n || contains (pushed node queue seen) n)
        ≡ (node == n || contains seen n || contains queue n || contains (dependencies_of g node) n)
  unfolding pushed
  known_after node queue seen n = ground (
    arith,
    contains-insert node n seen,
    contains-append queue (unseen_of (insert node seen) (dependencies_of g node)) n,
    contains-keep (λ d. not (contains (insert node seen) d)) (dependencies_of g node) n,
  )

  Inv-visit :
      (node : String) (queue seen : List String)
      → Inv (node ∷ queue) seen
      → Inv (pushed node queue seen) (insert node seen)
  Inv-visit node queue seen h = record {
    sound = λ n e. elim (Bool-cases (contains (dependencies_of g node) n)) [
      | inl edge ↦ step (h.sound node (ground (arith, ==_refl node))) edge
      | inr other ↦ h.sound n (ground (arith, known_after node queue seen n))
    ];
    rooted = λ n e. ground (arith, h.rooted n e, known_after node queue seen n);
    closed = λ n d e k. ground (
      arith,
      h.closed n d,
      known_after node queue seen d,
      contains-insert node n seen,
      ==_iff node n,
    );
    sorted = insert-IsSorted node seen h.sorted;
  }

  Inv-loop :
      (fuel : ℕ) (queue seen result : List String)
      → Inv queue seen
      → closure_loop g fuel queue seen ≡ some result
      → Inv [] result
  unfolding closure_loop pushed
  Inv-loop fuel [] seen result h e = let same : seen ≡ result = cc in subst (Inv []) same h
  Inv-loop zero (node ∷ queue) seen result h e = cc
  Inv-loop (suc fuel) (node ∷ queue) seen result h e = elim (Bool-cases (contains seen node)) [
    | inl old ↦
        Inv-loop fuel queue seen result (Inv-skip node queue seen old h)
          (rw (old, closure_loop) at e)
    | inr new ↦
        Inv-loop fuel (pushed node queue seen) (insert node seen) result
          (Inv-visit node queue seen h) (rw (new, closure_loop) at e)
  ]

  Inv-start : Inv roots []
  Inv-start = record {
    sound = λ n e. root e;
    rooted = λ n e. e;
    closed = λ n d e k. absurd (false≢true e);
    sorted = tt;
  }

  complete :
      (result : List String)
      → Inv [] result
      → {n : String} → Reach g roots n
      → contains result n ≡ true
  complete result h (root {n} e) = ground (arith, h.rooted n e)
  complete result h (step {n} {d} r e) = ground (arith, h.closed n d (complete result h r) e)

  -- `closure` returns, its result ascends with no package twice, and a package is in it exactly if a
  -- walk along dependency edges leads to it from a root.
  pub closure_correct :
      (result : List String) × (closure g roots ≡ some result)
      × IsSorted result
      × ((n : String) → (contains result n ≡ true) ↔ ∥ Reach g roots n ∥₁)
  unfolding closure
  closure_correct =
      let (result, ends) = closure_total g roots in
      let inv = Inv-loop _ roots [] result Inv-start ends in
      (
        result,
        ends,
        inv.sorted,
        λ n. (
          λ m. ∣ inv.sound n (ground arith) ∣₁,
          λ w. ∥∥₁_elim w (So-prop _) (complete result inv),
        ),
      )
