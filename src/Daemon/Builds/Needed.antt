-- ===== src/Daemon/Builds/Needed.antt =====
-- The packages that a package needs, itself among them: what they need, it needs.
use aursmith.Base.{
  String, [], ◌∷◌, true, ◌≡◌, arith, contains, ==_iff, ==_refl, string_ord, ◌↔◌, subst, sym,
}
use mathlib.Core.Bool.{So-prop}
use mathlib.Core.Logic.{∥∥₁_elim}
use aursmith.Core.Graph.{DependencyGraph}
use aursmith.Core.Graph.Reachable.{Reach, root, step, closure_correct}
use aursmith.Daemon.Builds.Usable.{closure_of, members_of}

module _ (g : DependencyGraph) where
  closure_of-Reach :
      (base n : String) → (contains (closure_of g base) n ≡ true) ↔ ∥ Reach g (base ∷ []) n ∥₁
  closure_of-Reach base n =
      let (result, ends, sorted, walks) = closure_correct g (base ∷ []) in
      subst (λ o. (contains (members_of o) n ≡ true) ↔ ∥ Reach g (base ∷ []) n ∥₁) (sym ends)
        (walks n)

  Reach-trans :
      (base m n : String) → Reach g (base ∷ []) m → Reach g (m ∷ []) n → Reach g (base ∷ []) n
  Reach-trans base m _ first (root {n} e) =
      subst (Reach g (base ∷ [])) ((==_iff m n).0 (ground arith)) first
  Reach-trans base m _ first (step {n} {d} walk edge) = step (Reach-trans base m n first walk) edge

  pub closure_of_self : (base : String) → contains (closure_of g base) base ≡ true
  closure_of_self base = (closure_of-Reach base base).1 ∣ root (ground (arith, ==_refl base)) ∣₁

  pub closure_of_trans :
      (base m n : String)
      → contains (closure_of g base) m ≡ true
      → contains (closure_of g m) n ≡ true
      → contains (closure_of g base) n ≡ true
  closure_of_trans base m n first then =
      ∥∥₁_elim ((closure_of-Reach base m).0 first) (So-prop _) (λ walk.
        ∥∥₁_elim ((closure_of-Reach m n).0 then) (So-prop _)
          (λ rest. (closure_of-Reach base n).1 ∣ Reach-trans base m n walk rest ∣₁))
