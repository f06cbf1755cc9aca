-- ===== src/Base/Order.antt =====
-- `Ord` of Rust, with the laws that a total order has, for numbers, texts and pairs.
use Prim.Native.Nat.{ℕ, compare as compare_ℕ, Ordering}
use Prim.Native.String.{String, compare}
use Prim.Native.String.compare
use mathlib.Core.Path.{◌≡◌, refl, subst}
use mathlib.Core.Logic.{◌↔◌}
use mathlib.Core.Bool.{Bool, true, false}
use native.Mathlib.Omega.{arith}
use text.Mathlib.TextEquality.{path_by_compare, codes_equal}
use text.Mathlib.TextPositions.{compare_refl}

pub record Ord {ℓ} (A : Type ℓ) : Type ℓ where
  pub cmp : A → A → Ordering
  pub cmp_eq : (a b : A) → (cmp a b ≡ Ordering.eq) ↔ (a ≡ b)
  pub cmp_gt : (a b : A) → cmp a b ≡ Ordering.gt → cmp b a ≡ Ordering.lt
  pub cmp_trans :
      (a b c : A) → cmp a b ≡ Ordering.lt → cmp b c ≡ Ordering.lt → cmp a c ≡ Ordering.lt

abbrev pub is_eq : Ordering → Bool
is_eq Ordering.eq = true
is_eq _ = false

infix 50 ◌==◌
abbrev pub ◌==◌ {ℓ} : {A : Type ℓ} ⦃o : Ord A⦄ → A → A → Bool
◌==◌ ⦃o⦄ a b = is_eq (o.cmp a b)

pub ==_iff {ℓ} : {A : Type ℓ} ⦃o : Ord A⦄ (a b : A) → ((a == b) ≡ true) ↔ (a ≡ b)
==_iff ⦃o⦄ a b = ground (arith, o.cmp_eq a b)

pub ==_refl {ℓ} : {A : Type ℓ} ⦃o : Ord A⦄ (a : A) → (a == a) ≡ true
==_refl a = (==_iff a a).1 refl

pub ℕ-eq : (a b : ℕ) → (compare_ℕ a b ≡ Ordering.eq) ↔ (a ≡ b)
ℕ-eq a b = ground arith

pub ℕ-gt : (a b : ℕ) → compare_ℕ a b ≡ Ordering.gt → compare_ℕ b a ≡ Ordering.lt
ℕ-gt a b h = ground arith

pub ℕ-trans :
    (a b c : ℕ)
    → compare_ℕ a b ≡ Ordering.lt
    → compare_ℕ b c ≡ Ordering.lt
    → compare_ℕ a c ≡ Ordering.lt
ℕ-trans a b c h k = ground arith

instance abbrev pub nat_ord : Ord ℕ
nat_ord = record { cmp = compare_ℕ; cmp_eq = ℕ-eq; cmp_gt = ℕ-gt; cmp_trans = ℕ-trans }

pub String-eq : (s t : String) → (compare s t ≡ Ordering.eq) ↔ (s ≡ t)
String-eq s t =
    (path_by_compare s t, λ p. subst (λ u. compare s u ≡ Ordering.eq) p (compare_refl s))

pub String-gt : (s t : String) → compare s t ≡ Ordering.gt → compare t s ≡ Ordering.lt
String-gt String.[] String.[] h = cc compare.nil-nil
String-gt String.[] (String.◌∷◌ d t) h = cc (compare.nil-cons d t)
String-gt (String.◌∷◌ c s) String.[] h = compare.nil-cons c s
String-gt (String.◌∷◌ c s) (String.◌∷◌ d t) h =
    ground (arith, compare.cons-cons c d s t, compare.cons-cons d c t s, String-gt s t)

pub String-trans :
    (s t u : String)
    → compare s t ≡ Ordering.lt
    → compare t u ≡ Ordering.lt
    → compare s u ≡ Ordering.lt
String-trans String.[] String.[] u h k = cc
String-trans String.[] (String.◌∷◌ d t) String.[] h k = cc (compare.cons-nil d t)
String-trans String.[] (String.◌∷◌ d t) (String.◌∷◌ e u) h k = compare.nil-cons e u
String-trans (String.◌∷◌ c s) String.[] u h k = cc (compare.cons-nil c s)
String-trans (String.◌∷◌ c s) (String.◌∷◌ d t) String.[] h k = cc (compare.cons-nil d t)
String-trans (String.◌∷◌ c s) (String.◌∷◌ d t) (String.◌∷◌ e u) h k = ground (
  arith,
  compare.cons-cons c d s t,
  compare.cons-cons d e t u,
  compare.cons-cons c e s u,
  codes_equal c d,
  codes_equal d e,
  String-trans s t u,
)

instance abbrev pub string_ord : Ord String
string_ord = record {
  cmp = compare;
  cmp_eq = String-eq;
  cmp_gt = String-gt;
  cmp_trans = String-trans;
}

abbrev pub pair_cmp {ℓ} : {A B : Type ℓ} ⦃o : Ord A⦄ ⦃p : Ord B⦄ → A × B → A × B → Ordering
pair_cmp ⦃o⦄ ⦃p⦄ a b = elim (o.cmp a.0 b.0) [
  | Ordering.lt ↦ Ordering.lt
  | Ordering.eq ↦ p.cmp a.1 b.1
  | Ordering.gt ↦ Ordering.gt
]

pub pair-eq {ℓ} :
    {A B : Type ℓ} ⦃o : Ord A⦄ ⦃p : Ord B⦄ (a b : A × B) → (pair_cmp a b ≡ Ordering.eq) ↔ (a ≡ b)
pair-eq ⦃o⦄ ⦃p⦄ a b = ground (arith, o.cmp_eq a.0 b.0, p.cmp_eq a.1 b.1)

pub pair-gt {ℓ} :
    {A B : Type ℓ} ⦃o : Ord A⦄ ⦃p : Ord B⦄ (a b : A × B)
    → pair_cmp a b ≡ Ordering.gt
    → pair_cmp b a ≡ Ordering.lt
pair-gt ⦃o⦄ ⦃p⦄ a b h =
    ground (arith, o.cmp_eq a.0 b.0, o.cmp_eq b.0 a.0, o.cmp_gt a.0 b.0, p.cmp_gt a.1 b.1)

pub pair_trans {ℓ} :
    {A B : Type ℓ} ⦃o : Ord A⦄ ⦃p : Ord B⦄ (a b c : A × B)
    → pair_cmp a b ≡ Ordering.lt
    → pair_cmp b c ≡ Ordering.lt
    → pair_cmp a c ≡ Ordering.lt
pair_trans ⦃o⦄ ⦃p⦄ a b c h k = ground (
  arith,
  o.cmp_eq a.0 b.0,
  o.cmp_eq b.0 c.0,
  o.cmp_eq a.0 c.0,
  o.cmp_trans a.0 b.0 c.0,
  p.cmp_trans a.1 b.1 c.1,
)

instance abbrev pub pair_ord {ℓ} : {A B : Type ℓ} ⦃o : Ord A⦄ ⦃p : Ord B⦄ → Ord (A × B)
pair_ord = record { cmp = pair_cmp; cmp_eq = pair-eq; cmp_gt = pair-gt; cmp_trans = pair_trans }
