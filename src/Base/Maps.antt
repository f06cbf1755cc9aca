-- ===== src/Base/Maps.antt =====
-- `BTreeMap`: pairs in ascending order of their keys, each key once.
use Prim.Native.Nat.{Ordering}
use mathlib.Core.Path.{◌≡◌, refl, sym, subst}
use mathlib.Core.Logic.{inl, inr}
use mathlib.Core.Bool.{Bool, true}
use mathlib.Core.List.{List, [], ◌∷◌}
use mathlib.Core.Option.{Option, none, some, some-injective}
use native.Mathlib.Omega.{arith}
use aursmith.Base.Tests.{if◌then◌else◌, is_some, Bool-cases, Ordering-cases}
use aursmith.Base.Lists.{All, any}
use aursmith.Base.Order.{Ord, ◌==◌, ==_iff}
use aursmith.Base.Sets.{contains, insert, remove}

module _ {ℓ κ} {K : Type ℓ} {V : Type κ} ⦃o : Ord K⦄ where
  -- `BTreeMap::get`
  abbrev pub lookup : K → List (K × V) → Option V
  lookup k [] = none
  lookup k ((j, v) ∷ m) = if j == k then some v else lookup k m

  -- `BTreeMap::insert`, and `entry(k)` assigned to
  abbrev pub put : K → V → List (K × V) → List (K × V)
  put k v [] = (k, v) ∷ []
  put k v ((j, w) ∷ m) =
      let rest = put k v m in
      elim (o.cmp k j) [
        | Ordering.lt ↦ (k, v) ∷ (j, w) ∷ m
        | Ordering.eq ↦ (j, v) ∷ m
        | Ordering.gt ↦ (j, w) ∷ rest
      ]

  -- `BTreeMap::remove`, the resulting map
  abbrev pub drop_key : K → List (K × V) → List (K × V)
  drop_key k [] = []
  drop_key k ((j, v) ∷ m) = let rest = drop_key k m in if j == k then rest else (j, v) ∷ rest

  abbrev pub keys : List (K × V) → List K
  keys [] = []
  keys ((k, v) ∷ m) = k ∷ keys m

  pub lookup-put :
      (k j : K) (v : V) (m : List (K × V))
      → lookup j (put k v m) ≡ (if k == j then some v else lookup j m)
  lookup-put k j v [] = refl
  lookup-put k j v ((i, w) ∷ m) =
      ground (arith, lookup-put k j v m, o.cmp_eq k i, ==_iff k j, ==_iff i j)

  pub lookup-drop_key :
      (k j : K) (m : List (K × V)) → lookup j (drop_key k m) ≡ (if k == j then none else lookup j m)
  lookup-drop_key k j [] = ground arith
  lookup-drop_key k j ((i, w) ∷ m) =
      ground (arith, lookup-drop_key k j m, ==_iff i k, ==_iff i j, ==_iff k j)

  pub contains-keys : (m : List (K × V)) (k : K) → contains (keys m) k ≡ is_some (lookup k m)
  contains-keys [] k = refl
  contains-keys ((j, v) ∷ m) k = ground (arith, contains-keys m k)

  pub keys-put : (k : K) (v : V) (m : List (K × V)) → keys (put k v m) ≡ insert k (keys m)
  keys-put k v [] = refl
  keys-put k v ((j, w) ∷ m) = ground (arith, keys-put k v m)

  pub keys-drop_key : (k : K) (m : List (K × V)) → keys (drop_key k m) ≡ remove k (keys m)
  keys-drop_key k [] = refl
  keys-drop_key k ((j, w) ∷ m) = ground (arith, keys-drop_key k m)

  -- A property of the entries, after an assignment.
  pub All-put {μ} :
      (P : K × V → Type μ) (k : K) (v : V) (m : List (K × V))
      → P (k, v)
      → All P m
      → All P (put k v m)
  All-put P k v [] p h = (p, tt)
  All-put P k v ((j, w) ∷ m) p h = elim (Ordering-cases (o.cmp k j)) [
    | inl e ↦ rw (e, put) (p, h)
    | inr (inl e) ↦ rw (e, put) (subst (λ i. P (i, v)) ((o.cmp_eq k j).0 e) p, h.1)
    | inr (inr e) ↦ rw (e, put) (h.0, All-put P k v m p h.1)
  ]

  pub All-lookup {μ} :
      (P : K × V → Type μ) (k : K) (v : V) (m : List (K × V))
      → lookup k m ≡ some v
      → All P m
      → P (k, v)
  All-lookup P k v [] e h = absurd (ground arith)
  All-lookup P k v ((j, w) ∷ m) e h = elim (Bool-cases (j == k)) [
    | inl same ↦
        subst (λ i. P (i, v)) ((==_iff j k).0 same)
          (subst (λ x. P (j, x)) (some-injective w v (ground arith)) h.0)
    | inr other ↦ All-lookup P k v m (ground arith) h.1
  ]

  -- a test of the entries that holds of one
  pub any-lookup :
      (p : K × V → Bool) (k : K) (v : V) (m : List (K × V))
      → lookup k m ≡ some v
      → p (k, v) ≡ true
      → any p m ≡ true
  any-lookup p k v [] e h = absurd (ground arith)
  any-lookup p k v ((j, w) ∷ m) e h = elim (Bool-cases (j == k)) [
    | inl same ↦
        let here =
          subst (λ i. p (i, w) ≡ true) (sym ((==_iff j k).0 same))
            (subst (λ x. p (k, x) ≡ true) (sym (some-injective w v (ground arith))) h) in
        ground arith
    | inr other ↦ ground (arith, any-lookup p k v m)
  ]
