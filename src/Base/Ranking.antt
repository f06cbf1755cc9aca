-- ===== src/Base/Ranking.antt =====
-- A stable sort by a key: in the order of the keys, and with the same elements.
use Prim.Native.Nat.{ℕ, suc, Ordering}
use mathlib.Core.Path.{◌≡◌, refl, sym, ◌∙◌, ap, subst}
use mathlib.Core.Bool.{Bool, true, false}
use mathlib.Core.Logic.{inl, inr}
use mathlib.Core.List.{List, [], ◌∷◌}
use native.Mathlib.Omega.{arith}
use aursmith.Base.Tests.{if◌then◌else◌, Ordering-cases}
use aursmith.Base.Lists.{All}
use aursmith.Base.Order.{Ord}
use aursmith.Base.Sorting.{insert_by, sort_by, All-insert_by}

module _ {A K : Type 0} ⦃o : Ord K⦄ (key : A → K) where
  abbrev pub by_key : A → A → Ordering
  by_key a b = o.cmp (key a) (key b)

  abbrev is_gt : Ordering → Bool
  is_gt Ordering.gt = true
  is_gt _ = false

  -- the key is not greater
  abbrev pub IsBefore : A → A → Type 0
  IsBefore a b = is_gt (by_key a b) ≡ false

  abbrev pub IsRanked : List A → Type 0
  IsRanked [] = Unit
  IsRanked (x ∷ xs) = All (IsBefore x) xs × IsRanked xs

  IsBefore-trans : (a x y : A) → IsBefore a x → IsBefore x y → IsBefore a y
  IsBefore-trans a x y h k = elim (Ordering-cases (by_key a x)) [
    | inr (inr e) ↦ absurd (ground (arith, e, h))
    | inr (inl e) ↦
        subst (λ n. is_gt (o.cmp n (key y)) ≡ false) (sym ((o.cmp_eq (key a) (key x)).0 e)) k
    | inl e ↦ elim (Ordering-cases (by_key x y)) [
      | inl f ↦ rw (o.cmp_trans (key a) (key x) (key y) e f) refl
      | inr (inl f) ↦
          subst (λ n. is_gt (o.cmp (key a) n) ≡ false) ((o.cmp_eq (key x) (key y)).0 f) h
      | inr (inr f) ↦ absurd (ground (arith, f, k))
    ]
  ]

  All-IsBefore : (a x : A) (xs : List A) → IsBefore a x → All (IsBefore x) xs → All (IsBefore a) xs
  All-IsBefore a x [] h k = tt
  All-IsBefore a x (y ∷ xs) h k = (IsBefore-trans a x y h k.0, All-IsBefore a x xs h k.1)

  insert_by-IsRanked : (a : A) (xs : List A) → IsRanked xs → IsRanked (insert_by by_key a xs)
  insert_by-IsRanked a [] h = (tt, tt)
  insert_by-IsRanked a (x ∷ xs) h = elim (Ordering-cases (by_key a x)) [
    | inl e ↦
        let first : IsBefore a x = rw e refl in
        rw (e, insert_by) ((first, All-IsBefore a x xs first h.0), h)
    | inr (inl e) ↦
        let first : IsBefore a x = rw e refl in
        rw (e, insert_by) ((first, All-IsBefore a x xs first h.0), h)
    | inr (inr e) ↦
        let later : IsBefore x a = rw (o.cmp_gt (key a) (key x) e) refl in
        rw (e, insert_by)
          (All-insert_by (IsBefore x) by_key a xs later h.0, insert_by-IsRanked a xs h.1)
  ]

  pub sort_by-IsRanked : (xs : List A) → IsRanked (sort_by by_key xs)
  sort_by-IsRanked [] = tt
  sort_by-IsRanked (x ∷ xs) = insert_by-IsRanked x (sort_by by_key xs) (sort_by-IsRanked xs)

-- how many elements pass the test
abbrev pub count {ℓ} : {A : Type ℓ} → (A → Bool) → List A → ℕ
count p [] = 0
count p (x ∷ xs) = if p x then suc (count p xs) else count p xs

module _ {A : Type 0} (p : A → Bool) (cmp : A → A → Ordering) where
  count-insert_by : (a : A) (xs : List A) → count p (insert_by cmp a xs) ≡ count p (a ∷ xs)
  count-insert_by a [] = refl
  count-insert_by a (x ∷ xs) = ground (arith, count-insert_by a xs)

  pub count-sort_by : (xs : List A) → count p (sort_by cmp xs) ≡ count p xs
  count-sort_by [] = refl
  count-sort_by (x ∷ xs) =
      count-insert_by x (sort_by cmp xs) ∙ ap (λ n. if p x then suc n else n) (count-sort_by xs)
