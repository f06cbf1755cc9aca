-- ===== src/Base/Sets.antt =====
-- `BTreeSet`: a list in ascending order, each element once.
use Prim.Native.Nat.{Ordering}
use mathlib.Core.Path.{◌≡◌, refl, subst}
use mathlib.Core.Logic.{inl, inr, ◌↔◌}
use mathlib.Core.Bool.{Bool, true, false, ◌&&◌, ◌||◌, not}
use mathlib.Core.List.{List, [], ◌∷◌, ◌++◌}
use native.Mathlib.Omega.{arith}
use aursmith.Base.Tests.{if◌then◌else◌, Bool-cases}
use aursmith.Base.Lists.{All, any, keep}
use aursmith.Base.Order.{Ord, ◌==◌, ==_iff, ==_refl}

module _ {ℓ} {A : Type ℓ} ⦃o : Ord A⦄ where
  abbrev pub contains : List A → A → Bool
  contains [] a = false
  contains (x ∷ xs) a = x == a || contains xs a

  -- `BTreeSet::insert`, the resulting set
  abbrev pub insert : A → List A → List A
  insert a [] = a ∷ []
  insert a (x ∷ xs) =
      let rest = insert a xs in
      elim (o.cmp a x) [ Ordering.lt ↦ a ∷ x ∷ xs | Ordering.eq ↦ x ∷ xs | Ordering.gt ↦ x ∷ rest ]

  -- `BTreeSet::remove`, the resulting set
  abbrev pub remove : A → List A → List A
  remove a [] = []
  remove a (x ∷ xs) = let rest = remove a xs in if x == a then rest else x ∷ rest

  -- `collect::<BTreeSet<_>>()`
  abbrev pub to_set : List A → List A
  to_set [] = []
  to_set (x ∷ xs) = insert x (to_set xs)

  abbrev pub Nodup : List A → Type 0
  Nodup [] = Unit
  Nodup (x ∷ xs) = (contains xs x ≡ false) × Nodup xs

  abbrev pub IsSorted : List A → Type 0
  IsSorted [] = Unit
  IsSorted (x ∷ xs) = All (λ y. o.cmp x y ≡ Ordering.lt) xs × IsSorted xs

  pub contains-append :
      (xs ys : List A) (a : A) → contains (xs ++ ys) a ≡ (contains xs a || contains ys a)
  contains-append [] ys a = refl
  contains-append (x ∷ xs) ys a = ground (arith, contains-append xs ys a)

  pub contains-insert :
      (a b : A) (xs : List A) → contains (insert a xs) b ≡ (a == b || contains xs b)
  contains-insert a b [] = refl
  contains-insert a b (x ∷ xs) = ground (arith, contains-insert a b xs, o.cmp_eq a x)

  pub contains-remove :
      (a b : A) (xs : List A) → contains (remove a xs) b ≡ (contains xs b && not (a == b))
  contains-remove a b [] = refl
  contains-remove a b (x ∷ xs) =
      ground (arith, contains-remove a b xs, ==_iff x a, ==_iff x b, ==_iff a b)

  pub contains-to_set : (xs : List A) (a : A) → contains (to_set xs) a ≡ contains xs a
  contains-to_set [] a = refl
  contains-to_set (x ∷ xs) a = ground (arith, contains-to_set xs a, contains-insert x a (to_set xs))

  insert-All_lt :
      (x a : A) (xs : List A)
      → o.cmp x a ≡ Ordering.lt
      → All (λ y. o.cmp x y ≡ Ordering.lt) xs
      → All (λ y. o.cmp x y ≡ Ordering.lt) (insert a xs)
  insert-All_lt x a [] h k = (h, tt)
  insert-All_lt x a (y ∷ ys) h k = ground (arith, insert-All_lt x a ys)

  below-All :
      (a x : A) (xs : List A)
      → o.cmp a x ≡ Ordering.lt
      → All (λ y. o.cmp x y ≡ Ordering.lt) xs
      → All (λ y. o.cmp a y ≡ Ordering.lt) xs
  below-All a x [] h k = tt
  below-All a x (y ∷ ys) h k = (o.cmp_trans a x y h k.0, below-All a x ys h k.1)

  pub insert-IsSorted : (a : A) (xs : List A) → IsSorted xs → IsSorted (insert a xs)
  insert-IsSorted a [] h = (tt, tt)
  insert-IsSorted a (x ∷ xs) h =
      ground (arith, insert-IsSorted a xs, insert-All_lt x a xs, below-All a x xs, o.cmp_gt a x)

  remove-All_lt :
      (x a : A) (xs : List A)
      → All (λ y. o.cmp x y ≡ Ordering.lt) xs
      → All (λ y. o.cmp x y ≡ Ordering.lt) (remove a xs)
  remove-All_lt x a [] h = tt
  remove-All_lt x a (y ∷ ys) h = ground (arith, remove-All_lt x a ys)

  pub remove-IsSorted : (a : A) (xs : List A) → IsSorted xs → IsSorted (remove a xs)
  remove-IsSorted a [] h = tt
  remove-IsSorted a (x ∷ xs) h = ground (arith, remove-IsSorted a xs, remove-All_lt x a xs)

  lt_not_contains :
      (x : A) (xs : List A) → All (λ y. o.cmp x y ≡ Ordering.lt) xs → contains xs x ≡ false
  lt_not_contains x [] h = refl
  lt_not_contains x (y ∷ ys) h = ground (arith, lt_not_contains x ys, ==_iff y x, o.cmp_eq x y)

  pub IsSorted-Nodup : (xs : List A) → IsSorted xs → Nodup xs
  IsSorted-Nodup [] h = tt
  IsSorted-Nodup (x ∷ xs) h = (lt_not_contains x xs h.0, IsSorted-Nodup xs h.1)

  pub to_set-IsSorted : (xs : List A) → IsSorted (to_set xs)
  to_set-IsSorted [] = tt
  to_set-IsSorted (x ∷ xs) = insert-IsSorted x (to_set xs) (to_set-IsSorted xs)

  pub Nodup-snoc : (xs : List A) (a : A) → Nodup xs → contains xs a ≡ false → Nodup (xs ++ a ∷ [])
  Nodup-snoc [] a h n = (refl, tt)
  Nodup-snoc (x ∷ xs) a h n =
      ground (arith, Nodup-snoc xs a, contains-append xs (a ∷ []) x, ==_iff a x, ==_iff x a)

  pub contains-keep :
      (p : A → Bool) (xs : List A) (a : A) → contains (keep p xs) a ≡ (contains xs a && p a)
  contains-keep p [] a = refl
  contains-keep p (x ∷ xs) a = elim (Bool-cases (x == a)) [
    | inl e ↦
        subst (λ y. contains (keep p (x ∷ xs)) y ≡ (contains (x ∷ xs) y && p y)) ((==_iff x a).0 e)
          (ground (arith, contains-keep p xs x, ==_refl x))
    | inr n ↦ ground (arith, contains-keep p xs a)
  ]

  -- A test that no element passes, at one of them.
  pub any-false :
      (p : A → Bool) (xs : List A) (a : A) → any p xs ≡ false → contains xs a ≡ true → p a ≡ false
  any-false p [] a h e = absurd (ground arith)
  any-false p (x ∷ xs) a h e = elim (Bool-cases (x == a)) [
    | inl same ↦ subst (λ y. p y ≡ false) ((==_iff x a).0 same) (ground arith)
    | inr other ↦ any-false p xs a (ground arith) (ground arith)
  ]

  pub any-contains :
      (p : A → Bool) (xs : List A)
      → ((a : A) → contains xs a ≡ true → p a ≡ false)
      → any p xs ≡ false
  any-contains p [] h = refl
  any-contains p (x ∷ xs) h =
      ground (arith, h x, ==_refl x, any-contains p xs (λ a e. h a (ground arith)))

  -- `==` of two sets
  abbrev pub same : List A → List A → Bool
  same [] [] = true
  same [] (y ∷ ys) = false
  same (x ∷ xs) [] = false
  same (x ∷ xs) (y ∷ ys) = x == y && same xs ys

  pub same_iff : (xs ys : List A) → (same xs ys ≡ true) ↔ (xs ≡ ys)
  same_iff [] [] = ground arith
  same_iff [] (y ∷ ys) = ground arith
  same_iff (x ∷ xs) [] = ground arith
  same_iff (x ∷ xs) (y ∷ ys) = ground (arith, ==_iff x y, same_iff xs ys)
