-- ===== src/Base/Sorting.antt =====
-- `sort_by`, which is stable, and the first element of an order.
use Prim.Native.Nat.{ℕ, Ordering}
use mathlib.Core.Path.{◌≡◌, refl, ◌∙◌}
use mathlib.Core.Logic.{inl, inr}
use mathlib.Core.Bool.{Bool, false, ◌||◌}
use mathlib.Core.List.{List, [], ◌∷◌, map}
use mathlib.Core.Option.{Option, none, some}
use native.Mathlib.Omega.{arith}
use aursmith.Base.Tests.{if◌then◌else◌, ltb, Ordering-cases}
use aursmith.Base.Lists.{any, All}
use aursmith.Base.Order.{Ord, ◌==◌, ==_iff}
use aursmith.Base.Sets.{contains, Nodup}

module _ {ℓ} {A : Type ℓ} where
  abbrev pub insert_by : (A → A → Ordering) → A → List A → List A
  insert_by cmp a [] = a ∷ []
  insert_by cmp a (x ∷ xs) =
      let rest = insert_by cmp a xs in elim (cmp a x) [ Ordering.gt ↦ x ∷ rest | _ ↦ a ∷ x ∷ xs ]

  abbrev pub sort_by : (A → A → Ordering) → List A → List A
  sort_by cmp [] = []
  sort_by cmp (x ∷ xs) = insert_by cmp x (sort_by cmp xs)

  pub All-insert_by {κ} :
      (P : A → Type κ) (cmp : A → A → Ordering) (a : A) (xs : List A)
      → P a
      → All P xs
      → All P (insert_by cmp a xs)
  All-insert_by P cmp a [] h k = (h, tt)
  All-insert_by P cmp a (x ∷ xs) h k = elim (Ordering-cases (cmp a x)) [
    | inl e ↦ rw (e, insert_by) (h, k)
    | inr (inl e) ↦ rw (e, insert_by) (h, k)
    | inr (inr e) ↦ rw (e, insert_by) (k.0, All-insert_by P cmp a xs h k.1)
  ]

  pub All-sort_by {κ} :
      (P : A → Type κ) (cmp : A → A → Ordering) (xs : List A) → All P xs → All P (sort_by cmp xs)
  All-sort_by P cmp [] h = tt
  All-sort_by P cmp (x ∷ xs) h =
      All-insert_by P cmp x (sort_by cmp xs) h.0 (All-sort_by P cmp xs h.1)

  any-insert_by :
      (p : A → Bool) (cmp : A → A → Ordering) (a : A) (xs : List A)
      → any p (insert_by cmp a xs) ≡ (p a || any p xs)
  any-insert_by p cmp a [] = refl
  any-insert_by p cmp a (x ∷ xs) = ground (arith, any-insert_by p cmp a xs)

  pub any-sort_by :
      (p : A → Bool) (cmp : A → A → Ordering) (xs : List A) → any p (sort_by cmp xs) ≡ any p xs
  any-sort_by p cmp [] = refl
  any-sort_by p cmp (x ∷ xs) =
      ground (arith, any-insert_by p cmp x (sort_by cmp xs), any-sort_by p cmp xs)

  -- `ORDER BY key DESC LIMIT 1`: of rows with one key, the first in the table
  abbrev pub newer : (A → ℕ) → A → Option A → Option A
  newer key a none = some a
  newer key a (some b) = if ltb (key a) (key b) then some b else some a

  abbrev pub newest : (A → ℕ) → List A → Option A
  newest key [] = none
  newest key (a ∷ xs) = newer key a (newest key xs)

-- What a sort keeps of a field of the elements.
module _ {ℓ κ} {A : Type ℓ} {B : Type κ} ⦃o : Ord B⦄ (f : A → B) (cmp : A → A → Ordering) where
  contains-insert_by :
      (a : A) (xs : List A) (b : B)
      → contains (map f (insert_by cmp a xs)) b ≡ (f a == b || contains (map f xs) b)
  contains-insert_by a [] b = refl
  contains-insert_by a (x ∷ xs) b = ground (arith, contains-insert_by a xs b)

  pub contains-sort_by :
      (xs : List A) (b : B) → contains (map f (sort_by cmp xs)) b ≡ contains (map f xs) b
  contains-sort_by [] b = refl
  contains-sort_by (x ∷ xs) b =
      ground (arith, contains-insert_by x (sort_by cmp xs) b, contains-sort_by xs b)

  insert_by-Nodup :
      (a : A) (xs : List A)
      → contains (map f xs) (f a) ≡ false
      → Nodup (map f xs)
      → Nodup (map f (insert_by cmp a xs))
  insert_by-Nodup a [] new once = (refl, tt)
  insert_by-Nodup a (x ∷ xs) new once = ground (
    arith,
    insert_by-Nodup a xs,
    contains-insert_by a xs (f x),
    ==_iff (f a) (f x),
    ==_iff (f x) (f a),
  )

  pub sort_by-Nodup : (xs : List A) → Nodup (map f xs) → Nodup (map f (sort_by cmp xs))
  sort_by-Nodup [] once = tt
  sort_by-Nodup (x ∷ xs) once =
      insert_by-Nodup x (sort_by cmp xs) (contains-sort_by xs (f x) ∙ once.0)
        (sort_by-Nodup xs once.1)
