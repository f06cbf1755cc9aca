-- ===== src/Daemon/Table.antt =====
-- What the handlers do to an SQL table: a table is the list of its rows in the order of insertion.
use aursmith.Base.{
  ℕ, List, [], ◌∷◌, ◌≡◌, refl, Bool, true, false, if◌then◌else◌, All, keep, length, Bool-cases, inl,
  inr,
}

module _ {A : Type 0} where
  -- `UPDATE … SET set WHERE test`
  abbrev pub update_where : (A → Bool) → (A → A) → List A → List A
  update_where test set [] = []
  update_where test set (r ∷ rows) = (if test r then set r else r) ∷ update_where test set rows

  -- `rows_affected()`
  abbrev pub affected : (A → Bool) → List A → ℕ
  affected test rows = length (keep test rows)

  pub All-update_where :
      (P : A → Type 0) (test : A → Bool) (set : A → A) (rows : List A)
      → ((r : A) → P r → test r ≡ true → P (set r))
      → All P rows
      → All P (update_where test set rows)
  All-update_where P test set [] keeps h = tt
  All-update_where P test set (r ∷ rows) keeps h =
      (step (test r) refl, All-update_where P test set rows keeps h.1)
    where
      step : (b : Bool) → test r ≡ b → P (if b then set r else r)
      step true e = keeps r h.0 e
      step false e = h.0

  -- the rows of a table and those of a later one, in their order
  abbrev pub Pairs : (A → A → Type 0) → List A → List A → Type 0
  Pairs R [] [] = Unit
  Pairs R (x ∷ xs) (y ∷ ys) = R x y × Pairs R xs ys
  Pairs R _ _ = ⊥

  pub update_where-Pairs :
      (R : A → A → Type 0) (test : A → Bool) (set : A → A) (rows : List A)
      → ((r : A) → test r ≡ true → R r (set r))
      → ((r : A) → test r ≡ false → R r r)
      → Pairs R rows (update_where test set rows)
  update_where-Pairs R test set [] f g = tt
  update_where-Pairs R test set (r ∷ rows) f g = elim (Bool-cases (test r)) [
    | inl e ↦ rw e (f r e, update_where-Pairs R test set rows f g)
    | inr n ↦ rw n (g r n, update_where-Pairs R test set rows f g)
  ]
