-- ===== src/Daemon/Keyed.antt =====
-- Tables with a key: what an update keeps, and what holds of the row that a query finds.
use aursmith.Base.{
  ◌+◌, String, List, [], ◌∷◌, ◌++◌, map, Bool, true, false, ◌≡◌, refl, ap, arith, ◌==◌, string_ord,
  contains, Nodup, All, any, keep, length, ==_iff, if◌then◌else◌, Bool-cases, inl, inr,
}
use aursmith.Daemon.Table.{update_where}

module _ {A : Type 0} where
  pub All-changed :
      (P Q : A → Type 0) (test : A → Bool) (set : A → A) (rows : List A)
      → ((r : A) → P r → test r ≡ true → Q (set r))
      → ((r : A) → P r → test r ≡ false → Q r)
      → All P rows
      → All Q (update_where test set rows)
  All-changed P Q test set [] f g h = tt
  All-changed P Q test set (r ∷ rows) f g h = elim (Bool-cases (test r)) [
    | inl e ↦ rw e (f r h.0 e, All-changed P Q test set rows f g h.1)
    | inr n ↦ rw n (g r h.0 n, All-changed P Q test set rows f g h.1)
  ]

  pub All-zip :
      (P Q R : A → Type 0) (rows : List A)
      → ((r : A) → P r → Q r → R r)
      → All P rows
      → All Q rows
      → All R rows
  All-zip P Q R [] f h k = tt
  All-zip P Q R (r ∷ rows) f h k = (f r h.0 k.0, All-zip P Q R rows f h.1 k.1)

  pub All-imp : (P Q : A → Type 0) (rows : List A) → ((r : A) → P r → Q r) → All P rows → All Q rows
  All-imp P Q [] f h = tt
  All-imp P Q (r ∷ rows) f h = (f r h.0, All-imp P Q rows f h.1)

  pub All-end : (P : A → Type 0) (rows : List A) (r : A) → All P rows → P r → All P (rows ++ r ∷ [])
  All-end P [] r h p = (p, tt)
  All-end P (x ∷ rows) r h p = (h.0, All-end P rows r h.1 p)

  -- Dropped rows that a test does not want change nothing for the test.
  pub any-keep :
      (p q : A → Bool) (rows : List A)
      → ((r : A) → p r ≡ true → q r ≡ true)
      → any p (keep q rows) ≡ any p rows
  any-keep p q [] h = refl
  any-keep p q (r ∷ rows) h = ground (arith, h r, any-keep p q rows h)

  pub length-keep-keep :
      (p q : A → Bool) (rows : List A)
      → ((r : A) → p r ≡ true → q r ≡ true)
      → length (keep p (keep q rows)) ≡ length (keep p rows)
  length-keep-keep p q [] h = refl
  length-keep-keep p q (r ∷ rows) h = ground (arith, h r, length-keep-keep p q rows h)

  pub length-keep_end :
      (p : A → Bool) (rows : List A) (r : A)
      → length (keep p (rows ++ r ∷ [])) ≡ length (keep p rows) + (if p r then 1 else 0)
  length-keep_end p [] r = ground arith
  length-keep_end p (x ∷ rows) r = ground (arith, length-keep_end p rows r)

  module _ (key : A → String) where
    pub map-update_where :
        (test : A → Bool) (set : A → A) (rows : List A)
        → ((r : A) → key (set r) ≡ key r)
        → map key (update_where test set rows) ≡ map key rows
    map-update_where test set [] same = refl
    map-update_where test set (r ∷ rows) same =
        ground (arith, map-update_where test set rows same, same r)

    pub map-end : (rows : List A) (r : A) → map key (rows ++ r ∷ []) ≡ map key rows ++ key r ∷ []
    map-end [] r = refl
    map-end (x ∷ rows) r = ap (λ xs. key x ∷ xs) (map-end rows r)

    -- the rows of a key that is that of one row
    abbrev pub OnlyRow : A → A → Type 0
    OnlyRow r x = (key x == key r) ≡ true → x ≡ r

    absent-OnlyRow :
        (r : A) (rows : List A) → contains (map key rows) (key r) ≡ false → All (OnlyRow r) rows
    absent-OnlyRow r [] h = tt
    absent-OnlyRow r (x ∷ rows) h = (
      (λ e. absurd (ground (arith, ==_iff (key x) (key r)))),
      absent-OnlyRow r rows (ground arith),
    )

    -- A row of the list is the only one of its key.
    pub head-OnlyRow :
        (r : A) (rows : List A) → Nodup (map key (r ∷ rows)) → All (OnlyRow r) (r ∷ rows)
    head-OnlyRow r rows once = ((λ e. refl), absent-OnlyRow r rows once.0)

    pub tail-OnlyRow :
        (r x : A) (rows : List A)
        → contains (map key rows) (key x) ≡ false
        → contains (map key rows) (key r) ≡ true
        → All (OnlyRow r) rows
        → All (OnlyRow r) (x ∷ rows)
    tail-OnlyRow r x rows absent here h = (
      (λ e. absurd (ground (arith, ap (contains (map key rows)) ((==_iff (key x) (key r)).0 e)))),
      h,
    )
