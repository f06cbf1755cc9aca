-- ===== src/Daemon/Approval/Origins.antt =====
-- What a change of the revisions does to the revisions that stand behind the approved ones.
use aursmith.Base.{
  String, List, [], ◌∷◌, Bool, true, false, ◌≡◌, arith, string_ord, ==_refl, any, All, Bool-cases,
  inl, inr, ◌⊎◌,
}
use aursmith.Daemon.State.{Revision, Review}
use aursmith.Daemon.Table.{update_where}
use aursmith.Daemon.Closure.{is_approved}
use aursmith.Daemon.Keyed.{All-changed, All-imp, All-zip}
use aursmith.Daemon.Approval.{by_reuse, has_evidence, is_origin, IsJustified}

pub any-imp :
    {A : Type 0} (p q : A → Bool) (rows : List A)
    → ((x : A) → p x ≡ true → q x ≡ true)
    → any p rows ≡ true
    → any q rows ≡ true
any-imp p q [] h e = absurd (ground arith)
any-imp p q (x ∷ rows) h e = elim (Bool-cases (p x)) [
  | inl here ↦ ground (arith, h x here)
  | inr behind ↦ ground (arith, any-imp p q rows h (ground (arith, e, behind)))
]

-- a row that passes a test against itself passes it against one of the rows
self_any :
    (p : Revision → Revision → Bool) (rows : List Revision)
    → All (λ r. p r r ≡ true → any (p r) rows ≡ true) rows
self_any p [] = tt
self_any p (x ∷ rows) = (
  λ e. ground (arith, e),
  All-imp (λ r. p r r ≡ true → any (p r) rows ≡ true)
      (λ r. p r r ≡ true → any (p r) (x ∷ rows) ≡ true) rows (λ r h e. ground (arith, h e))
      (self_any p rows),
)

-- Other reviews that keep the evidence and the notes of a reuse.
pub reviews-IsJustified :
    (reviews after : List Review) (rows : List Revision) (r : Revision)
    → ((o : Revision) → has_evidence reviews o ≡ true → has_evidence after o ≡ true)
    → (any (by_reuse r.id) reviews ≡ true → any (by_reuse r.id) after ≡ true)
    → IsJustified reviews rows r
    → IsJustified after rows r
reviews-IsJustified reviews after rows r evidence reuses h approved =
    any-imp (is_origin reviews r) (is_origin after r) rows
      (λ o e. ground (arith, evidence o, reuses, e)) (h approved)

module _ (reviews after : List Review) (P : Revision → Type 0) (test : Revision → Bool)
    (set : Revision → Revision)
    (fresh : (r : Revision) → P r → test r ≡ true → is_approved r.state ≡ false)
    (stays : (r : Revision)
      → P r
      → test r ≡ false
      → is_approved r.state ≡ true
      → has_evidence reviews r ≡ true
      → has_evidence after r ≡ true) where
  -- The revision that stands behind another one is approved, and so it is not changed.
  pub origin-changed :
      (r : Revision) (rows : List Revision)
      → (any (by_reuse r.id) reviews ≡ true → any (by_reuse r.id) after ≡ true)
      → All P rows
      → any (is_origin reviews r) rows ≡ true
      → any (is_origin after r) (update_where test set rows) ≡ true
  origin-changed r [] reuses ps e = absurd (ground arith)
  origin-changed r (o ∷ rows) reuses ps e = elim (Bool-cases (is_origin reviews r o)) [
    | inr behind ↦ ground (arith, origin-changed r rows reuses ps.1 (ground (arith, e, behind)))
    | inl here ↦ elim (Bool-cases (test o)) [
      | inl t ↦ absurd (ground (arith, fresh o ps.0 t, here))
      | inr n ↦ rw n (
          ground
            (arith, reuses, stays o ps.0 n (ground (arith, here)) (ground (arith, here)), here))
    ]
  ]

  pub changed-IsJustified :
      (rows : List Revision)
      → ((r : Revision)
          → P r
          → test r ≡ true
          → is_approved (set r).state ≡ true
          → has_evidence after (set r) ≡ true)
      → ((id : String) → any (by_reuse id) reviews ≡ true → any (by_reuse id) after ≡ true)
      → All P rows
      → All (IsJustified reviews rows) rows
      → All (IsJustified after (update_where test set rows)) (update_where test set rows)
  changed-IsJustified rows earned reuses ps h =
      let changed = update_where test set rows in
      All-zip (λ r. is_origin after r r ≡ true → any (is_origin after r) changed ≡ true)
        (λ r.
          is_approved r.state ≡ true
          → (has_evidence after r ≡ true) ⊎ (any (is_origin after r) changed ≡ true))
        (IsJustified after changed) changed
        (λ r itself either approved. elim (either approved) [
          | inr e ↦ e
          | inl own ↦ itself (
              ground
                (arith, approved, own, ==_refl r.id, ==_refl r.package_base, ==_refl r.tree_sha256))
        ])
        (self_any (is_origin after) changed)
        (All-changed (λ r. P r × IsJustified reviews rows r)
          (λ r.
            is_approved r.state ≡ true
            → (has_evidence after r ≡ true) ⊎ (any (is_origin after r) changed ≡ true))
          test set rows (λ r both t approved. inl (earned r both.0 t approved))
          (λ r both n approved. inr (origin-changed r rows (reuses r.id) ps (both.1 approved)))
          (All-zip P (IsJustified reviews rows) (λ r. P r × IsJustified reviews rows r) rows
            (λ r p j. (p, j)) ps h))
