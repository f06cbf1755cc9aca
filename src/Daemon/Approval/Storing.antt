-- ===== src/Daemon/Approval/Storing.antt =====
-- A stored snapshot is approved only where an approved revision of its package has the same tree.
use aursmith.Daemon.Approval.Origins.{
  any-imp, reviews-IsJustified, origin-changed, changed-IsJustified,
}
use aursmith.Base.{
  newest, newer, ltb, keep, some-injective, any-append, ==_iff, ℕ, String, List, [], ◌∷◌, ◌++◌, map,
  foldl, Bool, true, false, ◌&&◌, ◌||◌, Option, none, some, ◌≡◌, refl, ap, sym, subst, ◌∙◌, arith,
  ◌==◌, string_ord, any, All, Nodup, contains, ==_refl, Bool-cases, is_some, inl, inr, Nodup-snoc,
}
use aursmith.Daemon.State.{AppState, Revision, RevisionState, Review, Snapshot, ResolvedDependency}
use aursmith.Daemon.Closure.{is_approved}
use aursmith.Daemon.Review.{is_pending, is_manual, add_review}
use aursmith.Daemon.Revisions.{
  Decoders, ensure_package, ensure_target, supersede, superseded_row, first_state, new_revision,
  baseline, reusable, is_blocked, add_revision, scan_review, reuse_review, note_reuse,
  update_package, store_revision, insert_revision, is_same,
}
use aursmith.Daemon.Keyed.{All-imp, All-end, map-update_where, map-end}
use aursmith.Daemon.Approval.{by_reuse, has_evidence, is_origin, IsJustified, IsReviewed}
use aursmith.Daemon.Approval.Evidence.{has_evidence-add, reuse-add}
use aursmith.Daemon.Approval.Decisions.{id_of_revision}

-- the rows that a new revision supersedes
abbrev is_superseded : String → Revision → Bool
is_superseded base r = r.package_base == base && (is_pending r.state || is_manual r.state)

open_unapproved :
    (state : RevisionState)
    → (is_pending state || is_manual state) ≡ true
    → is_approved state ≡ false
open_unapproved state e = ground arith

pub All-rows : (rows : List Revision) → All (λ r. Unit {0}) rows
All-rows [] = tt
All-rows (r ∷ rows) = (tt, All-rows rows)

-- the same revisions and the same reviews
abbrev pub SameReviews : AppState → AppState → Type 0
SameReviews s t = (t.revisions ≡ s.revisions) × (t.reviews ≡ s.reviews)

pub SameReviews-IsReviewed : (s t : AppState) → SameReviews s t → IsReviewed s → IsReviewed t
SameReviews-IsReviewed s t same h = (
  subst (λ rows. Nodup (map id_of_revision rows)) (sym same.0) h.0,
  subst (λ rows. All (IsJustified t.reviews rows) rows) (sym same.0)
      (subst (λ reviews. All (IsJustified reviews s.revisions) s.revisions) (sym same.1) h.1),
)

ensure_package-SameReviews :
    (base : String) (now : ℕ) (s : AppState) → SameReviews s (ensure_package base now s)
unfolding ensure_package
ensure_package-SameReviews base now s =
    elim (Bool-cases (any (λ p. p.package_base == base) s.packages)) [
      | inl e ↦ rw e (refl, refl)
      | inr n ↦ rw n (refl, refl)
    ]

ensure_target-SameReviews :
    (now : ℕ) (s : AppState) (d : ResolvedDependency) (target : Option String)
    → SameReviews s (elim target [ none ↦ s | some base ↦ ensure_package base now s ])
ensure_target-SameReviews now s d none = (refl, refl)
ensure_target-SameReviews now s d (some base) = ensure_package-SameReviews base now s

ensured-SameReviews :
    (now : ℕ) (dependencies : List ResolvedDependency) (s : AppState)
    → SameReviews s (foldl (ensure_target now) s dependencies)
ensured-SameReviews now [] s = (refl, refl)
ensured-SameReviews now (d ∷ dependencies) s =
    let first = ensure_target-SameReviews now s d d.target in
    let rest = ensured-SameReviews now dependencies (ensure_target now s d) in
    (rest.0 ∙ first.0, rest.1 ∙ first.1)

supersede-IsReviewed : (base : String) (s : AppState) → IsReviewed s → IsReviewed (supersede base s)
supersede-IsReviewed base s h = (
  rw (map-update_where id_of_revision (is_superseded base) superseded_row s.revisions (λ r. refl))
      h.0,
  changed-IsJustified s.reviews s.reviews (λ r. Unit {0}) (is_superseded base) superseded_row
      (λ r u e. open_unapproved r.state (ground (arith, e))) (λ r u n holds e. e) s.revisions
      (λ r u e approved. absurd (ground arith)) (λ other e. e) (All-rows s.revisions) h.1,
)

-- A row that has a revision behind it, if it is approved, comes with more reviews.
add_row-IsReviewed :
    (s : AppState) (row : Revision) (after : List Review)
    → contains (map id_of_revision s.revisions) row.id ≡ false
    → ((o : Revision) → has_evidence s.reviews o ≡ true → has_evidence after o ≡ true)
    → ((id : String) → any (by_reuse id) s.reviews ≡ true → any (by_reuse id) after ≡ true)
    → (is_approved row.state ≡ true → any (is_origin after row) s.revisions ≡ true)
    → IsReviewed s
    → IsReviewed (record s { revisions = s.revisions ++ row ∷ []; reviews = after })
add_row-IsReviewed s row after fresh evidence reuses origin h =
    let rows = s.revisions ++ row ∷ [] in
    (
      rw (map-end id_of_revision s.revisions row)
          (Nodup-snoc (map id_of_revision s.revisions) row.id h.0 fresh),
      All-end (IsJustified after rows) s.revisions row
          (All-imp (IsJustified s.reviews s.revisions) (IsJustified after rows) s.revisions
            (λ r j e.
              any-append (is_origin after r) s.revisions (row ∷ [])
              ∙ ground (
                arith,
                reviews-IsJustified s.reviews after s.revisions r evidence (reuses r.id) j e,
              ))
            h.1)
          (λ e. any-append (is_origin after row) s.revisions (row ∷ []) ∙ ground (arith, origin e)),
    )

-- the row that is found for a snapshot, among the rows
newest-found :
    (test : Revision → Bool) (P : Revision → Type 0) (rows : List Revision) (r : Revision)
    → All P rows
    → newest (λ x. x.created_at) (keep test rows) ≡ some r
    → P r × (test r ≡ true)
newest-found test P [] r ps e = absurd (ground arith)
newest-found test P (x ∷ rows) r ps e = elim (Bool-cases (test x)) [
  | inr n ↦ newest-found test P rows r ps.1 (rw (n, keep) at e)
  | inl own ↦
      taken (newest (λ y. y.created_at) (keep test rows)) refl
        (λ z f. newest-found test P rows z ps.1 f) own (rw (own, keep) at e)
]
  where
    taken :
        (rest : Option Revision)
        → newest (λ y. y.created_at) (keep test rows) ≡ rest
        → ((z : Revision)
            → newest (λ y. y.created_at) (keep test rows) ≡ some z
            → P z × (test z ≡ true))
        → test x ≡ true
        → newer (λ y. y.created_at) x rest ≡ some r
        → P r × (test r ≡ true)
    taken none found later_rows own h =
        subst (λ y. P y × (test y ≡ true)) (some-injective x r h) (ps.0, own)
    taken (some b) found later_rows own h = elim (Bool-cases (ltb x.created_at b.created_at)) [
      | inl later ↦ later_rows r (found ∙ (rw later at h))
      | inr not_later ↦
          subst (λ y. P y × (test y ≡ true)) (some-injective x r (rw not_later at h)) (ps.0, own)
    ]

module _ (d : Decoders) (now : ℕ) (uuid : ℕ → String) (snapshot : Snapshot)
    (dependencies : List ResolvedDependency) where
  -- the reviews of a new row
  abbrev scanned : Bool → List Review → List Review
  scanned blocked reviews = reviews ++ scan_review now (uuid 1) (uuid 0) blocked ∷ []

  unapproved_row :
      (t : AppState) (base : Option Revision) (blocked : Bool) (state : RevisionState)
      → contains (map id_of_revision t.revisions) (uuid 0) ≡ false
      → is_approved state ≡ false
      → IsReviewed t
      → IsReviewed (
          add_review
            (scan_review now (uuid 1) (uuid 0) blocked)
            (add_revision (new_revision d now (uuid 0) snapshot dependencies base state) t))
  unapproved_row t base blocked state fresh n h =
      add_row-IsReviewed t (new_revision d now (uuid 0) snapshot dependencies base state)
        (scanned blocked t.reviews) fresh (λ o e. has_evidence-add t.reviews _ o e)
        (λ id e. reuse-add t.reviews _ id e) (λ e. absurd (ground (arith, n, e))) h

  stored_row-IsReviewed :
      (t : AppState) (base : Option Revision) (blocked : Bool) (old : Option Revision)
      → contains (map id_of_revision t.revisions) (uuid 0) ≡ false
      → ((r : Revision)
          → old ≡ some r
          → (r.package_base ≡ snapshot.package_base)
            × (r.tree_sha256 ≡ d.tree_sha256 snapshot)
            × (any (is_origin t.reviews r) t.revisions ≡ true))
      → IsReviewed t
      → IsReviewed (
          note_reuse now (uuid 2) (uuid 0) blocked old (
            add_review (scan_review now (uuid 1) (uuid 0) blocked) (
              add_revision
                (new_revision d now
                  (uuid 0)
                  snapshot
                  dependencies
                  base
                  (first_state blocked (is_some old)))
                t)))
  stored_row-IsReviewed t base true none fresh origin h = unapproved_row t base true _ fresh refl h
  stored_row-IsReviewed t base true (some r) fresh origin h =
      unapproved_row t base true _ fresh refl h
  stored_row-IsReviewed t base false none fresh origin h =
      unapproved_row t base false _ fresh refl h
  stored_row-IsReviewed t base false (some r) fresh origin h =
      let row = new_revision d now (uuid 0) snapshot dependencies base (first_state false true) in
      let note = reuse_review now (uuid 2) (uuid 0) r in
      let one = scanned false t.reviews in
      let (same_base, same_tree, behind) = origin r refl in
      let noted : any (by_reuse (uuid 0)) (one ++ note ∷ []) ≡ true =
        any-append (by_reuse (uuid 0)) one (note ∷ []) ∙ ground (arith, ==_refl (uuid 0)) in
      add_row-IsReviewed t row (one ++ note ∷ []) fresh
        (λ o e. has_evidence-add one note o (has_evidence-add t.reviews _ o e))
        (λ id e. reuse-add one note id (reuse-add t.reviews _ id e))
        (λ e.
          any-imp (is_origin t.reviews r) (is_origin (one ++ note ∷ []) row) t.revisions
            (λ o holds.
              let kept =
                has_evidence-add one note o
                  (has_evidence-add t.reviews _ o (ground (arith, holds))) in
              ground (
                arith,
                noted,
                kept,
                holds,
                ap (λ x. o.package_base == x) same_base,
                ap (λ x. o.tree_sha256 == x) same_tree,
              ))
            behind)
        h

  -- The revision that is reused has one behind it, also after those in review are superseded.
  reused-origin :
      (t : AppState) (r : Revision)
      → reusable d snapshot t ≡ some r
      → IsReviewed t
      → (r.package_base ≡ snapshot.package_base)
        × (r.tree_sha256 ≡ d.tree_sha256 snapshot)
        × (any (is_origin t.reviews r) (supersede snapshot.package_base t).revisions ≡ true)
  reused-origin t r found h =
      let test = λ (x : Revision).
        x.package_base == snapshot.package_base
        && is_approved x.state
        && x.tree_sha256 == d.tree_sha256 snapshot in
      let (justified, passes) =
        newest-found test (IsJustified t.reviews t.revisions) t.revisions r h.1 found in
      (
        (==_iff r.package_base snapshot.package_base).0 (ground (arith, passes)),
        (==_iff r.tree_sha256 (d.tree_sha256 snapshot)).0 (ground (arith, passes)),
        origin-changed t.reviews t.reviews (λ x. Unit {0}) (is_superseded snapshot.package_base)
            superseded_row (λ x u e. open_unapproved x.state (ground (arith, e)))
            (λ x u n holds e. e) r t.revisions (λ e. e) (All-rows t.revisions)
            (justified (ground (arith, passes))),
      )

  superseded_fresh :
      (s : AppState)
      → contains (map id_of_revision s.revisions) (uuid 0) ≡ false
      → contains
          (map id_of_revision
            (supersede snapshot.package_base
              (ensure_package snapshot.package_base now s)).revisions)
          (uuid 0)
        ≡ false
  superseded_fresh s fresh =
      let t = ensure_package snapshot.package_base now s in
      let test = λ (r : Revision).
        r.package_base == snapshot.package_base && (is_pending r.state || is_manual r.state) in
      ap (λ ids. contains ids (uuid 0))
        (map-update_where id_of_revision test superseded_row t.revisions (λ r. refl)
          ∙ ap (map id_of_revision) (ensure_package-SameReviews snapshot.package_base now s).0)
      ∙ fresh

  store_revision-IsReviewed :
      (s : AppState)
      → contains (map id_of_revision s.revisions) (uuid 0) ≡ false
      → IsReviewed s
      → IsReviewed (store_revision d now uuid snapshot dependencies s).0
  unfolding store_revision
  store_revision-IsReviewed s fresh h =
      let t = ensure_package snapshot.package_base now s in
      let kept =
        SameReviews-IsReviewed s t (ensure_package-SameReviews snapshot.package_base now s) h in
      let stored =
        stored_row-IsReviewed (supersede snapshot.package_base t) (baseline snapshot t)
          (is_blocked d snapshot) (reusable d snapshot t) (superseded_fresh s fresh)
          (λ r found. reused-origin t r found kept)
          (supersede-IsReviewed snapshot.package_base t kept) in
      let old = reusable d snapshot t in
      let blocked = is_blocked d snapshot in
      let row =
        new_revision d now (uuid 0) snapshot dependencies (baseline snapshot t)
          (first_state blocked (is_some old)) in
      let noted = note_reuse now (uuid 2) (uuid 0) blocked old (
        add_review (scan_review now (uuid 1) (uuid 0) blocked)
          (add_revision row (supersede snapshot.package_base t))) in
      SameReviews-IsReviewed noted
        (update_package snapshot (foldl (ensure_target now) noted dependencies))
        (ensured-SameReviews now dependencies noted) stored

  pub insert_revision-IsReviewed :
      (s : AppState)
      → contains (map id_of_revision s.revisions) (uuid 0) ≡ false
      → IsReviewed s
      → IsReviewed (insert_revision d now uuid snapshot dependencies s).0
  unfolding insert_revision store_revision
  insert_revision-IsReviewed s fresh h = elim (Bool-cases (any (is_same snapshot) s.revisions)) [
    | inl e ↦ rw (e, insert_revision) h
    | inr n ↦ rw (n, insert_revision) (store_revision-IsReviewed s fresh h)
  ]
