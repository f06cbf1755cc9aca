-- ===== src/Daemon/Packages/Sync/Keeping.antt =====
-- What the check of a package leaves as it is, whatever comes of it.
use aursmith.Base.{
  ℕ, String, List, [], ◌∷◌, map, Bool, true, false, Option, none, some, Result, ok, err, ◌≡◌, refl,
  ◌∙◌, ap, Bool-cases, Option-cases, inl, inr, any, contains, find, foldl, is_some, string_ord,
  ◌==◌,
}
use aursmith.Daemon.State.{
  AppState, Build, Directory, Publication, Package, Revision, Snapshot, ResolvedDependency,
}
use aursmith.Daemon.Approval.{IsReviewed}
use aursmith.Daemon.Approval.Decisions.{id_of_revision}
use aursmith.Daemon.Approval.Storing.{SameReviews-IsReviewed, insert_revision-IsReviewed}
use aursmith.Daemon.Review.{add_review}
use aursmith.Daemon.Revisions.{
  Decoders, ensure_package, ensure_target, insert_revision, store_revision, note_reuse, is_same,
  is_blocked, reusable, first_state, new_revision, baseline, add_revision, supersede, scan_review,
}
use aursmith.Daemon.Packages.Aur.{AurPackage}
use aursmith.Daemon.Packages.Resolve.{resolve_dependencies}
use aursmith.Daemon.Packages.Sync.{
  Sources, wake_if_some, ingest_resolved, ingest_snapshot, ingest, record_sync, update_cache,
  sync_changed, sync_found, sync_answer, sync_row, sync_package, sync_and_record, message_of,
  has_changed, latest_revision, lookup_name, is_base, Created,
}

-- the parts that concern neither packages nor revisions
abbrev pub outside :
    AppState
    → List String
      × List ((String × String) × String)
      × List Build
      × List Publication
      × (String → Option Directory)
outside s = (s.subscriptions, s.provider_choices, s.builds, s.publications, s.artifacts)

abbrev pub Untouched : AppState → AppState → Type 0
Untouched s t = outside t ≡ outside s

pub ensure_package-Untouched :
    (base : String) (now : ℕ) (s : AppState) → Untouched s (ensure_package base now s)
unfolding ensure_package
ensure_package-Untouched base now s =
    elim (Bool-cases (any (λ p. p.package_base == base) s.packages)) [
      | inl e ↦ rw (e, ensure_package) refl
      | inr n ↦ rw (n, ensure_package) refl
    ]

ensure_target-Untouched :
    (now : ℕ) (s : AppState) (d : ResolvedDependency) → Untouched s (ensure_target now s d)
ensure_target-Untouched now s d = elim (Option-cases d.target) [
  | inl e ↦ rw (e, ensure_target) refl
  | inr (target, e) ↦ rw (e, ensure_target) (ensure_package-Untouched target now s)
]

ensure_targets-Untouched :
    (now : ℕ) (dependencies : List ResolvedDependency) (s : AppState)
    → Untouched s (foldl (ensure_target now) s dependencies)
ensure_targets-Untouched now [] s = refl
ensure_targets-Untouched now (d ∷ dependencies) s =
    ensure_targets-Untouched now dependencies (ensure_target now s d)
    ∙ ensure_target-Untouched now s d

note_reuse-Untouched :
    (now : ℕ) (uuid id : String) (blocked : Bool) (found : Option Revision) (s : AppState)
    → Untouched s (note_reuse now uuid id blocked found s)
note_reuse-Untouched now uuid id blocked none s = refl
note_reuse-Untouched now uuid id true (some r) s = refl
note_reuse-Untouched now uuid id false (some r) s = refl

store_revision-Untouched :
    (d : Decoders) (now : ℕ) (uuid : ℕ → String) (snapshot : Snapshot)
    (dependencies : List ResolvedDependency) (s0 : AppState)
    → Untouched s0 (store_revision d now uuid snapshot dependencies s0).0
unfolding store_revision
store_revision-Untouched d now uuid snapshot dependencies s0 =
    let s = ensure_package snapshot.package_base now s0 in
    let blocked = is_blocked d snapshot in
    let old = reusable d snapshot s in
    let id = uuid 0 in
    let row =
      new_revision d now id snapshot dependencies (baseline snapshot s)
        (first_state blocked (is_some old)) in
    let inserted = add_revision row (supersede snapshot.package_base s) in
    let scanned = add_review (scan_review now (uuid 1) id blocked) inserted in
    ensure_targets-Untouched now dependencies (note_reuse now (uuid 2) id blocked old scanned)
    ∙ note_reuse-Untouched now (uuid 2) id blocked old scanned
    ∙ ensure_package-Untouched snapshot.package_base now s0

insert_revision-Untouched :
    (d : Decoders) (now : ℕ) (uuid : ℕ → String) (snapshot : Snapshot)
    (dependencies : List ResolvedDependency) (s : AppState)
    → Untouched s (insert_revision d now uuid snapshot dependencies s).0
unfolding insert_revision
insert_revision-Untouched d now uuid snapshot dependencies s =
    elim (Bool-cases (any (is_same snapshot) s.revisions)) [
      | inl e ↦ rw (e, insert_revision) refl
      | inr n ↦
          rw (n, insert_revision) (store_revision-Untouched d now uuid snapshot dependencies s)
    ]

-- A property that a change of the packages alone keeps, and the insertion of a revision into a state
-- with the revisions of the first one.
pub record IsKept (I : AppState → Type 0) (sources : Sources) (now : ℕ) (uuid : ℕ → String)
    (s : AppState) : Type 0 where
  pub same :
      (t u : AppState)
      → u.revisions ≡ t.revisions
      → u.reviews ≡ t.reviews
      → outside u ≡ outside t
      → I t
      → I u
  pub inserted :
      (snapshot : Snapshot) (dependencies : List ResolvedDependency) (t : AppState)
      → t.revisions ≡ s.revisions
      → I t
      → I (insert_revision sources.decoders now uuid snapshot dependencies t).0

module _ (I : AppState → Type 0) (sources : Sources) (now : ℕ) (uuid : ℕ → String) (s : AppState)
    (k : IsKept I sources now uuid s) where
  wake_if_some-keeps : (x : AppState × Created) → I x.0 → I (wake_if_some x).1
  wake_if_some-keeps (t, none) h = h
  wake_if_some-keeps (t, some created) h =
      k.same t (wake_if_some (t, some created)).1 refl refl refl h

  ingest_resolved-keeps :
      (snapshot : Snapshot) (resolved : Result (List ResolvedDependency) String) (t : AppState)
      → t.revisions ≡ s.revisions
      → I t
      → I (ingest_resolved sources now uuid snapshot resolved t).1
  ingest_resolved-keeps snapshot (err e) t same h = h
  ingest_resolved-keeps snapshot (ok dependencies) t same h =
      wake_if_some-keeps (insert_revision sources.decoders now uuid snapshot dependencies t)
        (k.inserted snapshot dependencies t same h)

  ingest_snapshot-keeps :
      (found : Result Snapshot String) (t : AppState)
      → t.revisions ≡ s.revisions
      → I t
      → I (ingest_snapshot sources now uuid found t).1
  ingest_snapshot-keeps (err e) t same h = h
  ingest_snapshot-keeps (ok snapshot) t same h =
      elim (Bool-cases (any (is_same snapshot) t.revisions)) [
        | inl old ↦ rw (old, ingest_snapshot) h
        | inr new ↦
            rw (new, ingest_snapshot)
              (ingest_resolved-keeps snapshot (resolve_dependencies sources.client snapshot.info) t
                same h)
      ]

  sync_changed-keeps :
      (base : String) (changed : Result Bool String) (t : AppState)
      → t.revisions ≡ s.revisions
      → I t
      → I (sync_changed sources now uuid base changed t).1
  unfolding ingest
  sync_changed-keeps base (err e) t same h = h
  sync_changed-keeps base (ok false) t same h = h
  sync_changed-keeps base (ok true) t same h =
      ingest_snapshot-keeps (sources.client.snapshot base) t same h

  sync_found-keeps :
      (base : String) (modified : Option ℕ) (found : Option AurPackage) (t : AppState)
      → t.revisions ≡ s.revisions
      → I t
      → I (sync_found sources now uuid base modified found t).1
  sync_found-keeps base modified none t same h = h
  sync_found-keeps base modified (some found) t same h =
      let cached = update_cache found t in
      sync_changed-keeps base
        (has_changed sources.client modified found (latest_revision cached base)) cached same
        (k.same t cached refl refl refl h)

  sync_answer-keeps :
      (base : String) (modified : Option ℕ) (answer : Result (List AurPackage) String)
      (t : AppState)
      → t.revisions ≡ s.revisions
      → I t
      → I (sync_answer sources now uuid base modified answer t).1
  sync_answer-keeps base modified (err e) t same h = h
  sync_answer-keeps base modified (ok packages) t same h =
      sync_found-keeps base modified (find (λ p. p.package_base == base) packages) t same h

  sync_row-keeps :
      (base : String) (row : Option Package) (t : AppState)
      → t.revisions ≡ s.revisions
      → I t
      → I (sync_row sources now uuid base row t).1
  sync_row-keeps base none t same h = h
  sync_row-keeps base (some p) t same h =
      sync_answer-keeps base p.last_modified (sources.client.info (lookup_name base p.outputs ∷ []))
        t same h

  record_sync-keeps :
      (base : String) (message : Option String) (t : AppState)
      → I t
      → I (record_sync sources now base message t)
  unfolding record_sync
  record_sync-keeps base none t h = k.same t (record_sync sources now base none t) refl refl refl h
  record_sync-keeps base (some message) t h =
      k.same t (record_sync sources now base (some message) t) refl refl refl h

  -- The check of a package and its record, from a state with the same revisions.
  pub sync_and_record-keeps :
      (base : String) (t : AppState)
      → t.revisions ≡ s.revisions
      → I t
      → I (sync_and_record sources now uuid t base)
  unfolding sync_package
  sync_and_record-keeps base t same h =
      let row = find (is_base base) t.packages in
      record_sync-keeps base (message_of (sync_row sources now uuid base row t).0)
        (sync_row sources now uuid base row t).1 (sync_row-keeps base row t same h)

-- The check leaves the subscriptions, the choices, the builds, the publications and the artifacts.
pub sync_and_record-Untouched :
    (sources : Sources) (now : ℕ) (uuid : ℕ → String) (base : String) (s : AppState)
    → Untouched s (sync_and_record sources now uuid s base)
sync_and_record-Untouched sources now uuid base s =
    sync_and_record-keeps (Untouched s) sources now uuid s
      (record {
        same = λ t u revisions reviews rest h. rest ∙ h;
        inserted = λ snapshot dependencies t same h.
            insert_revision-Untouched sources.decoders now uuid snapshot dependencies t ∙ h;
      })
      base s refl refl

-- The check leaves the reviews behind the approved revisions.
pub sync_and_record-IsReviewed :
    (sources : Sources) (now : ℕ) (uuid : ℕ → String) (base : String) (s : AppState)
    → contains (map id_of_revision s.revisions) (uuid 0) ≡ false
    → IsReviewed s
    → IsReviewed (sync_and_record sources now uuid s base)
sync_and_record-IsReviewed sources now uuid base s fresh h =
    sync_and_record-keeps IsReviewed sources now uuid s
      (record {
        same = λ t u revisions reviews rest h. SameReviews-IsReviewed t u (revisions, reviews) h;
        inserted = λ snapshot dependencies t same h.
            insert_revision-IsReviewed sources.decoders now uuid snapshot dependencies t
              (ap (λ rows. contains (map id_of_revision rows) (uuid 0)) same ∙ fresh) h;
      })
      base s refl h
