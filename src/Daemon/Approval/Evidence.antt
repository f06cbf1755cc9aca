-- ===== src/Daemon/Approval/Evidence.antt =====
-- What a new review and the removal of the agents' reviews do to the evidence of a revision.
use aursmith.Base.{
  any, String, List, [], ◌∷◌, ◌++◌, Bool, true, false, not, ◌&&◌, ◌≡◌, arith, ◌==◌, string_ord,
  keep, any-append, ==_iff, is_some,
}
use aursmith.Daemon.State.{Revision, Review, ReviewKind, reuse}
use aursmith.Daemon.Review.{is_agent}
use aursmith.Daemon.Keyed.{any-keep, length-keep-keep, length-keep_end}
use aursmith.Daemon.Approval.{is_reuse, by_human, by_reuse, by_low, by_high, has_evidence}

pub has_evidence-add :
    (reviews : List Review) (v : Review) (r : Revision)
    → has_evidence reviews r ≡ true
    → has_evidence (reviews ++ v ∷ []) r ≡ true
has_evidence-add reviews v r h = ground (
  arith,
  any-append (by_human r.id) reviews (v ∷ []),
  any-append (by_high r.id) reviews (v ∷ []),
  length-keep_end (by_low r.id) reviews v,
)

abbrev pub stays : String → Review → Bool
stays id review = not (review.revision_id == id && is_agent review.kind)

pub has_evidence-drop :
    (reviews : List Review) (id : String) (r : Revision)
    → (r.id == id) ≡ false
    → has_evidence (keep (stays id) reviews) r ≡ has_evidence reviews r
has_evidence-drop reviews id r n = ground (
  arith,
  any-keep (by_human r.id) (stays id) reviews
      (λ v e. ground (arith, ==_iff v.revision_id r.id, ==_iff v.revision_id id, ==_iff r.id id)),
  any-keep (by_high r.id) (stays id) reviews
      (λ v e. ground (arith, ==_iff v.revision_id r.id, ==_iff v.revision_id id, ==_iff r.id id)),
  length-keep-keep (by_low r.id) (stays id) reviews
      (λ v e. ground (arith, ==_iff v.revision_id r.id, ==_iff v.revision_id id, ==_iff r.id id)),
)

pub has_evidence-high :
    (reviews : List Review) (v : Review) (r : Revision)
    → is_some r.baseline_revision_id ≡ true
    → by_high r.id v ≡ true
    → has_evidence (reviews ++ v ∷ []) r ≡ true
has_evidence-high reviews v r based h =
    ground (arith, any-append (by_high r.id) reviews (v ∷ []), h, based)

pub has_evidence-lows :
    (reviews : List Review) (v w : Review) (r : Revision)
    → is_some r.baseline_revision_id ≡ true
    → by_low r.id v ≡ true
    → by_low r.id w ≡ true
    → has_evidence ((reviews ++ v ∷ []) ++ w ∷ []) r ≡ true
has_evidence-lows reviews v w r based h k = ground (
  arith,
  length-keep_end (by_low r.id) reviews v,
  length-keep_end (by_low r.id) (reviews ++ v ∷ []) w,
  h,
  k,
  based,
)

pub has_evidence-human :
    (reviews : List Review) (v : Review) (r : Revision)
    → by_human r.id v ≡ true
    → has_evidence (reviews ++ v ∷ []) r ≡ true
has_evidence-human reviews v r h = ground (arith, any-append (by_human r.id) reviews (v ∷ []), h)

-- The notes of a reuse stay.
pub reuse-add :
    (reviews : List Review) (v : Review) (id : String)
    → any (by_reuse id) reviews ≡ true
    → any (by_reuse id) (reviews ++ v ∷ []) ≡ true
reuse-add reviews v id h = ground (arith, any-append (by_reuse id) reviews (v ∷ []), h)

pub reuse-drop :
    (reviews : List Review) (other id : String)
    → any (by_reuse id) (keep (stays other) reviews) ≡ any (by_reuse id) reviews
reuse-drop reviews other id =
    any-keep (by_reuse id) (stays other) reviews (λ v e. kept v v.kind (ground arith))
  where
    kept :
        (v : Review) (kind : ReviewKind)
        → is_reuse kind ≡ true
        → not (v.revision_id == other && is_agent kind) ≡ true
    kept v reuse e = ground arith
    kept v _ e = absurd (ground arith)
