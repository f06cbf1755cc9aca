-- ===== src/Daemon/Approval/Gate.antt =====
-- The ways in which revisions change, in any order: a snapshot is stored, a package is checked, a round of the review, a
-- decision of an administrator, a request for another review.
use aursmith.Daemon.Approval.Origins.{changed-IsJustified}
use aursmith.Daemon.Closure.{is_approved}
use aursmith.Base.{
  ℕ, String, List, [], map, Bool, true, false, ◌&&◌, Option, none, some, ◌≡◌, refl, sym, subst,
  arith, ◌==◌, string_ord, nat_ord, All, Nodup, contains, keep, leb, trim, count_chars, ==_iff,
}
use aursmith.Daemon.State.{AppState, Revision, RevisionState, Snapshot, ResolvedDependency, wake}
use aursmith.Daemon.Handler.{
  bind-keeps, check-keeps, check, modify, ◌>>◌, reads_result, bad_request_error, conflict_error,
}
use aursmith.Daemon.Table.{affected}
use aursmith.Daemon.Review.{
  is_manual, Reviewer, is_pending, baseline_of, review_found, review_next, review_with, oldest,
  decide_manually, decide_rows, manual_row, in_manual_review, human_review, add_review,
  DecisionRequest, retry, retry_rows, pending_row,
}
use aursmith.Daemon.Revisions.{Decoders, insert_revision}
use aursmith.Daemon.Packages.Sync.{Sources, sync_and_record}
use aursmith.Daemon.Packages.Sync.Keeping.{sync_and_record-IsReviewed}
use aursmith.Daemon.Keyed.{map-update_where}
use aursmith.Daemon.Approval.{IsJustified, IsReviewed}
use aursmith.Daemon.Approval.Evidence.{has_evidence-add, has_evidence-human, reuse-add}
use aursmith.Daemon.Approval.Decisions.{id_of_revision}
use aursmith.Daemon.Approval.Rounds.{oldest-IsNext, manual-IsReviewed, run_agents-IsReviewed}
use aursmith.Daemon.Approval.Storing.{
  All-rows, SameReviews, SameReviews-IsReviewed, insert_revision-IsReviewed,
}

pub review_next-IsReviewed :
    (reviewer : Option Reviewer) (now : ℕ) (uuid : ℕ → String) (s : AppState)
    → IsReviewed s
    → IsReviewed (review_next reviewer now uuid s).1
unfolding review_next
review_next-IsReviewed reviewer now uuid s h =
    found_row reviewer (oldest (keep (λ r. is_pending r.state) s.revisions)) refl
  where
    found_row :
        (given : Option Reviewer) (found : Option Revision)
        → oldest (keep (λ r. is_pending r.state) s.revisions) ≡ found
        → IsReviewed (review_found given now uuid found s).1
    found_row given none e = h
    found_row none (some r) e = manual-IsReviewed now r s (oldest-IsNext s.revisions r h.0 e) h
    found_row (some agents) (some r) e =
        bind-keeps IsReviewed (reads_result (λ t. baseline_of t r.baseline_revision_id))
          (λ baseline. review_with agents now uuid r baseline) s h
          (λ baseline read.
            run_agents-IsReviewed now r s agents baseline uuid (oldest-IsNext s.revisions r h.0 e)
              h)

manual_unapproved : (state : RevisionState) → is_manual state ≡ true → is_approved state ≡ false
manual_unapproved state e = ground arith

retry-IsReviewed : (id : String) (s : AppState) → IsReviewed s → IsReviewed (retry_rows id s)
retry-IsReviewed id s h = (
  rw (map-update_where id_of_revision (in_manual_review id) pending_row s.revisions (λ r. refl))
      h.0,
  changed-IsJustified s.reviews s.reviews (λ r. Unit {0}) (in_manual_review id) pending_row
      (λ r u e. manual_unapproved r.state (ground (arith, e))) (λ r u n holds e. e) s.revisions
      (λ r u e approved. absurd (ground arith)) (λ other e. e) (All-rows s.revisions) h.1,
)

decided-IsReviewed :
    (now : ℕ) (uuid id : String) (approves : Bool) (rationale : String) (s : AppState)
    → IsReviewed s
    → IsReviewed (
        wake (
          add_review (human_review now uuid id approves rationale) (decide_rows now id approves s)))
decided-IsReviewed now uuid id approves rationale s h =
    let review = human_review now uuid id approves rationale in
    let all_reviews = (add_review review s).reviews in
    (
      rw
          (map-update_where id_of_revision (in_manual_review id) (manual_row now approves)
            s.revisions (λ r. refl))
          h.0,
      changed-IsJustified s.reviews all_reviews (λ r. Unit {0}) (in_manual_review id)
          (manual_row now approves) (λ r u e. manual_unapproved r.state (ground (arith, e)))
          (λ r u n holds e. has_evidence-add s.reviews review r e) s.revisions
          (λ r u e approved.
            has_evidence-human s.reviews review (manual_row now approves r)
              (ground (arith, e, approved, ==_iff r.id id, ==_iff id r.id)))
          (λ other e. reuse-add s.reviews review other e) (All-rows s.revisions) h.1,
    )

decide_manually-IsReviewed :
    (now : ℕ) (uuid id : String) (request : DecisionRequest) (s : AppState)
    → IsReviewed s
    → IsReviewed (decide_manually now uuid id request s).1
unfolding decide_manually
decide_manually-IsReviewed now uuid id request s h =
    let rationale = trim request.rationale in
    check-keeps IsReviewed (leb 8 (count_chars rationale) && leb (count_chars rationale) 4000)
      (bad_request_error "RATIONALE_REQUIRED") _ s h
      (λ long.
        check-keeps IsReviewed (affected (in_manual_review id) s.revisions == 1)
          (conflict_error "REVISION_NOT_IN_MANUAL_REVIEW")
          (modify (decide_rows now id request.approve)
            >> (modify (add_review (human_review now uuid id request.approve rationale))
                >> modify wake))
          s h (λ one. decided-IsReviewed now uuid id request.approve rationale s h))

retry_request-IsReviewed : (id : String) (s : AppState) → IsReviewed s → IsReviewed (retry id s).1
unfolding retry
retry_request-IsReviewed id s h = checked (affected (in_manual_review id) s.revisions == 1)
  where
    checked :
        (test : Bool)
        → IsReviewed
            (check test (conflict_error "REVISION_NOT_IN_MANUAL_REVIEW") (retry_rows id s)).1
    checked true = retry-IsReviewed id s h
    checked false = retry-IsReviewed id s h

-- One change of the revisions. The last is any other change: it leaves revisions and reviews.
pub data Change (s : AppState) : AppState → Type 0 where
  snapshot_stored :
      (d : Decoders) (now : ℕ) (uuid : ℕ → String) (snapshot : Snapshot)
      (dependencies : List ResolvedDependency)
      → contains (map id_of_revision s.revisions) (uuid 0) ≡ false
      → Change s (insert_revision d now uuid snapshot dependencies s).0
  package_checked :
      (sources : Sources) (now : ℕ) (uuid : ℕ → String) (base : String)
      → contains (map id_of_revision s.revisions) (uuid 0) ≡ false
      → Change s (sync_and_record sources now uuid s base)
  reviewed :
      (reviewer : Option Reviewer) (now : ℕ) (uuid : ℕ → String)
      → Change s (review_next reviewer now uuid s).1
  decided :
      (now : ℕ) (uuid id : String) (request : DecisionRequest)
      → Change s (decide_manually now uuid id request s).1
  retried : (id : String) → Change s (retry id s).1
  unrelated : (t : AppState) → SameReviews s t → Change s t

-- the states that changes reach from a database without revisions
pub data Changed : AppState → Type 0 where
  unchanged : (s : AppState) → s.revisions ≡ [] → Changed s
  change : (s t : AppState) → Changed s → Change s t → Changed t

Change-IsReviewed : (s t : AppState) → Change s t → IsReviewed s → IsReviewed t
Change-IsReviewed s _ (snapshot_stored d now uuid snapshot dependencies fresh) h =
    insert_revision-IsReviewed d now uuid snapshot dependencies s fresh h
Change-IsReviewed s _ (package_checked sources now uuid base fresh) h =
    sync_and_record-IsReviewed sources now uuid base s fresh h
Change-IsReviewed s _ (reviewed reviewer now uuid) h = review_next-IsReviewed reviewer now uuid s h
Change-IsReviewed s _ (decided now uuid id request) h =
    decide_manually-IsReviewed now uuid id request s h
Change-IsReviewed s _ (retried id) h = retry_request-IsReviewed id s h
Change-IsReviewed s t (unrelated _ same) h = SameReviews-IsReviewed s t same h

-- In every state that is reached, whatever the changes and their order: no two revisions have one id,
-- and behind each approved revision there stands one of the same package with the same tree, which is
-- approved on evidence: by an administrator, or, if it has a baseline, by the high-cost agent or two
-- low-cost ones. It is the revision itself, or the review notes that a revision is reused.
pub Changed-IsReviewed : (s : AppState) → Changed s → IsReviewed s
Changed-IsReviewed _ (unchanged s e) = (
  subst (λ rows. Nodup (map id_of_revision rows)) (sym e) tt,
  subst (λ rows. All (IsJustified s.reviews rows) rows) (sym e) tt,
)
Changed-IsReviewed _ (change s t reached step) =
    Change-IsReviewed s t step (Changed-IsReviewed s reached)
