-- ===== src/Daemon/Approval/Decisions.antt =====
-- The review of a revision and the decisions of an administrator keep what stands behind an approval.
use aursmith.Daemon.Approval.Origins.{changed-IsJustified}
use aursmith.Base.{
  List, any, ℕ, String, map, true, false, not, ◌&&◌, Option, some, ◌≡◌, refl, ap, sym, subst, arith,
  ◌==◌, string_ord, nat_ord, inl, inr, All, Nodup, ==_refl, Bool-cases, is_some,
}
use aursmith.Core.Review.{
  Verdict, approve, is_approve, Outcome, approved, manual_review, LowStage, after_lows, decide,
}
use aursmith.Core.Review
use aursmith.Core.Review.Rule.{decide-approved}
use aursmith.Daemon.State.{AppState, Revision, RevisionState, Review, low, high}
use aursmith.Daemon.Table.{update_where}
use aursmith.Daemon.Closure.{is_approved}
use aursmith.Daemon.Review.{
  Reviewer, AgentReply, run_agent, agent_review, record_run, escalate, run_agents, set_outcome,
  outcome_row, is_pending, drop_agent_reviews,
}
use aursmith.Daemon.Keyed.{map-update_where, OnlyRow}
use aursmith.Daemon.Approval.{by_reuse, has_evidence, IsJustified, IsReviewed}
use aursmith.Daemon.Approval.Evidence.{
  reuse-add, has_evidence-add, has_evidence-high, has_evidence-lows,
}

abbrev pub id_of_revision : Revision → String
id_of_revision r = r.id

module _ (now : ℕ) (r : Revision) (s : AppState) where
  abbrev pub stored : Outcome → AppState
  stored outcome = record s {
    revisions =
        update_where (λ x. x.id == r.id && is_pending x.state) (outcome_row now outcome)
          s.revisions;
  }

  pub stored-IsReviewed :
      (before : List Review) (outcome : Outcome)
      → is_pending r.state ≡ true
      → (outcome ≡ approved → has_evidence s.reviews r ≡ true)
      → All (OnlyRow id_of_revision r) s.revisions
      → ((x : Revision)
          → (x.id == r.id) ≡ false
          → has_evidence before x ≡ true
          → has_evidence s.reviews x ≡ true)
      → ((id : String) → any (by_reuse id) before ≡ true → any (by_reuse id) s.reviews ≡ true)
      → All (IsJustified before s.revisions) s.revisions
      → Nodup (map id_of_revision s.revisions)
      → IsReviewed (stored outcome)
  stored-IsReviewed before outcome pending evidence only others reuses justified once = (
    rw
        (map-update_where id_of_revision (λ x. x.id == r.id && is_pending x.state)
          (outcome_row now outcome) s.revisions (λ x. refl))
        once,
    changed-IsJustified before s.reviews (OnlyRow id_of_revision r)
        (λ x. x.id == r.id && is_pending x.state) (outcome_row now outcome)
        (λ x p e. pending_row x.state (ground (arith, e)))
        (λ x p n holds h. elim (Bool-cases (x.id == r.id)) [
          | inl e ↦ absurd (ground (arith, ap (λ y. is_pending y.state) (p e)))
          | inr other ↦ others x other h
        ])
        s.revisions (λ x p e holds. justified_row outcome x (p (ground (arith, e))) evidence holds)
        reuses only justified,
  )
    where
      pending_row : (state : RevisionState) → is_pending state ≡ true → is_approved state ≡ false
      pending_row state e = ground arith

      justified_row :
          (given : Outcome) (x : Revision)
          → x ≡ r
          → (given ≡ approved → has_evidence s.reviews r ≡ true)
          → is_approved (outcome_row now given x).state ≡ true
          → has_evidence s.reviews (outcome_row now given x) ≡ true
      justified_row approved x same h e =
          subst (λ y. has_evidence s.reviews y ≡ true) (sym same) (h refl)
      justified_row manual_review x same h e = absurd (ground arith)

  pub set_outcome-IsReviewed :
      (outcome : Outcome)
      → IsReviewed (stored outcome)
      → IsReviewed (set_outcome now r.id outcome s)
  unfolding set_outcome
  set_outcome-IsReviewed approved h = h
  set_outcome-IsReviewed manual_review h = h

module _ (reviewer : Reviewer) (now : ℕ) (r : Revision) (baseline : Option Revision) where
  pub escalate-revisions :
      (id : String) (stage : LowStage) (s : AppState)
      → (escalate reviewer now id r baseline stage s).1.revisions ≡ s.revisions
  escalate-revisions id Review.LowStage.approved s = refl
  escalate-revisions id Review.LowStage.escalate_high s = refl

  pub escalate-has_evidence :
      (id : String) (stage : LowStage) (s : AppState) (x : Revision)
      → has_evidence s.reviews x ≡ true
      → has_evidence (escalate reviewer now id r baseline stage s).1.reviews x ≡ true
  escalate-has_evidence id Review.LowStage.approved s x h = h
  escalate-has_evidence id Review.LowStage.escalate_high s x h = has_evidence-add s.reviews _ x h

  pub escalate-reuse :
      (id : String) (stage : LowStage) (s : AppState) (other : String)
      → any (by_reuse other) s.reviews ≡ true
      → any (by_reuse other) (escalate reviewer now id r baseline stage s).1.reviews ≡ true
  escalate-reuse id Review.LowStage.approved s other h = h
  escalate-reuse id Review.LowStage.escalate_high s other h = reuse-add s.reviews _ other h

  escalate-approves :
      (id : String) (stage : LowStage) (s : AppState)
      → is_some r.baseline_revision_id ≡ true
      → (escalate reviewer now id r baseline stage s).0 ≡ some approve
      → has_evidence (escalate reviewer now id r baseline stage s).1.reviews r ≡ true
  escalate-approves id Review.LowStage.approved s based h = absurd (ground arith)
  escalate-approves id Review.LowStage.escalate_high s based h =
      has_evidence-high s.reviews
        (agent_review now id r.id (run_agent high (reviewer.third r baseline))) r based
        (ground (arith, ==_refl r.id, verdict_is h))
    where
      verdict_is :
          some (reviewer.third r baseline).verdict ≡ some approve
          → is_approve (reviewer.third r baseline).verdict ≡ true
      verdict_is e = ground arith

  lows-approve :
      (first second : String) (s : AppState) (a b : AgentReply)
      → is_some r.baseline_revision_id ≡ true
      → a.verdict ≡ approve
      → b.verdict ≡ approve
      → has_evidence
          (record_run now second r.id
            (run_agent low b)
            (record_run now first r.id (run_agent low a) s)).reviews
          r
        ≡ true
  lows-approve first second s a b based va vb =
      has_evidence-lows s.reviews (agent_review now first r.id (run_agent low a))
        (agent_review now second r.id (run_agent low b)) r based
        (ground (arith, ==_refl r.id, ap is_approve va))
        (ground (arith, ==_refl r.id, ap is_approve vb))

  -- The agents approve only what then has evidence.
  pub run_agents-evidence :
      (uuid : ℕ → String) (s : AppState)
      → (run_agents reviewer now uuid r baseline s).0 ≡ approved
      → let a = run_agent low (reviewer.first r baseline) in
        let b = run_agent low (reviewer.second r baseline) in
        let lows =
          record_run now
            (uuid 1)
            r.id
            b
            (record_run now (uuid 0) r.id a (drop_agent_reviews r.id s)) in
        has_evidence
          (escalate reviewer now
            (uuid 2)
            r
            baseline
            (after_lows a.verdict b.verdict)
            lows).1.reviews
          r
        ≡ true
  unfolding run_agents
  run_agents-evidence uuid s h =
      let a = reviewer.first r baseline in
      let b = reviewer.second r baseline in
      let dropped = drop_agent_reviews r.id s in
      let lows =
        record_run now (uuid 1) r.id (run_agent low b)
          (record_run now (uuid 0) r.id (run_agent low a) dropped) in
      let stage = after_lows a.verdict b.verdict in
      let verdict = (escalate reviewer now (uuid 2) r baseline stage lows).0 in
      let (first_time, votes) =
        (decide-approved (not (is_some r.baseline_revision_id)) (a.verdict, b.verdict) verdict).0
          h in
      elim votes [
        | inl (va, vb) ↦
            escalate-has_evidence (uuid 2) stage lows r
              (lows-approve (uuid 0) (uuid 1) dropped a b (ground arith) va vb)
        | inr vc ↦ escalate-approves (uuid 2) stage lows (ground arith) vc
      ]
