-- ===== src/Daemon/Approval/Rounds.antt =====
-- A round of the review and the decisions of an administrator approve a revision only on evidence.
use aursmith.Base.{
  ℕ, String, List, [], ◌∷◌, map, true, Option, none, some, ◌≡◌, sym, subst, ◌∙◌, arith, string_ord,
  nat_ord, keep, All, Nodup, contains, ==_refl, Bool-cases, if◌then◌else◌, inl, inr, ◌⊎◌, ltb,
  some-injective,
}
use aursmith.Core.Review.{manual_review, after_lows}
use aursmith.Daemon.State.{AppState, Revision, low}
use aursmith.Daemon.Review.{
  Reviewer, run_agent, record_run, escalate, run_agents, set_outcome, is_pending,
  drop_agent_reviews, oldest, older,
}
use aursmith.Daemon.Keyed.{OnlyRow, head-OnlyRow, tail-OnlyRow}
use aursmith.Daemon.Approval.{IsJustified, IsReviewed}
use aursmith.Daemon.Approval.Evidence.{has_evidence-add, has_evidence-drop, reuse-add, reuse-drop}
use aursmith.Daemon.Approval.Decisions.{
  id_of_revision, stored-IsReviewed, set_outcome-IsReviewed, escalate-revisions,
  escalate-has_evidence, escalate-reuse, run_agents-evidence,
}

-- the row that `review_next` takes: it is pending, and the only one of its id
pub record IsNext (rows : List Revision) (r : Revision) : Type 0 where
  pub pending : is_pending r.state ≡ true
  pub here : contains (map id_of_revision rows) r.id ≡ true
  pub only : All (OnlyRow id_of_revision r) rows

older-cases :
    (x r : Revision) (first : Option Revision) → older x first ≡ some r → (x ≡ r) ⊎ (first ≡ some r)
older-cases x r none h = inl (some-injective x r h)
older-cases x r (some f) h = elim (Bool-cases (ltb f.created_at x.created_at)) [
  | inl e ↦ inr (subst (λ t. (if t then some f else some x) ≡ some r) e h)
  | inr n ↦ inl (some-injective x r (subst (λ t. (if t then some f else some x) ≡ some r) n h))
]

pub oldest-IsNext :
    (rows : List Revision) (r : Revision)
    → Nodup (map id_of_revision rows)
    → oldest (keep (λ x. is_pending x.state) rows) ≡ some r
    → IsNext rows r
oldest-IsNext [] r once h = absurd (ground arith)
oldest-IsNext (x ∷ rows) r once h = elim (Bool-cases (is_pending x.state)) [
  | inl e ↦
      elim (older-cases x r (oldest (keep (λ y. is_pending y.state) rows)) (
        subst
          (λ t.
            oldest (
              if t
              then x ∷ keep (λ y. is_pending y.state) rows
              else keep (λ y. is_pending y.state) rows)
            ≡ some r)
          e h)) [
            | inl same ↦ subst (IsNext (x ∷ rows)) same (record {
              pending = e;
              here = ground (arith, ==_refl x.id);
              only = head-OnlyRow id_of_revision x rows once;
            })
            | inr later ↦ in_tail x rows r once (oldest-IsNext rows r once.1 later)
          ]
  | inr n ↦ in_tail x rows r once (
      oldest-IsNext rows r once.1 (
        subst
          (λ t.
            oldest (
              if t
              then x ∷ keep (λ y. is_pending y.state) rows
              else keep (λ y. is_pending y.state) rows)
            ≡ some r)
          n h))
]
  where
    in_tail :
        (y : Revision) (rest : List Revision) (z : Revision)
        → Nodup (map id_of_revision (y ∷ rest))
        → IsNext rest z
        → IsNext (y ∷ rest) z
    in_tail y rest z fresh found = record {
      pending = found.pending;
      here = ground (arith, found.here);
      only = tail-OnlyRow id_of_revision z y rest fresh.0 found.here found.only;
    }

module _ (now : ℕ) (r : Revision) (s : AppState) where
  pub manual-IsReviewed :
      IsNext s.revisions r → IsReviewed s → IsReviewed (set_outcome now r.id manual_review s)
  manual-IsReviewed found h = set_outcome-IsReviewed now r s manual_review (
      stored-IsReviewed now r s s.reviews manual_review found.pending (λ e. absurd (ground arith))
        found.only (λ x n e. e) (λ id e. e) h.1 h.0)

  pub run_agents-IsReviewed :
      (reviewer : Reviewer) (baseline : Option Revision) (uuid : ℕ → String)
      → IsNext s.revisions r
      → IsReviewed s
      → IsReviewed (run_agents reviewer now uuid r baseline s).1
  unfolding run_agents
  run_agents-IsReviewed reviewer baseline uuid found h =
      let a = run_agent low (reviewer.first r baseline) in
      let b = run_agent low (reviewer.second r baseline) in
      let dropped = drop_agent_reviews r.id s in
      let one = record_run now (uuid 0) r.id a dropped in
      let two = record_run now (uuid 1) r.id b one in
      let stage = after_lows a.verdict b.verdict in
      let t = (escalate reviewer now (uuid 2) r baseline stage two).1 in
      let same = escalate-revisions reviewer now r baseline (uuid 2) stage two in
      let outcome = (run_agents reviewer now uuid r baseline s).0 in
      set_outcome-IsReviewed now r t outcome (
        stored-IsReviewed now r t s.reviews outcome found.pending
          (λ e. run_agents-evidence reviewer now r baseline uuid s e)
          (subst (λ rows. All (OnlyRow id_of_revision r) rows) (sym same) found.only)
          (λ x n e. escalate-has_evidence reviewer now r baseline (uuid 2) stage two x (
            has_evidence-add one.reviews _ x
              (has_evidence-add dropped.reviews _ x (has_evidence-drop s.reviews r.id x n ∙ e))))
          (λ id e. escalate-reuse reviewer now r baseline (uuid 2) stage two id (
            reuse-add one.reviews _ id
              (reuse-add dropped.reviews _ id (reuse-drop s.reviews r.id id ∙ e))))
          (subst (λ rows. All (IsJustified s.reviews rows) rows) (sym same) h.1)
          (subst (λ rows. Nodup (map id_of_revision rows)) (sym same) h.0))
