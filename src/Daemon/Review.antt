-- ===== src/Daemon/Review.antt =====
-- crates/aursmithd/src/review.rs: the round that reviews one revision, and the decisions of an
-- administrator. An agent, its model and the text sent to it are a parameter: what a run of it gives for
-- a revision and its baseline.
use aursmith.Base.{
  ℕ, String, List, [], ◌∷◌, ◌++◌, Bool, true, false, not, ◌&&◌, Option, none, some, ok, err, ◌==◌,
  nat_ord, string_ord, find, keep, ltb, leb, trim, count_chars, is_some, if◌then◌else◌,
}
use aursmith.Core.Review.{
  Verdict, approve, reject, Outcome, approved, manual_review, LowStage, after_lows, decide,
}
use aursmith.Core.Review
use aursmith.Daemon.State.{
  AppState, Revision, RevisionState, pending_review, Review, ReviewKind, agent, human, Role, low,
  high, wake,
}
use aursmith.Daemon.State
use aursmith.Daemon.Handler.{
  ApiResult, Handler, bad_request_error, conflict_error, internal_error, check, modify, reads,
  reads_result, pure, ◌>>=◌, ◌>>◌,
}
use aursmith.Daemon.Table.{update_where, affected}

pub record AgentReply : Type 0 where
  pub model : String
  pub verdict : Verdict
  pub summary : String

pub record AgentRun : Type 0 where
  pub role : Role
  pub model : String
  pub verdict : Verdict
  pub summary : String

abbrev pub run_agent : Role → AgentReply → AgentRun
run_agent role reply = record {
  role = role;
  model = reply.model;
  verdict = reply.verdict;
  summary = reply.summary;
}

-- the replies of the two low-cost agents and of the high-cost one
pub record Reviewer : Type 0 where
  pub first : Revision → Option Revision → AgentReply
  pub second : Revision → Option Revision → AgentReply
  pub third : Revision → Option Revision → AgentReply

abbrev pub add_review : Review → AppState → AppState
add_review review s = record s { reviews = s.reviews ++ review ∷ [] }

abbrev pub agent_review : ℕ → String → String → AgentRun → Review
agent_review now id revision_id run = record {
  id = id;
  revision_id = revision_id;
  kind = agent;
  role = some run.role;
  model = some run.model;
  verdict = run.verdict;
  summary = run.summary;
  created_at = now;
}

-- `record`
abbrev pub record_run : ℕ → String → String → AgentRun → AppState → AppState
record_run now id revision_id run = add_review (agent_review now id revision_id run)

abbrev pub is_pending : RevisionState → Bool
is_pending pending_review = true
is_pending _ = false

abbrev pub is_manual : RevisionState → Bool
is_manual State.RevisionState.manual_review = true
is_manual _ = false

abbrev pub is_agent : ReviewKind → Bool
is_agent agent = true
is_agent _ = false

abbrev pub older : Revision → Option Revision → Option Revision
older r none = some r
older r (some first) = if ltb first.created_at r.created_at then some first else some r

-- `ORDER BY created_at LIMIT 1`: of rows with one time, the first in the table
abbrev pub oldest : List Revision → Option Revision
oldest [] = none
oldest (r ∷ rows) = older r (oldest rows)

abbrev pub state_of : Outcome → RevisionState
state_of approved = State.RevisionState.approved
state_of manual_review = State.RevisionState.manual_review

abbrev pub decision_time : ℕ → Outcome → Option ℕ
decision_time now approved = some now
decision_time now manual_review = none

abbrev pub outcome_row : ℕ → Outcome → Revision → Revision
outcome_row now outcome r = record r {
  state = state_of outcome;
  decided_at = decision_time now outcome;
}

abbrev pub wake_approved : Outcome → AppState → AppState
wake_approved approved s = wake s
wake_approved manual_review s = s

unfoldable pub set_outcome : ℕ → String → Outcome → AppState → AppState
set_outcome now id outcome s = wake_approved outcome (record s {
  revisions =
      update_where (λ r. r.id == id && is_pending r.state) (outcome_row now outcome) s.revisions;
})

abbrev pub baseline_of : AppState → Option String → ApiResult (Option Revision)
baseline_of s none = ok none
baseline_of s (some id) = elim (find (λ r. r.id == id) s.revisions) [
  | none ↦ err internal_error
  | some r ↦ ok (some r)
]

abbrev pub drop_agent_reviews : String → AppState → AppState
drop_agent_reviews id s = record s {
  reviews = keep (λ review. not (review.revision_id == id && is_agent review.kind)) s.reviews;
}

-- the high-cost agent, where the low-cost ones do not agree to approve
abbrev pub escalate :
    Reviewer
    → ℕ
    → String
    → Revision
    → Option Revision
    → LowStage
    → AppState
    → Option Verdict × AppState
escalate reviewer now id r baseline Review.LowStage.approved s = (none, s)
escalate reviewer now id r baseline Review.LowStage.escalate_high s =
    let run = run_agent high (reviewer.third r baseline) in
    (some run.verdict, record_run now id r.id run s)

-- The runs of the agents and what is decided of them; `uuid` gives the identifiers of the reviews.
unfoldable pub run_agents :
    Reviewer → ℕ → (ℕ → String) → Revision → Option Revision → AppState → Outcome × AppState
unfolding set_outcome decide
run_agents reviewer now uuid r baseline s =
    let a = run_agent low (reviewer.first r baseline) in
    let b = run_agent low (reviewer.second r baseline) in
    let lows =
      record_run now (uuid 1) r.id b (record_run now (uuid 0) r.id a (drop_agent_reviews r.id s)) in
    let (verdict, t) =
      escalate reviewer now (uuid 2) r baseline (after_lows a.verdict b.verdict) lows in
    let outcome = decide (not (is_some r.baseline_revision_id)) (a.verdict, b.verdict) verdict in
    (outcome, set_outcome now r.id outcome t)

abbrev pub review_with :
    Reviewer → ℕ → (ℕ → String) → Revision → Option Revision → Handler (Option (String × Outcome))
review_with reviewer now uuid r baseline s =
    let (outcome, t) = run_agents reviewer now uuid r baseline s in (ok (some (r.id, outcome)), t)

abbrev pub review_found :
    Option Reviewer → ℕ → (ℕ → String) → Option Revision → Handler (Option (String × Outcome))
review_found reviewer now uuid none = pure none
review_found none now uuid (some r) = do
  modify (set_outcome now r.id manual_review)
  pure (some (r.id, manual_review))
review_found (some reviewer) now uuid (some r) = do
  baseline ← reads_result (λ s. baseline_of s r.baseline_revision_id)
  review_with reviewer now uuid r baseline

unfoldable pub review_next :
    Option Reviewer → ℕ → (ℕ → String) → Handler (Option (String × Outcome))
unfolding run_agents set_outcome
review_next reviewer now uuid = do
  found ← reads (λ s. oldest (keep (λ r. is_pending r.state) s.revisions))
  review_found reviewer now uuid found

pub record DecisionRequest : Type 0 where
  pub approve : Bool
  pub rationale : String

abbrev pub manual_row : ℕ → Bool → Revision → Revision
manual_row now approves r = record r {
  state = if approves then State.RevisionState.approved else State.RevisionState.rejected;
  decided_at = some now;
}

abbrev pub in_manual_review : String → Revision → Bool
in_manual_review id r = r.id == id && is_manual r.state

abbrev pub decide_rows : ℕ → String → Bool → AppState → AppState
decide_rows now id approves s = record s {
  revisions = update_where (in_manual_review id) (manual_row now approves) s.revisions;
}

abbrev pub human_review : ℕ → String → String → Bool → String → Review
human_review now uuid id approves rationale = record {
  id = uuid;
  revision_id = id;
  kind = human;
  role = none;
  model = none;
  verdict = if approves then approve else reject;
  summary = rationale;
  created_at = now;
}

-- the updates are one transaction: no update, where no row is in manual review
unfoldable pub decide_manually : ℕ → String → String → DecisionRequest → Handler (Unit {0})
decide_manually now uuid id request = do
  check
      (leb 8 (count_chars (trim request.rationale))
        && leb (count_chars (trim request.rationale)) 4000)
      (bad_request_error "RATIONALE_REQUIRED")
  updated ← reads (λ s. affected (in_manual_review id) s.revisions)
  check (updated == 1) (conflict_error "REVISION_NOT_IN_MANUAL_REVIEW")
  modify (decide_rows now id request.approve)
  modify (add_review (human_review now uuid id request.approve (trim request.rationale)))
  modify wake

abbrev pub pending_row : Revision → Revision
pending_row r = record r { state = pending_review; decided_at = none }

abbrev pub retry_rows : String → AppState → AppState
retry_rows id s = record s {
  revisions = update_where (in_manual_review id) pending_row s.revisions;
}

unfoldable pub retry : String → Handler (Unit {0})
retry id = do
  updated ← reads (λ s. affected (in_manual_review id) s.revisions)
  modify (retry_rows id)
  check (updated == 1) (conflict_error "REVISION_NOT_IN_MANUAL_REVIEW")
