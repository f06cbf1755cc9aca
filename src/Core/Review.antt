-- ===== src/Core/Review.antt =====
-- crates/aursmith-core/src/review.rs: the 2+1 rule and the strict reading of an agent's report. The
-- JSON reader is a parameter.
pub mod Rule
mod Examples
use aursmith.Base.{
  ℕ, ◌*◌, String, len, List, Bool, true, false, not, ◌&&◌, ◌||◌, Option, none, some, Result, ok,
  err, ltb, length, any, trim, if◌then◌else◌,
}

pub data Verdict : Type 0 where
  approve reject error : Verdict

abbrev pub is_approve : Verdict → Bool
is_approve approve = true
is_approve _ = false

pub data LowStage : Type 0 where
  approved escalate_high : LowStage

unfoldable pub after_lows : Verdict → Verdict → LowStage
after_lows first second = if is_approve first && is_approve second then approved else escalate_high

pub data Outcome : Type 0 where
  approved manual_review : Outcome

-- `unwrap_or(Verdict::Error)`
abbrev or_error : Option Verdict → Verdict
or_error none = error
or_error (some v) = v

unfoldable pub decide : Bool → Verdict × Verdict → Option Verdict → Outcome
unfolding after_lows
decide first_time lows high =
    let agents_approve : Bool = elim (after_lows lows.0 lows.1) [
      | LowStage.approved ↦ true
      | escalate_high ↦ is_approve (or_error high)
    ] in
    if agents_approve && not first_time then Outcome.approved else manual_review

pub data Severity : Type 0 where
  info warning high critical : Severity

abbrev pub is_critical : Severity → Bool
is_critical critical = true
is_critical _ = false

pub record AgentFinding : Type 0 where
  pub severity : Severity
  pub category : String
  pub message : String
  pub file : Option String
  pub line : Option ℕ
  pub evidence : String

pub data ReportVerdict : Type 0 where
  approve reject : ReportVerdict

abbrev pub is_approve_report : ReportVerdict → Bool
is_approve_report ReportVerdict.approve = true
is_approve_report _ = false

pub record AgentReport : Type 0 where
  pub verdict : ReportVerdict
  pub summary : String
  pub findings : List AgentFinding
  pub files_read : List String

abbrev verdict_of : ReportVerdict → Verdict
verdict_of ReportVerdict.approve = Verdict.approve
verdict_of ReportVerdict.reject = Verdict.reject

-- `AgentReport::verdict`
unfoldable pub report_verdict : AgentReport → Verdict
report_verdict r = verdict_of r.verdict

pub data ReportError : Type 0 where
  json : String → ReportError
  too_large inconsistent : ReportError

abbrev pub maximum_report_bytes : ℕ
maximum_report_bytes = 256 * 1024

abbrev pub maximum_findings : ℕ
maximum_findings = 100

abbrev check_report : AgentReport → Result AgentReport ReportError
check_report report =
    if ltb maximum_findings (length report.findings) || ltb 1024 (length report.files_read)
    then err too_large
    else if is_approve_report report.verdict
        && any (λ finding. is_critical finding.severity) report.findings
    then err inconsistent
    else ok report

-- `map_err(ReportError::Json)?`
abbrev read_report : Result AgentReport String → Result AgentReport ReportError
read_report (err e) = err (json e)
read_report (ok report) = check_report report

-- `from_str` is `serde_json::from_str` with the schema of `AgentReport`.
unfoldable pub parse_report :
    (String → Result AgentReport String) → String → Result AgentReport ReportError
parse_report from_str text =
    if ltb maximum_report_bytes (len text)
    then err too_large
    else read_report (from_str (trim text))
