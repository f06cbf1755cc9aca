-- ===== src/Core/Review/Rule.antt =====
-- The 2+1 rule in one statement, and what an accepted report is.
use aursmith.Base.{
  String, len, Bool, false, Option, some, ◌≡◌, ◌↔◌, ◌⊎◌, ◌≤◌, arith, Result, ok, length, any, trim,
}
use aursmith.Core.Review.{
  Verdict, Outcome, decide, is_critical, AgentReport, report_verdict, maximum_report_bytes,
  maximum_findings, parse_report,
}

-- A revision is approved exactly if it is not the first of its package, and either both low-cost
-- agents approve or the high-cost agent does.
pub decide-approved :
    (first_time : Bool) (lows : Verdict × Verdict) (high : Option Verdict)
    → (decide first_time lows high ≡ Outcome.approved) ↔ (
        (first_time ≡ false)
        × ((lows.0 ≡ Verdict.approve) × (lows.1 ≡ Verdict.approve) ⊎ (high ≡ some Verdict.approve)))
unfolding decide
decide-approved first_time lows high = ground arith

-- what a report must be to be accepted
pub record IsAcceptable (text : String) (report : AgentReport) : Type 0 where
  pub short : len text ≤ maximum_report_bytes
  pub few_findings : length report.findings ≤ maximum_findings
  pub few_files : length report.files_read ≤ 1024
  pub consistent :
      report_verdict report ≡ Verdict.approve
      → any (λ finding. is_critical finding.severity) report.findings ≡ false

module _ (from_str : String → Result AgentReport String) where
  -- A text is accepted as a report exactly if the trimmed text reads as that report, text and lists
  -- are within their limits, and an approval comes with no critical finding.
  pub parse_report-ok :
      (text : String) (report : AgentReport)
      → (parse_report from_str text ≡ ok report)
        ↔ ((from_str (trim text) ≡ ok report) × IsAcceptable text report)
  unfolding parse_report report_verdict
  parse_report-ok text report = ground arith
