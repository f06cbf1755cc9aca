-- ===== src/Core/Review/Examples.antt =====
-- Tests of the review rule: those of review.rs.
use aursmith.Base.{
  String, [], ◌∷◌, true, false, none, some, ◌≡◌, refl, ◌↔◌, ◌⊎◌, Result, ok, err, Bool, ◌==◌,
  string_ord, if◌then◌else◌, trim,
}
use aursmith.Core.Review.{
  Verdict, error, Outcome, manual_review, decide, AgentReport, ReportVerdict, critical,
  inconsistent, parse_report,
}
use aursmith.Core.Review.Rule.{decide-approved, IsAcceptable, parse_report-ok}

disagreement_high_approves :
    decide false (Verdict.approve, Verdict.reject) (some Verdict.approve) ≡ Outcome.approved
unfolding decide
disagreement_high_approves = refl

error_without_high : decide false (error, Verdict.approve) none ≡ manual_review
unfolding decide
error_without_high = refl

first_time : decide true (Verdict.approve, Verdict.approve) none ≡ manual_review
unfolding decide
first_time = refl

abbrev clean_report : AgentReport
clean_report = record {
  verdict = ReportVerdict.approve;
  summary = "ok";
  findings = [];
  files_read = "PKGBUILD" ∷ [];
}

abbrev contradiction : AgentReport
contradiction = record {
  verdict = ReportVerdict.approve;
  summary = "";
  findings =
      record {
        severity = critical;
        category = "x";
        message = "m";
        file = none;
        line = none;
        evidence = "e";
      }
      ∷ [];
  files_read = [];
}

abbrev sample_reader : String → Result AgentReport String
sample_reader text =
    if text == "clean"
    then ok clean_report
    else if text == "contradiction"
    then ok contradiction
    else err "expected value"

contradiction_refused : parse_report sample_reader "contradiction" ≡ err inconsistent
unfolding parse_report
contradiction_refused = refl

decide-approved_example :
    (decide false (Verdict.approve, error) (some Verdict.approve) ≡ Outcome.approved) ↔ (
      (◌≡◌ {A = Bool} false false)
      × ((Verdict.approve ≡ Verdict.approve) × (error ≡ Verdict.approve)
          ⊎ (some Verdict.approve ≡ some Verdict.approve)))
decide-approved_example = decide-approved false (Verdict.approve, error) (some Verdict.approve)

parse_report-ok_example :
    (parse_report sample_reader " clean\n" ≡ ok clean_report)
    ↔ ((sample_reader (trim " clean\n") ≡ ok clean_report) × IsAcceptable " clean\n" clean_report)
parse_report-ok_example = parse_report-ok sample_reader " clean\n" clean_report
