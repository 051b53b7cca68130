-- ===== src/Acceptance/Report/Examples.antt =====
-- A report of the verifier that passes.
use clankwork.Base.{◌≡◌, refl, true, none, some, [], ◌∷◌, All}
use clankwork.Acceptance.{
  Evidence, trim, is_placeholder_hash, is_verifier_evidence_producer, folded,
}
use clankwork.Acceptance.Report.{
  VerificationResult, VerificationReport, validate_verification_report, valid,
}
use clankwork.Acceptance.Report.{
  report_problem, report_pass, result_problem, evidence_problem, provenance_problem, spec_problem,
  criterion_problem, passed_problem, probe_evidence_problem, last_result, last_criterion, settle,
}
use clankwork.Base.Bytes.{same}
use clankwork.Acceptance.Checks.{first_problem}
use clankwork.Acceptance.Report.Laws.{IsShown}
use clankwork.Acceptance.Report.Passing.{report_passes}
use clankwork.Acceptance.Plan.Examples.{spec}

abbrev transcript : Evidence
transcript = record {
  artifact_id = "a1";
  evidence_type = "cli_transcript";
  path = "out.txt";
  probe_id = "p1";
  command = "run --bad";
  producer_step = "verify";
  producer_role = " Verifier";
  timestamp = "2026-01-01";
  content_hash = "sha256:0123456789abcdef";
  authoritative = true;
}

abbrev result : VerificationResult
result = record { criterion_id = "c1"; status = "pass"; evidence = transcript ∷ [] }

abbrev pub report : VerificationReport
report = record {
  task_id = "t1";
  results = result ∷ [];
  failures = [];
  confidence = "high";
  adversarial_review = none;
}

passes : validate_verification_report (some report) "t1" (some spec) ≡ valid true
unfolding validate_verification_report report_problem report_pass result_problem evidence_problem
    provenance_problem spec_problem criterion_problem passed_problem probe_evidence_problem
    last_result last_criterion settle first_problem trim is_placeholder_hash
    is_verifier_evidence_producer folded same
passes = refl

report_passes_example :
    (report.failures ≡ [])
    × All (λ r. r.status ≡ "pass") report.results
    × All (IsShown report.results) spec.criteria
report_passes_example = report_passes report "t1" spec passes
