-- ===== src/Acceptance/Report.antt =====
-- The reports of the verifier, internal/model/acceptance.go: validateArtifactProvenance,
-- ValidateAdversarialReview and ValidateVerificationReport.
pub mod Laws
pub mod Passing
pub mod Examples
use clankwork.Base.{
  String, Bool, true, false, not, ◌&&◌, Option, none, some, List, [], ◌∷◌, ◌==◌, any, is_empty,
  if◌then◌else◌,
}
use clankwork.Base.Bytes.{is_one_of}
use clankwork.Acceptance.{
  AcceptanceProbe, AcceptanceCriterion, AcceptanceSpec, Evidence, trim, folded, is_blank,
  is_placeholder_hash, is_verifier_evidence_producer,
}
use clankwork.Acceptance.Checks.{
  Problem, check, or_else, first_problem, producer_step_required, producer_role_required,
  timestamp_required, linkage_required, content_hash_required, not_authoritative, placeholder_hash,
  report_required, report_of_other_task, report_without_results, confidence_required,
  result_criterion_required, result_status_unknown, pass_without_evidence, artifact_id_required,
  evidence_type_required, not_a_verifier, evidence_probe_unknown, criterion_without_result,
  evidence_type_missing, probe_without_evidence, probe_evidence_missing, review_of_other_task,
  finding_risk_required, finding_probe_required, finding_severity_unknown, followup_probe_required,
  followup_missing,
}

pub record AdversarialFinding : Type 0 where
  pub risk : String
  pub suggested_probe : String
  pub severity : String

pub record AdversarialReview : Type 0 where
  pub task_id : String
  pub adversarial_findings : List AdversarialFinding
  pub required_followup : Bool
  pub appended_probe_ids : List String
  pub followup_evidence : List Evidence
  pub dismissal_reason : String

pub record VerificationResult : Type 0 where
  pub criterion_id : String
  pub status : String
  pub evidence : List Evidence

-- `failures` stands for the criteria that the failures name.
pub record VerificationReport : Type 0 where
  pub task_id : String
  pub results : List VerificationResult
  pub failures : List String
  pub confidence : String
  pub adversarial_review : Option AdversarialReview

unfoldable pub provenance_problem : Evidence → Option Problem
provenance_problem e = check (is_blank e.producer_step) producer_step_required (
    check (is_blank e.producer_role) producer_role_required (
      check (is_blank e.timestamp) timestamp_required (
        check (is_blank e.probe_id && is_blank e.command) linkage_required (
          check (not (is_blank e.path) && is_blank e.content_hash) content_hash_required (
            check (not e.authoritative) not_authoritative
              (check (is_placeholder_hash e.content_hash) placeholder_hash none))))))

finding_problem : AdversarialFinding → Option Problem
finding_problem f = check (is_blank f.risk) finding_risk_required (
    check (is_blank f.suggested_probe) finding_probe_required (
      check (not (is_one_of (folded f.severity) ("low" ∷ "medium" ∷ "high" ∷ [])))
        finding_severity_unknown none))

followup_problem : Evidence → Option Problem
followup_problem e = check (is_blank e.artifact_id) artifact_id_required (
    check (is_blank e.probe_id) followup_probe_required (
      or_else (provenance_problem e)
        (check (not (is_verifier_evidence_producer e.producer_role)) not_a_verifier none)))

-- A probe that the review appended has evidence, unless the review was dismissed.
appended_problem : AdversarialReview → String → Option Problem
appended_problem r id =
    check
      (not (is_blank id)
        && not (any (λ e. trim e.probe_id == trim id) r.followup_evidence)
        && is_blank r.dismissal_reason)
      followup_missing none

pub review_problem : AdversarialReview → String → Option Problem
unfolding finding_problem followup_problem appended_problem
review_problem r task = check (not (r.task_id == task)) review_of_other_task (
    or_else (first_problem finding_problem r.adversarial_findings) (
      or_else (first_problem followup_problem r.followup_evidence)
        (first_problem (appended_problem r) r.appended_probe_ids)))

abbrev given_review_problem : Option AdversarialReview → String → Option Problem
given_review_problem none task = none
given_review_problem (some r) task = review_problem r task

-- A map that is filled in a loop keeps the last entry of a key: resultByCriterion, and the criteria
-- of validProbeByCriterion.
pub last_result : List VerificationResult → String → Option VerificationResult
last_result [] id = none
last_result (r ∷ rest) id = elim (last_result rest id) [
  | some later ↦ some later
  | none ↦ if r.criterion_id == id then some r else none
]

unfoldable pub last_criterion : List AcceptanceCriterion → String → Option AcceptanceCriterion
last_criterion [] id = none
last_criterion (c ∷ rest) id = elim (last_criterion rest id) [
  | some later ↦ some later
  | none ↦ if c.id == id then some c else none
]

abbrev has_probe : Option AcceptanceCriterion → String → Bool
has_probe none id = false
has_probe (some c) id = any (λ p. p.id == id) c.probes

abbrev names_unknown_probe : Option AcceptanceSpec → String → String → Bool
names_unknown_probe none criterion probe = false
names_unknown_probe (some spec) criterion probe =
    not (probe == "") && not (has_probe (last_criterion spec.criteria criterion) probe)

pub evidence_problem : Option AcceptanceSpec → String → Evidence → Option Problem
evidence_problem spec criterion e = check (is_blank e.artifact_id) artifact_id_required (
    check (e.evidence_type == "") evidence_type_required (
      or_else (provenance_problem e) (
        check (not (is_verifier_evidence_producer e.producer_role)) not_a_verifier
          (check (names_unknown_probe spec criterion e.probe_id) evidence_probe_unknown none))))

pub result_problem : Option AcceptanceSpec → VerificationResult → Option Problem
unfolding evidence_problem
result_problem spec r = check (r.criterion_id == "") result_criterion_required (
    check (not (r.status == "pass") && not (r.status == "fail")) result_status_unknown (
      check (r.status == "pass" && is_empty r.evidence) pass_without_evidence
        (first_problem (evidence_problem spec r.criterion_id) r.evidence)))

-- The evidence that is linked to a probe, and the evidence of a type that is.
abbrev pub is_linked : String → Evidence → Bool
is_linked probe e = not (e.probe_id == "") && e.probe_id == probe

abbrev pub is_linked_type : String → String → Evidence → Bool
is_linked_type probe t e = is_linked probe e && e.evidence_type == t

pub probe_evidence_problem : List Evidence → AcceptanceProbe → Option Problem
probe_evidence_problem evidence p =
    check (not (any (is_linked p.id) evidence)) probe_without_evidence (
      first_problem
        (λ t. check (not (any (is_linked_type p.id t) evidence)) probe_evidence_missing none)
        p.required_evidence)

pub passed_problem : AcceptanceCriterion → List Evidence → Option Problem
unfolding probe_evidence_problem
passed_problem c evidence =
    or_else
      (first_problem
        (λ t. check (not (any (λ e. e.evidence_type == t) evidence)) evidence_type_missing none)
        c.required_artifacts)
      (first_problem (probe_evidence_problem evidence) c.probes)

-- The evidence of a criterion is asked for where its result is a pass.
pub criterion_problem : AcceptanceCriterion → Option VerificationResult → Option Problem
unfolding passed_problem
criterion_problem c none = some criterion_without_result
criterion_problem c (some r) = if r.status == "pass" then passed_problem c r.evidence else none

pub spec_problem : Option AcceptanceSpec → List VerificationResult → Option Problem
unfolding criterion_problem last_result
spec_problem none results = none
spec_problem (some spec) results =
    first_problem (λ c. criterion_problem c (last_result results c.id)) spec.criteria

abbrev is_pass : Option VerificationResult → Bool
is_pass none = false
is_pass (some r) = r.status == "pass"

-- What is left of `pass` where no error was returned.
abbrev all_pass : Option AcceptanceSpec → List VerificationResult → Bool
all_pass none results = true
all_pass (some spec) results =
    not (any (λ c. not (is_pass (last_result results c.id))) spec.criteria)

pub report_pass : VerificationReport → Option AcceptanceSpec → Bool
unfolding last_result
report_pass report spec =
    is_empty report.failures
    && not (any (λ r. r.status == "fail") report.results)
    && all_pass spec report.results

pub report_problem : VerificationReport → String → Option AcceptanceSpec → Option Problem
unfolding review_problem result_problem spec_problem
report_problem report task spec = check (not (report.task_id == task)) report_of_other_task (
    check (is_empty report.results) report_without_results (
      check (report.confidence == "") confidence_required (
        or_else (given_review_problem report.adversarial_review task) (
          or_else (first_problem (result_problem spec) report.results)
            (spec_problem spec report.results)))))

-- The pair that ValidateVerificationReport returns.
pub data Checked : Type 0 where
  invalid : Problem → Checked
  valid : Bool → Checked

settle : Option Problem → Bool → Checked
settle none pass = valid pass
settle (some p) pass = invalid p

pub validate_verification_report :
    Option VerificationReport → String → Option AcceptanceSpec → Checked
unfolding settle report_problem report_pass
validate_verification_report none task spec = invalid report_required
validate_verification_report (some report) task spec =
    settle (report_problem report task spec) (report_pass report spec)
