-- ===== src/Acceptance/Checks.antt =====
-- How the validators of internal/model/acceptance.go run: each test returns its error at once, and
-- the loops return the first. The texts of the errors are left out, what they are about is kept.
use clankwork.Base.{◌≡◌, ◌↔◌, refl, Bool, true, false, Option, none, some, List, [], ◌∷◌, All}

pub data Problem : Type 0 where
  plan_required plan_task_required plan_of_other_task plan_without_steps : Problem
  step_id_required duplicate_step step_probe_required step_probe_unknown step_produces_nothing :
      Problem
  produced_type_empty produced_type_malformed : Problem
  shell_command_required exit_code_required http_target_required http_status_required : Problem
  script_required query_required assertion_required step_type_unknown : Problem
  probe_without_step evidence_not_produced : Problem
  producer_step_required producer_role_required timestamp_required linkage_required : Problem
  content_hash_required not_authoritative placeholder_hash : Problem
  report_required report_of_other_task report_without_results confidence_required : Problem
  result_criterion_required result_status_unknown pass_without_evidence : Problem
  artifact_id_required evidence_type_required not_a_verifier evidence_probe_unknown : Problem
  criterion_without_result evidence_type_missing probe_without_evidence probe_evidence_missing :
      Problem
  review_of_other_task finding_risk_required finding_probe_required finding_severity_unknown :
      Problem
  followup_probe_required followup_missing : Problem
  bundle_required bundle_of_other_task summary_required bundle_without_claims : Problem
  bundle_without_artifacts artifact_type_required artifact_path_required : Problem
  claim_criterion_required claim_not_satisfied claim_unknown claim_type_missing : Problem
  artifact_unknown artifact_of_other_task artifact_invalidated artifact_type_differs : Problem
  artifact_path_differs artifact_hash_differs artifact_without_command command_differs : Problem

-- `if bad { return err }`, and what follows.
abbrev pub check : Bool → Problem → Option Problem → Option Problem
check true p rest = some p
check false p rest = rest

-- `if err := f(); err != nil { return err }`, and what follows.
abbrev pub or_else : Option Problem → Option Problem → Option Problem
or_else none rest = rest
or_else (some p) rest = some p

unfoldable pub first_problem {ℓ} : {A : Type ℓ} → (A → Option Problem) → List A → Option Problem
first_problem f [] = none
first_problem f (x ∷ xs) = or_else (f x) (first_problem f xs)

pub check-none :
    (b : Bool) (p : Problem) (r : Option Problem)
    → (check b p r ≡ none) ↔ ((b ≡ false) × (r ≡ none))
check-none true p r = (λ h. cc, λ h. cc)
check-none false p r = (λ h. (refl, h), λ h. h.1)

pub or_else-none : (o r : Option Problem) → (or_else o r ≡ none) ↔ ((o ≡ none) × (r ≡ none))
or_else-none none r = (λ h. (refl, h), λ h. h.1)
or_else-none (some p) r = (λ h. cc, λ h. cc)

pub first_problem-none {ℓ} :
    {A : Type ℓ} (f : A → Option Problem) (xs : List A)
    → (first_problem f xs ≡ none) ↔ All (λ x. f x ≡ none) xs
unfolding first_problem
first_problem-none f [] = (λ h. tt, λ h. refl)
first_problem-none f (x ∷ xs) = (
  λ h.
      let (here, later) = (or_else-none (f x) (first_problem f xs)).0 h in
      (here, (first_problem-none f xs).0 later),
  λ h. (or_else-none (f x) (first_problem f xs)).1 (h.0, (first_problem-none f xs).1 h.1),
)
