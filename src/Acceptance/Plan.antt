-- ===== src/Acceptance/Plan.antt =====
-- ValidateExecutionPlan and validateExecutionStepType of internal/model/acceptance.go.
pub mod Laws
pub mod Examples
use clankwork.Base.{
  String, Bool, true, false, not, ◌&&◌, ◌||◌, Option, none, some, List, [], ◌∷◌, ◌==◌, any,
  contains, map, is_empty, if◌then◌else◌,
}
use clankwork.Base.Lists.{collect}
use clankwork.Base.Int.{ℤ, pos, leb_ℤ}
use clankwork.Acceptance.{AcceptanceProbe, AcceptanceSpec, trim, is_blank, is_artifact_type}
use clankwork.Acceptance.Checks.{
  Problem, check, or_else, first_problem, plan_required, plan_task_required, plan_of_other_task,
  plan_without_steps, step_id_required, duplicate_step, step_probe_required, step_probe_unknown,
  step_produces_nothing, produced_type_empty, produced_type_malformed, shell_command_required,
  exit_code_required, http_target_required, http_status_required, script_required, query_required,
  assertion_required, step_type_unknown, probe_without_step, evidence_not_produced,
}

pub record PlanStep : Type 0 where
  pub id : String
  pub probe_id : String
  pub step_type : String
  pub command : String
  pub expected_exit_code : Option ℤ
  pub method : String
  pub url : String
  pub expected_status : ℤ
  pub script : String
  pub path : String
  pub assertion : String
  pub query : String
  pub produces : List String

pub record ExecutionPlan : Type 0 where
  pub task_id : String
  pub steps : List PlanStep

abbrev is_unset : Option ℤ → Bool
is_unset none = true
is_unset (some code) = false

abbrev is_zero : ℤ → Bool
is_zero n = leb_ℤ n (pos 0) && leb_ℤ (pos 0) n

-- validateExecutionStepType
pub step_type_problem : PlanStep → Option Problem
step_type_problem s =
    let t = trim s.step_type in
    if t == "shell"
    then check (is_blank s.command) shell_command_required
        (check (is_unset s.expected_exit_code) exit_code_required none)
    else if t == "http"
    then check (is_blank s.method || is_blank s.url) http_target_required
        (check (is_zero s.expected_status) http_status_required none)
    else if t == "playwright"
    then check (is_blank s.script) script_required none
    else if t == "db_query"
    then check (is_blank s.query || is_blank s.path) query_required none
    else if t == "file_assertion"
    then check (is_blank s.path || is_blank s.assertion) assertion_required none
    else some step_type_unknown

abbrev pub probes_of : AcceptanceSpec → List AcceptanceProbe
unfolding collect
probes_of spec = collect (λ c. c.probes) spec.criteria

-- `spec != nil && !validProbeIDs[id]`
abbrev pub is_unknown : Option AcceptanceSpec → String → Bool
is_unknown none id = false
is_unknown (some spec) id = not (any (λ p. p.id == id) (probes_of spec))

-- The maps from probes to types of evidence, as their pairs: requiredEvidenceByProbe and
-- producedByProbe.
abbrev pub required_pairs : AcceptanceSpec → List (String × String)
unfolding collect
required_pairs spec = collect (λ p. map (λ e. (p.id, e)) p.required_evidence) (probes_of spec)

abbrev pub produced_pairs : List PlanStep → List (String × String)
unfolding collect
produced_pairs steps = collect (λ s. map (λ e. (s.probe_id, trim e)) s.produces) steps

abbrev pub has_pair : List (String × String) → String → String → Bool
has_pair [] k e = false
has_pair ((j, d) ∷ m) k e = j == k && d == e || has_pair m k e

pub produced_problem : String → Option Problem
produced_problem produced =
    check (is_blank produced) produced_type_empty
      (check (not (is_artifact_type (trim produced))) produced_type_malformed none)

-- The checks on one step, less that on its id.
pub step_problem : Option AcceptanceSpec → PlanStep → Option Problem
step_problem spec s = check (is_blank s.probe_id) step_probe_required (
    check (is_unknown spec s.probe_id) step_probe_unknown (
      or_else (step_type_problem s) (
        check (is_empty s.produces) step_produces_nothing
          (first_problem produced_problem s.produces))))

-- The loop over the steps, with the ids that it has seen.
pub steps_problem : Option AcceptanceSpec → List String → List PlanStep → Option Problem
unfolding step_problem
steps_problem spec seen [] = none
steps_problem spec seen (s ∷ rest) = check (is_blank s.id) step_id_required (
    check (contains seen s.id) duplicate_step
      (or_else (step_problem spec s) (steps_problem spec (s.id ∷ seen) rest)))

-- A pair of the required ones: of this probe, and not produced.
abbrev is_lacking : List PlanStep → String → String × String → Bool
is_lacking steps id (k, e) = k == id && not (has_pair (produced_pairs steps) id e)

-- The check of one probe against all steps.
pub probe_problem : AcceptanceSpec → List PlanStep → AcceptanceProbe → Option Problem
probe_problem spec steps p =
    check (not (any (λ s. s.probe_id == p.id) steps)) probe_without_step
      (check (any (is_lacking steps p.id) (required_pairs spec)) evidence_not_produced none)

pub coverage_problem : Option AcceptanceSpec → List PlanStep → Option Problem
unfolding probe_problem
coverage_problem none steps = none
coverage_problem (some spec) steps = first_problem (probe_problem spec steps) (probes_of spec)

abbrev pub is_other_task : Option AcceptanceSpec → String → Bool
is_other_task none task = false
is_other_task (some spec) task = not (task == spec.task_id)

pub validate_execution_plan : Option ExecutionPlan → Option AcceptanceSpec → Option Problem
unfolding steps_problem coverage_problem
validate_execution_plan none spec = some plan_required
validate_execution_plan (some plan) spec = check (is_blank plan.task_id) plan_task_required (
    check (is_other_task spec plan.task_id) plan_of_other_task (
      check (is_empty plan.steps) plan_without_steps
        (or_else (steps_problem spec [] plan.steps) (coverage_problem spec plan.steps))))
