-- ===== src/Acceptance/Plan/Examples.antt =====
-- A specification with one probe, and a plan for it.
use clankwork.Base.{true, false, ◌≡◌, ◌↔◌, refl, none, some, [], ◌∷◌}
use clankwork.Base.Int.{pos}
use clankwork.Acceptance.{
  AcceptanceProbe, AcceptanceCriterion, AcceptanceSpec, trim, is_artifact_type,
}
use clankwork.Acceptance.Plan.{
  PlanStep, ExecutionPlan, validate_execution_plan, steps_problem, step_problem, step_type_problem,
  produced_problem, coverage_problem, probe_problem, probes_of, required_pairs, produced_pairs,
}
use clankwork.Acceptance.Checks.{first_problem}
use clankwork.Acceptance.Plan.Laws.{IsPlan, validate_execution_plan_iff}

abbrev pub probe : AcceptanceProbe
probe = record {
  id = "p1";
  description = "the flag is refused";
  probe_type = "";
  command = "run --bad";
  required_evidence = "cli_transcript" ∷ [];
  observable_side_effect = "";
  negative_assertion = "it fails";
}

abbrev pub criterion : AcceptanceCriterion
criterion = record { id = "c1"; probes = probe ∷ []; required_artifacts = "cli_transcript" ∷ [] }

abbrev pub spec : AcceptanceSpec
spec = record { task_id = "t1"; criteria = criterion ∷ [] }

abbrev step : PlanStep
step = record {
  id = "s1";
  probe_id = "p1";
  step_type = " shell ";
  command = "run --bad";
  expected_exit_code = some (pos 1);
  method = "";
  url = "";
  expected_status = pos 0;
  script = "";
  path = "";
  assertion = "";
  query = "";
  produces = " cli_transcript" ∷ [];
}

abbrev plan : ExecutionPlan
plan = record { task_id = "t1"; steps = step ∷ [] }

trims : trim " a b " ≡ "a b"
unfolding trim
trims = refl

types : (is_artifact_type "cli_transcript" ≡ true) × (is_artifact_type "cli__transcript" ≡ false)
unfolding is_artifact_type
types = (refl, refl)

accepted : validate_execution_plan (some plan) (some spec) ≡ none
unfolding validate_execution_plan steps_problem step_problem step_type_problem produced_problem
    coverage_problem probe_problem probes_of required_pairs produced_pairs first_problem trim
    is_artifact_type
accepted = refl

validate_execution_plan_iff_example :
    (validate_execution_plan (some plan) (some spec) ≡ none) ↔ IsPlan spec plan
validate_execution_plan_iff_example = validate_execution_plan_iff plan spec
