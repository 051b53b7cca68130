-- ===== src/Workflow/Examples.antt =====
-- A template with an implementation, a check and an acceptance step, and the theorems on it.
use mathlib.Core.List.{Memᴰ}
use clankwork.Base.{
  ◌≡◌, ◌↔◌, refl, String, true, Option, none, some, [], ◌∷◌, ◌==◌, if◌then◌else◌, UniqueKeys,
}
use clankwork.Base.Int.{pos}
use clankwork.Workflow.{
  Step, Template, graph_of, node_of, edges_of, implementation, deterministic_verification,
}
use clankwork.Workflow.Reach.{can_reach}
use clankwork.Workflow.Reach.Path.{Leads}
use clankwork.Workflow.Reach.Exact.{can_reach_iff}
use clankwork.Workflow.Compile.{compile}
use clankwork.Workflow.Compile.Structure.{IsStructured}
use clankwork.Workflow.Compile.Laws.{IsSubstantive, compile_clean_iff}
use clankwork.Workflow.Trace.{
  Trace, Routed, DetResult, validate_routed_event, validate_trace_conformance,
}
use clankwork.Workflow.Trace.Laws.{SameKeys, Conforms, validate_routed_event_iff}
use clankwork.Workflow.Trace.Reports.{IsValidTrace, report_valid_iff}

abbrev pub agent_step : String → String → String → Step
agent_step role on_success on_failure = record {
  step_type = "agent";
  role = role;
  runtime = "";
  command = "";
  args = [];
  max_retries = pos 2;
  on_success = on_success;
  on_failure = on_failure;
}

abbrev pub test_step : Step
test_step = record {
  step_type = "deterministic";
  role = "";
  runtime = "";
  command = "make test";
  args = [];
  max_retries = pos 0;
  on_success = "acceptance";
  on_failure = "implement";
}

-- The last step with its success edge left to the default.
abbrev pub short_feature : Template
short_feature = record {
  name = "short";
  description = "";
  entry = "acceptance";
  auto_merge = true;
  steps = ("acceptance", agent_step "acceptance" "" "") ∷ [];
}

abbrev pub feature : Template
feature = record {
  name = "feature";
  description = "";
  entry = "implement";
  auto_merge = true;
  steps =
      ("acceptance_spec", agent_step "acceptance-author" "implement" "complete")
      ∷ ("implement", agent_step "implementer" "test" "implement")
      ∷ ("test", test_step)
      ∷ ("acceptance", agent_step "acceptance" "complete" "implement")
      ∷ [];
}

feature-UniqueKeys : UniqueKeys feature.steps
feature-UniqueKeys = (refl, (refl, (refl, (refl, tt))))

nodes-UniqueKeys : UniqueKeys (graph_of feature).nodes
unfolding graph_of node_of edges_of
nodes-UniqueKeys = (refl, (refl, (refl, (refl, tt))))

can_reach_iff_example :
    (can_reach (graph_of feature) implementation deterministic_verification ≡ true)
    ↔ Leads (graph_of feature) implementation deterministic_verification
can_reach_iff_example =
    can_reach_iff (graph_of feature) implementation deterministic_verification nodes-UniqueKeys refl

compile_clean_iff_example :
    ((compile feature).1 ≡ []) ↔ (IsStructured feature × IsSubstantive (graph_of feature))
compile_clean_iff_example = compile_clean_iff feature feature-UniqueKeys

feature-SameKeys : SameKeys (graph_of feature)
unfolding graph_of node_of edges_of
feature-SameKeys k = refl

abbrev test_passed : Routed
test_passed = record { from = "test"; to = "acceptance"; outcome = "success" }

abbrev last_step : Routed
last_step = record { from = "acceptance"; to = "complete"; outcome = "success" }

abbrev a_trace : Trace
a_trace = record { id = 1; event_type = "step.routed"; payload = "last" }

abbrev done_trace : Trace
done_trace = record { id = 2; event_type = "signal.done"; payload = "" }

validate_routed_event_iff_example :
    (validate_routed_event (graph_of feature) a_trace (some test_passed) ≡ [])
    ↔ Conforms (graph_of feature) test_passed
validate_routed_event_iff_example =
    validate_routed_event_iff (graph_of feature) a_trace test_passed feature-SameKeys

abbrev read_routed : String → Option Routed
read_routed payload = if payload == "last" then some last_step else none

abbrev read_result : String → Option DetResult
read_result _ = none

report_valid_iff_example :
    ((validate_trace_conformance read_routed read_result
        (some (graph_of feature))
        "t1"
        (a_trace ∷ done_trace ∷ [])).valid
      ≡ true)
    ↔ ((tr : Trace)
        → Memᴰ tr (a_trace ∷ done_trace ∷ [])
        → IsValidTrace read_routed read_result (graph_of feature) (a_trace ∷ done_trace ∷ []) tr)
report_valid_iff_example =
    report_valid_iff read_routed read_result (graph_of feature) "t1" (a_trace ∷ done_trace ∷ [])
      feature-SameKeys
