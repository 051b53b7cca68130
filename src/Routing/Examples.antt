-- ===== src/Routing/Examples.antt =====
-- Routing a task of the example template: a test that fails, and one that passes.
use clankwork.Base.{ℕ, ◌-◌, ◌≢◌, ◌≡◌, refl, inr, String, none, some, [], ◌∷◌, get, ==_iff, arith}
use clankwork.Base.Int.{pos}
use clankwork.Workflow.{Edges, graph_of, node_of, edges_of, Node, implementation, classify_gate}
use clankwork.Workflow.Examples.{feature, short_feature, agent_step, test_step}
use clankwork.Workflow.Validate.Examples.{feature-IsStructured, short_feature-IsStructured}
use clankwork.Workflow.Trace.{
  Trace, Routed, an_error, routed_wrong_edge_terminal, validate_routed_event,
}
use clankwork.Tasks.{Task, running, task_set_step_if_running}
use clankwork.Routing.{
  was_advanced, Repeated, advance, fail_on, moved, route_along, route_with_graph, route_step,
}
use clankwork.Routing.Laws.{route_step-graph_of}
use clankwork.Routing.Retry.{GivenUp, fail_again, fail_again-GivenUp}
use clankwork.Routing.Conformance.{traced, route_conforms, empty_edge_flagged}

abbrev pub testing : Task
testing = record {
  id = "t1";
  repo_id = "r1";
  template = "feature";
  priority = pos 0;
  status = running;
  retry_count = pos 0;
  current_step = "test";
  step_attempts = ("implement", pos 1) ∷ [];
  created_at = 1;
  updated_at = 2;
  started_at = some 2;
  completed_at = none;
}

test_fails :
    (route_with_graph 9 (some (pos 1)) (graph_of feature) testing "test" "failure" testing).ending
    ≡ was_advanced
unfolding route_with_graph route_along fail_on advance moved graph_of node_of edges_of
    task_set_step_if_running
test_fails = refl

route_step-graph_of_example :
    route_step 9 none (some (graph_of feature)) none testing "test" "failure" testing
    ≡ route_step 9 none none (some feature) testing "test" "failure" testing
route_step-graph_of_example =
    route_step-graph_of 9 none feature none testing "test" "failure" testing

abbrev failed_test : Routed
failed_test = record { from = "test"; to = "implement"; outcome = "failure" }

abbrev its_trace : Trace
its_trace = record { id = 5; event_type = "step.routed"; payload = "" }

test_failure_traced :
    traced (route_with_graph 9 none (graph_of feature) testing "test" "failure" testing).effects
    ≡ some failed_test
unfolding route_with_graph route_along fail_on advance moved graph_of node_of edges_of
    task_set_step_if_running
test_failure_traced = refl

acceptance_ne_empty : ◌≢◌ {A = String} "acceptance" ""
acceptance_ne_empty p = cc

implement_ne_empty : ◌≢◌ {A = String} "implement" ""
implement_ne_empty p = cc

route_conforms_example : validate_routed_event (graph_of feature) its_trace (some failed_test) ≡ []
route_conforms_example =
    route_conforms 9 none feature testing "test" "failure" testing test_step failed_test its_trace
      feature-IsStructured refl (inr refl) acceptance_ne_empty implement_ne_empty
      test_failure_traced

acceptance_ne_complete : ◌≢◌ {A = String} "acceptance" "complete"
acceptance_ne_complete p = cc

empty_edge_flagged_example :
    let r : Routed = record { from = "acceptance"; to = "complete"; outcome = "success" } in
    let o =
      route_with_graph 9 none (graph_of short_feature) testing "acceptance" "success" testing in
    (traced o.effects ≡ some r)
    × (validate_routed_event (graph_of short_feature) its_trace (some r)
        ≡ an_error routed_wrong_edge_terminal its_trace ∷ [])
empty_edge_flagged_example =
    empty_edge_flagged 9 none short_feature testing "acceptance" testing
      (agent_step "acceptance" "" "") its_trace short_feature-IsStructured refl
      acceptance_ne_complete refl

abbrev implementing : Task
implementing = record testing { current_step = "implement" }

abbrev implement_edges : Edges
implement_edges = record { success = "test"; failure = "implement" }

abbrev implement_node : Node
implement_node = record {
  name = "implement";
  kind = "agent";
  gate_class = implementation;
  role = "implementer";
  runtime = "";
  command = "";
  args = [];
  max_retries = pos 2;
}

implement-edges : get (graph_of feature).edges "implement" ≡ some implement_edges
unfolding graph_of edges_of
implement-edges = refl

implement-node : get (graph_of feature).nodes "implement" ≡ some implement_node
unfolding graph_of node_of classify_gate
implement-node = refl

implement_ne_complete : ◌≢◌ {A = String} "implement" "complete"
implement_ne_complete p = cc ((==_iff "implement" "complete").1 p)

-- The same signature as often as there were rounds.
abbrev signatures : ℕ → Repeated
signatures m = some (pos (2 - m))

fail_again-GivenUp_example :
    GivenUp signatures 2 (fail_again 9 signatures (graph_of feature) "implement" 2 implementing)
fail_again-GivenUp_example =
    fail_again-GivenUp 9 signatures (graph_of feature) "implement" implement_edges implement_node 1
      1 1 implementing implement-edges refl implement-node refl implement_ne_empty
      implement_ne_complete refl refl refl (omega arith)
