-- ===== src/Workflow/Trace.antt =====
-- internal/workflow/trace_validation.go: the events of a task held against its compiled graph.
-- A trace's payload is JSON; how it is read is a parameter, one decoder for each payload that the
-- code reads. A finding has the code's kind and code; its text repeats the trace and the graph.
pub mod Laws
pub mod Reports
use clankwork.Base.{
  ℕ, String, Bool, false, not, ◌&&◌, Option, none, some, List, [], ◌∷◌, ◌++◌, ◌==◌, any, is_empty,
  length, get, has, collect, if◌then◌else◌,
}
use clankwork.Workflow.{Edges, Graph}

pub record Trace : Type 0 where
  pub id : ℕ
  pub event_type : String
  pub payload : String

pub record Routed : Type 0 where
  pub from : String
  pub to : String
  pub outcome : String

pub record DetResult : Type 0 where
  pub step : String
  pub outcome : String

pub data FindingKind : Type 0 where
  error_kind warning_kind : FindingKind

pub data FindingCode : Type 0 where
  missing_graph routed_invalid_payload routed_missing_source routed_missing_target : FindingCode
  routed_unknown_outcome routed_wrong_edge routed_no_edges routed_wrong_edge_terminal : FindingCode
  det_result_missing_node terminal_no_success_path terminal_no_success_route : FindingCode

pub record Finding : Type 0 where
  pub kind : FindingKind
  pub code : FindingCode
  pub trace : Option Trace

pub record Report : Type 0 where
  pub valid : Bool
  pub task_id : String
  pub graph_name : String
  pub findings : List Finding
  pub trace_count : ℕ

abbrev pub an_error : FindingCode → Trace → Finding
an_error code tr = record { kind = error_kind; code = code; trace = some tr }

abbrev pub a_warning : FindingCode → Trace → Finding
a_warning code tr = record { kind = warning_kind; code = code; trace = some tr }

abbrev pub report_if : Bool → Finding → List Finding
report_if b f = if b then f ∷ [] else []

abbrev pub is_unknown : Graph → String → Bool
is_unknown g name = not (name == "complete") && not (has g.nodes name)

-- The edge check between two nodes of the graph.
inner_edge_findings : Graph → Trace → Routed → Option Edges → List Finding
inner_edge_findings g tr r none = report_if (has g.nodes r.from) (an_error routed_no_edges tr)
inner_edge_findings g tr r (some e) =
    if r.outcome == "success"
    then report_if (not (r.to == e.success)) (an_error routed_wrong_edge tr)
    else if r.outcome == "failure"
    then report_if (not (r.to == e.failure)) (an_error routed_wrong_edge tr)
    else a_warning routed_unknown_outcome tr ∷ []

-- The edge that an outcome selects, empty for an outcome that is neither.
abbrev pub expected_target : String → Edges → String
expected_target outcome e =
    if outcome == "success" then e.success else if outcome == "failure" then e.failure else ""

-- The edge check of a route to "complete".
terminal_edge_findings : Trace → Routed → Option Edges → List Finding
terminal_edge_findings tr r none = []
terminal_edge_findings tr r (some e) =
    report_if (not (expected_target r.outcome e == "complete"))
      (an_error routed_wrong_edge_terminal tr)

pub edge_findings : Graph → Trace → Routed → List Finding
unfolding inner_edge_findings terminal_edge_findings
edge_findings g tr r =
    if not (r.from == "complete") && not (r.to == "complete")
    then inner_edge_findings g tr r (get g.edges r.from)
    else if not (r.from == "complete") && r.to == "complete"
    then terminal_edge_findings tr r (get g.edges r.from)
    else []

routed_findings : Graph → Trace → Routed → List Finding
routed_findings g tr r =
    report_if (is_unknown g r.from) (an_error routed_missing_source tr)
    ++ (report_if (is_unknown g r.to) (an_error routed_missing_target tr) ++ edge_findings g tr r)

-- A step.routed event, its payload read or not.
pub validate_routed_event : Graph → Trace → Option Routed → List Finding
validate_routed_event g tr none = a_warning routed_invalid_payload tr ∷ []
validate_routed_event g tr (some r) = routed_findings g tr r

pub validate_deterministic_result : Graph → Trace → Option DetResult → List Finding
validate_deterministic_result g tr none = []
validate_deterministic_result g tr (some d) =
    if d.step == ""
    then []
    else if d.step == "complete"
    then []
    else report_if (not (has g.nodes d.step)) (an_error det_result_missing_node tr)

abbrev pub of_type : String → List Trace → List Trace
of_type ty [] = []
of_type ty (tr ∷ rest) =
    let more = of_type ty rest in if tr.event_type == ty then tr ∷ more else more

abbrev pub completes : Option Routed → Bool
completes none = false
completes (some r) = r.to == "complete" && r.outcome == "success"

module _ (decode_routed : String → Option Routed) where
  pub has_success_path_to_complete : List Trace → Bool
  has_success_path_to_complete routed = any (λ tr. completes (decode_routed tr.payload)) routed

  validate_terminal_done : List Trace → Trace → List Finding
  validate_terminal_done routed tr =
      report_if (not (has_success_path_to_complete routed)) (a_warning terminal_no_success_path tr)

  routed_pass : Graph → List Trace → List Finding
  routed_pass g traces =
      collect (λ tr. validate_routed_event g tr (decode_routed tr.payload))
        (of_type "step.routed" traces)

  terminal_pass : List Trace → List Finding
  terminal_pass traces =
      collect (validate_terminal_done (of_type "step.routed" traces)) (of_type "signal.done" traces)

  -- The check after the loops.
  route_pass : List Trace → List Finding
  route_pass traces =
      report_if
        (not (is_empty (of_type "signal.done" traces))
          && not (has_success_path_to_complete (of_type "step.routed" traces)))
        (record { kind = warning_kind; code = terminal_no_success_route; trace = none })

result_pass : (String → Option DetResult) → Graph → List Trace → List Finding
result_pass decode_result g traces =
    collect (λ tr. validate_deterministic_result g tr (decode_result tr.payload))
      (of_type "step.deterministic_result" traces)

module _ (decode_routed : String → Option Routed) (decode_result : String → Option DetResult) where
  -- Every finding on the traces of a task, in the order of the code's passes.
  findings_of : Graph → List Trace → List Finding
  findings_of g traces =
      routed_pass decode_routed g traces
      ++ (result_pass decode_result g traces
          ++ (terminal_pass decode_routed traces ++ route_pass decode_routed traces))

  pub validate_trace_conformance : Option Graph → String → List Trace → Report
  validate_trace_conformance none task_id traces = record {
    valid = false;
    task_id = task_id;
    graph_name = "<nil>";
    findings = record { kind = error_kind; code = missing_graph; trace = none } ∷ [];
    trace_count = length traces;
  }
  validate_trace_conformance (some g) task_id traces = record {
    valid = is_empty (findings_of g traces);
    task_id = task_id;
    graph_name = g.name;
    findings = findings_of g traces;
    trace_count = length traces;
  }
