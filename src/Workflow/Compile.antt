-- ===== src/Workflow/Compile.antt =====
-- Compile and checkSubstantiveGraphPolicy of internal/workflow/workflow.go. A diagnostic is a
-- constructor for each of the code's kinds and formats, with the values that the text names.
pub mod Structure
pub mod Laws
use clankwork.Base.{
  String, Bool, not, ◌&&◌, ◌||◌, List, [], ◌∷◌, ◌++◌, ◌==◌, any, has, collect, if◌then◌else◌,
}
use clankwork.Workflow.{
  Step, Template, GateClass, acceptance_spec, implementation, deterministic_verification,
  acceptance_verification, same_gate, Node, Edges, Graph, graph_of,
}
use clankwork.Workflow.Reach.{can_reach}

pub data Diagnostic : Type 0 where
  unsupported_node_kind : String → String → Diagnostic
  missing_command : String → Diagnostic
  missing_entry : String → Diagnostic
  missing_success_target : String → String → Diagnostic
  missing_failure_target : String → String → Diagnostic
  missing_gate : String → GateClass → Diagnostic
  ordering_violation : String → GateClass → GateClass → Diagnostic

-- `if bad { diags = append(diags, d) }`
abbrev pub when : Bool → Diagnostic → List Diagnostic
when bad d = if bad then d ∷ [] else []

pub step_diagnostics : String × Step → List Diagnostic
step_diagnostics (name, step) =
    when (not (step.step_type == "agent" || step.step_type == "deterministic"))
      (unsupported_node_kind name step.step_type)
    ++ when (step.step_type == "deterministic" && step.command == "") (missing_command name)

pub entry_diagnostics : Graph → List Diagnostic
entry_diagnostics g = when (not (has g.nodes g.entry)) (missing_entry g.entry)

abbrev pub is_dangling : Graph → String → Bool
is_dangling g target = not (target == "") && not (target == "complete") && not (has g.nodes target)

pub edge_diagnostics : Graph → String × Edges → List Diagnostic
edge_diagnostics g (name, e) =
    when (is_dangling g e.success) (missing_success_target name e.success)
    ++ when (is_dangling g e.failure) (missing_failure_target name e.failure)

pub any_gate : Graph → GateClass → Bool
any_gate g c = any (λ (e : String × Node). same_gate e.1.gate_class c) g.nodes

gate_diagnostics : Graph → Bool → Bool → Bool → List Diagnostic
gate_diagnostics g impl det acc =
    when (not impl) (missing_gate g.name implementation)
    ++ (when (not det) (missing_gate g.name deterministic_verification)
        ++ (when (not acc) (missing_gate g.name acceptance_verification)
            ++ (when (impl && det && not (can_reach g implementation deterministic_verification))
                  (ordering_violation g.name implementation deterministic_verification)
                ++ when
                    (det
                      && acc
                      && not (can_reach g deterministic_verification acceptance_verification))
                    (ordering_violation g.name deterministic_verification
                      acceptance_verification))))

pub policy_diagnostics : Graph → List Diagnostic
unfolding gate_diagnostics
policy_diagnostics g =
    if any_gate g acceptance_spec
    then gate_diagnostics g (any_gate g implementation) (any_gate g deterministic_verification)
        (any_gate g acceptance_verification)
    else []

-- The checks that look at no gate.
unfoldable pub structural_diagnostics : Template → List Diagnostic
structural_diagnostics t =
    let g = graph_of t in
    collect step_diagnostics t.steps
    ++ (entry_diagnostics g ++ collect (edge_diagnostics g) g.edges)

unfoldable pub compile : Template → Graph × List Diagnostic
compile t = (graph_of t, structural_diagnostics t ++ policy_diagnostics (graph_of t))
