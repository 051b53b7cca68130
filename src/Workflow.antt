-- ===== src/Workflow.antt =====
-- The data of internal/workflow/workflow.go and internal/template/template.go, and the naming
-- rules that give a step its gate. A Go map is a list of entries, its order that of an iteration.
pub mod Reach
pub mod Compile
pub mod Validate
pub mod Trace
pub mod Examples
use clankwork.Base.{String, Bool, List, [], ◌||◌, ◌==◌, map, if◌then◌else◌}
use clankwork.Base.Int.{ℤ}

pub record Step : Type 0 where
  pub step_type : String
  pub role : String
  pub runtime : String
  pub command : String
  pub args : List String
  pub max_retries : ℤ
  pub on_success : String
  pub on_failure : String

pub record Template : Type 0 where
  pub name : String
  pub description : String
  pub entry : String
  pub auto_merge : Bool
  pub steps : List (String × Step)

-- `no_gate` is the empty string.
pub data GateClass : Type 0 where
  no_gate acceptance_spec implementation deterministic_verification : GateClass
  acceptance_verification : GateClass

-- A node's kind is the step's type, whatever that says.
pub record Node : Type 0 where
  pub name : String
  pub kind : String
  pub gate_class : GateClass
  pub role : String
  pub runtime : String
  pub command : String
  pub args : List String
  pub max_retries : ℤ

pub record Edges : Type 0 where
  pub success : String
  pub failure : String

pub record Graph : Type 0 where
  pub name : String
  pub description : String
  pub entry : String
  pub auto_merge : Bool
  pub nodes : List (String × Node)
  pub edges : List (String × Edges)

abbrev pub same_gate : GateClass → GateClass → Bool
same_gate no_gate no_gate = Bool.true
same_gate acceptance_spec acceptance_spec = Bool.true
same_gate implementation implementation = Bool.true
same_gate deterministic_verification deterministic_verification = Bool.true
same_gate acceptance_verification acceptance_verification = Bool.true
same_gate _ _ = Bool.false

is_check : String → Bool
is_check name = name == "lint" || name == "typecheck" || name == "test" || name == "verify"

gate_of_role : String → GateClass
gate_of_role role =
    if role == "implementer" || role == "bugfixer" || role == "refactorer"
    then implementation
    else if role == "acceptance"
    then acceptance_verification
    else if role == "acceptance-author"
    then acceptance_spec
    else no_gate

-- The two `if`s on the type exclude each other, so the second is the first one's `else`.
unfoldable pub classify_gate : String → Step → GateClass
unfolding is_check gate_of_role
classify_gate name step =
    if name == "acceptance_spec"
    then acceptance_spec
    else if name == "acceptance"
    then acceptance_verification
    else if step.step_type == "deterministic"
    then (if is_check name then deterministic_verification else no_gate)
    else if step.step_type == "agent"
    then (if name == "implement" then implementation else gate_of_role step.role)
    else no_gate

unfoldable pub node_of : String × Step → String × Node
node_of (name, step) = (
  name,
  record {
    name = name;
    kind = step.step_type;
    gate_class = classify_gate name step;
    role = step.role;
    runtime = step.runtime;
    command = step.command;
    args = step.args;
    max_retries = step.max_retries;
  },
)

unfoldable pub edges_of : String × Step → String × Edges
edges_of (name, step) = (name, record { success = step.on_success; failure = step.on_failure })

unfoldable pub graph_of : Template → Graph
graph_of t = record {
  name = t.name;
  description = t.description;
  entry = t.entry;
  auto_merge = t.auto_merge;
  nodes = map node_of t.steps;
  edges = map edges_of t.steps;
}
