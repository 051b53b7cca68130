-- ===== src/Workflow/Reach.antt =====
-- canReach of internal/workflow/workflow.go: breadth-first search along success edges.
pub mod Path
pub mod Sound
pub mod Complete
pub mod Exact
use clankwork.Base.{
  ℕ, zero, suc, ◌+◌, String, Bool, true, false, ◌||◌, Option, none, some, List, [], ◌∷◌, ◌++◌, ◌==◌,
  length, get, contains, if◌then◌else◌,
}
use clankwork.Workflow.{GateClass, same_gate, Node, Edges, Graph}

-- The names of the nodes of a gate class.
pub sources_of : GateClass → List (String × Node) → List String
sources_of from [] = []
sources_of from ((name, node) ∷ rest) =
    let more = sources_of from rest in if same_gate node.gate_class from then name ∷ more else more

pub edge_target : Option Edges → Option String
edge_target none = none
edge_target (some e) = if e.success == "" || e.success == "complete" then none else some e.success

-- Where the success edge of a node leads, if it leads on.
pub success_of : Graph → String → Option String
unfolding edge_target
success_of g current = edge_target (get g.edges current)

node_has_gate : GateClass → Option Node → Bool
node_has_gate to none = false
node_has_gate to (some node) = same_gate node.gate_class to

unfoldable pub has_gate : Graph → GateClass → String → Bool
unfolding node_has_gate
has_gate g to name = node_has_gate to (get g.nodes name)

-- What one turn of the loop does with the node that it takes from the queue: go on, answer, or
-- queue a target.
pub data Turn : Type 0 where
  skip found : Turn
  push : String → Turn

turn_at : Graph → GateClass → List String → Option String → Turn
turn_at g to visited none = skip
turn_at g to visited (some target) =
    if contains visited target then skip else if has_gate g to target then found else push target

pub turn : Graph → GateClass → List String → String → Turn
unfolding turn_at
turn g to visited current = turn_at g to visited (success_of g current)

pub bfs : Graph → GateClass → ℕ → List String → List String → Bool
bfs g to zero visited queue = false
bfs g to (suc fuel) visited [] = false
bfs g to (suc fuel) visited (current ∷ queue) = elim (turn g to visited current) [
  | skip ↦ bfs g to fuel visited queue
  | found ↦ true
  | push target ↦ bfs g to fuel (target ∷ visited) (queue ++ target ∷ [])
]

-- Each source is taken once, and each edge queues its target at most once.
pub can_reach : Graph → GateClass → GateClass → Bool
can_reach g from to =
    let sources = sources_of from g.nodes in
    bfs g to (suc (length sources + length g.edges)) sources sources
