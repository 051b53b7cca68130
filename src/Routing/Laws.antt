-- ===== src/Routing/Laws.antt =====
-- Rows that routing leaves alone, and routing by a graph and by the template it was compiled from.
use mathlib.Core.Path.{fun_ext}
use clankwork.Base.{
  sym, ◌≡◌, inl, inr, refl, String, false, Option, none, some, List, [], ◌∷◌, ◌==◌, get, arith, ℕ,
  map, Bool-cases,
}
use clankwork.Base.Int.{ℤ}
use clankwork.Workflow.{Step, Template, Edges, Graph, node_of, edges_of, graph_of}
use clankwork.Tasks.{Task, is_running, task_set_status_if_running, task_set_step_if_running}
use clankwork.Routing.{
  Repeated, route_along, graph_limits, template_limits, node_limit, step_limit, step_edges,
  route_with_graph, route_with_template, route_by, route_step,
}

-- Whatever the outcome, a row that is not running stays as it is.
along_not_running :
    (now : ℕ) (rep : Repeated) (limits : String → Option ℤ) (task : Task) (o : Option Edges)
    (current outcome : String) (row : Task)
    → is_running row.status ≡ false
    → (route_along now rep limits task o current outcome row).row ≡ row
unfolding route_along task_set_status_if_running task_set_step_if_running
along_not_running now rep limits task none current outcome row h = refl
along_not_running now rep limits task (some e) current outcome row h = ground arith

-- Whatever the outcome, a row that is not running stays as it is.
pub route_not_running :
    (now : ℕ) (rep : Repeated) (g : Graph) (task : Task) (current outcome : String) (row : Task)
    → is_running row.status ≡ false
    → (route_with_graph now rep g task current outcome row).row ≡ row
unfolding route_with_graph
route_not_running now rep g task current outcome row h =
    along_not_running now rep (graph_limits g) task (get g.edges current) current outcome row h

map-get :
    (steps : List (String × Step)) (k : String)
    → (step_edges (get steps k) ≡ get (map edges_of steps) k)
      × (step_limit (get steps k) ≡ node_limit (get (map node_of steps) k))
unfolding edges_of node_of
map-get [] k = (refl, refl)
map-get ((j, s) ∷ rest) k = elim (Bool-cases (j == k)) [
  | inl e ↦ (rw e, rw e)
  | inr e ↦ (rw e (map-get rest k).0, rw e (map-get rest k).1)
]

-- Routing by the graph that a template compiles to is routing by the template.
pub route_with_graph-graph_of :
    (now : ℕ) (rep : Repeated) (t : Template) (task : Task) (current outcome : String) (row : Task)
    → route_with_graph now rep (graph_of t) task current outcome row
      ≡ route_with_template now rep t task current outcome row
unfolding route_with_graph route_with_template graph_of
route_with_graph-graph_of now rep t task current outcome row =
    let same_limits : graph_limits (graph_of t) ≡ template_limits t =
      fun_ext (λ k. sym (map-get t.steps k).1) in
    rw (same_limits, ← (map-get t.steps current).0)

-- A task that has a compiled graph is routed as the template that the graph was compiled from
-- would route it, whatever the loader finds for it now.
pub route_step-graph_of :
    (now : ℕ) (rep : Repeated) (t : Template) (found : Option Template) (task : Task)
    (current outcome : String) (row : Task)
    → route_step now rep (some (graph_of t)) found task current outcome row
      ≡ route_step now rep none (some t) task current outcome row
unfolding route_step route_by
route_step-graph_of now rep t found task current outcome row =
    elim (Bool-cases (task.template == "")) [
      | inl e ↦ rw e
      | inr e ↦ rw (e, route_with_graph-graph_of now rep t task current outcome row)
    ]
