-- ===== src/Routing/Leaving.antt =====
-- What a failed step leaves of a running task.
use clankwork.Base.{get, ◌≡◌, refl, String, false, Option, none, some, ◌==◌, ==_refl, arith, ℕ}
use clankwork.Base.Int.{ℤ}
use clankwork.Workflow.{Template, Edges, Graph}
use clankwork.Tasks.{Task, is_running, task_set_status_if_running, task_set_step_if_running}
use clankwork.Routing.{
  graph_limits, template_limits, step_edges, is_error, Repeated, route_along, route_with_graph,
  route_with_template, route_step,
}

along-id :
    (now : ℕ) (rep : Repeated) (limits : String → Option ℤ) (task : Task) (o : Option Edges)
    (current outcome : String) (row : Task)
    → (route_along now rep limits task o current outcome row).row.id ≡ row.id
unfolding route_along task_set_status_if_running task_set_step_if_running
along-id now rep limits task none current outcome row = refl
along-id now rep limits task (some e) current outcome row = ground arith

-- The row stays the row of its task.
pub route_step-id :
    (now : ℕ) (rep : Repeated) (graph : Option Graph) (tmpl : Option Template) (task : Task)
    (current outcome : String) (row : Task)
    → (route_step now rep graph tmpl task current outcome row).row.id ≡ row.id
unfolding route_step route_with_graph route_with_template
route_step-id now rep (some g) tmpl task current outcome row =
    ground (arith, along-id now rep (graph_limits g) task (get g.edges current) current outcome row)
route_step-id now rep none (some tmpl) task current outcome row = ground (
  arith,
  along-id now rep (template_limits tmpl) task (step_edges (get tmpl.steps current)) current outcome
      row,
)
route_step-id now rep none none task current outcome row = ground arith

along-stops :
    (now : ℕ) (rep : Repeated) (limits : String → Option ℤ) (o : Option Edges) (outcome : String)
    (row : Task)
    → is_error (route_along now rep limits row o row.current_step outcome row).ending ≡ false
    → is_running (route_along now rep limits row o row.current_step outcome row).row.status ≡ false
unfolding route_along task_set_status_if_running task_set_step_if_running
along-stops now rep limits none outcome row h = ground arith
along-stops now rep limits (some e) outcome row h = ground (arith, ==_refl row.current_step)

-- Unless routing returns an error, a row that is routed from its own step runs no longer.
pub route_step-stops :
    (now : ℕ) (rep : Repeated) (graph : Option Graph) (tmpl : Option Template) (outcome : String)
    (row : Task)
    → (row.template == "") ≡ false
    → is_error (route_step now rep graph tmpl row row.current_step outcome row).ending ≡ false
    → is_running (route_step now rep graph tmpl row row.current_step outcome row).row.status ≡ false
unfolding route_step route_with_graph route_with_template
route_step-stops now rep (some g) tmpl outcome row t h =
    rw t
      (along-stops now rep (graph_limits g) (get g.edges row.current_step) outcome row (rw t at h))
route_step-stops now rep none (some tmpl) outcome row t h = rw t (
    along-stops now rep (template_limits tmpl) (step_edges (get tmpl.steps row.current_step))
      outcome row (rw t at h))
route_step-stops now rep none none outcome row t h = ground arith
