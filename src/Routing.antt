-- ===== src/Routing.antt =====
-- RouteStep, routeStepWithGraph and routeStepWithTemplate of internal/scheduler/scheduler.go. The
-- task is a snapshot that was read first; the row is what the guarded statements find. A call
-- returns the row, what it did besides, and how it ended. What repeatedFailureSignature found is an
-- argument: whether a signature was there, and how often.
pub mod Laws
pub mod Landing
pub mod Conformance
pub mod Retry
pub mod Leaving
pub mod Examples
use clankwork.Base.{
  ℕ, String, Bool, true, false, ◌&&◌, ◌||◌, Option, none, some, List, [], ◌∷◌, ◌==◌, get,
  if◌then◌else◌,
}
use clankwork.Base.Int.{ℤ, pos, leb_ℤ, ltb_ℤ}
use clankwork.Controller.Health.{oscillation_threshold}
use clankwork.Workflow.{Step, Template, Node, Edges, Graph}
use clankwork.Workflow.Trace.{Routed}
use clankwork.Tasks.{
  done, failed, blocked, Task, attempts_of, bump, task_set_status_if_running,
  task_set_step_if_running,
}

-- What a call appends to the store or sets off, in order. `task_completed` is the completion hook,
-- if one is set.
pub data Effect : Type 0 where
  route_oscillation block_actuation cleanup_worktree task_completed : Effect
  step_routed : Routed → Effect

pub data Ending : Type 0 where
  step_not_found was_blocked was_failed was_completed was_stale was_advanced : Ending
  no_template template_error : Ending

-- The endings with which RouteStep returns an error.
abbrev pub is_error : Ending → Bool
is_error step_not_found = true
is_error template_error = true
is_error _ = false

pub record Outcome : Type 0 where
  pub row : Task
  pub effects : List Effect
  pub ending : Ending

-- What repeatedFailureSignature returns: no signature, or one with its count.
abbrev pub Repeated : Type 0
Repeated = Option ℤ

abbrev pub is_oscillating : Repeated → Bool
is_oscillating none = false
is_oscillating (some count) = leb_ℤ oscillation_threshold count

-- The destination's budget, where it has a node: 0 is no limit.
abbrev pub is_exhausted : Option ℤ → ℤ → Bool
is_exhausted none attempts = false
is_exhausted (some limit) attempts = ltb_ℤ (pos 0) limit && leb_ℤ limit attempts

abbrev pub next_step : String → Edges → String
next_step outcome e =
    let s = if outcome == "success" then e.success else e.failure in
    if s == "" then "complete" else s

-- Whether the row was found at the step that was left.
moved : Routed → Task × Bool → Outcome
moved r (row, true) = record { row = row; effects = step_routed r ∷ []; ending = was_advanced }
moved r (row, false) = record { row = row; effects = []; ending = was_stale }

-- The end of both functions: enter the next step, or complete the task.
advance : ℕ → Task → String → String → String → Task → Outcome
unfolding moved
advance now task current next outcome row =
    let r : Routed = record { from = current; to = next; outcome = outcome } in
    if next == "complete"
    then record {
      row = task_set_status_if_running now done row;
      effects = step_routed r ∷ cleanup_worktree ∷ task_completed ∷ [];
      ending = was_completed;
    }
    else moved r (task_set_step_if_running now current next (bump task.step_attempts next) row)

-- A failure that leads on: blocked where it repeats itself, failed where the destination's budget
-- is spent.
fail_on : ℕ → Repeated → Option ℤ → Task → String → String → String → Task → Outcome
unfolding advance
fail_on now rep limit task current next outcome row =
    if is_oscillating rep
    then record {
      row = task_set_status_if_running now blocked row;
      effects = route_oscillation ∷ block_actuation ∷ [];
      ending = was_blocked;
    }
    else if is_exhausted limit (attempts_of task.step_attempts next)
    then record {
      row = task_set_status_if_running now failed row;
      effects = cleanup_worktree ∷ [];
      ending = was_failed;
    }
    else advance now task current next outcome row

-- Both functions, over the edges that they look up and the budget of a destination.
pub route_along :
    ℕ → Repeated → (String → Option ℤ) → Task → Option Edges → String → String → Task → Outcome
unfolding fail_on
route_along now rep limits task none current outcome row = record {
  row = row;
  effects = [];
  ending = step_not_found;
}
route_along now rep limits task (some e) current outcome row =
    let next = next_step outcome e in
    if outcome == "success" || next == "complete"
    then advance now task current next outcome row
    else fail_on now rep (limits next) task current next outcome row

abbrev pub node_limit : Option Node → Option ℤ
node_limit none = none
node_limit (some n) = some n.max_retries

abbrev pub step_limit : Option Step → Option ℤ
step_limit none = none
step_limit (some s) = some s.max_retries

abbrev pub step_edges : Option Step → Option Edges
step_edges none = none
step_edges (some s) = some (record { success = s.on_success; failure = s.on_failure })

-- The retry budgets of a graph's nodes and of a template's steps.
abbrev pub graph_limits : Graph → String → Option ℤ
graph_limits g k = node_limit (get g.nodes k)

abbrev pub template_limits : Template → String → Option ℤ
template_limits t k = step_limit (get t.steps k)

pub route_with_graph : ℕ → Repeated → Graph → Task → String → String → Task → Outcome
unfolding route_along
route_with_graph now rep g task current outcome row =
    route_along now rep (graph_limits g) task (get g.edges current) current outcome row

pub route_with_template : ℕ → Repeated → Template → Task → String → String → Task → Outcome
unfolding route_along
route_with_template now rep t task current outcome row =
    route_along now rep (template_limits t) task (step_edges (get t.steps current)) current outcome
      row

route_by : ℕ → Repeated → Option Graph → Option Template → Task → String → String → Task → Outcome
unfolding route_with_graph route_with_template
route_by now rep (some g) tmpl task current outcome row =
    route_with_graph now rep g task current outcome row
route_by now rep none (some t) task current outcome row =
    route_with_template now rep t task current outcome row
route_by now rep none none task current outcome row = record {
  row = row;
  effects = [];
  ending = template_error;
}

-- RouteStep: by the compiled graph if there is one, and else by the template that Load finds.
pub route_step :
    ℕ → Repeated → Option Graph → Option Template → Task → String → String → Task → Outcome
unfolding route_by
route_step now rep graph tmpl task current outcome row =
    if task.template == ""
    then record { row = row; effects = []; ending = no_template }
    else route_by now rep graph tmpl task current outcome row
