-- ===== src/Reconciler/Actions/Laws.antt =====
-- What ending an agent does to the tables.
use mathlib.Core.Option
use clankwork.Base.{
  ◌∙◌, ◌≡◌, inl, inr, refl, ℕ, String, Bool, false, not, ◌&&◌, Option, none, some, List, ◌==◌,
  ==_iff, arith, Bool-cases, Option-cases, if◌then◌else◌,
}
use clankwork.Tasks.{
  Task, TaskStatus, failed, blocked, is_running, get_task, update_task, task_set_status_if_running,
}
use clankwork.Tasks.Laws.{get_task-update_task}
use clankwork.Routing.{is_error, Outcome}
use clankwork.Routing.Leaving.{route_step-id, route_step-stops}
use clankwork.Reconciler.{Agent, World, Env, emit, agent_set_status, failure_context}
use clankwork.Reconciler.Actions.{
  set_task_if_running, after_route, route_row, fail_step, fail_task, block_task, cleanup,
  create_block_escalation, kill_gracefully, ensure_runtime_transport,
}

-- Whether the row that is found is running.
abbrev pub task_runs : Option Task → Bool
task_runs none = false
task_runs (some t) = is_running t.status

set_status-id :
    (now : ℕ) (s : TaskStatus) (t : Task) → (task_set_status_if_running now s t).id ≡ t.id
unfolding task_set_status_if_running
set_status-id now s t = ground arith

set_status-stops :
    (now : ℕ) (s : TaskStatus) (t : Task)
    → is_running s ≡ false
    → is_running (task_set_status_if_running now s t).status ≡ false
unfolding task_set_status_if_running
set_status-stops now s t h = ground arith

map-stops :
    (now : ℕ) (s : TaskStatus) (o : Option Task)
    → is_running s ≡ false
    → task_runs (Option.map (task_set_status_if_running now s) o) ≡ false
map-stops now s none h = refl
map-stops now s (some t) h = set_status-stops now s t h

-- The task of an id no longer runs, and the others run as they did.
abbrev pub StopsOnly : String → List Task → List Task → Type 0
StopsOnly id before after =
    (j : String)
    → task_runs (get_task after j) ≡ (if id == j then false else task_runs (get_task before j))

set_task-StopsOnly :
    (now : ℕ) (id : String) (s : TaskStatus) (w : World)
    → is_running s ≡ false
    → StopsOnly id w.tasks (set_task_if_running now id s w).tasks
unfolding set_task_if_running
set_task-StopsOnly now id s w h j = ground (
  arith,
  get_task-update_task id (task_set_status_if_running now s) w.tasks j
      (λ t e. set_status-id now s t ∙ e),
  map-stops now s (get_task w.tasks j) h,
)

after_route-StopsOnly :
    (env : Env) (s : TaskStatus) (id : String) (o : Outcome) (w : World) (row : Task)
    → is_running s ≡ false
    → o.row.id ≡ id
    → get_task w.tasks id ≡ some row
    → (is_error o.ending ≡ false → is_running o.row.status ≡ false)
    → StopsOnly id w.tasks (after_route env s id o w).tasks
unfolding after_route set_task_if_running emit
after_route-StopsOnly env s id o w row h same found stops j = ground (
  arith,
  get_task-update_task id (λ _. o.row) w.tasks j (λ t e. same),
  get_task-update_task id (task_set_status_if_running env.now s)
      (update_task id (λ _. o.row) w.tasks) j (λ t e. set_status-id env.now s t ∙ e),
  map-stops env.now s (get_task (update_task id (λ _. o.row) w.tasks) j) h,
  ==_iff id j,
)

route_row-StopsOnly :
    (env : Env) (s : TaskStatus) (a : Agent) (t : Task) (w : World)
    → is_running s ≡ false
    → (t.template == "") ≡ false
    → get_task w.tasks t.id ≡ some t
    → StopsOnly t.id w.tasks (route_row env s a t (some t) w).tasks
unfolding route_row
route_row-StopsOnly env s a t w h templated found =
    after_route-StopsOnly env s t.id _ w t h
      (route_step-id env.now _ (env.graph t.id) (env.template t.template) t t.current_step "failure"
        t)
      found
      (route_step-stops env.now _ (env.graph t.id) (env.template t.template) "failure" t templated)

-- A running task that is found and whose step fails runs no longer; nothing else is changed.
pub fail_step-StopsOnly :
    (env : Env) (s : TaskStatus) (routes : Bool) (a : Agent) (t : Task) (w : World)
    → is_running s ≡ false
    → get_task w.tasks t.id ≡ some t
    → StopsOnly t.id w.tasks (fail_step env s routes a t w).tasks
unfolding fail_step emit
fail_step-StopsOnly env s routes a t w h found =
    elim (Bool-cases (routes && not (t.template == "") && not (t.current_step == ""))) [
      | inr e ↦ rw e (set_task-StopsOnly env.now t.id s w h)
      | inl e ↦
          rw (e, found)
            (route_row-StopsOnly env s a t (emit (failure_context t.id t.current_step) w) h
              (ground arith) found)
    ]

pub fail_step-tables :
    (env : Env) (s : TaskStatus) (routes : Bool) (a : Agent) (t : Task) (w : World)
    → ((fail_step env s routes a t w).agents ≡ w.agents)
      × ((fail_step env s routes a t w).escalations ≡ w.escalations)
      × ((fail_step env s routes a t w).nudge_sent ≡ w.nudge_sent)
      × ((fail_step env s routes a t w).nudge_error_retries ≡ w.nudge_error_retries)
unfolding fail_step route_row after_route set_task_if_running emit
fail_step-tables env s routes a t w = elim (Option-cases (get_task w.tasks t.id)) [
  | inl e ↦ rw e (ground arith)
  | inr (row, e) ↦ rw e (ground arith)
]

-- Both ways to end an agent leave it killed, its task stopped, and the other rows as they were.
abbrev pub Ended : Agent → Task → World → World → Type 0
Ended a t w w' =
    (w'.agents ≡ (agent_set_status a.id "killed" w).agents) × StopsOnly t.id w.tasks w'.tasks

pub fail_task-Ended :
    (env : Env) (a : Agent) (t : Task) (w : World)
    → get_task w.tasks t.id ≡ some t
    → Ended a t w (fail_task env a t w)
      × ((fail_task env a t w).escalations ≡ w.escalations)
      × ((fail_task env a t w).nudge_sent ≡ w.nudge_sent)
unfolding fail_task cleanup emit agent_set_status
fail_task-Ended env a t w found =
    let killed = agent_set_status a.id "killed" w in
    let tables = fail_step-tables env failed env.has_dispatcher a t killed in
    let stops = fail_step-StopsOnly env failed env.has_dispatcher a t killed refl found in
    (
      (ground (arith, tables), λ j. ground (arith, stops j)),
      ground (arith, tables),
      ground (arith, tables),
    )

pub block_task-Ended :
    (env : Env) (a : Agent) (t : Task) (reason hash : String) (w : World)
    → Ended a t w (block_task env a t reason hash w)
unfolding block_task cleanup emit kill_gracefully ensure_runtime_transport create_block_escalation
    agent_set_status
block_task-Ended env a t reason hash w =
    let stops = set_task-StopsOnly env.now t.id blocked (agent_set_status a.id "killed" w) refl in
    (ground arith, λ j. ground (arith, stops j))

-- An escalation is created from what was open before, and by no failure.
pub fail_task-escalations :
    (env : Env) (a : Agent) (t : Task) (w : World)
    → (fail_task env a t w).escalations ≡ w.escalations
unfolding fail_task cleanup emit agent_set_status
fail_task-escalations env a t w =
    ground
      (arith, fail_step-tables env failed env.has_dispatcher a t (agent_set_status a.id "killed" w))

pub block_task-escalations :
    (env : Env) (a : Agent) (t : Task) (reason hash : String) (w : World)
    → (block_task env a t reason hash w).escalations
      ≡ (create_block_escalation a t reason hash w).escalations
unfolding block_task cleanup emit kill_gracefully ensure_runtime_transport create_block_escalation
    agent_set_status set_task_if_running
block_task-escalations env a t reason hash w = ground arith
