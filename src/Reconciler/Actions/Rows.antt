-- ===== src/Reconciler/Actions/Rows.antt =====
-- The rows of tasks that failing or blocking one task leaves.
use clankwork.Base.{
  ◌≡◌, ◌≢◌, ◌∙◌, inl, inr, ℕ, String, Bool, true, not, ◌&&◌, some, List, ◌==◌, ==_iff, ==_refl,
  arith, Bool-cases,
}
use clankwork.Tasks.{
  Task, TaskStatus, failed, blocked, is_running, get_task, update_task, task_set_status_if_running,
}
use clankwork.Tasks.Laws.{get_task-update_task}
use clankwork.Routing.{is_error, Outcome}
use clankwork.Routing.Leaving.{route_step-id}
use clankwork.Reconciler.{Agent, World, Env, emit, agent_set_status, failure_context}
use clankwork.Reconciler.Actions.{
  set_task_if_running, after_route, route_row, fail_step, fail_task, block_task, cleanup,
  kill_gracefully, ensure_runtime_transport, create_block_escalation,
}

-- The row of an id is there, and those of the others are as they were.
abbrev pub ChangesOnly : String → List Task → List Task → Type 0
ChangesOnly id before after =
    ((j : String) → id ≢ j → get_task after j ≡ get_task before j)
    × ((r : Task) × (get_task after id ≡ some r))

update_task-ChangesOnly :
    (id : String) (f : Task → Task) (ts : List Task) (t : Task)
    → ((x : Task) → x.id ≡ id → (f x).id ≡ id)
    → get_task ts id ≡ some t
    → ChangesOnly id ts (update_task id f ts)
update_task-ChangesOnly id f ts t keep found = (
  λ j ne. ground (arith, get_task-update_task id f ts j keep, ==_iff id j, ne),
  (f t, ground (arith, get_task-update_task id f ts id keep, ==_refl id, found)),
)

ChangesOnly-trans :
    (id : String) (a b c : List Task) → ChangesOnly id a b → ChangesOnly id b c → ChangesOnly id a c
ChangesOnly-trans id a b c (f, h) (g, k) = (λ j ne. g j ne ∙ f j ne, k)

set_status-keeps :
    (now : ℕ) (s : TaskStatus) (id : String) (x : Task)
    → x.id ≡ id
    → (task_set_status_if_running now s x).id ≡ id
unfolding task_set_status_if_running
set_status-keeps now s id x h = ground (arith, h)

pub set_task-ChangesOnly :
    (now : ℕ) (id : String) (s : TaskStatus) (w : World) (t : Task)
    → get_task w.tasks id ≡ some t
    → ChangesOnly id w.tasks (set_task_if_running now id s w).tasks
unfolding set_task_if_running
set_task-ChangesOnly now id s w t found =
    update_task-ChangesOnly id (task_set_status_if_running now s) w.tasks t
      (set_status-keeps now s id) found

after_route-ChangesOnly :
    (env : Env) (s : TaskStatus) (id : String) (o : Outcome) (w : World) (t : Task)
    → o.row.id ≡ id
    → get_task w.tasks id ≡ some t
    → ChangesOnly id w.tasks (after_route env s id o w).tasks
unfolding after_route emit set_task_if_running
after_route-ChangesOnly env s id o w t same found =
    let moved = update_task-ChangesOnly id (λ _. o.row) w.tasks t (λ x e. same) found in
    elim (Bool-cases (is_error o.ending)) [
      | inl e ↦ rw e (
          ChangesOnly-trans id w.tasks (update_task id (λ _. o.row) w.tasks) _ moved (
            update_task-ChangesOnly id (task_set_status_if_running env.now s)
              (update_task id (λ _. o.row) w.tasks) moved.1.0 (set_status-keeps env.now s id)
              moved.1.1))
      | inr e ↦ rw e moved
    ]

-- The failure of a step changes the row of its task, and that only.
pub fail_step-ChangesOnly :
    (env : Env) (s : TaskStatus) (routes : Bool) (a : Agent) (t : Task) (w : World)
    → get_task w.tasks t.id ≡ some t
    → ChangesOnly t.id w.tasks (fail_step env s routes a t w).tasks
unfolding fail_step emit route_row
fail_step-ChangesOnly env s routes a t w found =
    elim (Bool-cases (routes && not (t.template == "") && not (t.current_step == ""))) [
      | inr e ↦ rw e (set_task-ChangesOnly env.now t.id s w t found)
      | inl e ↦
          rw (e, found)
            (after_route-ChangesOnly env s t.id _ (emit (failure_context t.id t.current_step) w) t
              (route_step-id env.now _ (env.graph t.id) (env.template t.template) t t.current_step
                "failure" t)
              found)
    ]

set_status-blocked :
    (now : ℕ) (t : Task)
    → is_running t.status ≡ true
    → (task_set_status_if_running now blocked t).status ≡ blocked
unfolding task_set_status_if_running
set_status-blocked now t runs = ground (arith, runs)

-- A running task that is set to blocked is blocked.
pub set_blocked :
    (now : ℕ) (w : World) (t : Task)
    → get_task w.tasks t.id ≡ some t
    → is_running t.status ≡ true
    → (r : Task) × (get_task (set_task_if_running now t.id blocked w).tasks t.id ≡ some r)
      × (r.status ≡ blocked)
unfolding set_task_if_running
set_blocked now w t found runs = (
  task_set_status_if_running now blocked t,
  ground (
    arith,
    get_task-update_task t.id (task_set_status_if_running now blocked) w.tasks t.id
        (set_status-keeps now blocked t.id),
    ==_refl t.id,
    found,
  ),
  set_status-blocked now t runs,
)

fail_task-tasks :
    (env : Env) (a : Agent) (t : Task) (w : World)
    → (fail_task env a t w).tasks
      ≡ (fail_step env failed env.has_dispatcher a t (agent_set_status a.id "killed" w)).tasks
unfolding fail_task cleanup emit
fail_task-tasks env a t w = ground arith

-- A failed task's row is changed, and no other task's.
pub fail_task-ChangesOnly :
    (env : Env) (a : Agent) (t : Task) (w : World)
    → get_task w.tasks t.id ≡ some t
    → ChangesOnly t.id w.tasks (fail_task env a t w).tasks
unfolding agent_set_status
fail_task-ChangesOnly env a t w found = rw (fail_task-tasks env a t w) (
    fail_step-ChangesOnly env failed env.has_dispatcher a t (agent_set_status a.id "killed" w)
      found)

-- Of the tasks, blocking one only sets its status.
pub block_task-tasks :
    (env : Env) (a : Agent) (t : Task) (reason hash : String) (w : World)
    → (block_task env a t reason hash w).tasks ≡ (set_task_if_running env.now t.id blocked w).tasks
unfolding block_task cleanup emit kill_gracefully ensure_runtime_transport create_block_escalation
    agent_set_status set_task_if_running
block_task-tasks env a t reason hash w = ground arith
