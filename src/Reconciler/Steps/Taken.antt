-- ===== src/Reconciler/Steps/Taken.antt =====
-- The code's ways to end an agent or its task, as steps of the abstract reconciler.
use mathlib.Core.Path.{subst}
use clankwork.Base.{
  ap, ◌∙◌, ◌≡◌, ◌≢◌, inl, inr, refl, String, true, false, some, ◌==◌, ==_iff, ==_refl, arith, any,
  Bool-cases, if◌then◌else◌,
}
use clankwork.Tasks.{Task, TaskStatus, blocked, is_running, get_task}
use clankwork.Tasks.Laws.{get_task-id}
use clankwork.Reconciler.{
  get_agent, Agent, World, Env, update_agent, agent_set_status, agent_set_ended,
  agent_set_runtime_pid,
}
use clankwork.Reconciler.Actions.{fail_task, block_task, create_block_escalation, is_open_for}
use clankwork.Reconciler.Actions.Laws.{
  fail_task-escalations, StopsOnly, fail_task-Ended, block_task-Ended, block_task-escalations,
}
use clankwork.Reconciler.Actions.Rows.{
  fail_task-ChangesOnly, set_task-ChangesOnly, set_blocked, block_task-tasks,
}
use clankwork.Reconciler.Steps.{
  Killed, Blocks, Finds, AgentBecomes, TaskBecomes, IsStopped, IsBlocked, Asks, killed_row,
  done_row, forgotten_row, AgentStep, failed_task, blocked_task, closed_agent, forgot_process,
}
use clankwork.Reconciler.Steps.Laws.{get_agent-update_agent, found_by_id}

update_agent-AgentBecomes :
    (a : Agent) (f : Agent → Agent) (w w' : World)
    → ((b : Agent) → (f b).id ≡ b.id)
    → w'.agents ≡ update_agent a.id f w.agents
    → AgentBecomes a f w w'
update_agent-AgentBecomes a f w w' keep e = (
  λ j ne. rw e (ground (arith, get_agent-update_agent a.id f w.agents j keep, ==_iff a.id j, ne)),
  λ b h. rw e (ground (arith, get_agent-update_agent a.id f w.agents a.id keep, ==_refl a.id, h)),
)

pub set_ended-AgentBecomes :
    (a : Agent) (w : World) → AgentBecomes a done_row w (agent_set_ended a.id w)
unfolding agent_set_ended
set_ended-AgentBecomes a w =
    update_agent-AgentBecomes a done_row w (agent_set_ended a.id w) (λ b. refl) refl

pub set_ended-AgentStep :
    (a : Agent) (t : Task) (w : World)
    → Finds a t w
    → is_running t.status ≡ false
    → AgentStep a w (agent_set_ended a.id w)
unfolding agent_set_ended
set_ended-AgentStep a t w found r = closed_agent t found r (set_ended-AgentBecomes a w) refl refl

pub set_pid-AgentStep :
    (a : Agent) (w : World) → a.status ≢ "running" → AgentStep a w (agent_set_runtime_pid a.id 0 w)
unfolding agent_set_runtime_pid
set_pid-AgentStep a w over =
    forgot_process over
      (update_agent-AgentBecomes a forgotten_row w (agent_set_runtime_pid a.id 0 w) (λ b. refl)
        refl)
      refl refl

-- What is known of the task by its id, told by the agent's.
at_task :
    (a : Agent) (t : Task) (P : TaskStatus → Type 0) (w w' : World)
    → Finds a t w
    → ((j : String) → t.id ≢ j → get_task w'.tasks j ≡ get_task w.tasks j)
    → (r : Task) × (get_task w'.tasks t.id ≡ some r) × P r.status
    → TaskBecomes a P w w'
at_task a t P w w' found others row =
    subst
      (λ x.
        ((j : String) → x ≢ j → get_task w'.tasks j ≡ get_task w.tasks j)
        × ((r : Task) × (get_task w'.tasks x ≡ some r) × P r.status))
      (get_task-id w.tasks a.task_id t found) (others, row)

row_stops :
    (t : Task) (w w' : World) (r : Task)
    → StopsOnly t.id w.tasks w'.tasks
    → get_task w'.tasks t.id ≡ some r
    → is_running r.status ≡ false
row_stops t w w' r stops at = ground (arith, stops t.id, ==_refl t.id, at)

-- A task that fails runs no longer, and its agent is killed.
pub fail_task-Killed :
    (env : Env) (a : Agent) (t : Task) (w : World) → Finds a t w → Killed a w (fail_task env a t w)
unfolding agent_set_status
fail_task-Killed env a t w found =
    let v = fail_task env a t w in
    let by_id = found_by_id a t w found in
    let (ended, ee, en) = fail_task-Ended env a t w by_id in
    let (others, (r, at)) = fail_task-ChangesOnly env a t w by_id in
    (
      update_agent-AgentBecomes a killed_row w v (λ b. refl) ended.0,
      at_task a t IsStopped w v found others (r, at, row_stops t w v r ended.1 at),
    )

pub fail_task-AgentStep :
    (env : Env) (a : Agent) (t : Task) (w : World)
    → Finds a t w
    → is_running t.status ≡ true
    → AgentStep a w (fail_task env a t w)
fail_task-AgentStep env a t w found r =
    let (killed, stopped) = fail_task-Killed env a t w found in
    failed_task t found r killed stopped (fail_task-escalations env a t w)

-- The same after a change of the maps and the log.
pub fail_task-Killed_from :
    (env : Env) (a : Agent) (t : Task) (w v : World)
    → v.agents ≡ w.agents
    → v.tasks ≡ w.tasks
    → Finds a t w
    → Killed a w (fail_task env a t v)
fail_task-Killed_from env a t w v ea et found =
    let (killed, stopped) = fail_task-Killed env a t v (rw et found) in
    (
      (λ j ne. killed.0 j ne ∙ ap (λ l. get_agent l j) ea, λ b h. killed.1 b (rw ea h)),
      (λ j ne. stopped.0 j ne ∙ ap (λ l. get_task l j) et, stopped.1),
    )

-- The signature under which the operator is asked.
abbrev pub asked_under : String → String → String
asked_under reason hash = if hash == "" then reason else hash

create-Asks :
    (a : Agent) (t : Task) (reason hash : String) (w w' : World)
    → w'.escalations ≡ (create_block_escalation a t reason hash w).escalations
    → Asks a t (asked_under reason hash) w w'
unfolding create_block_escalation
create-Asks a t reason hash w w' e =
    elim (Bool-cases (any (is_open_for t.id (asked_under reason hash)) w.escalations)) [
      | inl o ↦ inl (o, rw o at e)
      | inr o ↦ inr (o, (_, rw o at e, refl, refl, refl, refl))
    ]

-- A running task that is blocked is blocked, its agent is killed, and the operator is asked.
pub block_task-Blocks :
    (env : Env) (a : Agent) (t : Task) (reason hash : String) (w : World)
    → Finds a t w
    → is_running t.status ≡ true
    → Blocks a t (asked_under reason hash) w (block_task env a t reason hash w)
unfolding agent_set_status
block_task-Blocks env a t reason hash w found r =
    let v = block_task env a t reason hash w in
    let by_id = found_by_id a t w found in
    let same = block_task-tasks env a t reason hash w in
    let (row, at, over) = set_blocked env.now w t by_id r in
    (
      update_agent-AgentBecomes a killed_row w v (λ b. refl)
          (block_task-Ended env a t reason hash w).0,
      at_task a t IsBlocked w v found
          (λ j ne. rw same ((set_task-ChangesOnly env.now t.id blocked w t by_id).0 j ne))
          (row, rw same at, over),
      create-Asks a t reason hash w v (block_task-escalations env a t reason hash w),
    )

pub block_task-AgentStep :
    (env : Env) (a : Agent) (t : Task) (reason hash : String) (w : World)
    → Finds a t w
    → is_running t.status ≡ true
    → AgentStep a w (block_task env a t reason hash w)
block_task-AgentStep env a t reason hash w found r =
    let (killed, stopped, asks) = block_task-Blocks env a t reason hash w found r in
    blocked_task t (asked_under reason hash) found r killed stopped asks
