-- ===== src/Reconciler/Tick/Ending.antt =====
-- The body of the loop refines the abstract reconciler, and ends what has to end.
use clankwork.Base.{◌≡◌, ◌≢◌, refl, true, false, ◌==◌, ==_iff, if-elim, arith}
use clankwork.Tasks.{Task, is_running}
use clankwork.Reconciler.{
  Agent, World, Env, emit, clear_nudge, agent_runtime_session, agent_set_ended,
}
use clankwork.Reconciler.Actions.{cleanup}
use clankwork.Reconciler.Acp.{event_fresh, acp_state}
use clankwork.Reconciler.Acp.Ending.{reconcile_acp-Killed}
use clankwork.Reconciler.Steps.{Finds, Killed, AgentBecomes, done_row, AgentSteps}
use clankwork.Reconciler.Steps.Taken.{fail_task-Killed_from, set_ended-AgentBecomes}
use clankwork.Reconciler.Tick.{
  is_heartbeat_stale, agent_transport, session_gone, reconcile_tmux, reconcile_running, with_task,
  reconcile_agent,
}
use clankwork.Reconciler.Tick.Laws.{reconcile_agent-AgentSteps}

-- The agent's session is named and over, and neither its heartbeat nor its events are recent.
abbrev pub IsLost : Env → Agent → Type 0
IsLost env a =
    (agent_runtime_session a ≢ "")
    × (env.is_alive (agent_runtime_session a) ≡ false)
    × (is_heartbeat_stale env a.last_heartbeat ≡ true)
    × (event_fresh env (acp_state env a) ≡ false)

-- What has to happen to a running agent whose task is found.
abbrev pub Ends : Env → Agent → Task → World → World → Type 0
Ends env a t w w' =
    (is_running t.status ≡ false → AgentBecomes a done_row w w')
    × (is_running t.status ≡ true → IsLost env a → Killed a w w')

reconcile_running-Killed :
    (env : Env) (a : Agent) (t : Task) (w : World)
    → Finds a t w
    → IsLost env a
    → Killed a w (reconcile_running env a t w)
unfolding reconcile_running reconcile_tmux session_gone emit clear_nudge
reconcile_running-Killed env a t w found (session, gone, stale, silent) =
    let named : (agent_runtime_session a == "") ≡ false =
      ground (arith, session, ==_iff (agent_runtime_session a) "") in
    rw (named, gone, stale)
      (if-elim (λ u. Killed a w u) (agent_transport env a (agent_runtime_session a) == "acp") _ _
        (reconcile_acp-Killed env a t w found silent)
        (fail_task-Killed_from env a t w _ refl refl found))

closed-AgentBecomes :
    (a : Agent) (w : World) → AgentBecomes a done_row w (cleanup a (agent_set_ended a.id w))
unfolding cleanup emit
closed-AgentBecomes a w =
    if-elim (λ u. AgentBecomes a done_row w u) _ _ _ (set_ended-AgentBecomes a w)
      (set_ended-AgentBecomes a w)

reconcile_agent-Ends :
    (env : Env) (a : Agent) (t : Task) (w : World)
    → a.status ≡ "running"
    → Finds a t w
    → Ends env a t w (reconcile_agent env a w)
unfolding reconcile_agent with_task
reconcile_agent-Ends env a t w up found =
    let on : (a.status == "running") ≡ true = (==_iff a.status "running").1 up in
    (
      λ r. rw (on, found, r) (closed-AgentBecomes a w),
      λ r lost. rw (on, found, r) (reconcile_running-Killed env a t w found lost),
    )

-- Whatever the runtime and the events answer, the body of the loop changes the tables only by steps
-- of the abstract reconciler: it kills the agent of a running task and stops or blocks that task,
-- with one question to the operator where it blocks, closes an agent whose task is not running, or
-- forgets the process of one that is over; no other row changes. And a running agent whose task is
-- found is closed if the task is not running, and if it is, killed with its task stopped where its
-- session is named and over and neither its heartbeat nor its events are recent.
pub reconcile_agent-Refines :
    (env : Env) (a : Agent) (w : World)
    → AgentSteps a w (reconcile_agent env a w)
      × ((t : Task) → a.status ≡ "running" → Finds a t w → Ends env a t w (reconcile_agent env a w))
reconcile_agent-Refines env a w =
    (reconcile_agent-AgentSteps env a w, λ t up found. reconcile_agent-Ends env a t w up found)
