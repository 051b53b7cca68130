-- ===== src/Reconciler/Acp/Ending.antt =====
-- An ACP agent whose process is lost is killed.
use clankwork.Base.{◌≡◌, false, ◌&&◌, ◌==◌, if-cases}
use clankwork.Tasks.{Task}
use clankwork.Reconciler.{Agent, World, Env, emit, clear_nudge}
use clankwork.Reconciler.Events.{AcpReconcileState, ended_without_signal}
use clankwork.Reconciler.Actions.{ensure_runtime_transport}
use clankwork.Reconciler.Acp.{
  event_fresh, acp_state, cancelled_turn, process_gone, decide_acp, reconcile_acp,
}
use clankwork.Reconciler.Acp.Laws.{transport-SameTables}
use clankwork.Reconciler.Steps.{Finds, Killed}
use clankwork.Reconciler.Steps.Taken.{fail_task-Killed_from}

decide_acp-Killed :
    (env : Env) (a : Agent) (t : Task) (s : AcpReconcileState) (w v : World)
    → v.agents ≡ w.agents
    → v.tasks ≡ w.tasks
    → Finds a t w
    → event_fresh env s ≡ false
    → Killed a w (decide_acp env a t false false s v)
unfolding decide_acp cancelled_turn process_gone emit clear_nudge
decide_acp-Killed env a t s w v ea et found stale =
    if-cases (λ u. Killed a w u) (s.last_stop_reason == "cancelled" && ended_without_signal s) _ _
      (λ _. fail_task-Killed_from env a t w _ ea et found)
      (λ _. rw stale (fail_task-Killed_from env a t w _ ea et found))

pub reconcile_acp-Killed :
    (env : Env) (a : Agent) (t : Task) (w : World)
    → Finds a t w
    → event_fresh env (acp_state env a) ≡ false
    → Killed a w (reconcile_acp env a t false false w)
unfolding reconcile_acp
reconcile_acp-Killed env a t w found stale =
    let (ea, et, ee) = transport-SameTables env a w in
    decide_acp-Killed env a t (acp_state env a) w (ensure_runtime_transport env a w) ea et found
      stale
