-- ===== src/Reconciler/Actions.antt =====
-- What internal/scheduler/reconciler.go does to end an agent or its task: failTask, blockTask with
-- its escalation, cleanup, cleanupTerminalRuntime; and CancelAgent of internal/scheduler/scheduler.go,
-- by which the operator does.
pub mod Laws
pub mod Rows
pub mod Cleaning
pub mod Cancel
use clankwork.Base.{
  ℕ, String, Bool, true, false, not, ◌&&◌, ◌||◌, Option, none, some, ◌∷◌, ◌==◌, any, eqb,
  if◌then◌else◌,
}
use clankwork.Controller.{dead, kill, block}
use clankwork.Tasks.{
  Task, TaskStatus, failed, blocked, is_running, get_task, update_task, task_set_status_if_running,
}
use clankwork.Routing.{is_error, Outcome, route_step}
use clankwork.Reconciler.{
  Agent, Escalation, cancel_decided, cancel_actuated, get_agent, decided, traced, actuated,
  used_transport, killed_gracefully, failure_context, routed, worktree_removed, World, Env,
  agent_runtime_session, emit, clear_nudge, agent_set_status, agent_set_runtime_pid,
}

-- `UPDATE tasks ... WHERE id=? AND status='running'`
pub set_task_if_running : ℕ → String → TaskStatus → World → World
unfolding update_task
set_task_if_running now id s w = record w {
  tasks = update_task id (task_set_status_if_running now s) w.tasks;
}

abbrev is_acp_or_tmux : String → Bool
is_acp_or_tmux transport = transport == "acp" || transport == "tmux"

-- The error of UseTransport is only logged.
unfoldable pub ensure_runtime_transport : Env → Agent → World → World
unfolding emit
ensure_runtime_transport env a w =
    if is_acp_or_tmux a.transport && env.selects_transport
    then emit (used_transport (agent_runtime_session a) a.transport) w
    else w

unfoldable pub cleanup : Agent → World → World
unfolding emit
cleanup a w = if a.worktree_path == "" then w else emit (worktree_removed a.worktree_path) w

-- What is left when RouteStep has returned: the row, the log, and on an error the fallback.
after_route : Env → TaskStatus → String → Outcome → World → World
unfolding emit update_task set_task_if_running
after_route env s id o w =
    let moved =
      emit (routed o.effects) (record w { tasks = update_task id (λ _. o.row) w.tasks }) in
    if is_error o.ending then set_task_if_running env.now id s moved else moved

-- RouteStep reads the task again. Where it is gone, so is the row of the fallback.
route_row : Env → TaskStatus → Agent → Task → Option Task → World → World
unfolding after_route
route_row env s a t none w = w
route_row env s a t (some row) w =
    after_route env s t.id
      (route_step env.now (env.repeated t.id) (env.graph t.id) (env.template row.template) row
        t.current_step "failure" row)
      w

-- The failure of the task's step, or the status where it has none or routing fails.
unfoldable pub fail_step : Env → TaskStatus → Bool → Agent → Task → World → World
unfolding emit route_row set_task_if_running
fail_step env s routes a t w =
    if routes && not (t.template == "") && not (t.current_step == "")
    then route_row env s a t (get_task w.tasks t.id) (emit (failure_context t.id t.current_step) w)
    else set_task_if_running env.now t.id s w

unfoldable pub fail_task : Env → Agent → Task → World → World
unfolding fail_step cleanup agent_set_status
fail_task env a t w =
    cleanup a (fail_step env failed env.has_dispatcher a t (agent_set_status a.id "killed" w))

-- The statement of EscalationGetOpenByTaskAndSignature finds a row.
abbrev pub is_open_for : String → String → Escalation → Bool
is_open_for task sig e = e.task_id == task && e.status == "open" && e.failure_signature == sig

unfoldable pub create_block_escalation : Agent → Task → String → String → World → World
create_block_escalation a t reason hash w =
    let sig = if hash == "" then reason else hash in
    if any (is_open_for t.id sig) w.escalations then w else record w {
      escalations =
          (record {
            task_id = t.id;
            step_name = t.current_step;
            target_ref = a.id;
            retry_count = t.retry_count;
            suggests_retry = not (t.current_step == "");
            failure_signature = sig;
            status = "open";
          })
          ∷ w.escalations;
    }

kill_gracefully : Env → Agent → World → World
unfolding emit ensure_runtime_transport
kill_gracefully env a w =
    let session = agent_runtime_session a in
    if session == "" then w else emit (killed_gracefully session) (ensure_runtime_transport env a w)

unfoldable pub block_task : Env → Agent → Task → String → String → World → World
unfolding emit cleanup kill_gracefully create_block_escalation set_task_if_running agent_set_status
block_task env a t reason hash w =
    let stopped = set_task_if_running env.now t.id blocked (agent_set_status a.id "killed" w) in
    let told =
      emit (actuated a.id block true reason)
        (emit (traced a.id "agent_controller.blocked" reason) stopped) in
    cleanup a (kill_gracefully env a (create_block_escalation a t reason hash told))

-- A live session of an agent that is over.
clean_live : Env → Agent → String → World → World
unfolding emit clear_nudge agent_set_runtime_pid
clean_live env a session w =
    let asked = emit (killed_gracefully session) (
      emit (traced a.id "reconciler.cleaned_runtime" "agent terminal")
        (emit (decided a.id dead kill none) w)) in
    if env.graceful_kill_fails session
    then emit (actuated a.id kill false "runtime cleanup failed") asked
    else clear_nudge a.id
        (agent_set_runtime_pid a.id 0 (emit (actuated a.id kill true "runtime cleaned") asked))

clean_session : Env → Agent → String → World → World
unfolding clean_live agent_set_runtime_pid
clean_session env a session w =
    if env.liveness_fails session
    then w
    else if env.is_alive session
    then clean_live env a session w
    else if eqb a.pid 0
    then w
    else agent_set_runtime_pid a.id 0 w

unfoldable pub cleanup_terminal_runtime : Env → Agent → World → World
unfolding clean_session ensure_runtime_transport
cleanup_terminal_runtime env a w =
    let session = agent_runtime_session a in
    let ready = ensure_runtime_transport env a w in
    if session == ""
    then w
    else if a.transport == "acp" && eqb a.pid 0
    then ready
    else clean_session env a session ready

-- The task of an agent whose cancellation succeeded, if it was found.
cancel_task : Env → Agent → Option Task → World → World
unfolding fail_step
cancel_task env a none w = w
cancel_task env a (some t) w = if is_running t.status then fail_step env blocked true a t w else w

-- How CancelAgent ends: with an error of its own, with the runtime's, or without one.
pub data Cancelled : Type 0 where
  no_agent no_session no_transport cancel_failed cancelled : Cancelled

-- `fails` is the answer of the runtime, asked by Cancel or, where it has none, by GracefulKill.
cancel_session : Env → Bool → Agent → World → World × Cancelled
unfolding emit cancel_task agent_set_status
cancel_session env true a w = (emit (cancel_actuated a.id false) w, cancel_failed)
cancel_session env false a w = (
  emit (cancel_actuated a.id true)
      (cancel_task env a (get_task w.tasks a.task_id) (agent_set_status a.id "killed" w)),
  cancelled,
)

-- UseTransport fails, where it is called.
abbrev transport_error : Env → Bool → Agent → Bool
transport_error env fails a = is_acp_or_tmux a.transport && env.selects_transport && fails

cancel_found : Env → Bool → Bool → Option Agent → World → World × Cancelled
unfolding emit cancel_session ensure_runtime_transport
cancel_found env transport_fails fails none w = (w, no_agent)
cancel_found env transport_fails fails (some a) w =
    let asked = emit (cancel_decided a.id) w in
    if agent_runtime_session a == ""
    then (asked, no_session)
    else if transport_error env transport_fails a
    then (ensure_runtime_transport env a asked, no_transport)
    else cancel_session env fails a (ensure_runtime_transport env a asked)

unfoldable pub cancel_agent : Env → Bool → Bool → String → World → World × Cancelled
unfolding cancel_found
cancel_agent env transport_fails fails id w =
    cancel_found env transport_fails fails (get_agent w.agents id) w
