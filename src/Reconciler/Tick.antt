-- ===== src/Reconciler/Tick.antt =====
-- internal/scheduler/reconciler.go: Tick over all agents, and handleStall for those in a terminal.
pub mod Laws
pub mod Ending
pub mod Evidence
use clankwork.Base.{
  ℕ, String, Bool, true, false, not, Option, none, some, List, [], ◌∷◌, ◌==◌, get, ◌/◌,
  if◌then◌else◌,
}
use clankwork.Base.Int.{ℤ, ltb_ℤ, pos, sub_ℕ, pos_part, neg_part}
use clankwork.Controller.{stalled, handoff, agent_context_limit, progress_absent}
use clankwork.Controller.Health.{AgentObservedState, AgentDecision, evaluate_agent_health}
use clankwork.Tasks.{Task, is_running, get_task}
use clankwork.Reconciler.{
  Agent, decided, traced, nudged, killed, killed_gracefully, World, Env, agent_runtime_session,
  emit, clear_nudge, mark_nudged, since, nudge_timeout, agent_set_ended,
}
use clankwork.Reconciler.Events.{has_context_limit_error}
use clankwork.Reconciler.Actions.{cleanup, fail_task, cleanup_terminal_runtime}
use clankwork.Reconciler.Acp.{trace_decision, category_of, reconcile_acp}

-- computeLastHeartbeatAge, 0 where there was no heartbeat.
abbrev last_heartbeat_age : Env → Option ℕ → ℤ
last_heartbeat_age env none = pos 0
last_heartbeat_age env (some t) = since env.now t

abbrev seconds : ℤ → ℤ
seconds d = sub_ℕ (pos_part d / 1_000_000_000) (neg_part d / 1_000_000_000)

stall_observation : Env → Agent → AgentObservedState
stall_observation env a = record {
  agent_id = a.id;
  session_alive = true;
  heartbeat_stale = true;
  pane_active = false;
  last_heartbeat_age = seconds (last_heartbeat_age env a.last_heartbeat);
  progress = progress_absent;
  failure_signature = none;
  no_signal_turns = pos 0;
  repeated_failures = pos 0;
  nudge_timeouts = pos 0;
}

stall_context_limit : Env → Agent → Task → World → World
unfolding emit clear_nudge
stall_context_limit env a t w = fail_task env a t (
    emit (killed (agent_runtime_session a)) (
      clear_nudge a.id (
        emit (traced a.id "reconciler.stall" "context_limit")
          (emit (decided a.id stalled handoff (some agent_context_limit)) w))))

-- The nudge of a terminal: the clock starts whether or not it could be sent.
stall_nudge : Env → Agent → AgentDecision → World → World
unfolding emit trace_decision mark_nudged
stall_nudge env a decision w = mark_nudged env.now a.id (
    emit (nudged a.id (agent_runtime_session a)) (
      emit (traced a.id "reconciler.stall" "pane_and_heartbeat_silent")
        (trace_decision decision w)))

stall_hand_off : Env → Agent → Task → AgentDecision → World → World
unfolding emit clear_nudge
stall_hand_off env a t decision w = fail_task env a t (
    emit (killed_gracefully (agent_runtime_session a)) (
      clear_nudge a.id (
        emit (traced a.id "reconciler.stall" "nudge_timeout")
          (emit (decided a.id stalled handoff (category_of decision.error)) w))))

after_nudge_at : Env → Agent → Task → AgentDecision → Option ℕ → World → World
unfolding stall_nudge stall_hand_off
after_nudge_at env a t decision none w = stall_nudge env a decision w
after_nudge_at env a t decision (some sent_at) w =
    if ltb_ℤ (since env.now sent_at) nudge_timeout then w else stall_hand_off env a t decision w

pub handle_stall : Env → Agent → Task → World → World
unfolding stall_context_limit after_nudge_at stall_observation
handle_stall env a t w =
    if has_context_limit_error (env.capture_pane (agent_runtime_session a))
    then stall_context_limit env a t w
    else after_nudge_at env a t (evaluate_agent_health (stall_observation env a))
        (get w.nudge_sent a.id) w

-- `agent.LastHeartbeat == nil || time.Since(*agent.LastHeartbeat) > r.timeout`
pub is_heartbeat_stale : Env → Option ℕ → Bool
is_heartbeat_stale env none = true
is_heartbeat_stale env (some t) = ltb_ℤ env.timeout (since env.now t)

abbrev reported : Option (String → String) → String → String
reported none session = "tmux"
reported (some f) session = f session

pub agent_transport : Env → Agent → String → String
agent_transport env a session =
    if a.transport == "" then reported env.transport_for_session session else a.transport

-- A live session that sent no heartbeat: it is left alone while its pane shows activity, or where
-- that cannot be told.
check_pane : Env → Agent → Task → Option ℕ → World → World
unfolding handle_stall
check_pane env a t none w = w
check_pane env a t (some last_activity) w =
    if ltb_ℤ (since env.now last_activity) env.timeout then w else handle_stall env a t w

session_gone : Env → Agent → Task → World → World
unfolding emit clear_nudge
session_gone env a t w = fail_task env a t (
    clear_nudge a.id
      (emit (traced a.id "reconciler.killed" "tmux session gone, heartbeat stale") w))

pub reconcile_tmux : Env → Agent → Task → Bool → Bool → World → World
unfolding clear_nudge session_gone check_pane
reconcile_tmux env a t alive heartbeat_fresh w =
    if heartbeat_fresh
    then clear_nudge a.id w
    else if alive
    then check_pane env a t (env.pane_last_activity (agent_runtime_session a)) w
    else session_gone env a t w

-- A running agent with a running task.
pub reconcile_running : Env → Agent → Task → World → World
unfolding is_heartbeat_stale agent_transport reconcile_tmux
reconcile_running env a t w =
    let session = agent_runtime_session a in
    let alive = env.is_alive session in
    let fresh = not (is_heartbeat_stale env a.last_heartbeat) in
    if session == ""
    then w
    else if agent_transport env a session == "acp"
    then reconcile_acp env a t alive fresh w
    else reconcile_tmux env a t alive fresh w

with_task : Env → Agent → Option Task → World → World
unfolding agent_set_ended reconcile_running
with_task env a none w = w
with_task env a (some t) w =
    if is_running t.status then reconcile_running env a t w else cleanup a (agent_set_ended a.id w)

-- The body of the loop.
pub reconcile_agent : Env → Agent → World → World
unfolding with_task
reconcile_agent env a w =
    if a.status == "running"
    then with_task env a (get_task w.tasks a.task_id) w
    else cleanup_terminal_runtime env a w

unfoldable pub reconcile_agents : Env → List Agent → World → World
unfolding reconcile_agent
reconcile_agents env [] w = w
reconcile_agents env (a ∷ rest) w = reconcile_agents env rest (reconcile_agent env a w)

-- The list is read once, before the loop.
unfoldable pub tick : Env → World → World
unfolding reconcile_agents
tick env w = reconcile_agents env w.agents w
