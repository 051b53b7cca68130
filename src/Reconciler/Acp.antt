-- ===== src/Reconciler/Acp.antt =====
-- internal/scheduler/reconciler.go, the agents that speak ACP: reconcileACP and its two handlers,
-- handleACPEndedWithoutSignal and handleACPStall.
pub mod Laws
pub mod Ending
pub mod Asking
pub mod Budget
pub mod Blocking
use clankwork.Base.{
  ℕ, String, Bool, true, false, not, ◌&&◌, ◌||◌, Option, none, some, List, ◌==◌, ltb, get, ◌+◌,
  if◌then◌else◌,
}
use clankwork.Base.Int.{ltb_ℤ, pos}
use clankwork.Base.Bytes.{bytes, contains_text}
use clankwork.Controller.{
  stalled, dead, Action, kill, nudge, block, handoff, Category, agent_stalling, agent_context_limit,
  ControllerError,
}
use clankwork.Controller.Health.{AgentObservedState, AgentDecision, evaluate_agent_health}
use clankwork.Tasks.{Task}
use clankwork.Reconciler.{
  Agent, Effect, decided, traced, actuated, nudged, killed, killed_gracefully, World, Env,
  agent_runtime_session, emit, clear_nudge, mark_nudged, since, nudge_timeout, count_of, put_key,
  nudge_error_retry_budget, drop_key,
}
use clankwork.Reconciler.Events.{
  AcpReconcileState, no_state, AgentEvent, compute_acp_state, ended_without_signal,
  progress_evidence,
}
use clankwork.Reconciler.Actions.{ensure_runtime_transport, fail_task, block_task}

pub event_fresh : Env → AcpReconcileState → Bool
event_fresh env s = ltb 0 s.last_event_at && ltb_ℤ (since env.now s.last_event_at) env.timeout

-- The state of the agent's events, the zero state where they cannot be read.
abbrev events_state : Option (List AgentEvent) → AcpReconcileState
unfolding compute_acp_state
events_state none = no_state
events_state (some events) = compute_acp_state events

pub acp_state : Env → Agent → AcpReconcileState
unfolding events_state
acp_state env a = events_state (env.agent_events a.id)

-- A nudge that was refused since a turn is running.
pub is_acp_turn_active_error : String → Bool
unfolding contains_text
is_acp_turn_active_error err =
    contains_text (bytes err) (bytes "turn/start")
    || contains_text (bytes err) (bytes "turn_started")

abbrev pub category_of : Option ControllerError → Option Category
category_of none = none
category_of (some e) = some e.category

unfoldable pub trace_decision : AgentDecision → World → World
unfolding emit
trace_decision d w = emit (decided d.agent_id d.health d.action (category_of d.error)) w

-- The answer to a first nudge. Only a nudge that waits for a turn does not start the clock.
after_nudge : Env → Agent → Option String → World → World
unfolding emit mark_nudged is_acp_turn_active_error
after_nudge env a none w = mark_nudged env.now a.id (emit (actuated a.id nudge true "nudge sent") w)
after_nudge env a (some err) w =
    if is_acp_turn_active_error err
    then emit (actuated a.id nudge false "turn active, nudge deferred") w
    else mark_nudged env.now a.id (emit (actuated a.id nudge false "nudge send failed") w)

pub first_nudge : Env → Agent → String → World → World
unfolding emit after_nudge
first_nudge env a reason w =
    let session = agent_runtime_session a in
    let told = emit (traced a.id "reconciler.stall" reason) (
      emit (decided a.id stalled nudge (some agent_stalling)) (ensure_runtime_transport env a w)) in
    after_nudge env a (env.send_nudge session) (emit (nudged a.id session) told)

-- The end of both handlers: the session is asked to stop, and the task fails.
pub ask_to_stop : Env → Agent → String → World → World
unfolding emit clear_nudge
ask_to_stop env a reason w =
    let session = agent_runtime_session a in
    let told =
      emit (traced a.id "reconciler.stall" reason)
        (emit (decided a.id stalled handoff (some agent_stalling)) w) in
    let asked =
      emit (killed_gracefully session) (ensure_runtime_transport env a (clear_nudge a.id told)) in
    if env.graceful_kill_fails session
    then emit (actuated a.id handoff false "graceful kill failed") asked
    else emit (actuated a.id handoff true "graceful kill sent") asked

pub hand_off : Env → Agent → Task → String → World → World
unfolding ask_to_stop
hand_off env a t reason w = fail_task env a t (ask_to_stop env a reason w)

abbrev renudge_answer : Agent → Option String → Effect
renudge_answer a none = actuated a.id nudge true "error re-nudge sent"
renudge_answer a (some err) = actuated a.id nudge false "error re-nudge failed"

-- The retry after a turn that ended with an error: it is counted and starts the clock in any case.
pub renudge : Env → Agent → World → World
unfolding emit mark_nudged put_key drop_key
renudge env a w =
    let session = agent_runtime_session a in
    let counted = record w {
      nudge_error_retries =
          put_key a.id (count_of w.nudge_error_retries a.id + 1) w.nudge_error_retries;
      nudge_sent = drop_key a.id w.nudge_sent;
    } in
    mark_nudged env.now a.id (
      emit (renudge_answer a (env.send_nudge session))
        (emit (nudged a.id session) (ensure_runtime_transport env a counted)))

-- What follows the nudge that was sent at a time.
after_ended_nudge : Env → Agent → Task → AcpReconcileState → Option ℕ → World → World
unfolding first_nudge renudge hand_off
after_ended_nudge env a t s none w = first_nudge env a "acp_turn_ended_without_signal" w
after_ended_nudge env a t s (some sent_at) w =
    if ltb_ℤ (since env.now sent_at) nudge_timeout
    then w
    else if s.last_stop_reason == "error"
        && ltb (count_of w.nudge_error_retries a.id) nudge_error_retry_budget
    then renudge env a w
    else hand_off env a t "acp_no_signal_nudge_timeout" w

-- What is told to EvaluateAgentHealth of an agent whose turn has ended.
pub ended_observation : Agent → AcpReconcileState → AgentObservedState
unfolding progress_evidence
ended_observation a s = record {
  agent_id = a.id;
  session_alive = true;
  heartbeat_stale = false;
  pane_active = true;
  last_heartbeat_age = pos 0;
  progress = progress_evidence s;
  failure_signature = none;
  no_signal_turns = pos s.error_turn_count;
  repeated_failures = pos 0;
  nudge_timeouts = pos 0;
}

abbrev pub is_block : Action → Bool
is_block block = true
is_block _ = false

-- The Reason of every decision to block.
abbrev pub block_reason : String
block_reason = "repeated unresolved controller error; blocking for human input"

abbrev signature_hash : Option String → String
signature_hash none = ""
signature_hash (some hash) = hash

pub handle_acp_ended_without_signal : Env → Agent → Task → AcpReconcileState → World → World
unfolding ended_observation trace_decision after_ended_nudge
handle_acp_ended_without_signal env a t s w =
    let decision = evaluate_agent_health (ended_observation a s) in
    if is_block decision.action
    then block_task env a t block_reason (signature_hash decision.failure_signature)
        (trace_decision decision w)
    else after_ended_nudge env a t s (get w.nudge_sent a.id) w

after_stall_nudge : Env → Agent → Task → Option ℕ → World → World
unfolding first_nudge hand_off
after_stall_nudge env a t none w = first_nudge env a "acp_events_and_heartbeat_silent" w
after_stall_nudge env a t (some sent_at) w =
    if ltb_ℤ (since env.now sent_at) nudge_timeout
    then w
    else hand_off env a t "acp_stall_nudge_timeout" w

pub handle_acp_stall : Env → Agent → Task → World → World
unfolding after_stall_nudge
handle_acp_stall env a t w = after_stall_nudge env a t (get w.nudge_sent a.id) w

-- The turn was cancelled: nothing is asked of the session.
cancelled_turn : Env → Agent → Task → World → World
unfolding emit clear_nudge
cancelled_turn env a t w = fail_task env a t (
    clear_nudge a.id (
      emit (traced a.id "reconciler.killed" "acp_turn_cancelled")
        (emit (decided a.id dead kill (some agent_stalling)) w)))

process_gone : Env → Agent → Task → World → World
unfolding emit clear_nudge
process_gone env a t w = fail_task env a t (
    clear_nudge a.id
      (emit (traced a.id "reconciler.killed" "acp process gone, heartbeat/events stale") w))

context_limit : Env → Agent → Task → World → World
unfolding emit clear_nudge
context_limit env a t w =
    let session = agent_runtime_session a in
    let told =
      emit (traced a.id "reconciler.stall" "context_limit")
        (emit (decided a.id stalled handoff (some agent_context_limit)) w) in
    let asked = emit (killed session) (clear_nudge a.id told) in
    fail_task env a t (
      if env.kill_fails session
      then emit (actuated a.id handoff false "kill failed") asked
      else emit (actuated a.id handoff true "process killed") asked)

-- The `switch`, over the state of the events.
pub decide_acp : Env → Agent → Task → Bool → Bool → AcpReconcileState → World → World
unfolding cancelled_turn process_gone context_limit
decide_acp env a t alive heartbeat_fresh s w =
    if s.last_stop_reason == "cancelled" && ended_without_signal s
    then cancelled_turn env a t w
    else if not alive && not heartbeat_fresh && not (event_fresh env s)
    then process_gone env a t w
    else if not alive
    then w
    else if s.context_limit_error
    then context_limit env a t w
    else if ended_without_signal s
    then handle_acp_ended_without_signal env a t s w
    else if heartbeat_fresh || event_fresh env s
    then w
    else handle_acp_stall env a t w

unfoldable pub reconcile_acp : Env → Agent → Task → Bool → Bool → World → World
unfolding acp_state decide_acp
reconcile_acp env a t alive heartbeat_fresh w =
    decide_acp env a t alive heartbeat_fresh (acp_state env a) (ensure_runtime_transport env a w)
