-- ===== src/Controller/Health.antt =====
-- ComputeAgentError, EvaluateAgentHealth, OscillationScore and escalationLevel of
-- internal/model/controller.go.
pub mod Laws
pub mod Examples
use clankwork.Base.{ℕ, String, Bool, not, ◌&&◌, Option, none, some, if◌then◌else◌}
use clankwork.Base.Int.{ℤ, pos, leb_ℤ, ltb_ℤ}
use clankwork.Controller.{
  Category, agent_dead, agent_stalling, agent_no_progress, agent_stale, oscillation, Action,
  no_action, kill, nudge, block, no_op, Progress, empty_progress, progress_unknown, progress_absent,
  AgentHealth, healthy, warning, stalled, dead, ControllerError,
}

-- `failure_signature` is carried along unread; it stands for the signature's hash.
pub record AgentObservedState : Type 0 where
  pub agent_id : String
  pub session_alive : Bool
  pub heartbeat_stale : Bool
  pub pane_active : Bool
  -- in whole seconds, `LastHeartbeatAge.Seconds()`
  pub last_heartbeat_age : ℤ
  pub progress : Progress
  pub failure_signature : Option String
  pub no_signal_turns : ℤ
  pub repeated_failures : ℤ
  pub nudge_timeouts : ℤ

pub record AgentDecision : Type 0 where
  pub agent_id : String
  pub health : AgentHealth
  pub action : Action
  pub error : Option ControllerError
  pub progress : Progress
  pub oscillation_score : ℤ
  pub escalation_level : ℕ
  pub failure_signature : Option String

abbrev pub oscillation_threshold : ℤ
oscillation_threshold = pos 3

-- `if x > score { score = x }`
abbrev raise_to : ℤ → ℤ → ℤ
raise_to score x = if ltb_ℤ score x then x else score

pub oscillation_score : AgentObservedState → ℤ
oscillation_score s =
    raise_to (raise_to (raise_to (pos 0) s.no_signal_turns) s.repeated_failures) s.nudge_timeouts

pub escalation_level : ℤ → ℕ
escalation_level score =
    if leb_ℤ oscillation_threshold score
    then 3
    else if leb_ℤ (pos 2) score && leb_ℤ score (pos 2)
    then 2
    else if ltb_ℤ (pos 0) score
    then 1
    else 0

abbrev is_absent : Progress → Bool
is_absent progress_absent = Bool.true
is_absent _ = Bool.false

agent_error : AgentObservedState → Category → ℤ → Option ControllerError
agent_error s category magnitude =
    some (record { category = category; magnitude = magnitude; affected_agent_id = s.agent_id })

pub compute_agent_error : AgentObservedState → Option ControllerError
unfolding agent_error oscillation_score
compute_agent_error s =
    if not s.session_alive
    then agent_error s agent_dead (pos 0)
    else if s.heartbeat_stale && not s.pane_active
    then agent_error s agent_stalling s.last_heartbeat_age
    else if is_absent s.progress
    then agent_error s agent_no_progress (oscillation_score s)
    else if s.heartbeat_stale
    then agent_error s agent_stale s.last_heartbeat_age
    else none

abbrev default_progress : Progress → Progress
default_progress empty_progress = progress_unknown
default_progress p = p

-- The decision with the fields that every branch fills alike.
agent_decision : AgentObservedState → AgentHealth → Action → Option ControllerError → AgentDecision
unfolding oscillation_score escalation_level
agent_decision s health action err = record {
  agent_id = s.agent_id;
  health = health;
  action = action;
  error = err;
  progress = default_progress s.progress;
  oscillation_score = oscillation_score s;
  escalation_level = escalation_level (oscillation_score s);
  failure_signature = s.failure_signature;
}

-- The `switch err.Category`; the last clause is the code after it.
recover : AgentObservedState → ControllerError → Category → AgentDecision
unfolding agent_decision
recover s err agent_dead = agent_decision s dead kill (some err)
recover s err agent_stalling = agent_decision s stalled nudge (some err)
recover s err agent_no_progress = agent_decision s warning nudge (some err)
recover s err agent_stale = agent_decision s warning no_op (some err)
recover s err _ = agent_decision s warning no_op (some err)

-- What follows the error: nothing is wrong, or the agent is stuck for good, or one recovery.
evaluate_error : AgentObservedState → Option ControllerError → AgentDecision
unfolding agent_decision recover agent_error
evaluate_error s none = agent_decision s healthy no_action none
evaluate_error s (some err) =
    if leb_ℤ oscillation_threshold (oscillation_score s)
    then agent_decision s stalled block (agent_error s oscillation (oscillation_score s))
    else recover s err err.category

-- `heartbeatTimeout` is a parameter of the code that it does not read.
pub evaluate_agent_health : AgentObservedState → AgentDecision
unfolding compute_agent_error evaluate_error
evaluate_agent_health s = evaluate_error s (compute_agent_error s)
