-- ===== src/Controller/Health/Examples.antt =====
-- The health evaluation's theorems on an agent whose heartbeat is old.
use clankwork.Base.{◌≡◌, ◌↔◌, ◌⊎◌, true, false, none, some, refl}
use clankwork.Base.Int.{pos, ◌≤ℤ◌, ◌<ℤ◌}
use clankwork.Controller.{
  kill, nudge, block, healthy, progress_absent, progress_present, agent_stalling, ControllerError,
}
use clankwork.Controller.Health.{
  AgentObservedState, oscillation_score, evaluate_agent_health, oscillation_threshold,
}
use clankwork.Controller.Health.Laws.{
  HasError, oscillation_score-IsMax, kill_iff, block_iff, nudge_iff, healthy_iff,
  affected_agent_is_observed,
}

abbrev silent : AgentObservedState
silent = record {
  agent_id = "agent-1";
  session_alive = true;
  heartbeat_stale = true;
  pane_active = false;
  last_heartbeat_age = pos 300;
  progress = progress_present;
  failure_signature = none;
  no_signal_turns = pos 1;
  repeated_failures = pos 2;
  nudge_timeouts = pos 0;
}

abbrev stalling : ControllerError
stalling = record { category = agent_stalling; magnitude = pos 300; affected_agent_id = "agent-1" }

oscillation_score-IsMax_example :
    (pos 0 ≤ℤ oscillation_score silent)
    × (pos 1 ≤ℤ oscillation_score silent)
    × (pos 2 ≤ℤ oscillation_score silent)
    × (pos 0 ≤ℤ oscillation_score silent)
    × ((oscillation_score silent ≡ pos 0)
        ⊎ (oscillation_score silent ≡ pos 1)
        ⊎ (oscillation_score silent ≡ pos 2)
        ⊎ (oscillation_score silent ≡ pos 0))
oscillation_score-IsMax_example = oscillation_score-IsMax silent

kill_iff_example :
    ((evaluate_agent_health silent).action ≡ kill)
    ↔ ((silent.session_alive ≡ false) × (oscillation_score silent <ℤ oscillation_threshold))
kill_iff_example = kill_iff silent

block_iff_example :
    ((evaluate_agent_health silent).action ≡ block)
    ↔ (HasError silent × (oscillation_threshold ≤ℤ oscillation_score silent))
block_iff_example = block_iff silent

nudge_iff_example : ((evaluate_agent_health silent).action ≡ nudge) ↔ (
    (silent.session_alive ≡ true)
    × (oscillation_score silent <ℤ oscillation_threshold)
    × (((silent.heartbeat_stale ≡ true) × (silent.pane_active ≡ false))
        ⊎ (silent.progress ≡ progress_absent)))
nudge_iff_example = nudge_iff silent

healthy_iff_example :
    (((evaluate_agent_health silent).health ≡ healthy) ↔ (¬ HasError silent))
    × (((evaluate_agent_health silent).health ≡ healthy)
        ↔ ((evaluate_agent_health silent).error ≡ none))
healthy_iff_example = healthy_iff silent

silent_stalls : (evaluate_agent_health silent).error ≡ some stalling
unfolding evaluate_agent_health
silent_stalls = refl

affected_agent_is_observed_example : "agent-1" ≡ silent.agent_id
affected_agent_is_observed_example = affected_agent_is_observed silent stalling silent_stalls
