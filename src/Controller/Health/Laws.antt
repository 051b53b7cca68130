-- ===== src/Controller/Health/Laws.antt =====
-- What the health evaluation decides, and when.
use clankwork.Base.{min, ℕ, ◌≡◌, ◌↔◌, ◌⊎◌, true, false, none, some, arith}
use clankwork.Base.Int.{pos, ◌≤ℤ◌, ◌<ℤ◌}
use clankwork.Controller.{kill, nudge, block, healthy, progress_absent, ControllerError}
use clankwork.Controller.Health.{
  AgentObservedState, oscillation_score, escalation_level, evaluate_agent_health,
  oscillation_threshold,
}

-- The score bounds the three counters and 0, and is one of them.
pub oscillation_score-IsMax :
    (s : AgentObservedState)
    → (pos 0 ≤ℤ oscillation_score s)
      × (s.no_signal_turns ≤ℤ oscillation_score s)
      × (s.repeated_failures ≤ℤ oscillation_score s)
      × (s.nudge_timeouts ≤ℤ oscillation_score s)
      × ((oscillation_score s ≡ pos 0)
          ⊎ (oscillation_score s ≡ s.no_signal_turns)
          ⊎ (oscillation_score s ≡ s.repeated_failures)
          ⊎ (oscillation_score s ≡ s.nudge_timeouts))
unfolding oscillation_score
oscillation_score-IsMax s = ground arith

-- The level is the score, cut off at 3.
pub escalation_level_lem : (n : ℕ) → escalation_level (pos n) ≡ min n 3
unfolding escalation_level
escalation_level_lem n = ground arith

abbrev pub HasError : AgentObservedState → Type 0
HasError s = (s.session_alive ≡ false) ⊎ (s.heartbeat_stale ≡ true) ⊎ (s.progress ≡ progress_absent)

-- A session is killed exactly when it is dead and its counters are below the threshold.
pub kill_iff :
    (s : AgentObservedState)
    → ((evaluate_agent_health s).action ≡ kill)
      ↔ ((s.session_alive ≡ false) × (oscillation_score s <ℤ oscillation_threshold))
unfolding evaluate_agent_health
kill_iff s = (λ h. ground arith, λ h. ground arith)

-- An agent is blocked exactly when something is wrong with it and a counter has reached the
-- threshold.
pub block_iff :
    (s : AgentObservedState)
    → ((evaluate_agent_health s).action ≡ block)
      ↔ (HasError s × (oscillation_threshold ≤ℤ oscillation_score s))
unfolding evaluate_agent_health
block_iff s = (λ h. ground arith, λ h. ground arith)

-- A nudge goes exactly to a live session below the threshold that is silent, or that shows no
-- progress.
pub nudge_iff :
    (s : AgentObservedState)
    → ((evaluate_agent_health s).action ≡ nudge) ↔ (
        (s.session_alive ≡ true)
        × (oscillation_score s <ℤ oscillation_threshold)
        × (((s.heartbeat_stale ≡ true) × (s.pane_active ≡ false)) ⊎ (s.progress ≡ progress_absent)))
unfolding evaluate_agent_health
nudge_iff s = (λ h. ground arith, λ h. ground arith)

-- An agent is healthy exactly when it has no error and exactly when no error is reported.
pub healthy_iff :
    (s : AgentObservedState)
    → (((evaluate_agent_health s).health ≡ healthy) ↔ (¬ HasError s))
      × (((evaluate_agent_health s).health ≡ healthy) ↔ ((evaluate_agent_health s).error ≡ none))
unfolding evaluate_agent_health
healthy_iff s = ((λ h. ground arith, λ h. ground arith), (λ h. ground arith, λ h. ground arith))

-- A reported error names the agent that was observed.
pub affected_agent_is_observed :
    (s : AgentObservedState) (e : ControllerError)
    → (evaluate_agent_health s).error ≡ some e
    → e.affected_agent_id ≡ s.agent_id
unfolding evaluate_agent_health
affected_agent_is_observed s e h = ground arith
