-- ===== src/Reconciler/Tick/Laws.antt =====
-- Tick as steps of the abstract reconciler, and what follows for the tables.
use clankwork.Base.{
  ◌≡◌, inl, inr, refl, ℕ, Bool, false, Option, none, some, List, [], ◌∷◌, ◌==◌, Bool-cases, if-elim,
  get, All, All-map,
}
use clankwork.Controller.Health.{AgentDecision, evaluate_agent_health}
use clankwork.Tasks.{Task, is_running, get_task}
use clankwork.Reconciler.{
  Agent, World, Env, emit, mark_nudged, clear_nudge, agent_runtime_session, agent_set_ended,
  get_agent,
}
use clankwork.Reconciler.Actions.{cleanup}
use clankwork.Reconciler.Actions.Cleaning.{cleanup-AgentSteps}
use clankwork.Reconciler.Acp.{trace_decision}
use clankwork.Reconciler.Acp.Laws.{quietly, quietly_failed, Runs, reconcile_acp-AgentSteps}
use clankwork.Reconciler.Steps.Taken.{set_ended-AgentStep}
use clankwork.Reconciler.Steps.{Finds, quiet, AgentSteps, stay, via, one_step}
use clankwork.Reconciler.Steps.Laws.{
  Steady, Steady-refl, Steady-trans, AgentSteps-Steady, Knows, Knows-later,
}
use clankwork.Reconciler.Steps.Escalations.{IsDeduped, AgentSteps-IsDeduped}
use clankwork.Reconciler.Tick.{
  stall_context_limit, stall_nudge, stall_hand_off, after_nudge_at, handle_stall, stall_observation,
  check_pane, session_gone, reconcile_tmux, reconcile_running, with_task, reconcile_agent,
  reconcile_agents, tick,
}

module _ (env : Env) (a : Agent) (t : Task) (w : World) (runs : Runs a t w) where
  after_nudge_at-AgentSteps :
      (d : AgentDecision) (o : Option ℕ) → AgentSteps a w (after_nudge_at env a t d o w)
  unfolding after_nudge_at stall_nudge stall_hand_off emit clear_nudge mark_nudged trace_decision
  after_nudge_at-AgentSteps d none = quietly env a t w _ (refl, refl, refl)
  after_nudge_at-AgentSteps d (some sent_at) =
      if-elim (λ v. AgentSteps a w v) _ _ _ stay
        (quietly_failed env a t w _ (refl, refl, refl) runs.0 runs.1)

  handle_stall-AgentSteps : AgentSteps a w (handle_stall env a t w)
  unfolding handle_stall stall_context_limit emit clear_nudge
  handle_stall-AgentSteps =
      if-elim (λ v. AgentSteps a w v) _ _ _
        (quietly_failed env a t w _ (refl, refl, refl) runs.0 runs.1)
        (after_nudge_at-AgentSteps (evaluate_agent_health (stall_observation env a))
          (get w.nudge_sent a.id))

  silent-AgentSteps : (o : Option ℕ) → AgentSteps a w (check_pane env a t o w)
  unfolding check_pane
  silent-AgentSteps none = stay
  silent-AgentSteps (some last_activity) =
      if-elim (λ v. AgentSteps a w v) _ _ _ stay handle_stall-AgentSteps

  reconcile_tmux-AgentSteps :
      (alive heartbeat_fresh : Bool)
      → AgentSteps a w (reconcile_tmux env a t alive heartbeat_fresh w)
  unfolding reconcile_tmux session_gone emit clear_nudge
  reconcile_tmux-AgentSteps alive heartbeat_fresh =
      let P : World → Type 0 = λ v. AgentSteps a w v in
      if-elim P _ _ _ (quietly env a t w _ (refl, refl, refl)) (
        if-elim P _ _ _ (silent-AgentSteps (env.pane_last_activity (agent_runtime_session a)))
          (quietly_failed env a t w _ (refl, refl, refl) runs.0 runs.1))

  reconcile_running-AgentSteps : AgentSteps a w (reconcile_running env a t w)
  unfolding reconcile_running
  reconcile_running-AgentSteps =
      let P : World → Type 0 = λ v. AgentSteps a w v in
      if-elim P _ _ _ stay (
        if-elim P _ _ _ (reconcile_acp-AgentSteps env a t _ _ w runs)
          (reconcile_tmux-AgentSteps _ _))

module _ (env : Env) (a : Agent) where
  closed-AgentSteps :
      (t : Task) (w : World)
      → Finds a t w
      → is_running t.status ≡ false
      → AgentSteps a w (cleanup a (agent_set_ended a.id w))
  unfolding cleanup emit
  closed-AgentSteps t w found r = via (agent_set_ended a.id w) (set_ended-AgentStep a t w found r) (
      if-elim (λ v. AgentSteps a (agent_set_ended a.id w) v) _ _ _ stay
        (one_step (quiet refl refl refl)))

  with_task-AgentSteps :
      (w : World) (o : Option Task)
      → get_task w.tasks a.task_id ≡ o
      → AgentSteps a w (with_task env a o w)
  unfolding with_task
  with_task-AgentSteps w none e = stay
  with_task-AgentSteps w (some t) e = elim (Bool-cases (is_running t.status)) [
    | inl r ↦ rw r (reconcile_running-AgentSteps env a t w (e, r))
    | inr r ↦ rw r (closed-AgentSteps t w e r)
  ]

  -- The body of the loop takes only steps of the abstract reconciler.
  pub reconcile_agent-AgentSteps : (w : World) → AgentSteps a w (reconcile_agent env a w)
  unfolding reconcile_agent
  reconcile_agent-AgentSteps w = elim (Bool-cases (a.status == "running")) [
    | inl e ↦ rw e (with_task-AgentSteps w (get_task w.tasks a.task_id) refl)
    | inr e ↦ rw e (cleanup-AgentSteps env a w e)
  ]

All-Knows :
    (w v : World) (l : List Agent) → Steady w v → All (λ a. Knows a w) l → All (λ a. Knows a v) l
All-Knows w v l steady =
    All-map (λ a. Knows a w) (λ a. Knows a v) l (λ a k. Knows-later a w v k steady)

reconcile_agents-Steady :
    (env : Env) (l : List Agent) (w : World)
    → All (λ a. Knows a w) l
    → Steady w (reconcile_agents env l w)
unfolding reconcile_agents
reconcile_agents-Steady env [] w k = Steady-refl w
reconcile_agents-Steady env (a ∷ rest) w k =
    let v = reconcile_agent env a w in
    let first = AgentSteps-Steady a w v k.0 (reconcile_agent-AgentSteps env a w) in
    Steady-trans w v (reconcile_agents env rest v) first
      (reconcile_agents-Steady env rest v (All-Knows w v rest first k.1))

-- Each agent is the one that is found by its id.
abbrev pub IsKeyed : List Agent → Type 0
IsKeyed l = All (λ a. get_agent l a.id ≡ some a) l

-- Where no two agents have one id, a tick, whatever the runtime and the events answer, sets no task
-- to run, loses no agent, and changes the status of an agent only if its task does not run
-- afterwards.
pub tick-Steady : (env : Env) (w : World) → IsKeyed w.agents → Steady w (tick env w)
unfolding tick
tick-Steady env w keyed = reconcile_agents-Steady env w.agents w (
    All-map (λ a. get_agent w.agents a.id ≡ some a) (λ a. Knows a w) w.agents (λ a e. (a, e, refl))
      keyed)

reconcile_agents-IsDeduped :
    (env : Env) (l : List Agent) (w : World)
    → IsDeduped w.escalations
    → IsDeduped (reconcile_agents env l w).escalations
unfolding reconcile_agents
reconcile_agents-IsDeduped env [] w h = h
reconcile_agents-IsDeduped env (a ∷ rest) w h =
    let v = reconcile_agent env a w in
    reconcile_agents-IsDeduped env rest v
      (AgentSteps-IsDeduped a w v (reconcile_agent-AgentSteps env a w) h)

-- A tick keeps the open escalations free of two with one task and one failure signature.
pub tick-IsDeduped :
    (env : Env) (w : World) → IsDeduped w.escalations → IsDeduped (tick env w).escalations
unfolding tick
tick-IsDeduped env w h = reconcile_agents-IsDeduped env w.agents w h
