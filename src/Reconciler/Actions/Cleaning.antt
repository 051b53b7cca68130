-- ===== src/Reconciler/Actions/Cleaning.antt =====
-- The runtime of an agent that is over is cleaned by steps of the abstract reconciler.
use clankwork.Base.{◌≡◌, ◌≢◌, refl, String, false, ◌==◌, ==_iff, if-elim}
use clankwork.Reconciler.{
  Agent, World, Env, emit, clear_nudge, agent_runtime_session, agent_set_runtime_pid,
}
use clankwork.Reconciler.Actions.{
  clean_session, clean_live, cleanup_terminal_runtime, ensure_runtime_transport,
}
use clankwork.Reconciler.Steps.Taken.{set_pid-AgentStep}
use clankwork.Reconciler.Steps.{AgentStep, quiet, AgentSteps, stay, via, one_step}

clean_live-AgentSteps :
    (env : Env) (a : Agent) (session : String) (w : World)
    → a.status ≢ "running"
    → AgentSteps a w (clean_live env a session w)
unfolding clean_live emit clear_nudge agent_set_runtime_pid
clean_live-AgentSteps env a session w over =
    if-elim (λ v. AgentSteps a w v) _ _ _ (one_step (quiet refl refl refl))
      (via (agent_set_runtime_pid a.id 0 w) (set_pid-AgentStep a w over)
        (one_step (quiet refl refl refl)))

clean_session-AgentSteps :
    (env : Env) (a : Agent) (session : String) (w : World)
    → a.status ≢ "running"
    → AgentSteps a w (clean_session env a session w)
unfolding clean_session
clean_session-AgentSteps env a session w over =
    let P : World → Type 0 = λ v. AgentSteps a w v in
    if-elim P _ _ _ stay (
      if-elim P _ _ _ (clean_live-AgentSteps env a session w over)
        (if-elim P _ _ _ stay (one_step (set_pid-AgentStep a w over))))

transport-AgentStep :
    (env : Env) (a : Agent) (w : World) → AgentStep a w (ensure_runtime_transport env a w)
unfolding ensure_runtime_transport emit
transport-AgentStep env a w =
    if-elim (λ v. AgentStep a w v) _ _ _ (quiet refl refl refl) (quiet refl refl refl)

pub cleanup-AgentSteps :
    (env : Env) (a : Agent) (w : World)
    → (a.status == "running") ≡ false
    → AgentSteps a w (cleanup_terminal_runtime env a w)
unfolding cleanup_terminal_runtime
cleanup-AgentSteps env a w e =
    let over : a.status ≢ "running" = λ p. cc ((==_iff a.status "running").1 p, e) in
    let P : World → Type 0 = λ v. AgentSteps a w v in
    let ready = ensure_runtime_transport env a w in
    if-elim P _ _ _ stay (
      if-elim P _ _ _ (one_step (transport-AgentStep env a w)) (
        via ready (transport-AgentStep env a w)
          (clean_session-AgentSteps env a (agent_runtime_session a) ready over)))
