-- ===== src/Reconciler/Tick/Evidence.antt =====
-- What may cost a running agent its task.
use clankwork.Base.{
  ◌≡◌, ◌≢◌, ◌⊎◌, inl, inr, refl, ℕ, Bool, true, false, not, Option, none, some, ◌==◌, ==_iff, arith,
  if-elim, if-cases, get,
}
use clankwork.Base.Int.{ℤ, ltb_ℤ, ◌≤ℤ◌}
use clankwork.Controller.Health.{AgentDecision, evaluate_agent_health}
use clankwork.Tasks.{Task}
use clankwork.Reconciler.{
  used_transport, Agent, World, Env, since, nudge_timeout, agent_runtime_session, emit, clear_nudge,
  mark_nudged,
}
use clankwork.Reconciler.Actions.{ensure_runtime_transport}
use clankwork.Reconciler.Acp.{acp_state, decide_acp, reconcile_acp, trace_decision}
use clankwork.Reconciler.Acp.Blocking.{
  AcpFault, Spared, NudgeExpired, decide_acp-Spared, not_waiting,
}
use clankwork.Reconciler.Tick.{
  after_nudge_at, stall_nudge, handle_stall, stall_observation, check_pane, reconcile_tmux,
  agent_transport, is_heartbeat_stale, reconcile_running, has_context_limit_error,
}

-- What may cost an agent in a terminal its task: nothing while its heartbeat is fresh.
pub data TerminalFault (env : Env) (a : Agent) (alive : Bool) (w : World) : Type 0 where
  session_lost : alive ≡ false → TerminalFault env a alive w
  pane_shows_limit :
      (last_activity : ℕ)
      → env.pane_last_activity (agent_runtime_session a) ≡ some last_activity
      → env.timeout ≤ℤ since env.now last_activity
      → has_context_limit_error (env.capture_pane (agent_runtime_session a)) ≡ true
      → TerminalFault env a alive w
  pane_is_silent :
      (last_activity : ℕ)
      → env.pane_last_activity (agent_runtime_session a) ≡ some last_activity
      → env.timeout ≤ℤ since env.now last_activity
      → NudgeExpired env a w.nudge_sent
      → TerminalFault env a alive w

not_less : (d e : ℤ) → ltb_ℤ d e ≡ false → e ≤ℤ d
not_less d e h = ground arith

module _ (env : Env) (a : Agent) (t : Task) (alive : Bool) (w : World) where
  after_nudge_at-Spared :
      (d : AgentDecision) (o : Option ℕ)
      → get w.nudge_sent a.id ≡ o
      → Spared w (after_nudge_at env a t d o w) ⊎ NudgeExpired env a w.nudge_sent
  unfolding after_nudge_at stall_nudge emit mark_nudged trace_decision
  after_nudge_at-Spared d none e = inl (refl, refl)
  after_nudge_at-Spared d (some sent_at) e =
      if-cases (λ v. Spared w v ⊎ NudgeExpired env a w.nudge_sent)
        (ltb_ℤ (since env.now sent_at) nudge_timeout) _ _ (λ p. inl (refl, refl))
        λ p. inr (sent_at, e, not_waiting (since env.now sent_at) p)

  handle_stall-Spared :
      (last_activity : ℕ)
      → env.pane_last_activity (agent_runtime_session a) ≡ some last_activity
      → env.timeout ≤ℤ since env.now last_activity
      → Spared w (handle_stall env a t w) ⊎ TerminalFault env a alive w
  unfolding handle_stall
  handle_stall-Spared last_activity e old =
      if-cases (λ v. Spared w v ⊎ TerminalFault env a alive w)
        (has_context_limit_error (env.capture_pane (agent_runtime_session a))) _ _
        (λ full. inr (pane_shows_limit last_activity e old full))
        λ _.
          elim (after_nudge_at-Spared (evaluate_agent_health (stall_observation env a))
            (get w.nudge_sent a.id) refl) [
              | inl kept ↦ inl kept
              | inr late ↦ inr (pane_is_silent last_activity e old late)
            ]

  silent-Spared :
      (o : Option ℕ)
      → env.pane_last_activity (agent_runtime_session a) ≡ o
      → Spared w (check_pane env a t o w) ⊎ TerminalFault env a alive w
  unfolding check_pane
  silent-Spared none e = inl (refl, refl)
  silent-Spared (some last_activity) e =
      if-cases (λ v. Spared w v ⊎ TerminalFault env a alive w)
        (ltb_ℤ (since env.now last_activity) env.timeout) _ _ (λ _. inl (refl, refl))
        λ old.
          handle_stall-Spared last_activity e
            (not_less (since env.now last_activity) env.timeout old)

  reconcile_tmux-Spared :
      (fresh : Bool)
      → Spared w (reconcile_tmux env a t alive fresh w)
        ⊎ ((fresh ≡ false) × TerminalFault env a alive w)
  unfolding reconcile_tmux clear_nudge
  reconcile_tmux-Spared fresh =
      let P : World → Type 0 = λ v. Spared w v ⊎ ((fresh ≡ false) × TerminalFault env a alive w) in
      if-cases P fresh _ _ (λ _. inl (refl, refl))
        λ stale.
          if-cases P alive _ _
            (λ _. elim (silent-Spared (env.pane_last_activity (agent_runtime_session a)) refl) [
              | inl kept ↦ inl kept
              | inr fault ↦ inr (stale, fault)
            ])
            λ gone. inr (stale, session_lost gone)

reconcile_acp-Spared :
    (env : Env) (a : Agent) (t : Task) (alive fresh : Bool) (w : World)
    → Spared w (reconcile_acp env a t alive fresh w)
      ⊎ AcpFault env a alive fresh (acp_state env a) w.nudge_sent
unfolding reconcile_acp ensure_runtime_transport emit
reconcile_acp-Spared env a t alive fresh w =
    if-elim
      (λ v.
        Spared w (decide_acp env a t alive fresh (acp_state env a) v)
        ⊎ AcpFault env a alive fresh (acp_state env a) w.nudge_sent)
      _ _ _
      (decide_acp-Spared env a t alive fresh (acp_state env a)
        (emit (used_transport (agent_runtime_session a) a.transport) w))
      (decide_acp-Spared env a t alive fresh (acp_state env a) w)

-- A running agent with a running task keeps its status and its task unless the agent's transport
-- shows one of the faults.
pub reconcile_running-Spared :
    (env : Env) (a : Agent) (t : Task) (w : World)
    → let session = agent_runtime_session a in
      let alive = env.is_alive session in
      let fresh = not (is_heartbeat_stale env a.last_heartbeat) in
      Spared w (reconcile_running env a t w)
      ⊎ ((agent_transport env a session ≡ "acp")
          × AcpFault env a alive fresh (acp_state env a) w.nudge_sent)
      ⊎ ((agent_transport env a session ≢ "acp") × (fresh ≡ false) × TerminalFault env a alive w)
unfolding reconcile_running reconcile_acp
reconcile_running-Spared env a t w =
    let session = agent_runtime_session a in
    let alive = env.is_alive session in
    let fresh = not (is_heartbeat_stale env a.last_heartbeat) in
    let P : World → Type 0 = λ v.
      Spared w v
      ⊎ ((agent_transport env a session ≡ "acp")
          × AcpFault env a alive fresh (acp_state env a) w.nudge_sent)
      ⊎ ((agent_transport env a session ≢ "acp") × (fresh ≡ false) × TerminalFault env a alive w) in
    if-cases P (session == "") _ _ (λ _. inl (refl, refl))
      λ _.
        if-cases P (agent_transport env a session == "acp") _ _
          (λ e. elim (reconcile_acp-Spared env a t alive fresh w) [
            | inl kept ↦ inl kept
            | inr fault ↦ inr (inl ((==_iff (agent_transport env a session) "acp").0 e, fault))
          ])
          λ e. elim (reconcile_tmux-Spared env a t alive w fresh) [
            | inl kept ↦ inl kept
            | inr (stale, fault) ↦ inr (
                inr
                  ((λ p. cc ((==_iff (agent_transport env a session) "acp").1 p, e)), stale, fault))
          ]
