-- ===== src/Reconciler/Acp/Laws.antt =====
-- All that happens to an ACP agent is steps of the abstract reconciler.
use clankwork.Base.{
  ◌≡◌, inl, inr, refl, ℕ, String, Bool, true, Option, none, some, arith, Option-cases, if-elim, get,
}
use clankwork.Controller.Health.{evaluate_agent_health}
use clankwork.Tasks.{Task, is_running}
use clankwork.Reconciler.{Agent, World, Env, emit, mark_nudged, clear_nudge, agent_runtime_session}
use clankwork.Reconciler.Events.{AcpReconcileState}
use clankwork.Reconciler.Actions.{ensure_runtime_transport, fail_task}
use clankwork.Reconciler.Acp.{
  after_nudge, first_nudge, hand_off, ask_to_stop, renudge, after_ended_nudge,
  handle_acp_ended_without_signal, after_stall_nudge, handle_acp_stall, cancelled_turn,
  process_gone, context_limit, decide_acp, reconcile_acp, is_block, ended_observation,
  trace_decision, acp_state, block_reason, signature_hash,
}
use clankwork.Reconciler.Steps.Taken.{fail_task-AgentStep, block_task-AgentStep}
use clankwork.Reconciler.Steps.{Finds, quiet, AgentSteps, stay, via, one_step}

-- The tables are the same.
abbrev pub SameTables : World → World → Type 0
SameTables w w' = (w'.agents ≡ w.agents) × (w'.tasks ≡ w.tasks) × (w'.escalations ≡ w.escalations)

pub transport-SameTables :
    (env : Env) (a : Agent) (w : World) → SameTables w (ensure_runtime_transport env a w)
unfolding ensure_runtime_transport emit
transport-SameTables env a w = ground arith

pub ask_to_stop-SameTables :
    (env : Env) (a : Agent) (w : World) (reason : String)
    → SameTables w (ask_to_stop env a reason w)
unfolding ask_to_stop emit clear_nudge ensure_runtime_transport
ask_to_stop-SameTables env a w reason = ground arith

module _ (env : Env) (a : Agent) (t : Task) (w : World) where
  pub quietly : (w' : World) → SameTables w w' → AgentSteps a w w'
  quietly w' (ea, et, ee) = one_step (quiet ea et ee)

  pub quietly_failed :
      (w' : World)
      → SameTables w w'
      → Finds a t w
      → is_running t.status ≡ true
      → AgentSteps a w (fail_task env a t w')
  quietly_failed w' (ea, et, ee) found r =
      via w' (quiet ea et ee) (one_step (fail_task-AgentStep env a t w' (rw et found) r))

  pub first_nudge-SameTables : (reason : String) → SameTables w (first_nudge env a reason w)
  unfolding first_nudge after_nudge emit mark_nudged ensure_runtime_transport
  first_nudge-SameTables reason = elim (Option-cases (env.send_nudge (agent_runtime_session a))) [
    | inl e ↦ rw e (ground arith)
    | inr (err, e) ↦ rw e (ground arith)
  ]

  pub renudge-SameTables : SameTables w (renudge env a w)
  unfolding renudge emit mark_nudged ensure_runtime_transport
  renudge-SameTables = ground arith

-- The agent's task is there and running, as Tick has found it.
abbrev pub Runs : Agent → Task → World → Type 0
Runs a t w = Finds a t w × (is_running t.status ≡ true)

module _ (env : Env) (a : Agent) (t : Task) where
  hand_off-AgentSteps :
      (reason : String) (w : World) → Runs a t w → AgentSteps a w (hand_off env a t reason w)
  unfolding hand_off
  hand_off-AgentSteps reason w (found, r) =
      quietly_failed env a t w (ask_to_stop env a reason w) (ask_to_stop-SameTables env a w reason)
        found r

  after_ended_nudge-AgentSteps :
      (s : AcpReconcileState) (o : Option ℕ) (w : World)
      → Runs a t w
      → AgentSteps a w (after_ended_nudge env a t s o w)
  unfolding after_ended_nudge
  after_ended_nudge-AgentSteps s none w r =
      quietly env a t w _ (first_nudge-SameTables env a t w "acp_turn_ended_without_signal")
  after_ended_nudge-AgentSteps s (some sent_at) w r =
      let P : World → Type 0 = λ v. AgentSteps a w v in
      if-elim P _ _ _ stay (
        if-elim P _ _ _ (quietly env a t w _ (renudge-SameTables env a t w))
          (hand_off-AgentSteps "acp_no_signal_nudge_timeout" w r))

  handle_ended-AgentSteps :
      (s : AcpReconcileState) (w : World)
      → Runs a t w
      → AgentSteps a w (handle_acp_ended_without_signal env a t s w)
  unfolding handle_acp_ended_without_signal trace_decision emit
  handle_ended-AgentSteps s w (found, r) =
      let d = evaluate_agent_health (ended_observation a s) in
      if-elim (λ v. AgentSteps a w v) (is_block d.action) _ _
        (via (trace_decision d w) (quiet refl refl refl) (
          one_step (
            block_task-AgentStep env a t block_reason (signature_hash d.failure_signature)
              (trace_decision d w) found r)))
        (after_ended_nudge-AgentSteps s (get w.nudge_sent a.id) w (found, r))

  after_stall_nudge-AgentSteps :
      (o : Option ℕ) (w : World) → Runs a t w → AgentSteps a w (after_stall_nudge env a t o w)
  unfolding after_stall_nudge
  after_stall_nudge-AgentSteps none w r =
      quietly env a t w _ (first_nudge-SameTables env a t w "acp_events_and_heartbeat_silent")
  after_stall_nudge-AgentSteps (some sent_at) w r =
      if-elim (λ v. AgentSteps a w v) _ _ _ stay (hand_off-AgentSteps "acp_stall_nudge_timeout" w r)

  fatal-AgentSteps :
      (w : World)
      → Runs a t w
      → AgentSteps a w (cancelled_turn env a t w)
        × AgentSteps a w (process_gone env a t w)
        × AgentSteps a w (context_limit env a t w)
  unfolding cancelled_turn process_gone context_limit emit clear_nudge
  fatal-AgentSteps w (found, r) = (
    quietly_failed env a t w _ (refl, refl, refl) found r,
    quietly_failed env a t w _ (refl, refl, refl) found r,
    quietly_failed env a t w _ (ground arith) found r,
  )

  decide_acp-AgentSteps :
      (alive heartbeat_fresh : Bool) (s : AcpReconcileState) (w : World)
      → Runs a t w
      → AgentSteps a w (decide_acp env a t alive heartbeat_fresh s w)
  unfolding decide_acp handle_acp_stall
  decide_acp-AgentSteps alive heartbeat_fresh s w r =
      let P : World → Type 0 = λ v. AgentSteps a w v in
      let (cancelled, gone, limit) = fatal-AgentSteps w r in
      if-elim P _ _ _ cancelled (
        if-elim P _ _ _ gone (
          if-elim P _ _ _ stay (
            if-elim P _ _ _ limit (
              if-elim P _ _ _ (handle_ended-AgentSteps s w r) (
                if-elim P _ _ _ stay (after_stall_nudge-AgentSteps (get w.nudge_sent a.id) w r))))))

  -- The transport is restored first, which changes no table.
  pub reconcile_acp-AgentSteps :
      (alive heartbeat_fresh : Bool) (w : World)
      → Runs a t w
      → AgentSteps a w (reconcile_acp env a t alive heartbeat_fresh w)
  unfolding reconcile_acp
  reconcile_acp-AgentSteps alive heartbeat_fresh w (found, r) =
      let (ea, et, ee) = transport-SameTables env a w in
      via (ensure_runtime_transport env a w) (quiet ea et ee) (
        decide_acp-AgentSteps alive heartbeat_fresh (acp_state env a)
          (ensure_runtime_transport env a w) (rw et found, r))
