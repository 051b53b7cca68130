-- ===== src/Reconciler/Examples.antt =====
-- A tick over a dead session, a stalled agent and an idle one, and an agent that the operator
-- cancels.
use clankwork.Base.{
  String, ◌==◌, ◌*◌, ◌≡◌, ◌⊎◌, ◌↔◌, ◌≢◌, refl, ℕ, true, false, not, none, some, List, [], ◌∷◌, any,
  arith,
}
use clankwork.Base.Int.{pos}
use clankwork.Tasks.{Task}
use clankwork.Workflow.{graph_of}
use clankwork.Workflow.Examples.{feature}
use clankwork.Routing.Examples.{testing}
use clankwork.Reconciler.{Agent, World, Env, Escalation}
use clankwork.Reconciler.Events.{
  Fields, str, obj, end, field, AgentEvent, AcpReconcileState, no_state, compute_acp_state,
  ended_without_signal,
}
use clankwork.Reconciler.Events.Laws.{EndedLast, compute_acp_state-ended_iff}
use clankwork.Reconciler.Events.Tallies.{
  error_turns, last_reason, shows_limit, compute_acp_state-tallies,
}
use clankwork.Reconciler.Actions.{cancel_agent}
use clankwork.Reconciler.Actions.Cancel.{CancelOutcome, cancel_agent-outcome}
use clankwork.Reconciler.Steps.{Finds, Blocks, AgentSteps}
use clankwork.Reconciler.Steps.Laws.{Steady, Stopped}
use clankwork.Reconciler.Steps.Escalations.{IsDeduped}
use clankwork.Reconciler.Acp.{handle_acp_ended_without_signal, acp_state}
use clankwork.Reconciler.Acp.Budget.{polls, polls-Stopped}
use clankwork.Reconciler.Acp.Blocking.{Spared, AcpFault}
use clankwork.Reconciler.Acp.Asking.{KeepsFailing, IsAsked, handle_acp_ended_without_signal-Blocks}
use clankwork.Reconciler.Tick.{
  reconcile_agent, reconcile_running, tick, is_heartbeat_stale, agent_transport,
}
use clankwork.Reconciler.Tick.Ending.{Ends, reconcile_agent-Refines}
use clankwork.Reconciler.Tick.Laws.{tick-Steady, tick-IsDeduped}
use clankwork.Reconciler.Tick.Evidence.{TerminalFault, reconcile_running-Spared}

-- `{"result": {"stopReason": "error"}}`
abbrev error_message : Fields
error_message = field "result" (obj (field "stopReason" (str "error") end)) end

-- `{"params": {"update": {"sessionUpdate": "turn_started"}}}`
abbrev start_message : Fields
start_message =
    field "params" (obj (field "update" (obj (field "sessionUpdate" (str "turn_started") end)) end))
      end

abbrev events : List AgentEvent
events =
    (record { created_at = 10; payload = some start_message })
    ∷ (record { created_at = 11; payload = none })
    ∷ (record { created_at = 12; payload = some error_message })
    ∷ []

abbrev idle : Agent
idle = record {
  id = "a1";
  task_id = "t1";
  status = "running";
  tmux_session = "";
  transport = "acp";
  runtime_session_id = "s1";
  pid = 7;
  worktree_path = "/w/1";
  last_heartbeat = some 5;
}

abbrev lost : Agent
lost = record idle {
  id = "a2";
  task_id = "t2";
  tmux_session = "x2";
  transport = "tmux";
  last_heartbeat = none;
}

abbrev over : Agent
over = record idle { id = "a3"; status = "done" }

abbrev plain : Task
plain = record testing { id = "t2"; template = ""; current_step = "" }

abbrev open_question : Escalation
open_question = record {
  task_id = "t1";
  step_name = "test";
  target_ref = "a0";
  retry_count = pos 0;
  suggests_retry = true;
  failure_signature = "f";
  status = "open";
}

abbrev before : World
before = record {
  agents = idle ∷ lost ∷ over ∷ [];
  tasks = testing ∷ plain ∷ [];
  escalations = open_question ∷ [];
  nudge_sent = ("a1", 20) ∷ [];
  nudge_error_retries = [];
  log = [];
}

-- The answers at a time: only the sessions of ACP agents are alive.
abbrev answers : ℕ → Env
answers now = record {
  now = now;
  timeout = pos 1000;
  is_alive = λ session. session == "s1";
  liveness_fails = λ _. false;
  pane_last_activity = λ _. none;
  capture_pane = λ _. "";
  send_nudge = λ _. none;
  kill_fails = λ _. false;
  graceful_kill_fails = λ _. false;
  selects_transport = true;
  transport_for_session = none;
  agent_events = λ _. some events;
  has_dispatcher = true;
  repeated = λ _. none;
  graph = λ _. some (graph_of feature);
  template = λ _. none;
}

abbrev idle_state : AcpReconcileState
idle_state = record no_state { had_turn = true; last_stop_reason = "error"; error_turn_count = 1 }

abbrev minutes : ℕ → ℕ
minutes n = 60_000_000_000 * n

compute_acp_state-ended_iff_example :
    (ended_without_signal (compute_acp_state events) ≡ true) ↔ EndedLast events
compute_acp_state-ended_iff_example = compute_acp_state-ended_iff events

compute_acp_state-tallies_example :
    ((compute_acp_state events).error_turn_count ≡ error_turns events)
    × ((compute_acp_state events).last_stop_reason ≡ last_reason "" events)
    × ((compute_acp_state events).context_limit_error ≡ any (λ e. shows_limit e.payload) events)
compute_acp_state-tallies_example = compute_acp_state-tallies events

abbrev failing_state : AcpReconcileState
failing_state = record idle_state { error_turn_count = 3 }

handle_acp_ended_without_signal-Blocks_example :
    let after = handle_acp_ended_without_signal (answers 50) idle testing failing_state before in
    (KeepsFailing failing_state → (sig : String) × Blocks idle testing sig before after)
    × (IsAsked testing after ↔ (IsAsked testing before ⊎ KeepsFailing failing_state))
handle_acp_ended_without_signal-Blocks_example =
    handle_acp_ended_without_signal-Blocks (answers 50) idle testing failing_state before
      (refl, refl) refl

reconcile_agent-Refines_example :
    let after = reconcile_agent (answers 50) idle before in
    AgentSteps idle before after
    × ((t : Task)
        → idle.status ≡ "running"
        → Finds idle t before
        → Ends (answers 50) idle t before after)
reconcile_agent-Refines_example = reconcile_agent-Refines (answers 50) idle before

tick-Steady_example : Steady before (tick (answers 50) before)
tick-Steady_example = tick-Steady (answers 50) before (refl, (refl, (refl, tt)))

tick-IsDeduped_example : IsDeduped (tick (answers 50) before).escalations
tick-IsDeduped_example = tick-IsDeduped (answers 50) before ((λ _. refl), tt)

polls-Stopped_example :
    Stopped
      (polls idle testing
        ((answers (minutes 4), idle_state)
          ∷ (answers (minutes 8), idle_state)
          ∷ (answers (minutes 12), idle_state)
          ∷ (answers (minutes 16), idle_state)
          ∷ [])
        before)
      "t1"
polls-Stopped_example =
    polls-Stopped idle testing
      ((answers (minutes 4), idle_state)
        ∷ (answers (minutes 8), idle_state)
        ∷ (answers (minutes 12), idle_state)
        ∷ (answers (minutes 16), idle_state)
        ∷ [])
      before 20 refl refl (omega arith, (omega arith, (omega arith, (omega arith, tt))))
      (omega arith) (omega arith)

reconcile_running-Spared_example :
    Spared before (reconcile_running (answers 50) lost plain before)
    ⊎ ((agent_transport (answers 50) lost "x2" ≡ "acp")
        × AcpFault
            (answers 50)
            lost
            false
            (not (is_heartbeat_stale (answers 50) none))
            (acp_state (answers 50) lost)
            before.nudge_sent)
    ⊎ ((agent_transport (answers 50) lost "x2" ≢ "acp")
        × (not (is_heartbeat_stale (answers 50) none) ≡ false)
        × TerminalFault (answers 50) lost false before)
reconcile_running-Spared_example = reconcile_running-Spared (answers 50) lost plain before

cancel_agent-outcome_example :
    CancelOutcome "a1" before (cancel_agent (answers 50) false false "a1" before)
cancel_agent-outcome_example = cancel_agent-outcome (answers 50) false false "a1" before
