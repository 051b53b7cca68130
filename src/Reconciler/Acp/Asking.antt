-- ===== src/Reconciler/Acp/Asking.antt =====
-- When the handler of an idle agent blocks the task and asks the operator.
use clankwork.Base.{
  ◌∙◌, ◌≡◌, ◌⊎◌, ◌↔◌, inl, inr, ℕ, String, Bool, true, false, ◌&&◌, ◌≤◌, ◌∷◌, [], List, Option,
  none, some, any, ◌==◌, ==_refl, arith, Bool-cases, get,
}
use clankwork.Controller.Health.{evaluate_agent_health}
use clankwork.Tasks.{Task}
use clankwork.Reconciler.{Agent, World, Env, Escalation, emit}
use clankwork.Reconciler.Events.{AcpReconcileState, ended_without_signal}
use clankwork.Reconciler.Actions.{is_open_for, block_task}
use clankwork.Reconciler.Actions.Laws.{fail_task-escalations}
use clankwork.Reconciler.Acp.{
  is_block, renudge, ended_observation, handle_acp_ended_without_signal, after_ended_nudge,
  hand_off, ask_to_stop, trace_decision, block_reason, signature_hash,
}
use clankwork.Reconciler.Acp.Laws.{
  Runs, first_nudge-SameTables, renudge-SameTables, ask_to_stop-SameTables,
}
use clankwork.Reconciler.Acp.Blocking.{is_block-ended_iff}
use clankwork.Reconciler.Steps.{Blocks, Asks}
use clankwork.Reconciler.Steps.Taken.{block_task-Blocks, asked_under}

-- An open question to the operator about a task.
abbrev pub is_question : String → Escalation → Bool
is_question task e = e.task_id == task && e.status == "open"

abbrev pub IsAsked : Task → World → Type 0
IsAsked t w = any (is_question t.id) w.escalations ≡ true

-- No tool was used since the last turn started, and three turns have ended with an error.
abbrev pub KeepsFailing : AcpReconcileState → Type 0
KeepsFailing s = (s.tool_activity ≡ false) × (3 ≤ s.error_turn_count)

open-question :
    (task sig : String) (l : List Escalation)
    → any (is_open_for task sig) l ≡ true
    → any (is_question task) l ≡ true
open-question task sig [] h = cc
open-question task sig (e ∷ rest) h = ground (arith, open-question task sig rest)

Asks-IsAsked : (a : Agent) (t : Task) (sig : String) (w v : World) → Asks a t sig w v → IsAsked t v
Asks-IsAsked a t sig w v (inl (o, same)) = rw same (open-question t.id sig w.escalations o)
Asks-IsAsked a t sig w v (inr (o, (e, same, task, signature, status, agent))) =
    rw (same, task, status) (ground (arith, ==_refl t.id))

after_ended_nudge-escalations :
    (env : Env) (a : Agent) (t : Task) (s : AcpReconcileState) (o : Option ℕ) (w : World)
    → (after_ended_nudge env a t s o w).escalations ≡ w.escalations
unfolding after_ended_nudge hand_off
after_ended_nudge-escalations env a t s none w =
    (first_nudge-SameTables env a t w "acp_turn_ended_without_signal").2
after_ended_nudge-escalations env a t s (some sent_at) w =
    let asked = ask_to_stop env a "acp_no_signal_nudge_timeout" w in
    let stopped : (hand_off env a t "acp_no_signal_nudge_timeout" w).escalations ≡ w.escalations =
      fail_task-escalations env a t asked
      ∙ (ask_to_stop-SameTables env a w "acp_no_signal_nudge_timeout").2 in
    let renudged : (renudge env a w).escalations ≡ w.escalations =
      (renudge-SameTables env a t w).2 in
    ground (arith, stopped, renudged)

-- For a running task that is found and whose agent is idle after a turn: where no tool was used since
-- the last turn started and three turns have ended with an error, the handler blocks the task, kills
-- the agent and asks the operator, whatever nudges are left; and a question to the operator about the
-- task is open afterwards exactly if it was before or this is so.
pub handle_acp_ended_without_signal-Blocks :
    (env : Env) (a : Agent) (t : Task) (s : AcpReconcileState) (w : World)
    → Runs a t w
    → ended_without_signal s ≡ true
    → (KeepsFailing s
        → (sig : String) × Blocks a t sig w (handle_acp_ended_without_signal env a t s w))
      × (IsAsked t (handle_acp_ended_without_signal env a t s w) ↔ (IsAsked t w ⊎ KeepsFailing s))
unfolding handle_acp_ended_without_signal trace_decision emit
handle_acp_ended_without_signal-Blocks env a t s w (found, r) h =
    let d = evaluate_agent_health (ended_observation a s) in
    let sig = asked_under block_reason (signature_hash d.failure_signature) in
    let blocks =
      block_task-Blocks env a t block_reason (signature_hash d.failure_signature)
        (trace_decision d w) found r in
    let same = after_ended_nudge-escalations env a t s (get w.nudge_sent a.id) w in
    elim (Bool-cases (is_block d.action)) [
      | inl b ↦ rw b (
        λ k. (sig, blocks),
        (
          λ asked. inr ((is_block-ended_iff a s h).0 b),
          λ either.
              Asks-IsAsked a t sig (trace_decision d w)
                (block_task env a t block_reason (signature_hash d.failure_signature)
                  (trace_decision d w))
                blocks.2,
        ),
      )
      | inr b ↦ rw b (
        λ k. absurd (unblocked k b),
        (
          λ asked. inl (rw same at asked),
          λ either. elim either [ inl asked ↦ rw same asked | inr k ↦ absurd (unblocked k b) ],
        ),
      )
    ]
  where
    unblocked :
        KeepsFailing s → is_block (evaluate_agent_health (ended_observation a s)).action ≡ false → ⊥
    unblocked k b = let t = (is_block-ended_iff a s h).1 k in cc
