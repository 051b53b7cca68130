-- ===== src/Reconciler/Actions/Cancel.antt =====
-- What the operator's cancellation of an agent does to the tables.
use mathlib.Core.Path.{subst}
use clankwork.Base.{
  ◌∙◌, sym, ◌≡◌, inl, inr, refl, String, Bool, true, false, Option, none, some, ◌==◌, ==_iff, arith,
  Bool-cases, if-elim,
}
use clankwork.Tasks.{Task, blocked, is_running, get_task}
use clankwork.Tasks.Laws.{get_task-id}
use clankwork.Reconciler.{
  Agent, World, Env, emit, agent_set_status, update_agent, get_agent, agent_runtime_session,
  cancel_decided,
}
use clankwork.Reconciler.Actions.{
  cancel_task, Cancelled, no_agent, no_session, no_transport, cancel_failed, cancelled,
  cancel_session, cancel_found, cancel_agent, ensure_runtime_transport, transport_error,
}
use clankwork.Reconciler.Actions.Laws.{task_runs, fail_step-StopsOnly, fail_step-tables}

cancel_task-stops :
    (env : Env) (a : Agent) (o : Option Task) (w : World)
    → get_task w.tasks a.task_id ≡ o
    → (task_runs (get_task (cancel_task env a o w).tasks a.task_id) ≡ false)
      × ((cancel_task env a o w).agents ≡ w.agents)
unfolding cancel_task
cancel_task-stops env a none w e = (rw e refl, refl)
cancel_task-stops env a (some t) w e =
    let id : t.id ≡ a.task_id = get_task-id w.tasks a.task_id t e in
    let found : get_task w.tasks t.id ≡ some t =
      subst (λ x. get_task w.tasks x ≡ some t) (sym id) e in
    let stops = fail_step-StopsOnly env blocked true a t w refl found a.task_id in
    elim (Bool-cases (is_running t.status)) [
      | inl r ↦ rw r (
        ground (arith, stops, ==_iff t.id a.task_id, id),
        (fail_step-tables env blocked true a t w).0,
      )
      | inr r ↦ rw r (rw e r, refl)
    ]

-- What a cancellation says that went through, and what one says that did not.
abbrev pub CancelledRow : String → World → World → Type 0
CancelledRow id w w' =
    (a : Agent) × (get_agent w.agents id ≡ some a)
    × (w'.agents ≡ update_agent a.id (λ x. record x { status = "killed" }) w.agents)
    × (task_runs (get_task w'.tasks a.task_id) ≡ false)

abbrev pub Untouched : World → World → Type 0
Untouched w w' = (w'.agents ≡ w.agents) × (w'.tasks ≡ w.tasks)

abbrev pub CancelOutcome : String → World → World × Cancelled → Type 0
CancelOutcome id w (w', cancelled) = CancelledRow id w w'
CancelOutcome id w (w', _) = Untouched w w'

transport-Untouched :
    (env : Env) (a : Agent) (w : World) → Untouched w (ensure_runtime_transport env a w)
unfolding ensure_runtime_transport emit
transport-Untouched env a w = ground arith

cancel_session-outcome :
    (env : Env) (fails : Bool) (id : String) (a : Agent) (w : World)
    → get_agent w.agents id ≡ some a
    → CancelOutcome id w (cancel_session env fails a w)
unfolding cancel_session emit agent_set_status
cancel_session-outcome env true id a w found = (refl, refl)
cancel_session-outcome env false id a w found =
    let killed = agent_set_status a.id "killed" w in
    let (stops, same) = cancel_task-stops env a (get_task w.tasks a.task_id) killed refl in
    (a, found, same, stops)

Untouched-first :
    (id : String) (w v : World) (r : World × Cancelled)
    → Untouched w v
    → CancelOutcome id v r
    → CancelOutcome id w r
Untouched-first id w v (w', cancelled) (ea, et) (a, found, same, stops) =
    (a, rw ea at found, rw ea at same, stops)
Untouched-first id w v (w', no_agent) (ea, et) (fa, ft) = (fa ∙ ea, ft ∙ et)
Untouched-first id w v (w', no_session) (ea, et) (fa, ft) = (fa ∙ ea, ft ∙ et)
Untouched-first id w v (w', no_transport) (ea, et) (fa, ft) = (fa ∙ ea, ft ∙ et)
Untouched-first id w v (w', cancel_failed) (ea, et) (fa, ft) = (fa ∙ ea, ft ∙ et)

cancel_found-outcome :
    (env : Env) (tf fails : Bool) (id : String) (o : Option Agent) (w : World)
    → get_agent w.agents id ≡ o
    → CancelOutcome id w (cancel_found env tf fails o w)
unfolding cancel_found emit
cancel_found-outcome env tf fails id none w found = (refl, refl)
cancel_found-outcome env tf fails id (some a) w found =
    let P : World × Cancelled → Type 0 = λ r. CancelOutcome id w r in
    let asked = emit (cancel_decided a.id) w in
    let ready = ensure_runtime_transport env a asked in
    let same : Untouched w ready = transport-Untouched env a asked in
    if-elim P (agent_runtime_session a == "") (asked, no_session) _ (refl, refl)
      (if-elim P (transport_error env tf a) (ready, no_transport) (cancel_session env fails a ready)
        same
        (Untouched-first id w ready (cancel_session env fails a ready) same
          (cancel_session-outcome env fails id a ready (rw same.0 found))))

-- A cancellation that goes through leaves the agent killed and its task not running; one that ends
-- otherwise, by whatever error, leaves agents and tasks as they were.
pub cancel_agent-outcome :
    (env : Env) (transport_fails fails : Bool) (id : String) (w : World)
    → CancelOutcome id w (cancel_agent env transport_fails fails id w)
unfolding cancel_agent
cancel_agent-outcome env transport_fails fails id w =
    cancel_found-outcome env transport_fails fails id (get_agent w.agents id) w refl
