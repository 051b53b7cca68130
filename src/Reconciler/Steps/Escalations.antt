-- ===== src/Reconciler/Steps/Escalations.antt =====
-- What every sequence of steps keeps: no question is put to the operator twice at a time.
use clankwork.Base.{inl, inr, ◌≡◌, ◌==◌, String, true, false, List, [], ◌∷◌, any}
use clankwork.Tasks.{Task}
use clankwork.Reconciler.{Agent, World, Escalation}
use clankwork.Reconciler.Actions.{is_open_for}
use clankwork.Reconciler.Steps.{
  Asks, AgentStep, quiet, failed_task, blocked_task, closed_agent, forgot_process, AgentSteps, stay,
  via,
}

-- Of two open escalations no one has the task and the signature of the other.
abbrev pub IsDeduped : List Escalation → Type 0
IsDeduped [] = Unit
IsDeduped (e ∷ rest) =
    ((e.status == "open") ≡ true → any (is_open_for e.task_id e.failure_signature) rest ≡ false)
    × IsDeduped rest

Asks-IsDeduped :
    (a : Agent) (t : Task) (sig : String) (w v : World)
    → Asks a t sig w v
    → IsDeduped w.escalations
    → IsDeduped v.escalations
Asks-IsDeduped a t sig w v (inl (o, same)) h = rw same h
Asks-IsDeduped a t sig w v (inr (o, (e, same, task, signature, status, agent))) h =
    rw (same, task, signature) ((λ _. o), h)

pub AgentStep-IsDeduped :
    (a : Agent) (w v : World) → AgentStep a w v → IsDeduped w.escalations → IsDeduped v.escalations
AgentStep-IsDeduped a w v (quiet ea et ee) h = rw ee h
AgentStep-IsDeduped a w v (failed_task t found r killed stopped ee) h = rw ee h
AgentStep-IsDeduped a w v (blocked_task t sig found r killed stopped asks) h =
    Asks-IsDeduped a t sig w v asks h
AgentStep-IsDeduped a w v (closed_agent t found r closed et ee) h = rw ee h
AgentStep-IsDeduped a w v (forgot_process r forgotten et ee) h = rw ee h

pub AgentSteps-IsDeduped :
    (a : Agent) (w u : World) → AgentSteps a w u → IsDeduped w.escalations → IsDeduped u.escalations
AgentSteps-IsDeduped a w u stay h = h
AgentSteps-IsDeduped a w u (via v s rest) h =
    AgentSteps-IsDeduped a v u rest (AgentStep-IsDeduped a w v s h)
