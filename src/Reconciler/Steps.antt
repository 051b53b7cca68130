-- ===== src/Reconciler/Steps.antt =====
-- The abstract reconciler: the few ways in which the tables may change on behalf of one agent, told
-- by the rows alone. What is decided, logged and asked of the runtime is forgotten.
pub mod Laws
pub mod Taken
pub mod Escalations
use clankwork.Base.{String, ◌≡◌, ◌≢◌, ◌⊎◌, ◌∷◌, true, false, some, any}
use clankwork.Tasks.{Task, TaskStatus, blocked, is_running, get_task}
use clankwork.Reconciler.{Agent, World, Escalation, get_agent}
use clankwork.Reconciler.Actions.{is_open_for}

-- The agent's task, as it is in the table.
abbrev pub Finds : Agent → Task → World → Type 0
Finds a t w = get_task w.tasks a.task_id ≡ some t

-- The agent's row changes, and no other agent's.
abbrev pub AgentBecomes : Agent → (Agent → Agent) → World → World → Type 0
AgentBecomes a f w w' =
    ((j : String) → a.id ≢ j → get_agent w'.agents j ≡ get_agent w.agents j)
    × ((b : Agent) → get_agent w.agents a.id ≡ some b → get_agent w'.agents a.id ≡ some (f b))

abbrev pub killed_row : Agent → Agent
killed_row b = record b { status = "killed" }

abbrev pub done_row : Agent → Agent
done_row b = record b { status = "done" }

abbrev pub forgotten_row : Agent → Agent
forgotten_row b = record b { pid = 0 }

-- The row of the agent's task is there afterwards with a status, and no other task's has changed.
abbrev pub TaskBecomes : Agent → (TaskStatus → Type 0) → World → World → Type 0
TaskBecomes a P w w' =
    ((j : String) → a.task_id ≢ j → get_task w'.tasks j ≡ get_task w.tasks j)
    × ((r : Task) × (get_task w'.tasks a.task_id ≡ some r) × P r.status)

abbrev pub IsStopped : TaskStatus → Type 0
IsStopped s = is_running s ≡ false

abbrev pub IsBlocked : TaskStatus → Type 0
IsBlocked s = s ≡ blocked

-- The agent is killed and its task runs no longer, with no other row changed.
abbrev pub Killed : Agent → World → World → Type 0
Killed a w w' = AgentBecomes a killed_row w w' × TaskBecomes a IsStopped w w'

-- The operator is asked about the task under a signature, unless that is open already.
abbrev pub Asks : Agent → Task → String → World → World → Type 0
Asks a t sig w w' =
    ((any (is_open_for t.id sig) w.escalations ≡ true) × (w'.escalations ≡ w.escalations))
    ⊎ ((any (is_open_for t.id sig) w.escalations ≡ false)
        × ((e : Escalation) × (w'.escalations ≡ e ∷ w.escalations)
            × (e.task_id ≡ t.id)
            × (e.failure_signature ≡ sig)
            × (e.status ≡ "open")
            × (e.target_ref ≡ a.id)))

-- The agent is killed, its task is blocked, and the operator is asked.
abbrev pub Blocks : Agent → Task → String → World → World → Type 0
Blocks a t sig w w' =
    AgentBecomes a killed_row w w' × TaskBecomes a IsBlocked w w' × Asks a t sig w w'

pub data AgentStep (a : Agent) (w w' : World) : Type 0 where
  -- Only the reconciler's own maps and the log.
  quiet :
      w'.agents ≡ w.agents → w'.tasks ≡ w.tasks → w'.escalations ≡ w.escalations → AgentStep a w w'
  -- The agent is killed, and its task, which ran, runs no longer.
  failed_task :
      (t : Task)
      → Finds a t w
      → is_running t.status ≡ true
      → AgentBecomes a killed_row w w'
      → TaskBecomes a IsStopped w w'
      → w'.escalations ≡ w.escalations
      → AgentStep a w w'
  -- The agent is killed, its task, which ran, is blocked, and the operator is asked.
  blocked_task :
      (t : Task) (sig : String)
      → Finds a t w
      → is_running t.status ≡ true
      → AgentBecomes a killed_row w w'
      → TaskBecomes a IsBlocked w w'
      → Asks a t sig w w'
      → AgentStep a w w'
  -- Only where its task no longer runs.
  closed_agent :
      (t : Task)
      → Finds a t w
      → is_running t.status ≡ false
      → AgentBecomes a done_row w w'
      → w'.tasks ≡ w.tasks
      → w'.escalations ≡ w.escalations
      → AgentStep a w w'
  forgot_process :
      a.status ≢ "running"
      → AgentBecomes a forgotten_row w w'
      → w'.tasks ≡ w.tasks
      → w'.escalations ≡ w.escalations
      → AgentStep a w w'

pub data AgentSteps (a : Agent) : World → World → Type 0 where
  stay : {w : World} → AgentSteps a w w
  via : {w u : World} (v : World) → AgentStep a w v → AgentSteps a v u → AgentSteps a w u

pub one_step : {a : Agent} {w v : World} → AgentStep a w v → AgentSteps a w v
one_step {v} s = via v s stay
