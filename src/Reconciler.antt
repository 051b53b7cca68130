-- ===== src/Reconciler.antt =====
-- internal/scheduler/reconciler.go: the loop that watches running agents. Here are the agents, what
-- the reconciler keeps and writes, and what it asks of the runtime; Events reads an agent's events,
-- Actions ends agents and their tasks, Stall and Acp decide for one agent, and Tick is the loop.
pub mod Events
pub mod Actions
pub mod Steps
pub mod Acp
pub mod Tick
pub mod Examples
use clankwork.Base.{ℕ, String, Bool, Option, none, some, List, [], ◌∷◌, ◌==◌, if◌then◌else◌}
use clankwork.Base.Int.{ℤ, pos, sub_ℕ}
use clankwork.Controller.{Action, AgentHealth, Category}
use clankwork.Workflow.{Template, Graph}
use clankwork.Tasks.{Task}
use clankwork.Routing.{Repeated, Effect as RouteEffect}
use clankwork.Reconciler.Events.{AgentEvent}

-- A row of the agent table; times are in nanoseconds.
pub record Agent : Type 0 where
  pub id : String
  pub task_id : String
  pub status : String
  pub tmux_session : String
  pub transport : String
  pub runtime_session_id : String
  pub pid : ℕ
  pub worktree_path : String
  pub last_heartbeat : Option ℕ

-- A row of the escalations, with the columns that createBlockEscalation sets by what it knows.
-- `suggests_retry` stands for the two commands about the step.
pub record Escalation : Type 0 where
  pub task_id : String
  pub step_name : String
  pub target_ref : String
  pub retry_count : ℤ
  pub suggests_retry : Bool
  pub failure_signature : String
  pub status : String

-- What is appended to a log or asked of the runtime. The first argument is the agent's id, of the
-- last five the session, the session, the session, the task and the path.
pub data Effect : Type 0 where
  decided : String → AgentHealth → Action → Option Category → Effect
  traced : String → String → String → Effect
  actuated : String → Action → Bool → String → Effect
  nudged : String → String → Effect
  used_transport : String → String → Effect
  killed : String → Effect
  killed_gracefully : String → Effect
  failure_context : String → String → Effect
  routed : List RouteEffect → Effect
  worktree_removed : String → Effect
  -- The operator's request, and what became of it.
  cancel_decided : String → Effect
  cancel_actuated : String → Bool → Effect

-- The tables that the reconciler writes, its own two maps, and the log, the latest first.
pub record World : Type 0 where
  pub agents : List Agent
  pub tasks : List Task
  pub escalations : List Escalation
  pub nudge_sent : List (String × ℕ)
  pub nudge_error_retries : List (String × ℕ)
  pub log : List Effect

-- What a tick asks. The runtime answers by session: `none` of an activity or of a list of events is
-- an error, an error text of a nudge is `some`, and `true` of a kill is an error. The dispatcher's
-- answers are those that RouteStep reads for a task.
pub record Env : Type 0 where
  pub now : ℕ
  pub timeout : ℤ
  pub is_alive : String → Bool
  pub liveness_fails : String → Bool
  pub pane_last_activity : String → Option ℕ
  pub capture_pane : String → String
  pub send_nudge : String → Option String
  pub kill_fails : String → Bool
  pub graceful_kill_fails : String → Bool
  pub selects_transport : Bool
  pub transport_for_session : Option (String → String)
  pub agent_events : String → Option (List AgentEvent)
  pub has_dispatcher : Bool
  pub repeated : String → Repeated
  pub graph : String → Option Graph
  pub template : String → Option Template

-- 3 * time.Minute
abbrev pub nudge_timeout : ℤ
nudge_timeout = pos 180_000_000_000

abbrev pub nudge_error_retry_budget : ℕ
nudge_error_retry_budget = 3

-- time.Since(t)
abbrev pub since : ℕ → ℕ → ℤ
since now t = sub_ℕ now t

abbrev pub agent_runtime_session : Agent → String
agent_runtime_session a = if a.tmux_session == "" then a.runtime_session_id else a.tmux_session

module _ {ℓ} {V : Type ℓ} where
  -- `m[k] = v`
  pub put_key : String → V → List (String × V) → List (String × V)
  put_key k v [] = (k, v) ∷ []
  put_key k v ((j, w) ∷ m) = if j == k then (j, v) ∷ m else (j, w) ∷ put_key k v m

  -- `delete(m, k)`
  pub drop_key : String → List (String × V) → List (String × V)
  drop_key k [] = []
  drop_key k ((j, w) ∷ m) = let rest = drop_key k m in if j == k then rest else (j, w) ∷ rest

-- `m[k]` of a map of counts.
abbrev pub count_of : List (String × ℕ) → String → ℕ
count_of [] k = 0
count_of ((j, n) ∷ m) k = if j == k then n else count_of m k

pub emit : Effect → World → World
emit e w = record w { log = e ∷ w.log }

pub clear_nudge : String → World → World
unfolding drop_key
clear_nudge id w = record w {
  nudge_sent = drop_key id w.nudge_sent;
  nudge_error_retries = drop_key id w.nudge_error_retries;
}

pub mark_nudged : ℕ → String → World → World
unfolding put_key
mark_nudged now id w = record w { nudge_sent = put_key id now w.nudge_sent }

-- `UPDATE agents ... WHERE id = ?`
pub update_agent : String → (Agent → Agent) → List Agent → List Agent
update_agent id f [] = []
update_agent id f (a ∷ rest) =
    let more = update_agent id f rest in if a.id == id then f a ∷ more else a ∷ more

pub agent_set_status : String → String → World → World
unfolding update_agent
agent_set_status id status w = record w {
  agents = update_agent id (λ a. record a { status = status }) w.agents;
}

-- AgentSetEnded, less the time.
pub agent_set_ended : String → World → World
unfolding update_agent
agent_set_ended id w = record w {
  agents = update_agent id (λ a. record a { status = "done" }) w.agents;
}

pub agent_set_runtime_pid : String → ℕ → World → World
unfolding update_agent
agent_set_runtime_pid id pid w = record w {
  agents = update_agent id (λ a. record a { pid = pid }) w.agents;
}

-- AgentGet; `none` is its error.
abbrev pub get_agent : List Agent → String → Option Agent
get_agent [] id = none
get_agent (a ∷ rest) id = if a.id == id then some a else get_agent rest id
