-- ===== src/Controller.antt =====
-- internal/model/controller.go: the decisions of the control loop, as values. Message texts are
-- left out, since the code reads them nowhere; what selects them is kept as the category.
pub mod Slots
pub mod Health
pub mod Pressure
use clankwork.Base.{String, Option}
use clankwork.Base.Int.{ℤ}

pub data Category : Type 0 where
  no_error slots_underutilized slots_overcommitted queue_pressured agent_stale : Category
  agent_dead agent_stalling agent_context_limit agent_no_progress oscillation : Category

pub data Action : Type 0 where
  no_action dispatch pause resume escalate_model kill nudge handoff block no_op : Action

-- `empty_progress` is the empty string, which the observer leaves where it has no evidence.
pub data Progress : Type 0 where
  empty_progress progress_unknown progress_present progress_absent : Progress

pub data AgentHealth : Type 0 where
  healthy warning stalled dead : AgentHealth

pub record ControllerError : Type 0 where
  pub category : Category
  pub magnitude : ℤ
  pub affected_agent_id : String

pub record ControllerDecision : Type 0 where
  pub action : Action
  pub error : Option ControllerError
  pub tasks_to_dispatch : ℤ
