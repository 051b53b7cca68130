-- ===== src/Controller/Slots.antt =====
-- ComputeState, ComputeError and DecisionFromError of internal/model/controller.go.
pub mod Laws
pub mod Examples
use clankwork.Base.{Bool, not, ◌&&◌, Option, none, some, if◌then◌else◌}
use clankwork.Base.Int.{ℤ, pos, ◌-ℤ◌, negate, leb_ℤ, ltb_ℤ, min_ℤ}
use clankwork.Controller.{
  Category, slots_underutilized, slots_overcommitted, queue_pressured, dispatch, pause, no_op,
  ControllerError, ControllerDecision,
}

pub record DesiredState : Type 0 where
  pub max_slots : ℤ
  pub queue_pressure_threshold : ℤ
  pub heartbeat_timeout : ℤ

pub record ObservedState : Type 0 where
  pub running_agent_count : ℤ
  pub ready_task_count : ℤ
  pub merge_queue_depth : ℤ
  pub available_slots : ℤ

pub record ComputedState : Type 0 where
  pub desired : DesiredState
  pub observed : ObservedState
  pub slots_delta : ℤ
  pub queue_pressured : Bool
  pub can_dispatch : Bool

pub compute_state : DesiredState → ObservedState → ComputedState
compute_state desired observed =
    let available = desired.max_slots -ℤ observed.running_agent_count in
    let pressured =
      ltb_ℤ (pos 0) desired.queue_pressure_threshold
      && leb_ℤ desired.queue_pressure_threshold observed.merge_queue_depth in
    record {
      desired = desired;
      observed = record observed { available_slots = available };
      slots_delta = observed.running_agent_count -ℤ desired.max_slots;
      queue_pressured = pressured;
      can_dispatch =
          ltb_ℤ (pos 0) available && ltb_ℤ (pos 0) observed.ready_task_count && not pressured;
    }

slots_error : Category → ℤ → Option ControllerError
slots_error category magnitude =
    some (record { category = category; magnitude = magnitude; affected_agent_id = "" })

pub compute_error : ComputedState → Option ControllerError
unfolding slots_error
compute_error cs =
    if ltb_ℤ (pos 0) cs.slots_delta
    then slots_error slots_overcommitted cs.slots_delta
    else if ltb_ℤ cs.slots_delta (pos 0) && cs.can_dispatch
    then slots_error slots_underutilized (negate cs.slots_delta)
    else if cs.queue_pressured
    then slots_error queue_pressured cs.observed.merge_queue_depth
    else none

decide_category : Category → ControllerError → ℤ → ControllerDecision
decide_category slots_overcommitted err n = record {
  action = no_op;
  error = some err;
  tasks_to_dispatch = pos 0;
}
decide_category slots_underutilized err n = record {
  action = dispatch;
  error = some err;
  tasks_to_dispatch = min_ℤ n err.magnitude;
}
decide_category queue_pressured err n = record {
  action = pause;
  error = some err;
  tasks_to_dispatch = pos 0;
}
decide_category _ err n = record { action = no_op; error = some err; tasks_to_dispatch = pos 0 }

pub decision_from_error : Option ControllerError → ℤ → ControllerDecision
unfolding decide_category
decision_from_error none n = record { action = no_op; error = none; tasks_to_dispatch = pos 0 }
decision_from_error (some err) n = decide_category err.category err n

-- The three in a row: one pass of the slot controller.
pub slot_decision : DesiredState → ObservedState → ℤ → ControllerDecision
unfolding compute_state compute_error decision_from_error
slot_decision desired observed n =
    decision_from_error (compute_error (compute_state desired observed)) n
