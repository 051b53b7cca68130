-- ===== src/Gate.antt =====
-- internal/scheduler/scheduler.go: what lets Tick dispatch, and how many tasks; the operations that
-- set it. The mutex makes each operation one step.
pub mod Laws
pub mod Examples
use clankwork.Base.{Bool, true, false, ◌&&◌, ◌||◌, Option, none, some, if◌then◌else◌}
use clankwork.Base.Int.{ℤ, pos, ◌-ℤ◌, leb_ℤ, ltb_ℤ}
use clankwork.Controller.Pressure.{
  Level, empty_level, none_level, reduced, hard, Reason, empty_reason, within_target, legacy,
  Snapshot, PressureDecision,
}

-- The fields of the dispatcher that its mutex guards.
pub record Gate : Type 0 where
  pub user_paused : Bool
  pub queue_pressured : Bool
  pub queue_pressure : PressureDecision

abbrev pub is_reduced_level : Level → Bool
is_reduced_level reduced = true
is_reduced_level _ = false

abbrev pub is_hard_level : Level → Bool
is_hard_level hard = true
is_hard_level _ = false

abbrev pub is_empty_level : Level → Bool
is_empty_level empty_level = true
is_empty_level _ = false

abbrev pub is_legacy : Reason → Bool
is_legacy legacy = true
is_legacy _ = false

abbrev pub no_snapshot : Snapshot
no_snapshot = record {
  depth = pos 0;
  oldest_age = pos 0;
  recent_failures = pos 0;
  conflict_count = pos 0;
}

-- A decision with the zero value in the fields that a literal leaves out.
abbrev pub bare_decision : Level → ℤ → Bool → Reason → PressureDecision
bare_decision level max_dispatch pause reason = record {
  level = level;
  max_dispatch = max_dispatch;
  should_pause = pause;
  reason = reason;
  observed = no_snapshot;
  target_depth = pos 0;
  oldest_age_max = pos 0;
}

abbrev pub pause_gate : Gate → Gate
pause_gate g = record g { user_paused = true }

abbrev pub resume_gate : Gate → Gate
resume_gate g = record g { user_paused = false }

abbrev pub is_paused : Gate → Bool
is_paused g = g.user_paused || g.queue_pressured

abbrev pub set_queue_pressure : Bool → Gate → Gate
set_queue_pressure true g = record g {
  queue_pressured = true;
  queue_pressure = bare_decision hard (pos 0) true legacy;
}
set_queue_pressure false g = record g {
  queue_pressured = false;
  queue_pressure =
      if is_hard_level g.queue_pressure.level && is_legacy g.queue_pressure.reason
      then bare_decision empty_level (pos 0) false empty_reason
      else g.queue_pressure;
}

abbrev pub set_queue_pressure_decision : PressureDecision → Gate → Gate
set_queue_pressure_decision d g = record g { queue_pressure = d; queue_pressured = d.should_pause }

abbrev pub queue_pressure_decision : ℤ → Gate → PressureDecision
queue_pressure_decision max_slots g =
    if is_empty_level g.queue_pressure.level
    then bare_decision none_level max_slots false within_target
    else g.queue_pressure

-- How many ready tasks Tick asks for, with so many slots and running agents; `none` where it
-- returns before that.
pub tick_slots : ℤ → ℤ → Gate → Option ℤ
tick_slots max_slots running g =
    let pressure = g.queue_pressure in
    let free = max_slots -ℤ running in
    let slots =
      if is_reduced_level pressure.level
        && ltb_ℤ (pos 0) pressure.max_dispatch
        && ltb_ℤ pressure.max_dispatch free
      then pressure.max_dispatch
      else free in
    if g.user_paused || g.queue_pressured || pressure.should_pause
    then none
    else if leb_ℤ slots (pos 0)
    then none
    else some slots
