-- ===== src/Gate/Examples.antt =====
-- The gate under a queue of moderate depth.
use clankwork.Base.{◌↔◌, none, true, ◌≡◌, refl, false, some, arith}
use clankwork.Base.Int.{pos, ◌≤ℤ◌, ◌<ℤ◌, ◌-ℤ◌}
use clankwork.Controller.Pressure.{
  drain, PressureDecision, none_level, within_target, Snapshot, compute_queue_pressure, is_hard,
  is_drain, is_reduced,
}
use clankwork.Gate.{
  pause_gate, resume_gate, is_paused, set_queue_pressure, Gate, set_queue_pressure_decision,
  tick_slots,
}
use clankwork.Gate.Laws.{Agrees, tick_within_pressure, paused_iff, cleared_but_idle}

abbrev moderate : Snapshot
moderate = record {
  depth = pos 12;
  oldest_age = pos 60;
  recent_failures = pos 0;
  conflict_count = pos 0;
}

abbrev open_gate : Gate
open_gate = record {
  user_paused = false;
  queue_pressured = false;
  queue_pressure = record {
    level = none_level;
    max_dispatch = pos 4;
    should_pause = false;
    reason = within_target;
    observed = moderate;
    target_depth = pos 10;
    oldest_age_max = pos 1800;
  };
}

one_at_a_time :
    tick_slots (pos 4) (pos 1) (
      set_queue_pressure_decision
        (compute_queue_pressure moderate (pos 10) (pos 1800) (pos 4))
        open_gate)
    ≡ some (pos 1)
unfolding tick_slots compute_queue_pressure is_hard is_drain is_reduced
one_at_a_time = refl

four_slots_free : pos 0 <ℤ pos 4
four_slots_free = omega arith

one_runs : pos 0 ≤ℤ pos 1
one_runs = omega arith

tick_within_pressure_example :
    (false ≡ false)
    × ((compute_queue_pressure moderate (pos 10) (pos 1800) (pos 4)).should_pause ≡ false)
    × (pos 0 <ℤ pos 1)
    × (pos 1 ≤ℤ (pos 4 -ℤ pos 1))
    × (pos 1 ≤ℤ (compute_queue_pressure moderate (pos 10) (pos 1800) (pos 4)).max_dispatch)
tick_within_pressure_example =
    tick_within_pressure moderate (pos 10) (pos 1800) (pos 4) (pos 1) (pos 1) open_gate
      four_slots_free one_runs one_at_a_time

abbrev stopped : PressureDecision
stopped = record open_gate.queue_pressure { level = drain; should_pause = true }

below_slots : pos 1 <ℤ pos 4
below_slots = omega arith

paused_iff_example :
    ((is_paused open_gate ≡ true) ↔ (tick_slots (pos 4) (pos 1) open_gate ≡ none))
    × Agrees (pause_gate open_gate)
    × Agrees (resume_gate open_gate)
    × Agrees (set_queue_pressure_decision stopped open_gate)
    × Agrees (set_queue_pressure true open_gate)
paused_iff_example = paused_iff open_gate (pos 4) (pos 1) stopped refl below_slots

cleared_but_idle_example :
    let after = set_queue_pressure false (set_queue_pressure_decision stopped open_gate) in
    (is_paused after ≡ false) × (tick_slots (pos 4) (pos 1) after ≡ none)
cleared_but_idle_example = cleared_but_idle stopped open_gate (pos 4) (pos 1) refl refl refl
