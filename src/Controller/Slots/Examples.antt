-- ===== src/Controller/Slots/Examples.antt =====
-- The slot controller's theorems on four slots.
use clankwork.Base.{◌≡◌, ◌↔◌, ◌⊎◌}
use clankwork.Base.Int.{pos, ◌≤ℤ◌, ◌<ℤ◌}
use clankwork.Controller.{dispatch}
use clankwork.Controller.Slots.{DesiredState, ObservedState, slot_decision}
use clankwork.Controller.Slots.Laws.{dispatch_iff}

abbrev four_slots : DesiredState
four_slots = record {
  max_slots = pos 4;
  queue_pressure_threshold = pos 10;
  heartbeat_timeout = pos 120;
}

abbrev one_running : ObservedState
one_running = record {
  running_agent_count = pos 1;
  ready_task_count = pos 7;
  merge_queue_depth = pos 2;
  available_slots = pos 0;
}

dispatch_iff_example :
    ((slot_decision four_slots one_running (pos 7)).action ≡ dispatch)
    ↔ ((pos 1 <ℤ pos 4) × (pos 0 <ℤ pos 7) × ((pos 10 ≤ℤ pos 0) ⊎ (pos 2 <ℤ pos 10)))
dispatch_iff_example = dispatch_iff four_slots one_running (pos 7)
