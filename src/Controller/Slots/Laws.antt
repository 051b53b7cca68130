-- ===== src/Controller/Slots/Laws.antt =====
-- The slot controller never dispatches past the free slots, and dispatches when it may.
use clankwork.Base.{◌≡◌, ◌↔◌, ◌⊎◌, arith}
use clankwork.Base.Int.{ℤ, pos, ◌≤ℤ◌, ◌<ℤ◌, ◌-ℤ◌}
use clankwork.Controller.{dispatch, pause}
use clankwork.Controller.Slots.{DesiredState, ObservedState, slot_decision}

-- A decision to dispatch starts at most as many tasks as there are free slots and as were asked
-- for, and is made only with a task ready and a slot free.
pub dispatch_fits :
    (d : DesiredState) (o : ObservedState) (n : ℤ)
    → (slot_decision d o n).action ≡ dispatch
    → ((slot_decision d o n).tasks_to_dispatch ≤ℤ (d.max_slots -ℤ o.running_agent_count))
      × ((slot_decision d o n).tasks_to_dispatch ≤ℤ n)
      × (pos 0 <ℤ o.ready_task_count)
      × (o.running_agent_count <ℤ d.max_slots)
unfolding slot_decision
dispatch_fits d o n h = ground arith

abbrev Pressured : DesiredState → ObservedState → Type 0
Pressured d o =
    (pos 0 <ℤ d.queue_pressure_threshold) × (d.queue_pressure_threshold ≤ℤ o.merge_queue_depth)

-- Dispatch is decided exactly when a slot is free, a task is ready, and the merge queue is below
-- its threshold or has none.
pub dispatch_iff :
    (d : DesiredState) (o : ObservedState) (n : ℤ)
    → ((slot_decision d o n).action ≡ dispatch) ↔ (
        (o.running_agent_count <ℤ d.max_slots)
        × (pos 0 <ℤ o.ready_task_count)
        × ((d.queue_pressure_threshold ≤ℤ pos 0)
            ⊎ (o.merge_queue_depth <ℤ d.queue_pressure_threshold)))
unfolding slot_decision
dispatch_iff d o n = (λ h. ground arith, λ h. ground arith)

-- A pause is decided exactly when the merge queue is at its threshold and the agents are not over
-- their slots.
pub pause_iff :
    (d : DesiredState) (o : ObservedState) (n : ℤ)
    → ((slot_decision d o n).action ≡ pause)
      ↔ ((o.running_agent_count ≤ℤ d.max_slots) × Pressured d o)
unfolding slot_decision
pause_iff d o n = (λ h. ground arith, λ h. ground arith)
