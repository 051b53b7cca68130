-- ===== src/Merge/Counts/Examples.antt =====
-- The counts of a queue of two items.
use mathlib.Core.List.{Memᴰ}
use clankwork.Base.{◌≡◌, ◌+◌, refl}
use clankwork.Base.Int.{pos, ◌≤ℤ◌, ◌-ℤ◌, ◌*ℤ◌}
use clankwork.Merge.Table.Examples.{first_item, two_items}
use clankwork.Merge.Counts.{queue_depth, queue_stats, pressure_snapshot}
use clankwork.Merge.Counts.Laws.{queue_stats-total, pressure_snapshot-oldest}

queue_stats-total_example :
    ((queue_stats two_items).queued
        + (queue_stats two_items).in_progress
        + (queue_stats two_items).merged
        + (queue_stats two_items).failed
      ≡ 2)
    × (queue_depth two_items ≡ (queue_stats two_items).queued + (queue_stats two_items).in_progress)
    × ((pressure_snapshot 50 5 two_items).depth ≡ pos (queue_depth two_items))
queue_stats-total_example = queue_stats-total 50 5 two_items

pressure_snapshot-oldest_example :
    ((pos 50 -ℤ pos 10) *ℤ 1000000000) ≤ℤ (pressure_snapshot 50 5 two_items).oldest_age
pressure_snapshot-oldest_example =
    pressure_snapshot-oldest 50 5 two_items first_item (Memᴰ.head refl) refl
