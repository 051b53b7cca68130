-- ===== src/Controller/Pressure/Examples.antt =====
-- The queue pressure's theorems on a queue that fills up.
use clankwork.Base.{◌≡◌, ◌↔◌, ◌⊎◌, ◌≤◌, true, arith}
use clankwork.Base.Int.{pos, negsuc, ◌≤ℤ◌}
use clankwork.Controller.Pressure.{
  none_level, drain, hard, Snapshot, positive_or, default_age_max, compute_queue_pressure,
}
use clankwork.Controller.Pressure.Laws.{
  rank, Worse, WithinLimits, pause_bounds, pressure_mono, full_speed_iff,
}

abbrev short_queue : Snapshot
short_queue = record {
  depth = pos 2;
  oldest_age = pos 60;
  recent_failures = pos 0;
  conflict_count = pos 0;
}

abbrev long_queue : Snapshot
long_queue = record {
  depth = pos 25;
  oldest_age = pos 600;
  recent_failures = pos 1;
  conflict_count = pos 1;
}

pause_bounds_example :
    let d = compute_queue_pressure long_queue (pos 10) (pos 1800) (pos 4) in
    ((d.should_pause ≡ true) ↔ (d.max_dispatch ≡ pos 0))
    × ((d.should_pause ≡ true) ↔ ((d.level ≡ drain) ⊎ (d.level ≡ hard)))
    × (pos 0 ≤ℤ d.max_dispatch)
    × (d.max_dispatch ≤ℤ positive_or (pos 1) (pos 4))
pause_bounds_example = pause_bounds long_queue (pos 10) (pos 1800) (pos 4)

short_below_long : Worse short_queue long_queue
short_below_long = omega arith

pressure_mono_example :
    rank (compute_queue_pressure short_queue (pos 10) (pos 1800) (pos 4)).level
    ≤ rank (compute_queue_pressure long_queue (pos 10) (pos 1800) (pos 4)).level
pressure_mono_example =
    pressure_mono short_queue long_queue (pos 10) (pos 1800) (pos 4) short_below_long

full_speed_iff_example :
    ((compute_queue_pressure short_queue (pos 10) (negsuc 0) (pos 4)).level ≡ none_level)
    ↔ WithinLimits short_queue
        (positive_or (pos 1) (pos 10))
        (positive_or default_age_max (negsuc 0))
full_speed_iff_example = full_speed_iff short_queue (pos 10) (negsuc 0) (pos 4)
