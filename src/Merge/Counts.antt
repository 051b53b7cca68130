-- ===== src/Merge/Counts.antt =====
-- internal/store/mergequeue.go: MergeQueueDepth, MergeQueueStats and MergeQueuePressureSnapshot.
pub mod Laws
pub mod Examples
use clankwork.Base.{
  ℕ, ◌+◌, Bool, false, ◌&&◌, ◌||◌, Option, none, some, List, [], ◌∷◌, leb, min, if◌then◌else◌,
}
use clankwork.Base.Int.{ℤ, pos, ◌-ℤ◌, ◌*ℤ◌}
use clankwork.Controller.Pressure.{Snapshot}
use clankwork.Merge.{MergeStatus, Item, is_queued, is_stuck, is_terminal, is_merged, is_conflicted}

-- `status IN ('queued','rebasing','verifying','merging')`
abbrev pub is_active : MergeStatus → Bool
is_active s = is_queued s || is_stuck s

-- `SUM(CASE WHEN ... THEN 1 ELSE 0 END)` over a test of the status.
abbrev pub count : (MergeStatus → Bool) → List Item → ℕ
count p [] = 0
count p (i ∷ rest) = let more = count p rest in if p i.status then 1 + more else more

pub queue_depth : List Item → ℕ
queue_depth items = count is_active items

pub record Stats : Type 0 where
  pub queued : ℕ
  pub in_progress : ℕ
  pub merged : ℕ
  pub failed : ℕ

abbrev pub is_lost : MergeStatus → Bool
is_lost s = is_terminal s || is_conflicted s

pub queue_stats : List Item → Stats
queue_stats items = record {
  queued = count is_queued items;
  in_progress = count is_stuck items;
  merged = count is_merged items;
  failed = count is_lost items;
}

abbrev pub earlier : ℕ → Option ℕ → Option ℕ
earlier t none = some t
earlier t (some u) = some (min t u)

-- `MIN(CASE WHEN ... THEN queued_at ELSE NULL END)`
pub oldest_queued : List Item → Option ℕ
oldest_queued [] = none
oldest_queued (i ∷ rest) =
    let more = oldest_queued rest in if is_active i.status then earlier i.queued_at more else more

abbrev pub ended_since : ℕ → Item → Bool
ended_since since i =
    is_terminal i.status && elim i.completed_at [ none ↦ false | some t ↦ leb since t ]

abbrev pub recent_failures : ℕ → List Item → ℕ
recent_failures since [] = 0
recent_failures since (i ∷ rest) =
    let more = recent_failures since rest in if ended_since since i then 1 + more else more

-- time.Since, in nanoseconds; 0 where nothing waits.
abbrev pub age_of : ℕ → Option ℕ → ℤ
age_of now none = pos 0
age_of now (some t) = (pos now -ℤ pos t) *ℤ 1000000000

pub pressure_snapshot : ℕ → ℕ → List Item → Snapshot
unfolding oldest_queued
pressure_snapshot now since items = record {
  depth = pos (count is_active items);
  oldest_age = age_of now (oldest_queued items);
  recent_failures = pos (recent_failures since items);
  conflict_count = pos (count is_conflicted items);
}
