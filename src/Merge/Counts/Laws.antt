-- ===== src/Merge/Counts/Laws.antt =====
-- The counts add up, and the snapshot's age bounds that of every waiting row.
use mathlib.Core.List.{Memᴰ}
use clankwork.Base.{
  ℕ, ◌+◌, ◌≡◌, ◌≤◌, refl, true, some, List, [], ◌∷◌, length, min, arith, Bool-cases, inl, inr,
  Option-cases,
}
use clankwork.Base.Int.{pos, ◌≤ℤ◌, ◌-ℤ◌, ◌*ℤ◌}
use clankwork.Merge.{Item, is_queued, is_stuck, is_merged}
use clankwork.Merge.Counts.{
  is_active, is_lost, count, queue_depth, queue_stats, oldest_queued, age_of, pressure_snapshot,
}

count_total :
    (l : List Item)
    → count is_queued l + count is_stuck l + count is_merged l + count is_lost l ≡ length l
count_total [] = refl
count_total (i ∷ rest) = ground (arith, count_total rest)

count_active : (l : List Item) → count is_active l ≡ count is_queued l + count is_stuck l
count_active [] = refl
count_active (i ∷ rest) = ground (arith, count_active rest)

-- The four counts of the statistics cover each row once, the depth is the first two of them, and it
-- is also the depth of the pressure snapshot.
pub queue_stats-total :
    (now since : ℕ) (l : List Item)
    → ((queue_stats l).queued
          + (queue_stats l).in_progress
          + (queue_stats l).merged
          + (queue_stats l).failed
        ≡ length l)
      × (queue_depth l ≡ (queue_stats l).queued + (queue_stats l).in_progress)
      × ((pressure_snapshot now since l).depth ≡ pos (queue_depth l))
unfolding queue_stats queue_depth pressure_snapshot
queue_stats-total now since l = (count_total l, count_active l, refl)

oldest_queued-le :
    (l : List Item) (i : Item)
    → Memᴰ i l
    → is_active i.status ≡ true
    → (t : ℕ) × (oldest_queued l ≡ some t) × (t ≤ i.queued_at)
unfolding oldest_queued
oldest_queued-le [] i m a = elim m [ ]
oldest_queued-le (x ∷ rest) i (Memᴰ.head p) a = elim (Option-cases (oldest_queued rest)) [
  | inl n ↦ rw (← p, a, n) (i.queued_at, refl, omega arith)
  | inr (u, s) ↦ rw (← p, a, s) (min i.queued_at u, refl, omega arith)
]
oldest_queued-le (x ∷ rest) i (Memᴰ.tail m) a =
    let (t, s, le) = oldest_queued-le rest i m a in
    elim (Bool-cases (is_active x.status)) [
      | inl b ↦ rw (b, s) (min x.queued_at t, refl, omega arith)
      | inr b ↦ rw (b, s) (t, refl, le)
    ]

age_mono : (now t u : ℕ) → t ≤ u → ((pos now -ℤ pos u) *ℤ 1000000000) ≤ℤ age_of now (some t)
age_mono now t u le = ground arith

-- No row that waits or is being merged is older than the snapshot says.
pub pressure_snapshot-oldest :
    (now since : ℕ) (l : List Item) (i : Item)
    → Memᴰ i l
    → is_active i.status ≡ true
    → ((pos now -ℤ pos i.queued_at) *ℤ 1000000000) ≤ℤ (pressure_snapshot now since l).oldest_age
unfolding pressure_snapshot
pressure_snapshot-oldest now since l i m a =
    let (t, s, le) = oldest_queued-le l i m a in rw s (age_mono now t i.queued_at le)
