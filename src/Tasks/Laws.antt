-- ===== src/Tasks/Laws.antt =====
-- What the guards of the task statements guarantee.
use clankwork.Base.{some, ◌≡◌, String, List, [], ◌∷◌, ◌==◌, ==_iff, arith, if◌then◌else◌}
use clankwork.Base.Int.{ℤ, pos, ◌+ℤ◌}
use mathlib.Core.Option
use clankwork.Tasks.{attempts_of, bump, forget, Task, get_task, update_task}

-- One more attempt at a step, and none elsewhere.
pub attempts_of-bump :
    (m : List (String × ℤ)) (k j : String)
    → attempts_of (bump m k) j ≡ (if k == j then attempts_of m k +ℤ 1 else attempts_of m j)
unfolding bump
attempts_of-bump [] k j = ground arith
attempts_of-bump ((i, n) ∷ m) k j =
    ground (arith, attempts_of-bump m k j, ==_iff i k, ==_iff i j, ==_iff k j)

pub attempts_of-forget :
    (m : List (String × ℤ)) (k j : String)
    → attempts_of (forget m k) j ≡ (if k == j then pos 0 else attempts_of m j)
unfolding forget
attempts_of-forget [] k j = ground arith
attempts_of-forget ((i, n) ∷ m) k j =
    ground (arith, attempts_of-forget m k j, ==_iff i k, ==_iff i j, ==_iff k j)

-- The statement on one row leaves the rows of other tasks, and changes the row that is found.
pub get_task-update_task :
    (id : String) (f : Task → Task) (ts : List Task) (j : String)
    → ((t : Task) → t.id ≡ id → (f t).id ≡ id)
    → get_task (update_task id f ts) j
      ≡ (if id == j then Option.map f (get_task ts j) else get_task ts j)
unfolding update_task
get_task-update_task id f [] j keep = ground arith
get_task-update_task id f (t ∷ rest) j keep = ground (
  arith,
  get_task-update_task id f rest j keep,
  keep t,
  ==_iff t.id id,
  ==_iff t.id j,
  ==_iff id j,
  ==_iff (f t).id j,
)

pub get_task-id : (ts : List Task) (j : String) (t : Task) → get_task ts j ≡ some t → t.id ≡ j
get_task-id [] j t h = cc
get_task-id (u ∷ rest) j t h = ground (arith, get_task-id rest j t, ==_iff u.id j)
