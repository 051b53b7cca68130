-- ===== src/Tasks.antt =====
-- internal/store/tasks.go: rows of the task table and the statements on one row. The row is the one
-- that the statement's `WHERE id=?` selects; what a later condition refuses comes back unchanged.
-- Columns that no statement here reads or writes are left out; times are numbers.
pub mod Laws
pub mod Ready
pub mod Cycle
use clankwork.Base.{
  ℕ, String, Bool, true, false, ◌&&◌, Option, none, some, List, [], ◌∷◌, ◌==◌, if◌then◌else◌,
}
use clankwork.Base.Int.{ℤ, pos, ◌+ℤ◌}

pub data TaskStatus : Type 0 where
  pending running done failed blocked merged closed : TaskStatus

pub record Task : Type 0 where
  pub id : String
  pub repo_id : String
  pub template : String
  pub priority : ℤ
  pub status : TaskStatus
  pub retry_count : ℤ
  pub current_step : String
  pub step_attempts : List (String × ℤ)
  pub created_at : ℕ
  pub updated_at : ℕ
  pub started_at : Option ℕ
  pub completed_at : Option ℕ

abbrev pub is_running : TaskStatus → Bool
is_running running = true
is_running _ = false

abbrev pub is_failed : TaskStatus → Bool
is_failed failed = true
is_failed _ = false

abbrev pub is_blocked : TaskStatus → Bool
is_blocked blocked = true
is_blocked _ = false

-- `m[k]`, 0 where the key is missing.
abbrev pub attempts_of : List (String × ℤ) → String → ℤ
attempts_of [] k = pos 0
attempts_of ((j, n) ∷ m) k = if j == k then n else attempts_of m k

-- `m[k]++`
pub bump : List (String × ℤ) → String → List (String × ℤ)
bump [] k = (k, pos 1) ∷ []
bump ((j, n) ∷ m) k = if j == k then (j, n +ℤ 1) ∷ m else (j, n) ∷ bump m k

-- `delete(m, k)`
pub forget : List (String × ℤ) → String → List (String × ℤ)
forget [] k = []
forget ((j, n) ∷ m) k = let rest = forget m k in if j == k then rest else (j, n) ∷ rest

-- TaskSetStatus: what the new status says of the two times.
unfoldable pub task_set_status : ℕ → TaskStatus → Task → Task
task_set_status now running t = record t {
  status = running;
  updated_at = now;
  started_at = some now;
}
task_set_status now pending t = record t { status = pending; updated_at = now }
task_set_status now s t = record t { status = s; updated_at = now; completed_at = some now }

-- TaskSetStatusIfRunning, `completed_at` set for the statuses that its `if` names.
ended : ℕ → TaskStatus → Task → Task
ended now pending t = record t { status = pending; updated_at = now }
ended now running t = record t { status = running; updated_at = now }
ended now closed t = record t { status = closed; updated_at = now }
ended now s t = record t { status = s; updated_at = now; completed_at = some now }

unfoldable pub task_set_status_if_running : ℕ → TaskStatus → Task → Task
unfolding ended
task_set_status_if_running now s t = if is_running t.status then ended now s t else t

-- TaskSetStepIfRunning: the row, and whether it was changed.
unfoldable pub task_set_step_if_running :
    ℕ → String → String → List (String × ℤ) → Task → Task × Bool
task_set_step_if_running now old new attempts t =
    if t.current_step == old && is_running t.status
    then (
      record t {
        current_step = new;
        step_attempts = attempts;
        status = pending;
        completed_at = none;
        updated_at = now;
      },
      true,
    )
    else (t, false)

unfoldable pub task_set_step_from_pending : ℕ → String → Task → Task
task_set_step_from_pending now step t = record t { current_step = step; updated_at = now }

-- TaskRetry; `none` is its error.
unfoldable pub task_retry : ℕ → Task → Option Task
task_retry now t =
    if is_failed t.status
    then some (record t {
      status = pending;
      retry_count = t.retry_count +ℤ 1;
      current_step = "";
      step_attempts = [];
      started_at = none;
      completed_at = none;
      updated_at = now;
    })
    else none

-- The task row after TaskUnblock; `none` where it is refused. `step` is the caller's, if any.
unfoldable pub task_unblock : ℕ → String → Task → Option Task
task_unblock now step t =
    let target = if step == "" then t.current_step else step in
    if is_blocked t.status
    then some (
        if target == ""
        then record t { status = pending; started_at = none; completed_at = none; updated_at = now }
        else record t {
          current_step = target;
          status = pending;
          step_attempts = forget t.step_attempts target;
          started_at = none;
          completed_at = none;
          updated_at = now;
        })
    else none

unfoldable pub task_incr_retry : ℕ → Task → Task
task_incr_retry now t = record t { retry_count = t.retry_count +ℤ 1; updated_at = now }

-- TaskGet; `none` is its error.
abbrev pub get_task : List Task → String → Option Task
get_task [] id = none
get_task (t ∷ rest) id = if t.id == id then some t else get_task rest id

-- `UPDATE tasks ... WHERE id=?`
unfoldable pub update_task : String → (Task → Task) → List Task → List Task
update_task id f [] = []
update_task id f (t ∷ rest) =
    let more = update_task id f rest in if t.id == id then f t ∷ more else t ∷ more
