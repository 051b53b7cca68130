-- ===== src/Tasks/Ready.antt =====
-- TasksReady of internal/store/tasks.go: the query over the tasks and their dependencies.
pub mod Laws
pub mod Examples
use clankwork.Base.{
  ℕ, zero, suc, Bool, true, false, not, ◌&&◌, ◌||◌, String, List, [], ◌∷◌, ◌==◌, leb, if◌then◌else◌,
}
use clankwork.Base.Int.{ℤ, pos, negsuc, leb_ℤ, ltb_ℤ}
use clankwork.Tasks.{TaskStatus, pending, done, merged, Task}

-- A row of task_deps: the task, and what it depends on.
pub record Dependency : Type 0 where
  pub task_id : String
  pub depends_on_id : String

abbrev pub is_pending : TaskStatus → Bool
is_pending pending = true
is_pending _ = false

-- `status IN ('done', 'merged')`
abbrev pub is_finished : TaskStatus → Bool
is_finished done = true
is_finished merged = true
is_finished _ = false

-- Is there a task with the id that is not finished? One that is not there does not count.
abbrev pub is_unfinished : List Task → String → Bool
is_unfinished [] id = false
is_unfinished (t ∷ rest) id = (t.id == id && not (is_finished t.status)) || is_unfinished rest id

abbrev pub is_held : List Task → List Dependency → String → Bool
is_held tasks [] id = false
is_held tasks (d ∷ rest) id =
    (d.task_id == id && is_unfinished tasks d.depends_on_id) || is_held tasks rest id

abbrev pub is_ready : List Task → List Dependency → Task → Bool
is_ready tasks deps t = is_pending t.status && not (is_held tasks deps t.id)

-- `WHERE ...`, of the rows of a table whose other rows are `tasks`.
abbrev pub select_ready : List Task → List Dependency → List Task → List Task
select_ready tasks deps [] = []
select_ready tasks deps (t ∷ rest) =
    let more = select_ready tasks deps rest in if is_ready tasks deps t then t ∷ more else more

-- `ORDER BY priority DESC, created_at ASC`, equal rows in the order of the table.
abbrev pub is_first : Task → Task → Bool
is_first a b =
    ltb_ℤ b.priority a.priority || (leb_ℤ b.priority a.priority && leb a.created_at b.created_at)

abbrev pub insert_by_order : Task → List Task → List Task
insert_by_order t [] = t ∷ []
insert_by_order t (u ∷ rest) =
    let more = insert_by_order t rest in if is_first t u then t ∷ u ∷ rest else u ∷ more

abbrev pub order_tasks : List Task → List Task
order_tasks [] = []
order_tasks (t ∷ rest) = insert_by_order t (order_tasks rest)

abbrev pub take : ℕ → List Task → List Task
take zero l = []
take (suc n) [] = []
take (suc n) (t ∷ rest) = t ∷ take n rest

-- `LIMIT ?`, which a negative number lifts.
abbrev pub limit_to : ℤ → List Task → List Task
limit_to (pos n) l = take n l
limit_to (negsuc n) l = l

pub tasks_ready : List Task → List Dependency → ℤ → List Task
tasks_ready tasks deps limit = limit_to limit (order_tasks (select_ready tasks deps tasks))
