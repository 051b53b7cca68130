-- ===== src/Merge/Table.antt =====
-- internal/store/mergequeue.go: the statements on the merge_queue table, a list of rows in the
-- order of insertion. A row is the one that the statement's `WHERE` selects.
pub mod Laws
pub mod Order
pub mod Rows
pub mod Enqueue
pub mod Examples
use clankwork.Base.{
  ℕ, String, Bool, true, false, not, ◌&&◌, ◌||◌, Option, none, some, List, [], ◌∷◌, ◌+◌, ◌++◌, ◌==◌,
  leb, if◌then◌else◌,
}
use clankwork.Base.Int.{ℤ, leb_ℤ, ltb_ℤ}
use clankwork.Merge.{
  MergeStatus, queued, rebasing, verifying, merging, Item, is_queued, is_terminal, is_stuck,
  is_conflicted,
}

-- MergeQueueGet; `none` is its error.
abbrev pub get_item : List Item → String → Option Item
get_item [] id = none
get_item (i ∷ rest) id = if i.id == id then some i else get_item rest id

abbrev pub get_by_task : List Item → String → Option Item
get_by_task [] task_id = none
get_by_task (i ∷ rest) task_id = if i.task_id == task_id then some i else get_by_task rest task_id

abbrev pub owned_by : Option String → String → Bool
owned_by none task_id = false
owned_by (some t) task_id = t == task_id

abbrev pub get_by_conflict_task : List Item → String → Option Item
get_by_conflict_task [] task_id = none
get_by_conflict_task (i ∷ rest) task_id =
    if owned_by i.conflict_task_id task_id then some i else get_by_conflict_task rest task_id

-- `UPDATE merge_queue SET ... WHERE id=?`
unfoldable pub update_item : String → (Item → Item) → List Item → List Item
update_item id f [] = []
update_item id f (i ∷ rest) =
    let more = update_item id f rest in if i.id == id then f i ∷ more else i ∷ more

abbrev pub or_now : ℕ → Option ℕ → Option ℕ
or_now now none = some now
or_now now (some t) = some t

-- MergeQueueSetStatus, on the row; a time that is there already is kept for a start only.
abbrev pub set_status : ℕ → MergeStatus → Item → Item
set_status now rebasing i = record i { status = rebasing; started_at = or_now now i.started_at }
set_status now verifying i = record i { status = verifying; started_at = or_now now i.started_at }
set_status now merging i = record i { status = merging; started_at = or_now now i.started_at }
set_status now queued i = record i { status = queued }
set_status now s i = record i { status = s; completed_at = some now }

abbrev pub set_merge_sha : String → Item → Item
set_merge_sha sha i = record i { merge_sha = sha }

abbrev pub set_failure_log : String → Item → Item
set_failure_log text i = record i { failure_log = text }

abbrev pub set_worktree_path : String → Item → Item
set_worktree_path path i = record i { worktree_path = path }

abbrev pub set_conflict_task : String → Item → Item
set_conflict_task task_id i = record i { conflict_task_id = some task_id }

abbrev pub incr_attempt : Item → Item
incr_attempt i = record i { attempt_count = i.attempt_count + 1 }

-- The row that is inserted, and that the reset of a terminal one leaves.
abbrev pub new_item : ℕ → String → String → String → String → String → ℤ → Item
new_item now id task_id repo_id branch target priority = record {
  id = id;
  task_id = task_id;
  repo_id = repo_id;
  branch = branch;
  target = target;
  status = queued;
  attempt_count = 0;
  priority = priority;
  queued_at = now;
  started_at = none;
  completed_at = none;
  merge_sha = "";
  failure_log = "";
  worktree_path = "";
  conflict_task_id = none;
}

abbrev pub is_some {ℓ} : {A : Type ℓ} → Option A → Bool
is_some none = false
is_some (some a) = true

-- Does a row of another task have the id? Then the reset breaks the primary key.
abbrev pub is_taken : List Item → String → String → Bool
is_taken [] id task_id = false
is_taken (i ∷ rest) id task_id =
    (i.id == id && not (i.task_id == task_id)) || is_taken rest id task_id

-- `UPDATE ... WHERE task_id=? AND status IN ('failed','rejected')`
unfoldable pub reset_item : Item → List Item → List Item
reset_item fresh [] = []
reset_item fresh (i ∷ rest) =
    let more = reset_item fresh rest in
    if i.task_id == fresh.task_id && is_terminal i.status then fresh ∷ more else i ∷ more

requeue_terminal : Item → List Item → Option Item → Option (List Item)
unfolding reset_item
requeue_terminal fresh items none = none
requeue_terminal fresh items (some i) =
    if is_terminal i.status && not (is_taken items fresh.id fresh.task_id)
    then some (reset_item fresh items)
    else none

-- MergeQueueEnqueue of the row that new_item makes; `none` is its error, which changes no row.
-- Both `id` and `task_id` are unique in the table.
pub enqueue : Item → List Item → Option (List Item)
unfolding requeue_terminal
enqueue fresh items =
    let existing = get_by_task items fresh.task_id in
    if not (is_some (get_item items fresh.id)) && not (is_some existing)
    then some (items ++ fresh ∷ [])
    else requeue_terminal fresh items existing

abbrev pub is_candidate : String → Item → Bool
is_candidate repo_id i = i.repo_id == repo_id && is_queued i.status

-- `ORDER BY priority DESC, queued_at ASC`
abbrev pub is_before : Item → Item → Bool
is_before a b =
    ltb_ℤ b.priority a.priority || (leb_ℤ b.priority a.priority && leb a.queued_at b.queued_at)

abbrev pub sooner : Item → Option Item → Item
sooner a none = a
sooner a (some b) = if is_before a b then a else b

-- MergeQueueNext; of equal rows the first, where the database may give any.
pub next_item : String → List Item → Option Item
next_item repo_id [] = none
next_item repo_id (i ∷ rest) =
    let other = next_item repo_id rest in
    if is_candidate repo_id i then some (sooner i other) else other

abbrev pub keep_status : (MergeStatus → Bool) → List Item → List Item
keep_status p [] = []
keep_status p (i ∷ rest) = let more = keep_status p rest in if p i.status then i ∷ more else more

-- MergeQueueResetStuck and MergeQueueFindStuckConflicted, which only select.
unfoldable pub reset_stuck : List Item → List Item
reset_stuck items = keep_status is_stuck items

pub find_stuck_conflicted : List Item → List Item
find_stuck_conflicted items = keep_status is_conflicted items
