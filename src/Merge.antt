-- ===== src/Merge.antt =====
-- The data of the merge queue: internal/model/model.go (MergeQueueItem), migrations/0005, and what
-- internal/mergequeue/processor.go keeps and leaves behind. The world of a call is the two tables
-- that it touches and the log of what it did besides. Times are seconds.
pub mod Table
pub mod Counts
pub mod Process
pub mod Conflicts
pub mod Requeue
use clankwork.Base.{ℕ, String, Bool, Option, List, [], ◌∷◌, ◌++◌}
use clankwork.Base.Int.{ℤ}
pub use clankwork.Tasks.{Task, get_task, update_task}

pub data MergeStatus : Type 0 where
  queued rebasing verifying merging merged failed rejected conflicted : MergeStatus

-- The empty texts stand for NULL, as the queries read them; `conflict_task_id` is compared in a
-- query, where NULL equals nothing.
pub record Item : Type 0 where
  pub id : String
  pub task_id : String
  pub repo_id : String
  pub branch : String
  pub target : String
  pub status : MergeStatus
  pub attempt_count : ℕ
  pub priority : ℤ
  pub queued_at : ℕ
  pub started_at : Option ℕ
  pub completed_at : Option ℕ
  pub merge_sha : String
  pub failure_log : String
  pub worktree_path : String
  pub conflict_task_id : Option String

-- The columns of a repository that the queue reads.
pub record Repo : Type 0 where
  pub id : String
  pub path : String
  pub verify_command : String
  pub auto_push : Bool
  pub target_branch : String

-- What is appended or done outside the two tables: a trace of a task, a decision on an item (kind,
-- action, whether to retry), an actuation (item, operation, states, outcome), a task indexed as
-- prior art, and what git and the file system are told.
pub data Event : Type 0 where
  traced : String → String → Event
  decision : String → String → String → Bool → Event
  actuation : String → String → String → String → String → Event
  indexed : String → Event
  removed_worktree deleted_branch pruned : String → Event

pub record World : Type 0 where
  pub items : List Item
  pub tasks : List Task
  pub events : List Event

abbrev pub is_queued : MergeStatus → Bool
is_queued queued = Bool.true
is_queued _ = Bool.false

-- `status IN ('rebasing','verifying','merging')`
abbrev pub is_stuck : MergeStatus → Bool
is_stuck rebasing = Bool.true
is_stuck verifying = Bool.true
is_stuck merging = Bool.true
is_stuck _ = Bool.false

-- `status IN ('failed','rejected')`
abbrev pub is_terminal : MergeStatus → Bool
is_terminal failed = Bool.true
is_terminal rejected = Bool.true
is_terminal _ = Bool.false

abbrev pub is_merged : MergeStatus → Bool
is_merged merged = Bool.true
is_merged _ = Bool.false

abbrev pub is_conflicted : MergeStatus → Bool
is_conflicted conflicted = Bool.true
is_conflicted _ = Bool.false

abbrev pub log : Event → World → World
log e w = record w { events = w.events ++ e ∷ [] }
