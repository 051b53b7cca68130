-- ===== src/Merge/Process.antt =====
-- processItem and what it calls, of internal/mergequeue/processor.go. What git, the shell and the
-- file system answer is an argument, with the texts that are logged for it, and so is the id that is
-- generated, the time of the call, and the class of a conflict, which Conflicts fills in. The
-- statements on the database succeed, except where an id is taken. Reasons that are only text are
-- left out.
pub mod Machine
pub mod Refines
pub mod Frame
pub mod Outcomes
pub mod Budget
pub mod Examples
use clankwork.Base.{
  ℕ, String, Bool, true, false, not, ◌&&◌, Option, none, some, List, [], ◌∷◌, ◌++◌, ◌==◌,
  if◌then◌else◌,
}
use clankwork.Base.Int.{ℤ, pos, leb_ℤ, ltb_ℤ}
use clankwork.Tasks.{TaskStatus, Task, task_set_status}
use clankwork.Merge.{
  MergeStatus, queued, rebasing, verifying, merging, merged, failed, rejected, conflicted, Item,
  Repo, Event, traced, decision, actuation, indexed, removed_worktree, deleted_branch, World,
  get_task, update_task, log,
}
use clankwork.Merge.Table.{
  get_item, update_item, set_status, set_merge_sha, set_failure_log, set_worktree_path,
  set_conflict_task, incr_attempt,
}

pub data ConflictClass : Type 0 where
  trivial semantic : ConflictClass

pub record RebaseResult : Type 0 where
  pub conflict_log : String
  pub rebased_sha : String
  pub target_sha : String

-- `none` is an error; each text is what the code logs for its step, `rebase_log` for an error of the
-- rebase or for a semantic conflict.
pub record Git : Type 0 where
  pub made_directory : Bool
  pub worktree : Option String
  pub worktree_log : String
  pub rebase : Option RebaseResult
  pub rebase_log : String
  pub verified : Bool
  pub verify_log : String
  pub advanced : Bool
  pub pushed : Bool
  pub push_log : String

-- The processor, at the time of a call, with an id that it generates.
pub record Processor : Type 0 where
  pub max_attempts : ℤ
  pub home_dir : String
  pub classify : String → ConflictClass
  pub now : ℕ
  pub fresh_id : String

abbrev pub status_name : MergeStatus → String
status_name queued = "queued"
status_name rebasing = "rebasing"
status_name verifying = "verifying"
status_name merging = "merging"
status_name merged = "merged"
status_name failed = "failed"
status_name rejected = "rejected"
status_name conflicted = "conflicted"

-- The statements, on the world.
unfoldable pub put : String → (Item → Item) → World → World
put id f w = record w { items = update_item id f w.items }

-- shouldIndexMergeStatus
abbrev pub is_indexed : MergeStatus → Bool
is_indexed merged = true
is_indexed failed = true
is_indexed rejected = true
is_indexed conflicted = true
is_indexed _ = false

-- What SetStatus indexes: the task of the row that it reads again.
abbrev pub index_item : MergeStatus → Option Item → List Event
index_item s none = []
index_item s (some i) = if is_indexed s then indexed i.task_id ∷ [] else []

unfoldable pub put_status : ℕ → String → MergeStatus → World → World
put_status now id s w =
    let items = update_item id (set_status now s) w.items in
    record w { items = items; events = w.events ++ index_item s (get_item items id) }

-- TaskSetStatus; `done`, `failed`, `merged` and `closed` are indexed (shouldIndexTaskStatus).
abbrev pub is_task_indexed : TaskStatus → Bool
is_task_indexed TaskStatus.done = true
is_task_indexed TaskStatus.failed = true
is_task_indexed TaskStatus.merged = true
is_task_indexed TaskStatus.closed = true
is_task_indexed _ = false

abbrev pub put_task_status : ℕ → String → TaskStatus → World → World
put_task_status now id s w =
    let w' = record w { tasks = update_task id (task_set_status now s) w.tasks } in
    if is_task_indexed s then log (indexed id) w' else w'

-- The row that TaskCreate inserts, without a plan, template or runtime.
abbrev pub new_task : ℕ → String → String → ℤ → Task
new_task now id repo_id priority = record {
  id = id;
  repo_id = repo_id;
  template = "";
  priority = priority;
  status = TaskStatus.pending;
  retry_count = pos 0;
  current_step = "";
  step_attempts = [];
  created_at = now;
  updated_at = now;
  started_at = none;
  completed_at = none;
}

-- TaskCreate, `none` where the id is taken.
insert_task : Option Task → Task → World → Option World
insert_task (some _) t w = none
insert_task none t w = some (record w { tasks = w.tasks ++ t ∷ [] })

task_create : Task → World → Option World
unfolding insert_task
task_create t w = insert_task (get_task w.tasks t.id) t w

-- `updated != nil && updated.AttemptCount >= maxAttempts`
abbrev pub is_spent : ℤ → Option Item → Bool
is_spent max none = false
is_spent max (some i) = leb_ℤ max (pos i.attempt_count)

-- `updated != nil && updated.AttemptCount < maxAttempts`
abbrev pub has_attempts : ℤ → Option Item → Bool
has_attempts max none = false
has_attempts max (some i) = ltb_ℤ (pos i.attempt_count) max

module _ (p : Processor) (item : Item) where
  pub fail_item : String → World → World
  unfolding put put_status
  fail_item reason w =
      let w1 = put item.id incr_attempt (put item.id (set_failure_log reason) w) in
      if has_attempts p.max_attempts (get_item w1.items item.id)
      then put_status p.now item.id queued w1
      else log (actuation item.id "merge.process" (status_name item.status) "failed" "failed") (
          log (decision item.id "merge_processing_failed" "mark_failed" false)
            (put_status p.now item.id failed w1))

  pub requeue_or_reject : World → World
  unfolding put put_status
  requeue_or_reject w =
      let w1 = put item.id incr_attempt w in
      if is_spent p.max_attempts (get_item w1.items item.id)
      then log (actuation item.id "merge.verify" "verifying" "rejected" "failed") (
          log (decision item.id "merge_verify_failed" "reject_item" false)
            (put_status p.now item.id rejected w1))
      else log (traced item.task_id "merge.verify_failed") (
          log (actuation item.id "merge.verify" "verifying" "failed" "failed") (
            log (decision item.id "merge_verify_failed" "redispatch_task" true) (
              put_status p.now item.id failed
                (put_task_status p.now item.task_id TaskStatus.pending w1))))

  -- A conflict-resolver task takes the item over.
  spawn_resolver : String → Option World → World → World
  unfolding put put_status
  spawn_resolver conflict_log none w = w
  spawn_resolver conflict_log (some w1) w = log (traced item.task_id "merge.conflicted") (
      put_status p.now item.id conflicted (
        put item.id (set_failure_log conflict_log) (put item.id (set_conflict_task p.fresh_id) w1)))

  -- What follows the classification; `semantic_log` is the failure log of a semantic conflict.
  handle_class : ConflictClass → Repo → String → String → World → World
  unfolding put put_status spawn_resolver task_create
  handle_class semantic repo conflict_log semantic_log w =
      log (traced item.task_id "merge.semantic_conflict_rejected") (
        put_task_status p.now item.task_id TaskStatus.pending
          (put_status p.now item.id rejected (put item.id (set_failure_log semantic_log) w)))
  handle_class trivial repo conflict_log semantic_log w =
      let w1 = put item.id incr_attempt w in
      if is_spent p.max_attempts (get_item w1.items item.id)
      then put_status p.now item.id rejected (put item.id (set_failure_log conflict_log) w1)
      else spawn_resolver conflict_log
          (task_create (new_task p.now p.fresh_id repo.id item.priority) w1) w1

  handle_conflict : Repo → String → String → World → World
  unfolding handle_class
  handle_conflict repo conflict_log semantic_log w =
      handle_class (p.classify conflict_log) repo conflict_log semantic_log
        (log (traced item.task_id "merge.conflict_classified") w)

module _ (p : Processor) (git : Git) (item : Item) (repo : Repo) where
  push_step : World → World
  unfolding put
  push_step w =
      if repo.auto_push && not git.pushed
      then log (actuation item.id "merge.push_target" "local" "origin" "failed")
          (put item.id (set_failure_log git.push_log) w)
      else w

  finish : RebaseResult → String → World → World
  unfolding put put_status push_step
  finish result path w = log (traced item.task_id "merge.merged") (
      log (actuation item.id "merge.complete" "merging" "merged" "success") (
        put_task_status p.now item.task_id TaskStatus.merged (
          put_status p.now item.id merged (
            put item.id (set_merge_sha result.rebased_sha)
              (log (deleted_branch item.branch) (log (removed_worktree path) (push_step w)))))))

  advance_step : RebaseResult → String → World → World
  unfolding put put_status finish
  advance_step result path w =
      let w1 =
        log (decision item.id "merge_ready" "advance_target" false)
          (put_status p.now item.id merging w) in
      if git.advanced
      then finish result path (
          log
            (actuation item.id "merge.advance_target" result.target_sha result.rebased_sha
              "success")
            w1)
      else log (actuation item.id "merge.advance_target" "merging" "queued" "failed") (
          put_status p.now item.id queued
            (put item.id incr_attempt (log (removed_worktree path) w1)))

  verify_step : RebaseResult → String → World → World
  unfolding put put_status advance_step requeue_or_reject
  verify_step result path w =
      if repo.verify_command == ""
      then advance_step result path w
      else let w1 = put_status p.now item.id verifying w in
        if git.verified
        then advance_step result path w1
        else requeue_or_reject p item
            (put item.id (set_failure_log git.verify_log) (log (removed_worktree path) w1))

  rebase_step : String → Option RebaseResult → World → World
  unfolding put verify_step handle_conflict fail_item
  rebase_step path none w = fail_item p item git.rebase_log (log (removed_worktree path) w)
  rebase_step path (some result) w =
      if result.conflict_log == ""
      then verify_step result path w
      else handle_conflict p item repo result.conflict_log git.rebase_log (
          log (decision item.id "merge_conflict" "classify_conflict" true)
            (put item.id (set_worktree_path "") (log (removed_worktree path) w)))

  worktree_step : Option String → World → World
  unfolding put rebase_step fail_item
  worktree_step none w = fail_item p item git.worktree_log w
  worktree_step (some path) w = rebase_step path git.rebase (
      log (actuation item.id "merge.create_worktree" "rebasing" "rebasing" "success")
        (put item.id (set_worktree_path path) w))

  pub process_item : World → World
  unfolding put_status worktree_step
  process_item w =
      let w1 = log (decision item.id "merge_attempt" "process_item" true) w in
      if git.made_directory
      then worktree_step git.worktree (put_status p.now item.id rebasing w1)
      else w1
