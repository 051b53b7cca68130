-- ===== src/Merge/Requeue.antt =====
-- How items come into the queue and back to it: EnqueueIfAutoMerge, HandleConflictFailed and
-- StartupRecovery of internal/mergequeue/processor.go, and handleQueueSkip and handleQueueRetry of
-- internal/api/queue.go. What the template loader, git and the file system answer, the ids that are
-- generated, and the time, are arguments. The statements on the database succeed.
pub mod Laws
pub mod Reset
pub mod Recovery
pub mod Endpoints
pub mod Examples
use Prim.Native.String.{◌++◌ as concat}
use clankwork.Base.{
  ℕ, String, Bool, true, false, not, ◌&&◌, ◌||◌, Option, none, some, List, [], ◌∷◌, ◌==◌,
  if◌then◌else◌,
}
use clankwork.Tasks.{TaskStatus, Task}
use clankwork.Workflow.{Template}
use clankwork.Merge.{
  MergeStatus, queued, failed, rejected, conflicted, merged, Item, Repo, traced, decision,
  actuation, removed_worktree, pruned, World, is_conflicted, is_terminal, get_task, log,
}
use clankwork.Merge.Table.{
  get_item, get_by_conflict_task, new_item, enqueue, set_failure_log, set_worktree_path,
  reset_stuck, find_stuck_conflicted,
}
use clankwork.Merge.Process.{put, put_status, put_task_status, status_name}

pub record Surroundings : Type 0 where
  pub now : ℕ
  pub home_dir : String
  pub repos : List Repo
  -- Load, of a name, a repository's path, and a home directory; `none` is an error
  pub load : String → String → String → Option Template
  -- the path of a resolver task's worktree, if it is there
  pub resolver_worktree : String → Option String
  -- git merge-base --is-ancestor
  pub is_merged_into : Repo → Item → Bool
  -- the id that is generated for a task's item
  pub fresh_id : String → String

abbrev pub get_repo : List Repo → String → Option Repo
get_repo [] id = none
get_repo (r ∷ rest) id = if r.id == id then some r else get_repo rest id

abbrev pub is_done : TaskStatus → Bool
is_done TaskStatus.done = true
is_done _ = false

abbrev pub has_failed : TaskStatus → Bool
has_failed TaskStatus.failed = true
has_failed _ = false

-- A resolver's task is over.
abbrev pub is_over : TaskStatus → Bool
is_over TaskStatus.failed = true
is_over TaskStatus.done = true
is_over TaskStatus.merged = true
is_over _ = false

abbrev pub auto_merges : Option Template → Bool
auto_merges none = false
auto_merges (some t) = t.auto_merge

-- A worktree is removed if its repository is known.
abbrev pub remove_in : Option Repo → String → World → World
remove_in none path w = w
remove_in (some r) path w = log (removed_worktree path) w

abbrev pub clean_resolver : Option String → Option Repo → World → World
clean_resolver none repo w = w
clean_resolver (some path) repo w = remove_in repo path w

abbrev pub put_enqueued : Option (List Item) → World → World
put_enqueued none w = w
put_enqueued (some items) w = record w { items = items }

abbrev pub target_of : Repo → String
target_of r = if r.target_branch == "" then "main" else r.target_branch

enqueue_in : Surroundings → Task → Option Repo → World → World
enqueue_in env t none w = w
enqueue_in env t (some r) w =
    put_enqueued
      (enqueue
        (new_item env.now (env.fresh_id t.id) t.id t.repo_id (concat "clankwork/" t.id)
          (target_of r) t.priority)
        w.items)
      w

-- The end of EnqueueIfAutoMerge, and the body of StartupRecovery's loop over stranded tasks, which
-- names no home directory.
enqueue_task : Surroundings → String → Task → World → World
unfolding enqueue_in
enqueue_task env home t w =
    if t.repo_id == "" || t.template == ""
    then w
    else if not (auto_merges (env.load t.template "" home))
    then w
    else enqueue_in env t (get_repo env.repos t.repo_id) w

complete_task : Surroundings → Task → Option Item → World → World
unfolding enqueue_task
complete_task env t none w = enqueue_task env env.home_dir t w
complete_task env t (some m) w =
    if is_conflicted m.status
    then log (traced m.task_id "merge.conflict_resolved") (
        put_status env.now m.id queued
          (clean_resolver (env.resolver_worktree t.id) (get_repo env.repos m.repo_id) w))
    else enqueue_task env env.home_dir t w

when_done : Surroundings → Option Task → World → World
unfolding complete_task
when_done env none w = w
when_done env (some t) w =
    if is_done t.status then complete_task env t (get_by_conflict_task w.items t.id) w else w

pub enqueue_if_auto_merge : Surroundings → String → World → World
unfolding when_done
enqueue_if_auto_merge env task_id w = when_done env (get_task w.tasks task_id) w

requeue_parent : Surroundings → String → Option Item → World → World
requeue_parent env task_id none w = w
requeue_parent env task_id (some m) w =
    if is_conflicted m.status
    then log (traced m.task_id "merge.conflict_resolver_failed") (
        log (actuation m.id "merge.conflict_resolver" "conflicted" "queued" "success") (
          log (decision m.id "merge_conflict_resolver_failed" "requeue_parent" true) (
            put_status env.now m.id queued
              (clean_resolver (env.resolver_worktree task_id) (get_repo env.repos m.repo_id) w))))
    else w

when_failed : Surroundings → String → Option Task → World → World
unfolding requeue_parent
when_failed env task_id none w = w
when_failed env task_id (some t) w =
    if has_failed t.status
    then requeue_parent env task_id (get_by_conflict_task w.items task_id) w
    else w

pub handle_conflict_failed : Surroundings → String → World → World
unfolding when_failed
handle_conflict_failed env task_id w = when_failed env task_id (get_task w.tasks task_id) w

-- What a request is answered.
pub data Reply : Type 0 where
  missing_id not_found not_skippable not_retryable : Reply
  now_rejected now_queued : String → Reply

abbrev pub is_skippable : MergeStatus → Bool
is_skippable queued = true
is_skippable conflicted = true
is_skippable failed = true
is_skippable _ = false

abbrev pub is_retryable : MergeStatus → Bool
is_retryable failed = true
is_retryable rejected = true
is_retryable conflicted = true
is_retryable _ = false

skip_item : ℕ → Option Item → World → World × Reply
skip_item now none w = (w, not_found)
skip_item now (some i) w =
    if is_skippable i.status
    then (
      log (actuation i.id "queue.skip" (status_name i.status) "rejected" "success")
          (put_status now i.id rejected w),
      now_rejected i.id,
    )
    else (w, not_skippable)

pub handle_queue_skip : ℕ → String → World → World × Reply
unfolding skip_item
handle_queue_skip now id w =
    if id == "" then (w, missing_id) else skip_item now (get_item w.items id) w

retry_item : ℕ → Option Item → World → World × Reply
retry_item now none w = (w, not_found)
retry_item now (some i) w =
    if is_retryable i.status
    then (
      log (actuation i.id "queue.retry" (status_name i.status) "queued" "success")
          (put_status now i.id queued (put i.id (set_failure_log "") w)),
      now_queued i.id,
    )
    else (w, not_retryable)

pub handle_queue_retry : ℕ → String → World → World × Reply
unfolding retry_item
handle_queue_retry now id w =
    if id == "" then (w, missing_id) else retry_item now (get_item w.items id) w

-- An item that a crash left at work: merged if its branch is, and else queued again.
reset_one : Surroundings → Item → Option Repo → World → World
reset_one env i repo w =
    if elim repo [ none ↦ false | some r ↦ env.is_merged_into r i ]
    then put_task_status env.now i.task_id TaskStatus.merged (put_status env.now i.id merged w)
    else put_status env.now i.id queued (
        if i.worktree_path == ""
        then w
        else put i.id (set_worktree_path "") (remove_in repo i.worktree_path w))

pub reset_all : Surroundings → List Item → World → World
unfolding reset_one
reset_all env [] w = w
reset_all env (i ∷ rest) w = reset_all env rest (reset_one env i (get_repo env.repos i.repo_id) w)

-- MergeQueueFindStrandedDone: done, with a template, and without a row that is not failed or
-- rejected.
abbrev pub has_live : List Item → String → Bool
has_live [] task_id = false
has_live (i ∷ rest) task_id =
    (i.task_id == task_id && not (is_terminal i.status)) || has_live rest task_id

pub find_stranded_done : List Item → List Task → List Task
find_stranded_done items [] = []
find_stranded_done items (t ∷ rest) =
    let more = find_stranded_done items rest in
    if is_done t.status && not (t.template == "") && not (has_live items t.id)
    then t ∷ more
    else more

enqueue_all : Surroundings → List Task → World → World
unfolding enqueue_task
enqueue_all env [] w = w
enqueue_all env (t ∷ rest) w = enqueue_all env rest (enqueue_task env "" t w)

release : Surroundings → Item → Option Task → World → World
release env i none w = w
release env i (some t) w =
    if is_over t.status
    then put_status env.now i.id queued
        (clean_resolver (env.resolver_worktree t.id) (get_repo env.repos i.repo_id) w)
    else w

release_one : Surroundings → Item → Option String → World → World
unfolding release
release_one env i none w = w
release_one env i (some task_id) w = release env i (get_task w.tasks task_id) w

release_all : Surroundings → List Item → World → World
unfolding release_one
release_all env [] w = w
release_all env (i ∷ rest) w = release_all env rest (release_one env i i.conflict_task_id w)

prune_all : List Repo → World → World
prune_all [] w = w
prune_all (r ∷ rest) w = prune_all rest (log (pruned r.path) w)

pub startup_recovery : Surroundings → World → World
unfolding reset_all find_stranded_done enqueue_all release_all prune_all
startup_recovery env w =
    let w1 = reset_all env (reset_stuck w.items) w in
    let w2 = enqueue_all env (find_stranded_done w1.items w1.tasks) w1 in
    let w3 = release_all env (find_stuck_conflicted w2.items) w2 in prune_all env.repos w3
