-- ===== src/Merge/Process/Machine.antt =====
-- The merge queue as a state machine of one row: what one call of processItem makes of the row that
-- it works on, with the tables and the log left out.
use clankwork.Base.{String, not, ◌&&◌, Option, none, some, ◌==◌, if◌then◌else◌}
use clankwork.Base.Int.{pos, leb_ℤ, ltb_ℤ}
use clankwork.Merge.{
  queued, rebasing, verifying, merging, merged, failed, rejected, conflicted, Item, Repo,
}
use clankwork.Merge.Table.{
  set_status, set_merge_sha, set_failure_log, set_worktree_path, set_conflict_task, incr_attempt,
}
use clankwork.Merge.Process.{ConflictClass, trivial, semantic, RebaseResult, Git, Processor}

abbrev pub failed_row : Processor → String → Item → Item
failed_row p reason i =
    let j = incr_attempt (set_failure_log reason i) in
    if ltb_ℤ (pos j.attempt_count) p.max_attempts
    then set_status p.now queued j
    else set_status p.now failed j

abbrev pub unverified_row : Processor → Item → Item
unverified_row p i =
    let j = incr_attempt i in
    if leb_ℤ p.max_attempts (pos j.attempt_count)
    then set_status p.now rejected j
    else set_status p.now failed j

-- By the class of the conflict, with the text of a semantic one.
abbrev pub conflicted_row : Processor → ConflictClass → String → String → Item → Item
conflicted_row p semantic conflict_log semantic_log i =
    set_status p.now rejected (set_failure_log semantic_log i)
conflicted_row p trivial conflict_log semantic_log i =
    let j = incr_attempt i in
    if leb_ℤ p.max_attempts (pos j.attempt_count)
    then set_status p.now rejected (set_failure_log conflict_log j)
    else set_status p.now conflicted (set_failure_log conflict_log (set_conflict_task p.fresh_id j))

abbrev pub pushed_row : Git → Repo → Item → Item
pushed_row git repo i =
    if repo.auto_push && not git.pushed then set_failure_log git.push_log i else i

abbrev pub advanced_row : Processor → Git → Repo → RebaseResult → Item → Item
advanced_row p git repo result i =
    let j = set_status p.now merging i in
    if git.advanced
    then set_status p.now merged (set_merge_sha result.rebased_sha (pushed_row git repo j))
    else set_status p.now queued (incr_attempt j)

abbrev pub verified_row : Processor → Git → Repo → RebaseResult → Item → Item
verified_row p git repo result i =
    if repo.verify_command == ""
    then advanced_row p git repo result i
    else let j = set_status p.now verifying i in
      if git.verified
      then advanced_row p git repo result j
      else unverified_row p (set_failure_log git.verify_log j)

abbrev pub rebased_row : Processor → Git → Repo → Option RebaseResult → Item → Item
rebased_row p git repo none i = failed_row p git.rebase_log i
rebased_row p git repo (some result) i =
    if result.conflict_log == ""
    then verified_row p git repo result i
    else conflicted_row p (p.classify result.conflict_log) result.conflict_log git.rebase_log
        (set_worktree_path "" i)

abbrev pub worktree_row : Processor → Git → Repo → Option String → Item → Item
worktree_row p git repo none i = failed_row p git.worktree_log i
worktree_row p git repo (some path) i = rebased_row p git repo git.rebase (set_worktree_path path i)

unfoldable pub processed_row : Processor → Git → Repo → Item → Item
processed_row p git repo i =
    if git.made_directory
    then worktree_row p git repo git.worktree (set_status p.now rebasing i)
    else i
