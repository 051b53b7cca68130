-- ===== src/Merge/Requeue/Examples.antt =====
-- A conflicted item whose resolver ends, and a restart.
use clankwork.Base.{◌≢◌, String, ◌≡◌, refl, false, none, some, [], ◌∷◌}
use clankwork.Base.Int.{pos}
use clankwork.Tasks.{TaskStatus, Task}
use clankwork.Merge.{queued, conflicted, rebasing, Item, World}
use clankwork.Merge.Table.{get_item}
use clankwork.Merge.Table.Examples.{first_item, urgent_item}
use clankwork.Merge.Requeue.{
  now_rejected, now_queued, handle_queue_skip, handle_queue_retry, Surroundings,
  enqueue_if_auto_merge, handle_conflict_failed, startup_recovery,
}
use clankwork.Merge.Requeue.Endpoints.{skipped_then_retried}
use clankwork.Merge.Requeue.Laws.{ReleasedBy, resolver_over}
use clankwork.Merge.Requeue.Reset.{Idle}
use clankwork.Merge.Requeue.Recovery.{startup_recovery-Idle}

abbrev around : Surroundings
around = record {
  now = 70;
  home_dir = "/home";
  repos = [];
  load = λ name repo home. none;
  resolver_worktree = λ id. some "/home/worktrees/c1";
  is_merged_into = λ r i. false;
  fresh_id = λ id. "m9";
}

abbrev stuck_item : Item
stuck_item = record first_item {
  status = conflicted;
  attempt_count = 1;
  conflict_task_id = some "c1";
}

abbrev done_resolver : Task
done_resolver = record {
  id = "c1";
  repo_id = "r1";
  template = "";
  priority = pos 0;
  status = TaskStatus.done;
  retry_count = pos 0;
  current_step = "";
  step_attempts = [];
  created_at = 50;
  updated_at = 60;
  started_at = some 51;
  completed_at = some 60;
}

abbrev when_resolved : World
when_resolved = record {
  items = stuck_item ∷ urgent_item ∷ [];
  tasks = done_resolver ∷ [];
  events = [];
}

resolver_over_example :
    ReleasedBy TaskStatus.done "c1" stuck_item when_resolved
      (enqueue_if_auto_merge around "c1" when_resolved)
    × ReleasedBy TaskStatus.failed "c1" stuck_item when_resolved
        (handle_conflict_failed around "c1" when_resolved)
resolver_over_example = resolver_over around when_resolved stuck_item "c1" refl refl refl

abbrev after_crash : World
after_crash = record {
  items = record first_item { status = rebasing } ∷ stuck_item ∷ [];
  tasks = done_resolver ∷ [];
  events = [];
}

startup_recovery-Idle_example : Idle (startup_recovery around after_crash).items
startup_recovery-Idle_example = startup_recovery-Idle around after_crash

abbrev one_waits : World
one_waits = record { items = urgent_item ∷ []; tasks = []; events = [] }

m2_ne_empty : ◌≢◌ {A = String} "m2" ""
m2_ne_empty p = cc

skipped_then_retried_example :
    let skip = handle_queue_skip 80 "m2" one_waits in
    let retry = handle_queue_retry 90 "m2" skip.0 in
    (skip.1 ≡ now_rejected "m2")
    × (retry.1 ≡ now_queued "m2")
    × (get_item retry.0.items "m2"
        ≡ some (record urgent_item { status = queued; failure_log = ""; completed_at = some 80 }))
skipped_then_retried_example =
    skipped_then_retried 80 90 one_waits urgent_item refl m2_ne_empty refl
