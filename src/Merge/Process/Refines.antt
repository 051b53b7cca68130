-- ===== src/Merge/Process/Refines.antt =====
-- processItem is the machine on its row, and leaves every other row alone.
use clankwork.Base.{
  ◌+◌, ◌≡◌, refl, inl, inr, String, not, ◌&&◌, Option, none, some, List, [], ◌∷◌, ◌++◌, ◌==◌, arith,
  Bool-cases, ℕ,
}
use clankwork.Base.Int.{pos, leb_ℤ, ltb_ℤ}
use clankwork.Tasks.{TaskStatus, Task}
use clankwork.Merge.{
  MergeStatus, queued, rebasing, verifying, merging, merged, failed, rejected, conflicted, Item,
  Repo, World, get_task,
}
use clankwork.Merge.Table.{
  get_item, update_item, set_status, set_merge_sha, set_failure_log, set_worktree_path,
  set_conflict_task, incr_attempt,
}
use clankwork.Merge.Table.Laws.{get_item-update_item}
use clankwork.Merge.Process.{
  trivial, semantic, ConflictClass, RebaseResult, Git, Processor, put, put_status, fail_item,
  requeue_or_reject, spawn_resolver, handle_class, handle_conflict, push_step, new_task,
  insert_task, task_create, put_task_status, task_create, finish, advance_step, verify_step,
  rebase_step, worktree_step, process_item,
}
use clankwork.Merge.Process.Machine.{
  failed_row, unverified_row, conflicted_row, pushed_row, advanced_row, verified_row, rebased_row,
  worktree_row, processed_row,
}

-- The row with an id is there, and is this.
HasRow : List Item → String → Item → Type 0
HasRow l id i = get_item l id ≡ some i

row_of_get : (l : List Item) (id : String) (i : Item) → get_item l id ≡ some i → HasRow l id i
unfolding HasRow
row_of_get l id i h = h

get_of_row : (l : List Item) (id : String) (i : Item) → HasRow l id i → get_item l id ≡ some i
unfolding HasRow
get_of_row l id i h = h

updated :
    (l : List Item) (id : String) (i : Item) (f : Item → Item)
    → ((x : Item) → (f x).id ≡ x.id)
    → HasRow l id i
    → HasRow (update_item id f l) id (f i)
unfolding HasRow
updated l id i f keep h = get_item-update_item id f l i keep h

set_status-id : (now : ℕ) (s : MergeStatus) (x : Item) → (set_status now s x).id ≡ x.id
set_status-id now s x = ground arith

moved_to :
    (now : ℕ) (s : MergeStatus) (l : List Item) (id : String) (i : Item)
    → HasRow l id i
    → HasRow (update_item id (set_status now s) l) id (set_status now s i)
moved_to now s l id i h = updated l id i (set_status now s) (set_status-id now s) h

task_create-fresh :
    (t : Task) (w : World)
    → get_task w.tasks t.id ≡ none
    → task_create t w ≡ some (record w { tasks = w.tasks ++ t ∷ [] })
unfolding task_create insert_task
task_create-fresh t w h = rw h

module _ (p : Processor) (item : Item) where
  fail_item_row :
      (reason : String) (w : World) (i : Item)
      → HasRow w.items item.id i
      → HasRow (fail_item p item reason w).items item.id (failed_row p reason i)
  unfolding fail_item put put_status
  fail_item_row reason w i h =
      let w1 = put item.id (set_failure_log reason) w in
      let w2 = put item.id incr_attempt w1 in
      let i2 = incr_attempt (set_failure_log reason i) in
      let k =
        updated _ item.id (set_failure_log reason i) incr_attempt (λ x. refl)
          (updated _ item.id i (set_failure_log reason) (λ x. refl) h) in
      elim (Bool-cases (ltb_ℤ (pos (i.attempt_count + 1)) p.max_attempts)) [
        | inl b ↦ rw (get_of_row _ _ _ k, b) (moved_to p.now queued _ item.id i2 k)
        | inr b ↦ rw (get_of_row _ _ _ k, b) (moved_to p.now failed _ item.id i2 k)
      ]

  requeue_or_reject_row :
      (w : World) (i : Item)
      → HasRow w.items item.id i
      → HasRow (requeue_or_reject p item w).items item.id (unverified_row p i)
  unfolding requeue_or_reject put put_status
  requeue_or_reject_row w i h =
      let w1 = put item.id incr_attempt w in
      let w2 = put_task_status p.now item.task_id TaskStatus.pending w1 in
      let k = updated _ item.id i incr_attempt (λ x. refl) h in
      elim (Bool-cases (leb_ℤ p.max_attempts (pos (i.attempt_count + 1)))) [
        | inl b ↦ rw (get_of_row _ _ _ k, b) (moved_to p.now rejected _ item.id (incr_attempt i) k)
        | inr b ↦ rw (get_of_row _ _ _ k, b) (moved_to p.now failed _ item.id (incr_attempt i) k)
      ]

  spawn_resolver_row :
      (repo : Repo) (conflict_log : String) (w : World) (i : Item)
      → get_task w.tasks p.fresh_id ≡ none
      → HasRow w.items item.id i
      → HasRow
          (spawn_resolver p item conflict_log
            (task_create (new_task p.now p.fresh_id repo.id item.priority) w)
            w).items
          item.id
          (set_status p.now conflicted
            (set_failure_log conflict_log (set_conflict_task p.fresh_id i)))
  unfolding spawn_resolver put put_status
  spawn_resolver_row repo conflict_log w i fresh h =
      rw (task_create-fresh (new_task p.now p.fresh_id repo.id item.priority) w fresh) (
        moved_to p.now conflicted _ item.id
          (set_failure_log conflict_log (set_conflict_task p.fresh_id i))
          (updated _ item.id (set_conflict_task p.fresh_id i) (set_failure_log conflict_log)
            (λ x. refl) (updated _ item.id i (set_conflict_task p.fresh_id) (λ x. refl) h)))

  handle_class_row :
      (c : ConflictClass) (repo : Repo) (conflict_log semantic_log : String) (w : World) (i : Item)
      → get_task w.tasks p.fresh_id ≡ none
      → HasRow w.items item.id i
      → HasRow
          (handle_class p item c repo conflict_log semantic_log w).items
          item.id
          (conflicted_row p c conflict_log semantic_log i)
  unfolding handle_class put put_status
  handle_class_row semantic repo conflict_log semantic_log w i fresh h =
      moved_to p.now rejected _ item.id (set_failure_log semantic_log i)
        (updated _ item.id i (set_failure_log semantic_log) (λ x. refl) h)
  handle_class_row trivial repo conflict_log semantic_log w i fresh h =
      let w1 = put item.id incr_attempt w in
      let k = updated _ item.id i incr_attempt (λ x. refl) h in
      elim (Bool-cases (leb_ℤ p.max_attempts (pos (i.attempt_count + 1)))) [
        | inl b ↦
            rw (get_of_row _ _ _ k, b)
              (moved_to p.now rejected _ item.id (set_failure_log conflict_log (incr_attempt i))
                (updated _ item.id (incr_attempt i) (set_failure_log conflict_log) (λ x. refl) k))
        | inr b ↦
            rw (get_of_row _ _ _ k, b)
              (spawn_resolver_row repo conflict_log w1 (incr_attempt i) fresh k)
      ]

module _ (p : Processor) (git : Git) (item : Item) (repo : Repo) where
  push_step_row :
      (w : World) (i : Item)
      → HasRow w.items item.id i
      → HasRow (push_step p git item repo w).items item.id (pushed_row git repo i)
  unfolding push_step put put_status
  push_step_row w i h = elim (Bool-cases (repo.auto_push && not git.pushed)) [
    | inl b ↦ rw b (updated _ item.id i (set_failure_log git.push_log) (λ x. refl) h)
    | inr b ↦ rw b h
  ]

  advance_step_row :
      (result : RebaseResult) (path : String) (w : World) (i : Item)
      → HasRow w.items item.id i
      → HasRow
          (advance_step p git item repo result path w).items
          item.id
          (advanced_row p git repo result i)
  unfolding advance_step finish put put_status
  advance_step_row result path w i h =
      let i1 = set_status p.now merging i in
      let k = moved_to p.now merging _ item.id i h in
      elim (Bool-cases git.advanced) [
        | inl b ↦ rw b (
            moved_to p.now merged _ item.id
              (set_merge_sha result.rebased_sha (pushed_row git repo i1))
              (updated _ item.id (pushed_row git repo i1) (set_merge_sha result.rebased_sha)
                (λ x. refl) (push_step_row _ i1 k)))
        | inr b ↦ rw b (
            moved_to p.now queued _ item.id (incr_attempt i1)
              (updated _ item.id i1 incr_attempt (λ x. refl) k))
      ]

  verify_step_row :
      (result : RebaseResult) (path : String) (w : World) (i : Item)
      → HasRow w.items item.id i
      → HasRow
          (verify_step p git item repo result path w).items
          item.id
          (verified_row p git repo result i)
  unfolding verify_step put put_status
  verify_step_row result path w i h =
      let i1 = set_status p.now verifying i in
      let k = moved_to p.now verifying _ item.id i h in
      elim (Bool-cases (repo.verify_command == "")) [
        | inl c ↦ rw c (advance_step_row result path w i h)
        | inr c ↦ elim (Bool-cases git.verified) [
          | inl b ↦ rw (c, b) (advance_step_row result path _ i1 k)
          | inr b ↦
              rw (c, b)
                (requeue_or_reject_row p item _ (set_failure_log git.verify_log i1)
                  (updated _ item.id i1 (set_failure_log git.verify_log) (λ x. refl) k))
        ]
      ]

  rebase_step_row :
      (path : String) (o : Option RebaseResult) (w : World) (i : Item)
      → get_task w.tasks p.fresh_id ≡ none
      → HasRow w.items item.id i
      → HasRow (rebase_step p git item repo path o w).items item.id (rebased_row p git repo o i)
  unfolding rebase_step handle_conflict put put_status
  rebase_step_row path none w i fresh h = fail_item_row p item git.rebase_log _ i h
  rebase_step_row path (some result) w i fresh h = elim (Bool-cases (result.conflict_log == "")) [
    | inl c ↦ rw c (verify_step_row result path w i h)
    | inr c ↦ rw c (
        handle_class_row p item (p.classify result.conflict_log) repo result.conflict_log
          git.rebase_log _ (set_worktree_path "" i) fresh
          (updated _ item.id i (set_worktree_path "") (λ x. refl) h))
  ]

  worktree_step_row :
      (o : Option String) (w : World) (i : Item)
      → get_task w.tasks p.fresh_id ≡ none
      → HasRow w.items item.id i
      → HasRow (worktree_step p git item repo o w).items item.id (worktree_row p git repo o i)
  unfolding worktree_step put put_status
  worktree_step_row none w i fresh h = fail_item_row p item git.worktree_log w i h
  worktree_step_row (some path) w i fresh h =
      rebase_step_row path git.rebase _ (set_worktree_path path i) fresh
        (updated _ item.id i (set_worktree_path path) (λ x. refl) h)

-- The row that a call works on becomes what the machine makes of it, whatever git answers, if the
-- generated id is no task's.
pub process_item-refines :
    (p : Processor) (git : Git) (item : Item) (repo : Repo) (w : World) (i : Item)
    → get_task w.tasks p.fresh_id ≡ none
    → get_item w.items item.id ≡ some i
    → get_item (process_item p git item repo w).items item.id ≡ some (processed_row p git repo i)
unfolding process_item processed_row put_status
process_item-refines p git item repo w i fresh h =
    let k = row_of_get w.items item.id i h in
    elim (Bool-cases git.made_directory) [
      | inl b ↦ rw b (
          get_of_row _ _ _ (
            worktree_step_row p git item repo git.worktree _ (set_status p.now rebasing i) fresh
              (moved_to p.now rebasing _ item.id i k)))
      | inr b ↦ rw b h
    ]
