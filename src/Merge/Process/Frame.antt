-- ===== src/Merge/Process/Frame.antt =====
-- processItem writes to no row but its own, and never to a row's id or task.
use clankwork.Base.{
  ◌≡◌, ◌≢◌, ◌∙◌, refl, inl, inr, String, not, ◌&&◌, Option, none, some, List, ◌==◌, arith,
  Bool-cases, ℕ,
}
use clankwork.Merge.{
  MergeStatus, queued, rebasing, verifying, merging, merged, failed, rejected, conflicted, Item,
  Repo, World, get_task,
}
use clankwork.Merge.Table.{
  get_item, update_item, set_status, set_merge_sha, set_failure_log, set_worktree_path,
  set_conflict_task, incr_attempt,
}
use clankwork.Merge.Table.Laws.{get_item-update_other}
use clankwork.Merge.Table.Rows.{IsTable, IsTable-update_item}
use clankwork.Merge.Process.{
  trivial, semantic, ConflictClass, RebaseResult, Git, Processor, put, put_status, has_attempts,
  is_spent, new_task, insert_task, task_create, fail_item, requeue_or_reject, spawn_resolver,
  handle_class, handle_conflict, push_step, finish, advance_step, verify_step, rebase_step,
  worktree_step, process_item,
}

-- Updates of the row with an id, that keep its id and task.
pub data Changed (id : String) (l : List Item) : List Item → Type 0 where
  same : Changed id l l
  more :
      {m : List Item} (f : Item → Item)
      → ((x : Item) → (f x).id ≡ x.id)
      → ((x : Item) → (f x).task_id ≡ x.task_id)
      → Changed id l m
      → Changed id l (update_item id f m)

pub Changed-other :
    (id j : String) (l : List Item) {m : List Item}
    → j ≢ id
    → Changed id l m
    → get_item m j ≡ get_item l j
Changed-other id j l ne same = refl
Changed-other id j l ne (more {m} f ki kt c) =
    get_item-update_other id j f m ki ne ∙ Changed-other id j l ne c

pub Changed-IsTable :
    (id : String) (l : List Item) {m : List Item} → IsTable l → Changed id l m → IsTable m
Changed-IsTable id l t same = t
Changed-IsTable id l t (more {m} f ki kt c) =
    IsTable-update_item id f m ki kt (Changed-IsTable id l t c)

module _ (id : String) (l : List Item) where
  status :
      (now : ℕ) (s : MergeStatus) {m : List Item}
      → Changed id l m
      → Changed id l (update_item id (set_status now s) m)
  status now s c = more (set_status now s) (λ x. ground arith) (λ x. ground arith) c

  text :
      (s : String) {m : List Item}
      → Changed id l m
      → Changed id l (update_item id (set_failure_log s) m)
  text s c = more (set_failure_log s) (λ x. refl) (λ x. refl) c

  path :
      (s : String) {m : List Item}
      → Changed id l m
      → Changed id l (update_item id (set_worktree_path s) m)
  path s c = more (set_worktree_path s) (λ x. refl) (λ x. refl) c

  attempt : {m : List Item} → Changed id l m → Changed id l (update_item id incr_attempt m)
  attempt c = more incr_attempt (λ x. refl) (λ x. refl) c

module _ (p : Processor) (item : Item) (l : List Item) where
  fail_item_changed :
      (reason : String) (w : World)
      → Changed item.id l w.items
      → Changed item.id l (fail_item p item reason w).items
  unfolding fail_item put put_status
  fail_item_changed reason w c =
      let k = attempt item.id l (text item.id l reason c) in
      elim (Bool-cases (
        has_attempts p.max_attempts (
          get_item
            (update_item item.id incr_attempt
              (update_item item.id (set_failure_log reason) w.items))
            item.id))) [
              | inl b ↦ rw b (status item.id l p.now queued k)
              | inr b ↦ rw b (status item.id l p.now failed k)
            ]

  requeue_or_reject_changed :
      (w : World) → Changed item.id l w.items → Changed item.id l (requeue_or_reject p item w).items
  unfolding requeue_or_reject put put_status
  requeue_or_reject_changed w c =
      let k = attempt item.id l c in
      elim (Bool-cases
        (is_spent p.max_attempts (get_item (update_item item.id incr_attempt w.items) item.id))) [
          | inl b ↦ rw b (status item.id l p.now rejected k)
          | inr b ↦ rw b (status item.id l p.now failed k)
        ]

  spawn_resolver_changed :
      (conflict_log : String) (o : Option World) (w : World)
      → ((v : World) → o ≡ some v → v.items ≡ w.items)
      → Changed item.id l w.items
      → Changed item.id l (spawn_resolver p item conflict_log o w).items
  unfolding spawn_resolver put put_status
  spawn_resolver_changed conflict_log none w e c = c
  spawn_resolver_changed conflict_log (some v) w e c = rw (e v refl) (
      status item.id l p.now conflicted (
        text item.id l conflict_log
          (more (set_conflict_task p.fresh_id) (λ x. refl) (λ x. refl) c)))

  task_create_items :
      (o : Option _) (t : _) (w v : World) → insert_task o t w ≡ some v → v.items ≡ w.items
  unfolding insert_task
  task_create_items (some _) t w v e = cc
  task_create_items none t w v e = ground (arith, e)

  handle_class_changed :
      (c : ConflictClass) (repo : Repo) (conflict_log semantic_log : String) (w : World)
      → Changed item.id l w.items
      → Changed item.id l (handle_class p item c repo conflict_log semantic_log w).items
  unfolding handle_class put put_status task_create
  handle_class_changed semantic repo conflict_log semantic_log w c =
      status item.id l p.now rejected (text item.id l semantic_log c)
  handle_class_changed trivial repo conflict_log semantic_log w c =
      let w1 = put item.id incr_attempt w in
      let t = new_task p.now p.fresh_id repo.id item.priority in
      let k = attempt item.id l c in
      elim (Bool-cases
        (is_spent p.max_attempts (get_item (update_item item.id incr_attempt w.items) item.id))) [
          | inl b ↦ rw b (status item.id l p.now rejected (text item.id l conflict_log k))
          | inr b ↦ rw b (
              spawn_resolver_changed conflict_log (task_create t w1) w1
                (λ v e. task_create_items (get_task w.tasks p.fresh_id) t w1 v e) k)
        ]

module _ (p : Processor) (git : Git) (item : Item) (repo : Repo) (l : List Item) where
  push_step_changed :
      (w : World)
      → Changed item.id l w.items
      → Changed item.id l (push_step p git item repo w).items
  unfolding push_step put
  push_step_changed w c = elim (Bool-cases (repo.auto_push && not git.pushed)) [
    | inl b ↦ rw b (text item.id l git.push_log c)
    | inr b ↦ rw b c
  ]

  advance_step_changed :
      (result : RebaseResult) (path : String) (w : World)
      → Changed item.id l w.items
      → Changed item.id l (advance_step p git item repo result path w).items
  unfolding advance_step finish put put_status
  advance_step_changed result path w c =
      let k = status item.id l p.now merging c in
      elim (Bool-cases git.advanced) [
        | inl b ↦ rw b (
            status item.id l p.now merged (
              more (set_merge_sha result.rebased_sha) (λ x. refl) (λ x. refl)
                (push_step_changed _ k)))
        | inr b ↦ rw b (status item.id l p.now queued (attempt item.id l k))
      ]

  verify_step_changed :
      (result : RebaseResult) (path : String) (w : World)
      → Changed item.id l w.items
      → Changed item.id l (verify_step p git item repo result path w).items
  unfolding verify_step put put_status
  verify_step_changed result path w c =
      let k = status item.id l p.now verifying c in
      elim (Bool-cases (repo.verify_command == "")) [
        | inl e ↦ rw e (advance_step_changed result path w c)
        | inr e ↦ elim (Bool-cases git.verified) [
          | inl b ↦ rw (e, b) (advance_step_changed result path _ k)
          | inr b ↦
              rw (e, b) (requeue_or_reject_changed p item l _ (text item.id l git.verify_log k))
        ]
      ]

  rebase_step_changed :
      (dir : String) (o : Option RebaseResult) (w : World)
      → Changed item.id l w.items
      → Changed item.id l (rebase_step p git item repo dir o w).items
  unfolding rebase_step handle_conflict put
  rebase_step_changed dir none w c = fail_item_changed p item l git.rebase_log _ c
  rebase_step_changed dir (some result) w c = elim (Bool-cases (result.conflict_log == "")) [
    | inl e ↦ rw e (verify_step_changed result dir w c)
    | inr e ↦ rw e (
        handle_class_changed p item l (p.classify result.conflict_log) repo result.conflict_log
          git.rebase_log _ (path item.id l "" c))
  ]

  worktree_step_changed :
      (o : Option String) (w : World)
      → Changed item.id l w.items
      → Changed item.id l (worktree_step p git item repo o w).items
  unfolding worktree_step put
  worktree_step_changed none w c = fail_item_changed p item l git.worktree_log w c
  worktree_step_changed (some dir) w c = rebase_step_changed dir git.rebase _ (path item.id l dir c)

process_item_changed :
    (p : Processor) (git : Git) (item : Item) (repo : Repo) (w : World)
    → Changed item.id w.items (process_item p git item repo w).items
unfolding process_item put_status
process_item_changed p git item repo w = elim (Bool-cases git.made_directory) [
  | inl b ↦ rw b (
      worktree_step_changed p git item repo w.items git.worktree _
        (status item.id w.items p.now rebasing same))
  | inr b ↦ rw b same
]

pub process_item-IsTable :
    (p : Processor) (git : Git) (item : Item) (repo : Repo) (w : World)
    → IsTable w.items
    → IsTable (process_item p git item repo w).items
process_item-IsTable p git item repo w t =
    Changed-IsTable item.id w.items t (process_item_changed p git item repo w)

-- Whatever git answers, a call leaves every row but its item's as it was, and no two rows with one
-- id or task where there were none.
pub process_item-others :
    (p : Processor) (git : Git) (item : Item) (repo : Repo) (w : World) (j : String)
    → IsTable w.items
    → j ≢ item.id
    → (get_item (process_item p git item repo w).items j ≡ get_item w.items j)
      × IsTable (process_item p git item repo w).items
process_item-others p git item repo w j t ne =
    let c = process_item_changed p git item repo w in
    (Changed-other item.id j w.items ne c, process_item-IsTable p git item repo w t)
