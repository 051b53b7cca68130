-- ===== src/Merge/Requeue/Laws.antt =====
-- An item does not stay with a resolver that is over.
use mathlib.Core.Path.{subst, sym}
use clankwork.Base.{
  ◌≡◌, ◌≢◌, refl, ap, ℕ, inl, inr, String, true, Option, none, some, Bool-cases, Option-cases,
  arith,
}
use clankwork.Tasks.Laws.{get_task-id}
use clankwork.Tasks.{TaskStatus, Task}
use clankwork.Merge.{queued, conflicted, Item, Repo, World, get_task}
use clankwork.Merge.Table.{get_item, get_by_conflict_task, update_item, set_status}
use clankwork.Merge.Table.Laws.{get_item-update_item, get_item-update_other}
use clankwork.Merge.Process.{put_status}
use clankwork.Merge.Requeue.{
  is_done, has_failed, Surroundings, get_repo, clean_resolver, complete_task, when_done,
  enqueue_if_auto_merge, requeue_parent, when_failed, handle_conflict_failed,
}

clean_resolver-items :
    (path : Option String) (repo : Option Repo) (w : World)
    → (clean_resolver path repo w).items ≡ w.items
clean_resolver-items none repo w = refl
clean_resolver-items (some path) none w = refl
clean_resolver-items (some path) (some r) w = refl

is_done-eq : (s : TaskStatus) → is_done s ≡ true → s ≡ TaskStatus.done
is_done-eq s h = ground arith

has_failed-eq : (s : TaskStatus) → has_failed s ≡ true → s ≡ TaskStatus.failed
has_failed-eq s h = ground arith

-- The task of an id is there with a status.
abbrev pub HasStatus : TaskStatus → World → String → Type 0
HasStatus s w id = (t : Task) × (get_task w.tasks id ≡ some t) × (t.status ≡ s)

-- The item is queued again as it was, and no other row changes.
abbrev pub Released : Item → World → World → Type 0
Released m w w' =
    (get_item w'.items m.id ≡ some (record m { status = queued }))
    × ((j : String) → j ≢ m.id → get_item w'.items j ≡ get_item w.items j)

-- The item waits for its resolver, or is released, by whether the task has ended in a way.
abbrev pub ReleasedBy : TaskStatus → String → Item → World → World → Type 0
ReleasedBy s id m w w' =
    (HasStatus s w id → Released m w w') × (¬ HasStatus s w id → w'.items ≡ w.items)

Released-update_item :
    (now : ℕ) (m : Item) (w w' : World)
    → get_item w.items m.id ≡ some m
    → w'.items ≡ update_item m.id (set_status now queued) w.items
    → Released m w w'
Released-update_item now m w w' found e = (
  rw e (get_item-update_item m.id (set_status now queued) w.items m (λ x. refl) found),
  λ j ne. rw e (get_item-update_other m.id j (set_status now queued) w.items (λ x. refl) ne),
)

module _ (env : Surroundings) (w : World) (m : Item) (found : get_item w.items m.id ≡ some m)
    (waits : m.status ≡ conflicted) where
  complete_task-Released : (t : Task) → Released m w (complete_task env t (some m) w)
  unfolding complete_task put_status
  complete_task-Released t =
      let path = env.resolver_worktree t.id in
      let repo = get_repo env.repos m.repo_id in
      Released-update_item env.now m w (complete_task env t (some m) w) found (
        rw waits
          (ap (update_item m.id (set_status env.now queued)) (clean_resolver-items path repo w)))

  requeue_parent-Released : (id : String) → Released m w (requeue_parent env id (some m) w)
  unfolding requeue_parent put_status
  requeue_parent-Released id =
      let path = env.resolver_worktree id in
      let repo = get_repo env.repos m.repo_id in
      Released-update_item env.now m w (requeue_parent env id (some m) w) found (
        rw waits
          (ap (update_item m.id (set_status env.now queued)) (clean_resolver-items path repo w)))

  when_done-ReleasedBy :
      (id : String)
      → get_by_conflict_task w.items id ≡ some m
      → ReleasedBy TaskStatus.done id m w (enqueue_if_auto_merge env id w)
  unfolding enqueue_if_auto_merge when_done
  when_done-ReleasedBy id owner = (
    λ (t, at, s).
        let same : t.id ≡ id = get_task-id w.tasks id t at in
        let owns : get_by_conflict_task w.items t.id ≡ some m =
          subst (λ x. get_by_conflict_task w.items x ≡ some m) (sym same) owner in
        let over : is_done t.status ≡ true = rw s refl in
        rw (at, over, owns) (complete_task-Released t),
    λ other. elim (Option-cases (get_task w.tasks id)) [
      | inl e ↦ rw e refl
      | inr (t, e) ↦ elim (Bool-cases (is_done t.status)) [
        | inl d ↦ absurd (other (t, e, is_done-eq t.status d))
        | inr d ↦ rw (e, d) refl
      ]
    ],
  )

  when_failed-ReleasedBy :
      (id : String)
      → get_by_conflict_task w.items id ≡ some m
      → ReleasedBy TaskStatus.failed id m w (handle_conflict_failed env id w)
  unfolding handle_conflict_failed when_failed
  when_failed-ReleasedBy id owner = (
    λ (t, at, s).
        let over : has_failed t.status ≡ true = rw s refl in
        rw (at, over, owner) (requeue_parent-Released id),
    λ other. elim (Option-cases (get_task w.tasks id)) [
      | inl e ↦ rw e refl
      | inr (t, e) ↦ elim (Bool-cases (has_failed t.status)) [
        | inl d ↦ absurd (other (t, e, has_failed-eq t.status d))
        | inr d ↦ rw (e, d) refl
      ]
    ],
  )

-- An item that is in conflict and waits for a task is queued again as it was, with no other row
-- changed, by the completion hook exactly if that task is done, and by the failure hook exactly if it
-- has failed; otherwise the hook leaves the whole table as it was.
pub resolver_over :
    (env : Surroundings) (w : World) (m : Item) (id : String)
    → get_by_conflict_task w.items id ≡ some m
    → get_item w.items m.id ≡ some m
    → m.status ≡ conflicted
    → ReleasedBy TaskStatus.done id m w (enqueue_if_auto_merge env id w)
      × ReleasedBy TaskStatus.failed id m w (handle_conflict_failed env id w)
resolver_over env w m id owner found waits = (
  when_done-ReleasedBy env w m found waits id owner,
  when_failed-ReleasedBy env w m found waits id owner,
)
