-- ===== src/Merge/Requeue/Recovery.antt =====
-- StartupRecovery leaves no item at work.
use clankwork.Base.{
  ◌≡◌, refl, inl, inr, String, false, not, ◌&&◌, ◌||◌, Option, none, some, List, [], ◌∷◌, ◌++◌,
  ◌==◌, Bool-cases, ℕ,
}
use clankwork.Tasks.{Task}
use clankwork.Merge.{queued, is_stuck, is_terminal, Item, Repo, World, get_task}
use clankwork.Merge.Table.{update_item, set_status, reset_stuck, reset_item, enqueue}
use clankwork.Merge.Table.Enqueue.{enqueue-cases}
use clankwork.Merge.Process.{put_status}
use clankwork.Merge.Requeue.Reset.{Idle, reset_all-Idle, stuck-Left}
use clankwork.Merge.Requeue.{
  Surroundings, get_repo, auto_merges, clean_resolver, put_enqueued, reset_all, enqueue_in,
  enqueue_task, enqueue_all, release, release_one, release_all, prune_all, find_stranded_done,
  find_stuck_conflicted, startup_recovery, is_over,
}

Idle-append : (l : List Item) (x : Item) → Idle l → is_stuck x.status ≡ false → Idle (l ++ x ∷ [])
Idle-append [] x h s = (s, tt)
Idle-append (i ∷ l) x (p, h) s = (p, Idle-append l x h s)

Idle-reset_item :
    (fresh : Item) (l : List Item)
    → is_stuck fresh.status ≡ false
    → Idle l
    → Idle (reset_item fresh l)
unfolding reset_item
Idle-reset_item fresh [] s h = tt
Idle-reset_item fresh (x ∷ l) s (p, h) =
    elim (Bool-cases (x.task_id == fresh.task_id && is_terminal x.status)) [
      | inl e ↦ rw e (s, Idle-reset_item fresh l s h)
      | inr e ↦ rw e (p, Idle-reset_item fresh l s h)
    ]

Idle-enqueued :
    (fresh : Item) (w : World) (o : Option (List Item))
    → enqueue fresh w.items ≡ o
    → is_stuck fresh.status ≡ false
    → Idle w.items
    → Idle (put_enqueued o w).items
Idle-enqueued fresh w none e s h = h
Idle-enqueued fresh w (some l) e s h = elim (enqueue-cases fresh w.items l e) [
  | inl (_, _, p) ↦ rw p (Idle-append w.items fresh h s)
  | inr (i, _, _, _, p) ↦ rw p (Idle-reset_item fresh w.items s h)
]

enqueue_in-Idle :
    (env : Surroundings) (t : Task) (repo : Option Repo) (w : World)
    → Idle w.items
    → Idle (enqueue_in env t repo w).items
unfolding enqueue_in
enqueue_in-Idle env t none w h = h
enqueue_in-Idle env t (some r) w h = Idle-enqueued _ w _ refl refl h

enqueue_task-Idle :
    (env : Surroundings) (home : String) (t : Task) (w : World)
    → Idle w.items
    → Idle (enqueue_task env home t w).items
unfolding enqueue_task
enqueue_task-Idle env home t w h = elim (Bool-cases (t.repo_id == "" || t.template == "")) [
  | inl e ↦ rw e h
  | inr e ↦ elim (Bool-cases (not (auto_merges (env.load t.template "" home)))) [
    | inl f ↦ rw (e, f) h
    | inr f ↦ rw (e, f) (enqueue_in-Idle env t (get_repo env.repos t.repo_id) w h)
  ]
]

enqueue_all-Idle :
    (env : Surroundings) (ts : List Task) (w : World)
    → Idle w.items
    → Idle (enqueue_all env ts w).items
unfolding enqueue_all
enqueue_all-Idle env [] w h = h
enqueue_all-Idle env (t ∷ ts) w h =
    enqueue_all-Idle env ts (enqueue_task env "" t w) (enqueue_task-Idle env "" t w h)

Idle-queued :
    (now : ℕ) (id : String) (l : List Item)
    → Idle l
    → Idle (update_item id (set_status now queued) l)
unfolding update_item
Idle-queued now id [] h = tt
Idle-queued now id (x ∷ l) (p, h) = elim (Bool-cases (x.id == id)) [
  | inl e ↦ rw e (refl, Idle-queued now id l h)
  | inr e ↦ rw e (p, Idle-queued now id l h)
]

Idle-cleaned :
    (now : ℕ) (id : String) (path : Option String) (repo : Option Repo) (w : World)
    → Idle w.items
    → Idle (put_status now id queued (clean_resolver path repo w)).items
unfolding put_status
Idle-cleaned now id none repo w h = Idle-queued now id w.items h
Idle-cleaned now id (some path) none w h = Idle-queued now id w.items h
Idle-cleaned now id (some path) (some r) w h = Idle-queued now id w.items h

release_one-Idle :
    (env : Surroundings) (i : Item) (o : Option Task) (w : World)
    → Idle w.items
    → Idle (release env i o w).items
unfolding release
release_one-Idle env i none w h = h
release_one-Idle env i (some t) w h = elim (Bool-cases (is_over t.status)) [
  | inl e ↦
      rw e
        (Idle-cleaned env.now i.id (env.resolver_worktree t.id) (get_repo env.repos i.repo_id) w h)
  | inr e ↦ rw e h
]

release_any-Idle :
    (env : Surroundings) (i : Item) (o : Option String) (w : World)
    → Idle w.items
    → Idle (release_one env i o w).items
unfolding release_one
release_any-Idle env i none w h = h
release_any-Idle env i (some task_id) w h = release_one-Idle env i (get_task w.tasks task_id) w h

release_all-Idle :
    (env : Surroundings) (l : List Item) (w : World)
    → Idle w.items
    → Idle (release_all env l w).items
unfolding release_all
release_all-Idle env [] w h = h
release_all-Idle env (i ∷ l) w h =
    release_all-Idle env l (release_one env i i.conflict_task_id w)
      (release_any-Idle env i i.conflict_task_id w h)

prune_all-items : (l : List Repo) (w : World) → (prune_all l w).items ≡ w.items
unfolding prune_all
prune_all-items [] w = refl
prune_all-items (r ∷ l) w = prune_all-items l _

-- After the recovery at the start no item is in a state of work in progress, whatever the tables
-- held and git answers.
pub startup_recovery-Idle : (env : Surroundings) (w : World) → Idle (startup_recovery env w).items
unfolding startup_recovery
startup_recovery-Idle env w =
    let w1 = reset_all env (reset_stuck w.items) w in
    let w2 = enqueue_all env (find_stranded_done w1.items w1.tasks) w1 in
    let w3 = release_all env (find_stuck_conflicted w2.items) w2 in
    rw (prune_all-items env.repos w3) (
      release_all-Idle env (find_stuck_conflicted w2.items) w2 (
        enqueue_all-Idle env (find_stranded_done w1.items w1.tasks) w1
          (reset_all-Idle env (reset_stuck w.items) w (stuck-Left w.items))))
