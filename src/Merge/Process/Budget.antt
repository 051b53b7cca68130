-- ===== src/Merge/Process/Budget.antt =====
-- What bounds the attempts at an item: failures of git by the budget, failed verifications by
-- nothing, since the item that comes back counts from 0.
use mathlib.Core.Path.{subst}
use clankwork.Base.{
  ap, ◌⊎◌, ◌≡◌, ◌≢◌, ◌+◌, inl, inr, String, true, false, none, some, List, [], ◌∷◌, ==_iff, arith,
  Option-cases, ℕ, All, length,
}
use clankwork.Base.Int.{ℤ, pos, ◌≤ℤ◌, ◌<ℤ◌}
use clankwork.Merge.{failed, Item, Repo, World, get_task, is_terminal}
use clankwork.Merge.Table.{get_item, get_by_task, new_item, is_taken, enqueue}
use clankwork.Merge.Table.Rows.{IsTable, get_by_task_of_item}
use clankwork.Merge.Table.Enqueue.{enqueue_terminal}
use clankwork.Merge.Process.{
  RebaseResult, Git, Processor, put, put_status, fail_item, rebase_step, worktree_step,
  process_item,
}
use clankwork.Merge.Process.Machine.{processed_row}
use clankwork.Merge.Process.Refines.{process_item-refines}
use clankwork.Merge.Process.Frame.{process_item-IsTable}

-- The work tree is there and rebased, and its verification fails.
abbrev pub FailsVerification : Git → Repo → Type 0
FailsVerification git repo =
    (git.made_directory ≡ true)
    × ((path : String) × (git.worktree ≡ some path))
    × ((result : RebaseResult) × (git.rebase ≡ some result) × (result.conflict_log ≡ ""))
    × (repo.verify_command ≢ "")
    × (git.verified ≡ false)

unverified :
    (p : Processor) (git : Git) (repo : Repo) (i : Item)
    → FailsVerification git repo
    → (pos (i.attempt_count + 1)) <ℤ p.max_attempts
    → ((processed_row p git repo i).status ≡ failed)
      × ((processed_row p git repo i).task_id ≡ i.task_id)
unfolding processed_row
unverified p git repo i (d, (path, s), (result, r, c), v, f) b =
    ground (arith, d, s, r, c, f, ==_iff result.conflict_log "", ==_iff repo.verify_command "")

-- If a verification fails and the budget exceeds the attempts by two or more, the item ends as failed,
-- and once its task is enqueued again, under an id that is free, its row is queued and counts 0.
pub verification_loop :
    (p : Processor) (git : Git) (item : Item) (repo : Repo) (w : World) (i : Item) (now : ℕ)
    (id branch target : String) (priority : ℤ)
    → IsTable w.items
    → get_task w.tasks p.fresh_id ≡ none
    → get_item w.items item.id ≡ some i
    → FailsVerification git repo
    → pos (i.attempt_count + 1) <ℤ p.max_attempts
    → is_taken (process_item p git item repo w).items id i.task_id ≡ false
    → let after = (process_item p git item repo w).items in
      let fresh = new_item now id i.task_id i.repo_id branch target priority in
      (j : Item) × (get_item after item.id ≡ some j)
      × (j.status ≡ failed)
      × ((l : List Item) × (enqueue fresh after ≡ some l) × (get_by_task l i.task_id ≡ some fresh))
verification_loop p git item repo w i now id branch target priority t fresh h v b u =
    let after = (process_item p git item repo w).items in
    let row = new_item now id i.task_id i.repo_id branch target priority in
    let j = processed_row p git repo i in
    let r = process_item-refines p git item repo w i fresh h in
    let (s, k) = unverified p git repo i v b in
    let g = get_by_task_of_item after item.id j (process_item-IsTable p git item repo w t) r in
    (
      j,
      r,
      s,
      enqueue_terminal row after j (subst (λ x. get_by_task after x ≡ some j) k g)
          (ap is_terminal s) u,
    )

-- The worktree cannot be made, or fetching and rebasing it is an error.
abbrev pub FailsToRebase : Git → Type 0
FailsToRebase git = (git.made_directory ≡ true) × ((git.worktree ≡ none) ⊎ (git.rebase ≡ none))

-- Calls for one item, one after the other.
abbrev pub process_rounds : Processor → Item → Repo → List Git → World → World
process_rounds p item repo [] w = w
process_rounds p item repo (git ∷ rest) w =
    process_rounds p item repo rest (process_item p git item repo w)

fail_item-tasks :
    (p : Processor) (item : Item) (reason : String) (w : World)
    → (fail_item p item reason w).tasks ≡ w.tasks
unfolding fail_item put put_status
fail_item-tasks p item reason w = ground arith

module _ (p : Processor) (git : Git) (item : Item) (repo : Repo) (w : World) where
  failing-tasks : FailsToRebase git → (process_item p git item repo w).tasks ≡ w.tasks
  unfolding process_item worktree_step rebase_step put put_status
  failing-tasks (d, inl n) = rw (d, n) (fail_item-tasks p item git.worktree_log _)
  failing-tasks (d, inr n) = elim (Option-cases git.worktree) [
    | inl e ↦ rw (d, e) (fail_item-tasks p item git.worktree_log _)
    | inr (path, e) ↦ rw (d, e, n) (fail_item-tasks p item git.rebase_log _)
  ]

failing_row :
    (p : Processor) (git : Git) (repo : Repo) (i : Item)
    → FailsToRebase git
    → let j = processed_row p git repo i in
      (j.attempt_count ≡ i.attempt_count + 1)
      × ((pos j.attempt_count <ℤ p.max_attempts) ⊎ (j.status ≡ failed))
unfolding processed_row
failing_row p git repo i (d, inl n) = ground (arith, d, n)
failing_row p git repo i (d, inr n) = elim (Option-cases git.worktree) [
  | inl e ↦ ground (arith, d, e, n)
  | inr (path, e) ↦ ground (arith, d, e, n)
]

-- Calls that all fail to rebase count one attempt each, and as many of them as the budget leaves,
-- or more, leave the item failed: it is not queued again forever.
pub failing_rounds :
    (p : Processor) (item : Item) (repo : Repo) (git : Git) (rest : List Git) (w : World) (i : Item)
    → get_task w.tasks p.fresh_id ≡ none
    → get_item w.items item.id ≡ some i
    → All FailsToRebase (git ∷ rest)
    → p.max_attempts ≤ℤ pos (i.attempt_count + length (git ∷ rest))
    → (j : Item) × (get_item (process_rounds p item repo (git ∷ rest) w).items item.id ≡ some j)
      × (j.attempt_count ≡ i.attempt_count + length (git ∷ rest))
      × (j.status ≡ failed)
failing_rounds p item repo git [] w i fresh h (f, _) b =
    let j = processed_row p git repo i in
    let (n, o) = failing_row p git repo i f in
    (j, process_item-refines p git item repo w i fresh h, n, ground (arith, n, o, b))
failing_rounds p item repo git (next ∷ rest) w i fresh h (f, fs) b =
    let j = processed_row p git repo i in
    let (n, o) = failing_row p git repo i f in
    let w1 = process_item p git item repo w in
    let (k, e, m, s) =
      failing_rounds p item repo next rest w1 j (rw (failing-tasks p git item repo w f) fresh)
        (process_item-refines p git item repo w i fresh h) fs (omega (arith, n, b)) in
    (k, e, omega (arith, n, m), s)
