-- ===== src/Merge/Conflicts/Resolution.antt =====
-- handleConflict of internal/mergequeue/processor.go with ClassifyConflict in its place: what the
-- files of a log make of an item whose rebase has a conflict.
use clankwork.Base.{
  arith, ◌≡◌, refl, ap, ◌∙◌, ◌⊎◌, inl, inr, ◌+◌, String, true, false, none, some, ◌==◌,
}
use clankwork.Base.Bytes.{Bytes, bytes, split_lines}
use clankwork.Base.Int.{pos, leb_ℤ}
use clankwork.Merge.{conflicted, rejected, rebasing, Item, Repo, World, get_task}
use clankwork.Merge.Table.{get_item, set_status, set_worktree_path}
use clankwork.Merge.Process.{
  ConflictClass, trivial, semantic, RebaseResult, Git, Processor, process_item,
}
use clankwork.Merge.Process.Machine.{conflicted_row, processed_row}
use clankwork.Merge.Process.Refines.{process_item-refines}
use clankwork.Merge.Conflicts.{classifying, classify_conflict, extract_file_conflict_blocks}
use clankwork.Merge.Conflicts.Laws.{IsListed, IsSemantic, IsTrivial, classify_conflict-Judged}

-- The rebase has a conflict, with its log.
abbrev pub HasConflict : Git → RebaseResult → Type 0
HasConflict git result =
    (git.made_directory ≡ true)
    × ((path : String) × (git.worktree ≡ some path))
    × (git.rebase ≡ some result)
    × ((result.conflict_log == "") ≡ false)

-- The row before the class is looked at.
abbrev rebased : Processor → String → Item → Item
rebased p path i = set_worktree_path "" (set_worktree_path path (set_status p.now rebasing i))

conflicting_row :
    (p : Processor) (git : Git) (repo : Repo) (i : Item) (result : RebaseResult) (path : String)
    → git.made_directory ≡ true
    → git.worktree ≡ some path
    → git.rebase ≡ some result
    → (result.conflict_log == "") ≡ false
    → processed_row p git repo i
      ≡ conflicted_row p
          (p.classify result.conflict_log)
          result.conflict_log
          git.rebase_log
          (rebased p path i)
unfolding processed_row
conflicting_row p git repo i result path d t r c = rw (processed_row, d, t, r, c) refl

-- What the item becomes: a resolver takes it over, or it is rejected with its attempts as they were.
abbrev pub Outcome : Processor → Bytes → Item → Item → Type 0
Outcome p log i j =
    let contents = extract_file_conflict_blocks log in
    ((j.status ≡ conflicted)
      × (j.conflict_task_id ≡ some p.fresh_id)
      × (j.attempt_count ≡ i.attempt_count + 1)
      × ((f : Bytes) → IsListed (split_lines log) f → IsTrivial contents f))
    ⊎ ((j.status ≡ rejected)
        × (j.attempt_count ≡ i.attempt_count)
        × ((f : Bytes) × IsListed (split_lines log) f × IsSemantic contents f))

row-Outcome :
    (p : Processor) (i : Item) (path log semantic_log : String) (c : ConflictClass)
    → leb_ℤ p.max_attempts (pos (i.attempt_count + 1)) ≡ false
    → (classify_conflict (bytes log)).class ≡ c
    → Outcome p (bytes log) i (conflicted_row p c log semantic_log (rebased p path i))
row-Outcome p i path log semantic_log trivial a e = elim (classify_conflict-Judged (bytes log)) [
  | inl (t, all) ↦ inl (ground (arith, a), ground (arith, a), ground (arith, a), all)
  | inr (s, found) ↦ cc
]
row-Outcome p i path log semantic_log semantic a e = elim (classify_conflict-Judged (bytes log)) [
  | inl (t, all) ↦ cc
  | inr (s, found) ↦ inr (refl, refl, found)
]

-- Where the directory and the worktree of an item were made, its rebase has a conflict, one attempt
-- is left after the next, and the id of the new task is free: a resolver task takes the item over
-- exactly if every file that the log lists as unmerged is trivial; otherwise the item is rejected,
-- and its attempts stay as they were.
pub process_item-conflicting :
    (p : Processor) (git : Git) (item : Item) (repo : Repo) (w : World) (i : Item)
    (result : RebaseResult)
    → get_task w.tasks p.fresh_id ≡ none
    → get_item w.items item.id ≡ some i
    → HasConflict git result
    → leb_ℤ p.max_attempts (pos (i.attempt_count + 1)) ≡ false
    → (j : Item) × (get_item (process_item (classifying p) git item repo w).items item.id ≡ some j)
      × Outcome p (bytes result.conflict_log) i j
unfolding classifying
process_item-conflicting p git item repo w i result fresh h (d, (path, t), r, c) a =
    let q = classifying p in
    (
      conflicted_row q (q.classify result.conflict_log) result.conflict_log git.rebase_log
          (rebased q path i),
      process_item-refines q git item repo w i fresh h
          ∙ ap some (conflicting_row q git repo i result path d t r c),
      row-Outcome p i path result.conflict_log git.rebase_log (q.classify result.conflict_log) a
          refl,
    )
