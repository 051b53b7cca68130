-- ===== src/Merge/Process/Outcomes.antt =====
-- How a call can end: merged, back in the queue, handed on, or out of attempts.
use clankwork.Base.{
  ◌≡◌, ◌≢◌, ◌↔◌, ◌⊎◌, ◌+◌, ◌≤◌, refl, inl, inr, sym, ap, ◌∙◌, String, true, false, Option, none,
  some, ◌==◌, ==_iff, arith, Bool-cases,
}
use mathlib.Core.Option.{some-injective}
use clankwork.Merge.{queued, rebasing, merged, is_stuck, Item, Repo, World, get_task}
use clankwork.Merge.Table.{get_item, set_status}
use clankwork.Merge.Process.{
  ConflictClass, trivial, semantic, RebaseResult, Git, Processor, process_item,
}
use clankwork.Merge.Process.Machine.{
  failed_row, unverified_row, conflicted_row, verified_row, rebased_row, worktree_row,
  processed_row,
}
use clankwork.Merge.Process.Refines.{process_item-refines}

-- A worktree was made and rebased without a conflict, its verification passed or none is
-- configured, and the target branch was where the rebase had found it.
abbrev pub IsMergeable : Git → Repo → Type 0
IsMergeable git repo =
    (git.made_directory ≡ true)
    × ((path : String) × (git.worktree ≡ some path))
    × ((result : RebaseResult) × (git.rebase ≡ some result) × (result.conflict_log ≡ ""))
    × ((repo.verify_command ≡ "") ⊎ (git.verified ≡ true))
    × (git.advanced ≡ true)

failed_row-open :
    (p : Processor) (reason : String) (i : Item) → (failed_row p reason i).status ≢ merged
failed_row-open p reason i h = ground arith

unverified_row-open : (p : Processor) (i : Item) → (unverified_row p i).status ≢ merged
unverified_row-open p i h = ground arith

conflicted_row-open :
    (p : Processor) (c : ConflictClass) (a b : String) (i : Item)
    → (conflicted_row p c a b i).status ≢ merged
conflicted_row-open p semantic a b i h = ground arith
conflicted_row-open p trivial a b i h = ground arith

module _ (p : Processor) (git : Git) (repo : Repo) where
  verified_row_iff :
      (result : RebaseResult) (i : Item)
      → ((verified_row p git repo result i).status ≡ merged)
        ↔ (((repo.verify_command ≡ "") ⊎ (git.verified ≡ true)) × (git.advanced ≡ true))
  verified_row_iff result i = (
    λ h. ground (arith, h, ==_iff repo.verify_command ""),
    λ h. ground (arith, h, ==_iff repo.verify_command ""),
  )

  rebased_row_iff :
      (o : Option RebaseResult) (i : Item)
      → ((rebased_row p git repo o i).status ≡ merged) ↔ (
          ((result : RebaseResult) × (o ≡ some result) × (result.conflict_log ≡ ""))
          × ((repo.verify_command ≡ "") ⊎ (git.verified ≡ true))
          × (git.advanced ≡ true))
  rebased_row_iff none i =
      (λ h. absurd (failed_row-open p git.rebase_log i h), λ ((r, e, c), v, a). cc)
  rebased_row_iff (some result) i = elim (Bool-cases (result.conflict_log == "")) [
    | inl e ↦
        let c = (==_iff result.conflict_log "").0 e in
        rw e (
          λ h. let (v, a) = (verified_row_iff result i).0 h in ((result, refl, c), v, a),
          λ (_, v, a). (verified_row_iff result i).1 (v, a),
        )
    | inr e ↦ rw e (
      λ h. absurd (conflicted_row-open p (p.classify result.conflict_log) _ _ _ h),
      λ ((r, s, c), v, a).
          let p : result.conflict_log ≡ r.conflict_log =
            ap (λ (x : RebaseResult). x.conflict_log) (some-injective _ _ s) in
          cc (e, (==_iff result.conflict_log "").1 (p ∙ c)),
    )
  ]

  worktree_row_iff :
      (o : Option String) (i : Item)
      → ((worktree_row p git repo o i).status ≡ merged) ↔ (
          ((path : String) × (o ≡ some path))
          × ((result : RebaseResult) × (git.rebase ≡ some result) × (result.conflict_log ≡ ""))
          × ((repo.verify_command ≡ "") ⊎ (git.verified ≡ true))
          × (git.advanced ≡ true))
  worktree_row_iff none i =
      (λ h. absurd (failed_row-open p git.worktree_log i h), λ ((path, s), r, v, a). cc)
  worktree_row_iff (some path) i = (
    λ h. let (r, v, a) = (rebased_row_iff git.rebase _).0 h in ((path, refl), r, v, a),
    λ (_, r, v, a). (rebased_row_iff git.rebase _).1 (r, v, a),
  )

  processed_row_iff :
      (i : Item)
      → i.status ≡ queued
      → ((processed_row p git repo i).status ≡ merged) ↔ IsMergeable git repo
  unfolding processed_row
  processed_row_iff i q = elim (Bool-cases git.made_directory) [
    | inl d ↦ (
      λ h.
          let (t, r, v, a) =
            (worktree_row_iff git.worktree (set_status p.now rebasing i)).0 (simp d at h) in
          (d, t, r, v, a),
      λ (_, t, r, v, a). simp d ((worktree_row_iff git.worktree _).1 (t, r, v, a)),
    )
    | inr d ↦ (λ h. cc (simp d at h), λ (e, t, r, v, a). cc)
  ]

  -- What a call makes of the count, and where it leaves the row.
  settled :
      (i : Item)
      → git.made_directory ≡ true
      → let j = processed_row p git repo i in
        (is_stuck j.status ≡ false)
        × (i.attempt_count ≤ j.attempt_count)
        × (j.attempt_count ≤ i.attempt_count + 1)
  unfolding processed_row
  settled i d = ground (arith, d)

-- For a queued item and an id that is no task's, a call ends with the item merged exactly when its
-- worktree was made and rebased without a conflict, its verification passed or none is configured,
-- and the target branch was advanced.
pub process_item-merged_iff :
    (p : Processor) (git : Git) (item : Item) (repo : Repo) (w : World) (i : Item)
    → get_task w.tasks p.fresh_id ≡ none
    → get_item w.items item.id ≡ some i
    → i.status ≡ queued
    → ((j : Item) × (get_item (process_item p git item repo w).items item.id ≡ some j)
        × (j.status ≡ merged))
      ↔ IsMergeable git repo
process_item-merged_iff p git item repo w i fresh h q =
    let r = process_item-refines p git item repo w i fresh h in
    let m = processed_row_iff p git repo i q in
    (
      λ (j, e, s). m.0 (ap (λ (x : Item). x.status) (some-injective _ _ (sym r ∙ e)) ∙ s),
      λ g. (processed_row p git repo i, r, m.1 g),
    )

-- Once its directory is there, a call leaves its item in none of the three states of work in
-- progress, and counts at most one attempt.
pub process_item-settles :
    (p : Processor) (git : Git) (item : Item) (repo : Repo) (w : World) (i : Item)
    → get_task w.tasks p.fresh_id ≡ none
    → get_item w.items item.id ≡ some i
    → git.made_directory ≡ true
    → (j : Item) × (get_item (process_item p git item repo w).items item.id ≡ some j)
      × (is_stuck j.status ≡ false)
      × (i.attempt_count ≤ j.attempt_count)
      × (j.attempt_count ≤ i.attempt_count + 1)
process_item-settles p git item repo w i fresh h d =
    let (s, lo, hi) = settled p git repo i d in
    (processed_row p git repo i, process_item-refines p git item repo w i fresh h, s, lo, hi)
