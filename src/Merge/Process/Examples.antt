-- ===== src/Merge/Process/Examples.antt =====
-- One item that goes through the processor, with git answering well and badly.
use clankwork.Base.{
  ◌≢◌, ◌≡◌, ◌↔◌, ◌≤◌, refl, inr, String, true, false, none, some, List, [], ◌∷◌, ==_iff, arith, All,
}
use clankwork.Base.Int.{pos, ◌≤ℤ◌, ◌<ℤ◌}
use clankwork.Merge.{merged, failed, is_stuck, Item, Repo, World}
use clankwork.Merge.Table.{get_item, get_by_task, new_item, update_item, enqueue, is_taken}
use clankwork.Merge.Table.Rows.{IsTable}
use clankwork.Merge.Table.Examples.{first_item, urgent_item, two_items, two_items-IsTable}
use clankwork.Merge.Process.{
  trivial, RebaseResult, Git, Processor, put, put_status, requeue_or_reject, verify_step,
  rebase_step, worktree_step, process_item,
}
use clankwork.Merge.Process.Machine.{processed_row}
use clankwork.Merge.Process.Refines.{process_item-refines}
use clankwork.Merge.Process.Frame.{process_item-others}
use clankwork.Merge.Process.Outcomes.{IsMergeable, process_item-merged_iff, process_item-settles}
use clankwork.Merge.Process.Budget.{
  FailsVerification, FailsToRebase, process_rounds, verification_loop, failing_rounds,
}

abbrev pub processor : Processor
processor = record {
  max_attempts = pos 3;
  home_dir = "/home";
  classify = λ _. trivial;
  now = 40;
  fresh_id = "c1";
}

abbrev clean_rebase : RebaseResult
clean_rebase = record { conflict_log = ""; rebased_sha = "abc"; target_sha = "def" }

abbrev pub good_git : Git
good_git = record {
  made_directory = true;
  worktree = some "/home/merging/t1";
  worktree_log = "";
  rebase = some clean_rebase;
  rebase_log = "";
  verified = true;
  verify_log = "";
  advanced = true;
  pushed = true;
  push_log = "";
}

abbrev failing_tests : Git
failing_tests = record good_git { verified = false; verify_log = "verify failed" }

abbrev no_fetch : Git
no_fetch = record good_git { rebase = none; rebase_log = "fetch/rebase error" }

abbrev pub repo : Repo
repo = record {
  id = "r1";
  path = "/repo";
  verify_command = "make test";
  auto_push = false;
  target_branch = "main";
}

abbrev pub world : World
world = record { items = two_items; tasks = []; events = [] }

process_item-refines_example :
    get_item (process_item processor good_git first_item repo world).items "m1"
    ≡ some (processed_row processor good_git repo first_item)
process_item-refines_example =
    process_item-refines processor good_git first_item repo world first_item refl refl

m2_ne_m1 : ◌≢◌ {A = String} "m2" "m1"
m2_ne_m1 p = cc ((==_iff "m2" "m1").1 p)

process_item-others_example :
    (get_item (process_item processor good_git first_item repo world).items "m2" ≡ some urgent_item)
    × IsTable (process_item processor good_git first_item repo world).items
process_item-others_example =
    process_item-others processor good_git first_item repo world "m2" two_items-IsTable m2_ne_m1

process_item-merged_iff_example :
    ((j : Item) × (get_item (process_item processor good_git first_item repo world).items "m1"
        ≡ some j)
      × (j.status ≡ merged))
    ↔ IsMergeable good_git repo
process_item-merged_iff_example =
    process_item-merged_iff processor good_git first_item repo world first_item refl refl refl

process_item-settles_example :
    (j : Item) × (get_item (process_item processor failing_tests first_item repo world).items "m1"
      ≡ some j)
    × (is_stuck j.status ≡ false)
    × (0 ≤ j.attempt_count)
    × (j.attempt_count ≤ 1)
process_item-settles_example =
    process_item-settles processor failing_tests first_item repo world first_item refl refl refl

has_command : ◌≢◌ {A = String} "make test" ""
has_command p = cc

tests_fail : FailsVerification failing_tests repo
tests_fail = (refl, ("/home/merging/t1", refl), (clean_rebase, refl, refl), has_command, refl)

m3_is_free :
    is_taken (process_item processor failing_tests first_item repo world).items "m3" "t1" ≡ false
unfolding process_item worktree_step rebase_step verify_step requeue_or_reject put put_status
    update_item
m3_is_free = refl

below_budget : pos 1 <ℤ pos 3
below_budget = omega arith

verification_loop_example :
    let after = (process_item processor failing_tests first_item repo world).items in
    let fresh = new_item 90 "m3" "t1" "r1" "clankwork/t1" "main" (pos 0) in
    (j : Item) × (get_item after "m1" ≡ some j)
    × (j.status ≡ failed)
    × ((l : List Item) × (enqueue fresh after ≡ some l) × (get_by_task l "t1" ≡ some fresh))
verification_loop_example =
    verification_loop processor failing_tests first_item repo world first_item 90 "m3"
      "clankwork/t1" "main" (pos 0) two_items-IsTable refl refl tests_fail below_budget m3_is_free

three_fail : All FailsToRebase (no_fetch ∷ no_fetch ∷ no_fetch ∷ [])
three_fail = ((refl, inr refl), ((refl, inr refl), ((refl, inr refl), tt)))

budget_spent : pos 3 ≤ℤ pos 3
budget_spent = omega arith

failing_rounds_example :
    (j : Item) × (get_item
        (process_rounds processor first_item repo (no_fetch ∷ no_fetch ∷ no_fetch ∷ []) world).items
        "m1"
      ≡ some j)
    × (j.attempt_count ≡ 3)
    × (j.status ≡ failed)
failing_rounds_example =
    failing_rounds processor first_item repo no_fetch (no_fetch ∷ no_fetch ∷ []) world first_item
      refl refl three_fail budget_spent
