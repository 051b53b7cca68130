-- ===== src/Merge/Conflicts/Examples.antt =====
-- Logs of conflicts, and what is made of them.
use clankwork.Base.{◌≡◌, refl, ◌↔◌, inl, some, [], ◌∷◌, map, arith}
use clankwork.Base.Bytes.{
  Bytes, bytes, same, has_prefix, has_suffix, contains_text, trim_space, split_lines, join_lines,
  to_lower, file_ext, file_base, split_text, cut_text, is_blank,
}
use clankwork.Merge.{Item}
use clankwork.Merge.Table.{get_item}
use clankwork.Merge.Table.Examples.{first_item}
use clankwork.Merge.Process.{trivial, semantic, RebaseResult, Git, process_item}
use clankwork.Merge.Process.Examples.{processor, good_git, repo, world}
use clankwork.Merge.Conflicts.Resolution.{Outcome, process_item-conflicting}
use clankwork.Merge.Conflicts.{
  classifying, classify_conflict, conclude, analyse, details_of, first_semantic, classify_file,
  class_of_file, class_of_content, extract_conflict_files, files_from, unmerged_path,
  extract_file_conflict_blocks, blocks_of_parts, block_of_part, content_of, is_lock_file,
  is_generated_name, is_minified, is_generated_file, is_test_file, is_migration_file,
  is_config_file,
}
use clankwork.Merge.Conflicts.Blocks.{
  block_of, marked, blocks_from, parse_conflict_blocks, count, count_conflict_markers,
  all_conflicts_small, has_delete_modify_conflict, has_interface_conflict, keep, non_blank_lines,
}
use clankwork.Merge.Conflicts.Blocks.RoundTrip.{
  Region, lines_of, block, parse_conflict_blocks-written,
}
use clankwork.Merge.Conflicts.Laws.{IsListed, IsSemantic, classify_conflict-semantic_iff}
use clankwork.Merge.Conflicts.Minified.{minified_unseen}
use clankwork.Merge.Conflicts.OneLine.{one_line_trivial}

abbrev timeout : Region
timeout = record {
  before = bytes "[http]" ∷ [];
  opening = bytes "<<<<<<< HEAD";
  ours = bytes "timeout: 5" ∷ [];
  middle = bytes "=======";
  theirs = bytes "timeout: 50" ∷ [];
  closing = bytes ">>>>>>> b";
}

abbrev content : Bytes
unfolding join_lines
content = join_lines (lines_of (timeout ∷ []) [])

parse_conflict_blocks-written_example :
    parse_conflict_blocks (join_lines (lines_of (timeout ∷ []) [])) ≡ map block (timeout ∷ [])
unfolding marked has_prefix trim_space
parse_conflict_blocks-written_example =
    parse_conflict_blocks-written (timeout ∷ []) [] (bytes "[http]") _
      (((refl, tt), refl, (refl, tt), refl, (refl, tt), refl), tt) tt refl
      (refl, (refl, (refl, (refl, (refl, (refl, tt))))))

abbrev conflict : RebaseResult
conflict = record {
  conflict_log = "UU go.sum\nUU a_test.go\n";
  rebased_sha = "";
  target_sha = "def";
}

abbrev conflicting : Git
conflicting = record good_git { rebase = some conflict }

process_item-conflicting_example :
    (j : Item) × (get_item
        (process_item (classifying processor) conflicting first_item repo world).items
        "m1"
      ≡ some j)
    × Outcome processor (bytes "UU go.sum\nUU a_test.go\n") first_item j
process_item-conflicting_example =
    process_item-conflicting processor conflicting first_item repo world first_item conflict refl
      refl (refl, ("/home/merging/t1", refl), refl, refl) refl

minified_unseen_example :
    is_generated_file
      (bytes "d/a.min.js")
      (to_lower (file_base (bytes "d/a.min.js")))
      (to_lower (file_ext (bytes "d/a.min.js")))
    ≡ is_generated_name (bytes "d/a.min.js") (to_lower (file_base (bytes "d/a.min.js")))
minified_unseen_example = minified_unseen (bytes "d/a.min.js")

-- A lock file and a test file in conflict.
abbrev log : Bytes
log = bytes "UU go.sum\nUU a_test.go\n"

classified : (classify_conflict log).class ≡ semantic
unfolding classify_conflict conclude analyse details_of first_semantic classify_file class_of_file
    extract_conflict_files files_from unmerged_path extract_file_conflict_blocks blocks_of_parts
    block_of_part content_of is_lock_file is_generated_name is_minified is_generated_file
    is_test_file is_migration_file is_config_file class_of_content same has_prefix has_suffix
    contains_text trim_space split_lines to_lower file_ext file_base split_text cut_text
classified = refl

classify_conflict-semantic_iff_example :
    ((classify_conflict log).class ≡ semantic)
    ↔ ((p : Bytes) × IsListed (split_lines log) p × IsSemantic (extract_file_conflict_blocks log) p)
classify_conflict-semantic_iff_example = classify_conflict-semantic_iff log

one_line_trivial_example :
    class_of_content content (bytes ".py")
    ≡ some (trivial, "import ordering or list addition conflict")
unfolding count_conflict_markers parse_conflict_blocks blocks_from marked has_prefix trim_space
    count split_lines content join_lines block_of all_conflicts_small has_delete_modify_conflict
    has_interface_conflict is_blank same contains_text keep non_blank_lines
one_line_trivial_example =
    one_line_trivial content (bytes ".py") refl refl (inl (omega arith), tt) refl refl refl
