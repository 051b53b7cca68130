-- ===== src/Merge/Conflicts.antt =====
-- internal/mergequeue/classify.go: whether a conflict of a rebase is mechanical. Texts are the bytes
-- that the code reads.
pub mod Blocks
pub mod Laws
pub mod Minified
pub mod OneLine
pub mod Resolution
pub mod Examples
use clankwork.Base.{
  ℕ, String, Bool, true, false, not, ◌&&◌, ◌||◌, Option, none, some, List, [], ◌∷◌, ◌++◌, any, ltb,
  length, if◌then◌else◌, is_empty,
}
use clankwork.Base.Bytes.{
  Bytes, bytes, same, has_prefix, has_suffix, contains_text, to_lower, trim_space, split_lines,
  split_text, cut_text, drop, file_ext, file_base, is_one_of, holds, starts, ends,
}
use clankwork.Merge.Process.{ConflictClass, Processor, trivial, semantic}
use clankwork.Merge.Conflicts.Blocks.{
  count_conflict_markers, all_conflicts_small, has_function_body_conflict,
  has_delete_modify_conflict, has_interface_conflict, looks_like_import_or_list,
}

pub record ConflictDetail : Type 0 where
  pub file : Bytes
  pub class : ConflictClass
  pub reason : String
  pub markers : ℕ

pub record ConflictAnalysis : Type 0 where
  pub class : ConflictClass
  pub files : List Bytes
  pub reason : Bytes
  pub details : List ConflictDetail

abbrev unmerged_codes : List String
unmerged_codes = "UU" ∷ "AA" ∷ "DU" ∷ "UD" ∷ "AU" ∷ "UA" ∷ []

-- The file that a line of the log gives as unmerged.
unfoldable pub unmerged_path : Bytes → Option Bytes
unfolding trim_space has_prefix same
unmerged_path l =
    let line = trim_space l in
    let path = trim_space (drop 2 line) in
    if ltb (length line) 3
    then none
    else if not (any (starts line) unmerged_codes)
    then none
    else if same path []
    then none
    else some path

abbrev pub seen_before : List Bytes → Bytes → Bool
seen_before seen path = any (same path) seen

unfoldable pub files_from : List Bytes → List Bytes → List Bytes
unfolding unmerged_path
files_from seen [] = []
files_from seen (l ∷ ls) = elim (unmerged_path l) [
  | none ↦ files_from seen ls
  | some path ↦ elim (seen_before seen path) [
    | true ↦ files_from seen ls
    | false ↦ path ∷ files_from (path ∷ seen) ls
  ]
]

unfoldable pub extract_conflict_files : Bytes → List Bytes
unfolding files_from split_lines
extract_conflict_files log = files_from [] (split_lines log)

abbrev header_prefix : Bytes
header_prefix = bytes "--- FILE: "

-- A part of the log after a header: the path, and the content up to the next header.
unfoldable pub block_of_part : Bytes → List (Bytes × Bytes)
unfolding cut_text
block_of_part part = elim (cut_text part (bytes " ---")) [
  | none ↦ []
  | some (path, content) ↦ elim (cut_text content header_prefix) [
    | none ↦ (path, content) ∷ []
    | some (before, after) ↦ (path, before) ∷ []
  ]
]

-- The assignments to the map, in their order.
unfoldable pub blocks_of_parts : List Bytes → List (Bytes × Bytes)
unfolding block_of_part
blocks_of_parts [] = []
blocks_of_parts (p ∷ ps) = block_of_part p ++ blocks_of_parts ps

abbrev tail : List Bytes → List Bytes
tail [] = []
tail (p ∷ ps) = ps

unfoldable pub extract_file_conflict_blocks : Bytes → List (Bytes × Bytes)
unfolding blocks_of_parts split_text
extract_file_conflict_blocks log = blocks_of_parts (tail (split_text log header_prefix))

-- The map read at a path: the last assignment, or the empty text.
unfoldable pub content_of : Bytes → List (Bytes × Bytes) → Bytes → Bytes
unfolding same
content_of found [] path = found
content_of found ((p, content) ∷ m) path =
    content_of (if same p path then content else found) m path

unfoldable pub is_lock_file : Bytes → Bool
unfolding same
is_lock_file base = is_one_of base (
    "go.sum" ∷ "package-lock.json" ∷ "yarn.lock" ∷ "pnpm-lock.yaml" ∷ "bun.lockb" ∷ "bun.lock"
    ∷ "cargo.lock" ∷ "gemfile.lock" ∷ "poetry.lock" ∷ "composer.lock" ∷ "flake.lock" ∷ [])

-- The tests of isGeneratedFile that read the path and the name.
unfoldable pub is_generated_name : Bytes → Bytes → Bool
unfolding has_prefix has_suffix contains_text
is_generated_name path base =
    ends path ".pb.go"
    || ends path "_pb2.py"
    || ends path ".pb.ts"
    || starts base "mock_"
    || ends base "_mock.go"
    || ends base "_mock.ts"
    || holds path "generated"
    || holds path "__generated__"

-- Its test for a minified bundle.
unfoldable pub is_minified : Bytes → Bool
unfolding same
is_minified ext = is_one_of ext (".min.js" ∷ ".min.css" ∷ [])

unfoldable pub is_generated_file : Bytes → Bytes → Bytes → Bool
unfolding is_generated_name is_minified
is_generated_file path base ext = is_generated_name path base || is_minified ext

unfoldable pub is_test_file : Bytes → Bytes → Bool
unfolding has_prefix has_suffix contains_text
is_test_file path base =
    ends path "_test.go"
    || any (ends base) (".test.ts" ∷ ".test.js" ∷ ".test.tsx" ∷ ".test.jsx" ∷ [])
    || any (ends base) (".spec.ts" ∷ ".spec.js" ∷ [])
    || ends base "_test.py"
    || starts base "test_"
    || holds path "__tests__/"
    || holds path "/tests/"

unfoldable pub is_migration_file : Bytes → Bool
unfolding to_lower contains_text has_suffix
is_migration_file path =
    let lower = to_lower path in
    holds lower "migration" || holds lower "migrate" || holds lower "/schema/" || ends lower ".sql"

unfoldable pub is_config_file : Bytes → Bool
unfolding same
is_config_file ext = is_one_of ext (".toml" ∷ ".yaml" ∷ ".yml" ∷ ".json" ∷ ".ini" ∷ ".cfg" ∷ [])

-- What classifyFile returns from the content, where it is not empty.
unfoldable pub class_of_content : Bytes → Bytes → Option (ConflictClass × String)
unfolding has_function_body_conflict has_delete_modify_conflict has_interface_conflict
    count_conflict_markers all_conflicts_small looks_like_import_or_list
class_of_content content ext =
    let markers = count_conflict_markers content in
    if is_empty content
    then none
    else if has_function_body_conflict content
    then some (semantic, "conflicting changes within function body")
    else if has_delete_modify_conflict content
    then some (semantic, "one side deleted code the other side modified")
    else if has_interface_conflict content ext
    then some (semantic, "conflicting interface or type definition changes")
    else if ltb 0 markers && all_conflicts_small content && looks_like_import_or_list content
    then some (trivial, "import ordering or list addition conflict")
    else if ltb 0 markers && not (all_conflicts_small content)
    then some (semantic, "large conflicting region in source file")
    else none

-- Where the content does not tell.
abbrev pub class_by_default : Bytes → ConflictClass × String
unfolding is_config_file
class_by_default ext =
    if is_config_file ext
    then (trivial, "config file conflict (likely list addition)")
    else (semantic, "source file conflict (unknown pattern, defaulting to semantic)")

abbrev or_default :
    Option (ConflictClass × String) → ConflictClass × String → ConflictClass × String
or_default none d = d
or_default (some c) d = c

unfoldable pub class_of_file : Bytes → Bytes → ConflictClass × String
unfolding to_lower file_ext file_base is_lock_file is_generated_file is_test_file is_migration_file
    class_of_content
class_of_file path content =
    let ext = to_lower (file_ext path) in
    let base = to_lower (file_base path) in
    if is_lock_file base
    then (trivial, "lock file (auto-generated)")
    else if is_generated_file path base ext
    then (trivial, "generated file")
    else if is_test_file path base
    then (semantic, "conflicting test file (likely contradictory assertions)")
    else if is_migration_file path
    then (semantic, "schema migration conflict")
    else or_default (class_of_content content ext) (class_by_default ext)

unfoldable pub classify_file : Bytes → Bytes → ConflictDetail
unfolding class_of_file count_conflict_markers
classify_file path content =
    let c = class_of_file path content in
    record { file = path; class = c.0; reason = c.1; markers = count_conflict_markers content }

unfoldable pub details_of : List (Bytes × Bytes) → List Bytes → List ConflictDetail
unfolding classify_file content_of
details_of contents [] = []
details_of contents (f ∷ fs) = classify_file f (content_of [] contents f) ∷ details_of contents fs

-- The first semantic detail, by which the log is reported.
unfoldable pub first_semantic : List ConflictDetail → Option ConflictDetail
first_semantic [] = none
first_semantic (d ∷ ds) = elim (d.class) [ semantic ↦ some d | trivial ↦ first_semantic ds ]

unfoldable pub analyse : List Bytes → List ConflictDetail → ConflictAnalysis
unfolding first_semantic
analyse files details = elim (first_semantic details) [
  | some d ↦ record {
    class = semantic;
    files = files;
    reason = bytes "semantic conflict in " ++ d.file ++ bytes ": " ++ bytes d.reason;
    details = details;
  }
  | none ↦ record {
    class = trivial;
    files = files;
    reason = bytes "all conflicting files are mechanical";
    details = details;
  }
]

-- From the conflicting files, and the contents that the log gives.
unfoldable pub conclude : List Bytes → List (Bytes × Bytes) → ConflictAnalysis
unfolding analyse details_of
conclude files contents =
    if is_empty files
    then record {
      class = trivial;
      files = [];
      reason = bytes "no conflicting files detected";
      details = [];
    }
    else analyse files (details_of contents files)

unfoldable pub classify_conflict : Bytes → ConflictAnalysis
unfolding conclude extract_conflict_files extract_file_conflict_blocks
classify_conflict log = conclude (extract_conflict_files log) (extract_file_conflict_blocks log)

-- The processor with this classification, as handleConflict calls it.
unfoldable pub classifying : Processor → Processor
unfolding classify_conflict
classifying p = record p { classify = λ log. (classify_conflict (bytes log)).class }
