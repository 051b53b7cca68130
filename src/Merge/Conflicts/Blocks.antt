-- ===== src/Merge/Conflicts/Blocks.antt =====
-- The conflict markers in the content of a file, and the looks of the two sides of a conflict:
-- parseConflictBlocks and what reads it, in internal/mergequeue/classify.go.
pub mod RoundTrip
use clankwork.Base.{
  ℕ, suc, ◌/◌, String, Bool, true, false, not, ◌&&◌, ◌||◌, List, [], ◌∷◌, ◌++◌, length, any, leb,
  eqb, if◌then◌else◌, is_empty,
}
use clankwork.Base.Bytes.{
  Bytes, same, is_blank, has_prefix, trim_space, split_lines, join_lines, is_one_of, holds, starts,
  ends,
}
use mathlib.Core.List.{reverse}

pub record ConflictBlock : Type 0 where
  pub ours : Bytes
  pub theirs : Bytes
  pub ours_lines : ℕ
  pub theirs_lines : ℕ

-- A line that a marker starts, after the space before it.
unfoldable pub marked : String → Bytes → Bool
unfolding has_prefix trim_space
marked marker line = starts (trim_space line) marker

-- Where the loop stands: between two blocks, or in one side of a block, with the lines of that side
-- so far in reverse.
pub data Place : Type 0 where
  outside : Place
  in_ours : List Bytes → Place
  in_theirs : List Bytes → List Bytes → Place

unfoldable pub block_of : List Bytes → List Bytes → ConflictBlock
unfolding join_lines
block_of ours theirs = record {
  ours = join_lines ours;
  theirs = join_lines theirs;
  ours_lines = length ours;
  theirs_lines = length theirs;
}

-- The three nested loops. A block that the end of the text cuts off before `=======` is dropped; one
-- that it cuts off later is kept.
unfoldable pub blocks_from : Place → List Bytes → List ConflictBlock
unfolding marked
blocks_from outside [] = []
blocks_from (in_ours acc) [] = []
blocks_from (in_theirs ours acc) [] = block_of ours (reverse acc) ∷ []
blocks_from outside (l ∷ ls) = elim (marked "<<<<<<<" l) [
  | true ↦ blocks_from (in_ours []) ls
  | false ↦ blocks_from outside ls
]
blocks_from (in_ours acc) (l ∷ ls) = elim (marked "=======" l) [
  | true ↦ blocks_from (in_theirs (reverse acc) []) ls
  | false ↦ blocks_from (in_ours (l ∷ acc)) ls
]
blocks_from (in_theirs ours acc) (l ∷ ls) = elim (marked ">>>>>>>" l) [
  | true ↦ block_of ours (reverse acc) ∷ blocks_from outside ls
  | false ↦ blocks_from (in_theirs ours (l ∷ acc)) ls
]

unfoldable pub parse_conflict_blocks : Bytes → List ConflictBlock
unfolding blocks_from split_lines
parse_conflict_blocks content = blocks_from outside (split_lines content)

-- A loop that counts the elements that pass.
unfoldable pub count : (Bytes → Bool) → List Bytes → ℕ
count p [] = 0
count p (l ∷ ls) = let rest = count p ls in if p l then suc rest else rest

unfoldable pub count_conflict_markers : Bytes → ℕ
unfolding count marked split_lines
count_conflict_markers content = count (marked "<<<<<<<") (split_lines content)

abbrev pub max_small_lines : ℕ
max_small_lines = 5

abbrev pub is_small : ConflictBlock → Bool
is_small b = leb b.ours_lines max_small_lines && leb b.theirs_lines max_small_lines

unfoldable pub all_conflicts_small : Bytes → Bool
unfolding parse_conflict_blocks
all_conflicts_small content = not (any (λ b. not (is_small b)) (parse_conflict_blocks content))

abbrev statement_indicators : List String
statement_indicators =
    "return " ∷ "if " ∷ "for " ∷ "switch " ∷ "case " ∷ "err :=" ∷ "err =" ∷ "= " ∷ ":= " ∷ "var "
    ∷ "fmt." ∷ "log." ∷ "slog." ∷ "(ctx" ∷ "context." ∷ []

-- A line that is neither blank nor a comment, and holds an indicator.
unfoldable pub is_statement : Bytes → Bool
unfolding trim_space has_prefix same
is_statement line =
    let t = trim_space line in
    not (same t [] || starts t "//" || starts t "#") && any (holds t) statement_indicators

unfoldable pub looks_like_statements : Bytes → Bool
unfolding count is_statement split_lines
looks_like_statements content = leb 2 (count is_statement (split_lines content))

unfoldable pub has_function_body_conflict : Bytes → Bool
unfolding parse_conflict_blocks looks_like_statements
has_function_body_conflict content =
    any (λ b. looks_like_statements b.ours && looks_like_statements b.theirs)
      (parse_conflict_blocks content)

unfoldable pub has_delete_modify_conflict : Bytes → Bool
unfolding parse_conflict_blocks is_blank
has_delete_modify_conflict content =
    any
      (λ b.
        is_blank b.ours && not (is_blank b.theirs) || not (is_blank b.ours) && is_blank b.theirs)
      (parse_conflict_blocks content)

abbrev defines_type : Bytes → Bool
defines_type s =
    holds s "interface "
    || holds s "type " && holds s "struct "
    || holds s "type " && holds s "interface "

unfoldable pub has_interface_conflict : Bytes → Bytes → Bool
unfolding parse_conflict_blocks
has_interface_conflict content ext =
    is_one_of ext (".go" ∷ ".ts" ∷ ".java" ∷ [])
    && any (λ b. defines_type (b.ours ++ 10 ∷ b.theirs)) (parse_conflict_blocks content)

-- A loop that keeps the elements that pass.
unfoldable pub keep : (Bytes → Bool) → List Bytes → List Bytes
keep p [] = []
keep p (l ∷ ls) = let rest = keep p ls in if p l then l ∷ rest else rest

unfoldable pub non_blank_lines : Bytes → List Bytes
unfolding keep is_blank split_lines
non_blank_lines s = keep (λ l. not (is_blank l)) (split_lines s)

unfoldable pub is_import : Bytes → Bool
unfolding trim_space has_prefix same
is_import line =
    let t = trim_space line in
    starts t "import "
    || starts t "\""
    || starts t "from "
    || starts t "require("
    || is_one_of t (")" ∷ "(" ∷ [])

unfoldable pub looks_like_import_block : Bytes → Bool
unfolding non_blank_lines count is_import
looks_like_import_block content =
    let lines = non_blank_lines content in
    if is_empty lines then true else eqb (count is_import lines) (length lines)

unfoldable pub is_entry : Bytes → Bool
unfolding trim_space has_prefix
is_entry line =
    let t = trim_space line in
    starts t "-" || starts t "{" || starts t "\"" || ends t "," || starts t "//"

unfoldable pub looks_like_list_entry : Bytes → Bool
unfolding non_blank_lines count is_entry
looks_like_list_entry content =
    let lines = non_blank_lines content in
    if is_empty lines then true else leb (length lines / 2) (count is_entry lines)

unfoldable pub looks_mechanical : ConflictBlock → Bool
unfolding looks_like_import_block looks_like_list_entry
looks_mechanical b =
    looks_like_import_block b.ours
    || looks_like_import_block b.theirs
    || looks_like_list_entry b.ours
    || looks_like_list_entry b.theirs

unfoldable pub looks_like_import_or_list : Bytes → Bool
unfolding parse_conflict_blocks
looks_like_import_or_list content =
    let blocks = parse_conflict_blocks content in
    if is_empty blocks then false else not (any (λ b. not (looks_mechanical b)) blocks)
