-- ===== src/Merge/Conflicts/OneLine.antt =====
-- Conflicts with a side of one line: they pass for additions to a list, whatever they change.
use clankwork.Base.{
  ℕ, ◌≡◌, refl, true, false, not, ◌&&◌, ◌⊎◌, inl, inr, some, List, [], ◌∷◌, length, any, leb, ltb,
  ◌≤◌, ◌/◌, All, is_empty, arith, if◌then◌else◌,
}
use clankwork.Base.Bytes.{Bytes, is_blank, split_lines}
use clankwork.Merge.Process.{trivial}
use clankwork.Merge.Conflicts.Blocks.{
  ConflictBlock, parse_conflict_blocks, count, is_statement, is_entry, keep, non_blank_lines,
  looks_like_statements, looks_like_list_entry, looks_mechanical, has_function_body_conflict,
  looks_like_import_or_list, has_delete_modify_conflict, has_interface_conflict,
  count_conflict_markers, all_conflicts_small,
}
use clankwork.Merge.Conflicts.{class_of_content}

-- One line at most, besides blank ones.
abbrev pub IsShort : Bytes → Type 0
IsShort s = length (non_blank_lines s) ≤ 1

abbrev pub HasShort : ConflictBlock → Type 0
HasShort b = IsShort b.ours ⊎ IsShort b.theirs

is_statement_blank : (l : Bytes) → is_blank l ≡ true → is_statement l ≡ false
unfolding is_statement is_blank
is_statement_blank l h = rw (is_statement, h) refl

count-keep : (ls : List Bytes) → count is_statement ls ≤ length (keep (λ l. not (is_blank l)) ls)
unfolding count keep
count-keep [] = omega arith
count-keep (l ∷ ls) = ground (arith, count-keep ls, is_statement_blank l)

IsShort-looks_like_statements : (s : Bytes) → IsShort s → looks_like_statements s ≡ false
unfolding looks_like_statements non_blank_lines
IsShort-looks_like_statements s h = ground (arith, count-keep (split_lines s))

half_of_one :
    (lines : List Bytes) (n : ℕ)
    → length lines ≤ 1
    → (if is_empty lines then true else leb (length lines / 2) n) ≡ true
half_of_one [] n h = refl
half_of_one (l ∷ []) n h = ground arith
half_of_one (l ∷ m ∷ ls) n h = ground arith

IsShort-looks_like_list_entry : (s : Bytes) → IsShort s → looks_like_list_entry s ≡ true
unfolding looks_like_list_entry
IsShort-looks_like_list_entry s h =
    half_of_one (non_blank_lines s) (count is_entry (non_blank_lines s)) h

HasShort-body :
    (b : ConflictBlock)
    → HasShort b
    → (looks_like_statements b.ours && looks_like_statements b.theirs) ≡ false
HasShort-body b (inl h) = rw (IsShort-looks_like_statements b.ours h) refl
HasShort-body b (inr h) = let e = IsShort-looks_like_statements b.theirs h in ground (arith, e)

HasShort-looks_mechanical : (b : ConflictBlock) → HasShort b → looks_mechanical b ≡ true
unfolding looks_mechanical
HasShort-looks_mechanical b (inl h) =
    let e = IsShort-looks_like_list_entry b.ours h in ground (arith, e)
HasShort-looks_mechanical b (inr h) =
    let e = IsShort-looks_like_list_entry b.theirs h in ground (arith, e)

no_body :
    (bs : List ConflictBlock)
    → All HasShort bs
    → any (λ b. looks_like_statements b.ours && looks_like_statements b.theirs) bs ≡ false
no_body [] h = refl
no_body (b ∷ bs) (h, hs) = let e = HasShort-body b h in rw (e) (no_body bs hs)

All-mechanical :
    (bs : List ConflictBlock) → All HasShort bs → any (λ b. not (looks_mechanical b)) bs ≡ false
All-mechanical [] h = refl
All-mechanical (b ∷ bs) (h, hs) =
    let e = HasShort-looks_mechanical b h in rw (e) (All-mechanical bs hs)

HasShort-has_function_body_conflict :
    (content : Bytes)
    → All HasShort (parse_conflict_blocks content)
    → has_function_body_conflict content ≡ false
unfolding has_function_body_conflict
HasShort-has_function_body_conflict content h = no_body (parse_conflict_blocks content) h

HasShort-looks_like_import_or_list :
    (content : Bytes)
    → is_empty (parse_conflict_blocks content) ≡ false
    → All HasShort (parse_conflict_blocks content)
    → looks_like_import_or_list content ≡ true
unfolding looks_like_import_or_list
HasShort-looks_like_import_or_list content n h =
    rw (n, All-mechanical (parse_conflict_blocks content) h) refl

-- Where each conflict of a content is small and one of its sides has one line at most that is not
-- blank, the content is classified as trivial, whatever the lines change, unless a side is deleted or
-- a type is defined.
pub one_line_trivial :
    (content ext : Bytes)
    → ltb 0 (count_conflict_markers content) ≡ true
    → is_empty (parse_conflict_blocks content) ≡ false
    → All HasShort (parse_conflict_blocks content)
    → all_conflicts_small content ≡ true
    → has_delete_modify_conflict content ≡ false
    → has_interface_conflict content ext ≡ false
    → class_of_content content ext ≡ some (trivial, "import ordering or list addition conflict")
unfolding class_of_content
one_line_trivial [] ext m n h small d i = cc
one_line_trivial (c ∷ cs) ext m n h small d i =
    rw
      (
        HasShort-has_function_body_conflict (c ∷ cs) h,
        d,
        i,
        m,
        small,
        HasShort-looks_like_import_or_list (c ∷ cs) n h,
      )
      refl
