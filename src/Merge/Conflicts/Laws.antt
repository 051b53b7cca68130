-- ===== src/Merge/Conflicts/Laws.antt =====
-- ClassifyConflict as a whole: which logs it calls semantic.
use clankwork.Base.{
  ◌≡◌, refl, sym, ap, ◌∙◌, ◌↔◌, ◌⊎◌, inl, inr, true, none, some, List, [], ◌∷◌, All, All-mem,
  Bool-cases, Option-cases, arith,
}
use clankwork.Base.Bytes.{Bytes, same, same_sound, split_lines}
use clankwork.Merge.Process.{ConflictClass, trivial, semantic}
use clankwork.Merge.Conflicts.{
  ConflictDetail, unmerged_path, files_from, seen_before, extract_conflict_files,
  extract_file_conflict_blocks, content_of, class_of_file, classify_file, details_of,
  first_semantic, analyse, classify_conflict, conclude,
}
use mathlib.Core.List.{Memᴰ}

class-cases : (c : ConflictClass) → (c ≡ trivial) ⊎ (c ≡ semantic)
class-cases trivial = inl refl
class-cases semantic = inr refl

-- A line that gives a file as unmerged, among lines.
abbrev pub IsListed : List Bytes → Bytes → Type 0
IsListed lines path = (line : Bytes) × Memᴰ line lines × (unmerged_path line ≡ some path)

abbrev pub IsSemantic : List (Bytes × Bytes) → Bytes → Type 0
IsSemantic contents path = (class_of_file path (content_of [] contents path)).0 ≡ semantic

IsListed-later : (l : Bytes) (ls : List Bytes) (p : Bytes) → IsListed ls p → IsListed (l ∷ ls) p
IsListed-later l ls p (line, m, e) = (line, Memᴰ.tail m, e)

first_file :
    (l : Bytes) (ls : List Bytes) (p q : Bytes) {fs : List Bytes}
    → unmerged_path l ≡ some q
    → (Memᴰ p fs → IsListed ls p)
    → Memᴰ p (q ∷ fs)
    → IsListed (l ∷ ls) p
first_file l ls p q e f (Memᴰ.head h) = (l, Memᴰ.head refl, e ∙ ap some (sym h))
first_file l ls p q e f (Memᴰ.tail m) = IsListed-later l ls p (f m)

files_from-IsListed :
    (seen ls : List Bytes) (p : Bytes) → Memᴰ p (files_from seen ls) → IsListed ls p
unfolding files_from
files_from-IsListed seen [] p = λ m. elim m [ ]
files_from-IsListed seen (l ∷ ls) p = elim (Option-cases (unmerged_path l)) [
  | inl e ↦ rw (files_from, e) (λ m. IsListed-later l ls p (files_from-IsListed seen ls p m))
  | inr (q, e) ↦ elim (Bool-cases (seen_before seen q)) [
    | inl s ↦ rw (files_from, e, s) (λ m. IsListed-later l ls p (files_from-IsListed seen ls p m))
    | inr s ↦
        rw (files_from, e, s) (λ m. first_file l ls p q e (files_from-IsListed (q ∷ seen) ls p) m)
  ]
]

after_file :
    (seen : List Bytes) (p q : Bytes) {fs : List Bytes}
    → (seen_before (q ∷ seen) p ≡ true) ⊎ Memᴰ p fs
    → (seen_before seen p ≡ true) ⊎ Memᴰ p (q ∷ fs)
after_file seen p q (inr m) = inr (Memᴰ.tail m)
after_file seen p q (inl h) = elim (Bool-cases (same p q)) [
  | inl e ↦ inr (Memᴰ.head (same_sound p q e))
  | inr e ↦ inl (ground arith)
]

files_from-mem :
    (seen ls : List Bytes) (line p : Bytes)
    → Memᴰ line ls
    → unmerged_path line ≡ some p
    → (seen_before seen p ≡ true) ⊎ Memᴰ p (files_from seen ls)
unfolding files_from
files_from-mem seen [] line p m u = elim m [ ]
files_from-mem seen (l ∷ ls) line p (Memᴰ.head h) u =
    let e : unmerged_path l ≡ some p = ap unmerged_path (sym h) ∙ u in
    elim (Bool-cases (seen_before seen p)) [
      | inl s ↦ inl s
      | inr s ↦ inr (rw (files_from, e, s) (Memᴰ.head refl))
    ]
files_from-mem seen (l ∷ ls) line p (Memᴰ.tail m) u = elim (Option-cases (unmerged_path l)) [
  | inl e ↦ rw (files_from, e) (files_from-mem seen ls line p m u)
  | inr (q, e) ↦ elim (Bool-cases (seen_before seen q)) [
    | inl s ↦ rw (files_from, e, s) (files_from-mem seen ls line p m u)
    | inr s ↦ rw (files_from, e, s) (after_file seen p q (files_from-mem (q ∷ seen) ls line p m u))
  ]
]

-- The files of a log are those that a line of it gives as unmerged.
extract_iff : (log p : Bytes) → Memᴰ p (extract_conflict_files log) ↔ IsListed (split_lines log) p
unfolding extract_conflict_files
extract_iff log p = (
  files_from-IsListed [] (split_lines log) p,
  λ (line, m, u). elim (files_from-mem [] (split_lines log) line p m u) [ inl h ↦ cc | inr h ↦ h ],
)

first_semantic-some :
    (contents : List (Bytes × Bytes)) (fs : List Bytes) (d : ConflictDetail)
    → first_semantic (details_of contents fs) ≡ some d
    → (p : Bytes) × Memᴰ p fs × IsSemantic contents p
unfolding details_of first_semantic classify_file
first_semantic-some contents [] d = λ h. cc
first_semantic-some contents (f ∷ fs) d =
    elim (class-cases ((class_of_file f (content_of [] contents f)).0)) [
      | inl c ↦
          rw (details_of, classify_file, first_semantic, c)
            (λ h. let (p, m, s) = first_semantic-some contents fs d h in (p, Memᴰ.tail m, s))
      | inr c ↦ rw (details_of, classify_file, first_semantic, c) (λ h. (f, Memᴰ.head refl, c))
    ]

abbrev pub IsTrivial : List (Bytes × Bytes) → Bytes → Type 0
IsTrivial contents path = (class_of_file path (content_of [] contents path)).0 ≡ trivial

first_semantic-none :
    (contents : List (Bytes × Bytes)) (fs : List Bytes)
    → first_semantic (details_of contents fs) ≡ none
    → All (IsTrivial contents) fs
unfolding details_of first_semantic classify_file
first_semantic-none contents [] = λ h. tt
first_semantic-none contents (f ∷ fs) =
    elim (class-cases ((class_of_file f (content_of [] contents f)).0)) [
      | inl c ↦
          rw (details_of, classify_file, first_semantic, c)
            (λ h. (refl, first_semantic-none contents fs h))
      | inr c ↦ rw (details_of, classify_file, first_semantic, c) (λ h. cc)
    ]

-- What is answered for files, by the semantic ones among them.
abbrev Judged : List (Bytes × Bytes) → List Bytes → ConflictClass → Type 0
Judged contents fs c =
    ((c ≡ trivial) × All (IsTrivial contents) fs)
    ⊎ ((c ≡ semantic) × ((p : Bytes) × Memᴰ p fs × IsSemantic contents p))

analyse-Judged :
    (contents : List (Bytes × Bytes)) (fs : List Bytes)
    → Judged contents fs ((analyse fs (details_of contents fs)).class)
unfolding analyse
analyse-Judged contents fs = elim (Option-cases (first_semantic (details_of contents fs))) [
  | inl e ↦ inl (rw (analyse, e) refl, first_semantic-none contents fs e)
  | inr (d, e) ↦ inr (rw (analyse, e) refl, first_semantic-some contents fs d e)
]

conclude-Judged :
    (contents : List (Bytes × Bytes)) (fs : List Bytes)
    → Judged contents fs ((conclude fs contents).class)
unfolding conclude
conclude-Judged contents [] = inl (refl, tt)
conclude-Judged contents (f ∷ fs) = analyse-Judged contents (f ∷ fs)

semantic_iff :
    (contents : List (Bytes × Bytes)) (fs : List Bytes)
    → ((conclude fs contents).class ≡ semantic) ↔ ((p : Bytes) × Memᴰ p fs × IsSemantic contents p)
semantic_iff contents fs = elim (conclude-Judged contents fs) [
  | inl (c, all) ↦ (λ h. cc, λ (p, m, s). let t = All-mem (IsTrivial contents) fs p all m in cc)
  | inr (c, found) ↦ (λ h. found, λ h. c)
]

-- A conflict is classified as semantic exactly if a line of the log, as git status prints it, gives
-- a file as unmerged that is semantic by its name and by the last content that the log has for it.
pub classify_conflict-semantic_iff :
    (log : Bytes)
    → ((classify_conflict log).class ≡ semantic) ↔ (
        (p : Bytes) × IsListed (split_lines log) p
        × IsSemantic (extract_file_conflict_blocks log) p)
unfolding classify_conflict
classify_conflict-semantic_iff log =
    let contents = extract_file_conflict_blocks log in
    let files = extract_conflict_files log in
    (
      λ h. let (p, m, s) = (semantic_iff contents files).0 h in (p, (extract_iff log p).0 m, s),
      λ (p, l, s). (semantic_iff contents files).1 (p, (extract_iff log p).1 l, s),
    )

-- The class, with what it says of the listed files.
pub classify_conflict-Judged :
    (log : Bytes)
    → (((classify_conflict log).class ≡ trivial)
        × ((p : Bytes)
            → IsListed (split_lines log) p
            → IsTrivial (extract_file_conflict_blocks log) p))
      ⊎ (((classify_conflict log).class ≡ semantic)
          × ((p : Bytes) × IsListed (split_lines log) p
              × IsSemantic (extract_file_conflict_blocks log) p))
unfolding classify_conflict
classify_conflict-Judged log =
    let contents = extract_file_conflict_blocks log in
    let files = extract_conflict_files log in
    elim (conclude-Judged contents files) [
      | inl (c, all) ↦
          inl (c, λ p l. All-mem (IsTrivial contents) files p all ((extract_iff log p).1 l))
      | inr (c, (p, m, s)) ↦ inr (c, (p, (extract_iff log p).0 m, s))
    ]
