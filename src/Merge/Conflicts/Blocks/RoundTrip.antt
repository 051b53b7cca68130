-- ===== src/Merge/Conflicts/Blocks/RoundTrip.antt =====
-- Reading conflict markers back: a text that is written from regions, each with its markers, is
-- parsed to the blocks of the regions.
use clankwork.Base.{String, ◌≡◌, refl, sym, ap, ◌∙◌, true, false, List, [], ◌∷◌, ◌++◌, map, All}
use clankwork.Base.Bytes.{Bytes, split_lines, join_lines}
use clankwork.Base.Bytes.Lines.{IsLine, split-join}
use clankwork.Merge.Conflicts.Blocks.{
  ConflictBlock, outside, in_ours, in_theirs, block_of, blocks_from, parse_conflict_blocks, marked,
}
use mathlib.Core.List.{reverse_aux}

-- What git writes for a conflict: the lines before it, the two sides, and the three marker lines.
pub record Region : Type 0 where
  pub before : List Bytes
  pub opening : Bytes
  pub ours : List Bytes
  pub middle : Bytes
  pub theirs : List Bytes
  pub closing : Bytes

abbrev pub Free : String → List Bytes → Type 0
Free marker lines = All (λ l. marked marker l ≡ false) lines

-- The markers of a region are markers, and its other lines are not read as one.
abbrev pub IsRegion : Region → Type 0
IsRegion r =
    Free "<<<<<<<" r.before
    × (marked "<<<<<<<" r.opening ≡ true)
    × Free "=======" r.ours
    × (marked "=======" r.middle ≡ true)
    × Free ">>>>>>>" r.theirs
    × (marked ">>>>>>>" r.closing ≡ true)

abbrev pub lines_of : List Region → List Bytes → List Bytes
lines_of [] after = after
lines_of (r ∷ rs) after =
    r.before ++ r.opening ∷ (r.ours ++ r.middle ∷ (r.theirs ++ r.closing ∷ lines_of rs after))

abbrev pub block : Region → ConflictBlock
block r = block_of r.ours r.theirs

outside-skips :
    (before rest : List Bytes)
    → Free "<<<<<<<" before
    → blocks_from outside (before ++ rest) ≡ blocks_from outside rest
unfolding blocks_from
outside-skips [] rest h = refl
outside-skips (l ∷ ls) rest (h, hs) = rw (blocks_from, h) (outside-skips ls rest hs)

ours-reads :
    (acc ours : List Bytes) (middle : Bytes) (rest : List Bytes)
    → Free "=======" ours
    → marked "=======" middle ≡ true
    → blocks_from (in_ours acc) (ours ++ middle ∷ rest)
      ≡ blocks_from (in_theirs (reverse_aux acc ours) []) rest
unfolding blocks_from
ours-reads acc [] middle rest h m = rw (blocks_from, m) refl
ours-reads acc (l ∷ ls) middle rest (h, hs) m =
    rw (blocks_from, h) (ours-reads (l ∷ acc) ls middle rest hs m)

theirs-reads :
    (ours acc theirs : List Bytes) (closing : Bytes) (rest : List Bytes)
    → Free ">>>>>>>" theirs
    → marked ">>>>>>>" closing ≡ true
    → blocks_from (in_theirs ours acc) (theirs ++ closing ∷ rest)
      ≡ block_of ours (reverse_aux acc theirs) ∷ blocks_from outside rest
unfolding blocks_from
theirs-reads ours acc [] closing rest h m = rw (blocks_from, m) refl
theirs-reads ours acc (l ∷ ls) closing rest (h, hs) m =
    rw (blocks_from, h) (theirs-reads ours (l ∷ acc) ls closing rest hs m)

region-reads :
    (r : Region) (rest : List Bytes)
    → IsRegion r
    → blocks_from outside
        (r.before ++ r.opening ∷ (r.ours ++ r.middle ∷ (r.theirs ++ r.closing ∷ rest)))
      ≡ block r ∷ blocks_from outside rest
unfolding blocks_from
region-reads r rest (b, o, u, m, t, c) =
    outside-skips r.before _ b
    ∙ rw (blocks_from, o) (ours-reads [] r.ours r.middle _ u m)
    ∙ theirs-reads r.ours [] r.theirs r.closing rest t c

nothing-reads : (after : List Bytes) → Free "<<<<<<<" after → blocks_from outside after ≡ []
unfolding blocks_from
nothing-reads [] h = refl
nothing-reads (l ∷ ls) (h, hs) = rw (blocks_from, h) (nothing-reads ls hs)

blocks_from-lines :
    (rs : List Region) (after : List Bytes)
    → All IsRegion rs
    → Free "<<<<<<<" after
    → blocks_from outside (lines_of rs after) ≡ map block rs
blocks_from-lines [] after h f = nothing-reads after f
blocks_from-lines (r ∷ rs) after (h, hs) f =
    region-reads r (lines_of rs after) h ∙ ap (λ bs. block r ∷ bs) (blocks_from-lines rs after hs f)

-- A text that is written from the lines of regions and of what follows them, none of which has a
-- line break, is parsed to one block for each region, with its two sides and their numbers of lines,
-- in order; the lines around the regions must not look like an opening marker, nor those of a side
-- like the marker that ends it.
pub parse_conflict_blocks-written :
    (rs : List Region) (after : List Bytes) (l : Bytes) (ls : List Bytes)
    → All IsRegion rs
    → Free "<<<<<<<" after
    → lines_of rs after ≡ l ∷ ls
    → All IsLine (l ∷ ls)
    → parse_conflict_blocks (join_lines (lines_of rs after)) ≡ map block rs
unfolding parse_conflict_blocks
parse_conflict_blocks-written rs after l ls h f e n =
    ap (λ t. blocks_from outside (split_lines (join_lines t))) e
    ∙ ap (blocks_from outside) (split-join l ls n ∙ sym e)
    ∙ blocks_from-lines rs after h f
