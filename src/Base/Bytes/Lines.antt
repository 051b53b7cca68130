-- ===== src/Base/Bytes/Lines.antt =====
-- Texts of several lines: strings.Split undoes strings.Join.
use Prim.Native.Nat.{ℕ}
use mathlib.Core.Path.{◌≡◌, refl, ap, ◌∙◌}
use mathlib.Core.Bool.{false}
use mathlib.Core.List.{List, [], ◌∷◌, ◌++◌, reverse_aux}
use native.Mathlib.Omega.{arith}
use clankwork.Base.Tests.{eqb}
use clankwork.Base.Lists.{All, any}
use clankwork.Base.Bytes.{Bytes, split_from, split_lines, join_lines}

-- No line break.
abbrev pub IsLine : Bytes → Type 0
IsLine l = any (λ c. eqb c 10) l ≡ false

head-tail : (c : ℕ) (l : Bytes) → IsLine (c ∷ l) → (eqb c 10 ≡ false) × IsLine l
head-tail c l h = (ground arith, ground arith)

split_from-line :
    (acc l s : Bytes)
    → IsLine l
    → split_from acc (l ++ 10 ∷ s) ≡ reverse_aux acc l ∷ split_from [] s
unfolding split_from
split_from-line acc [] s h = refl
split_from-line acc (c ∷ l) s n =
    let (h, hs) = head-tail c l n in rw (split_from, h) (split_from-line (c ∷ acc) l s hs)

split_from-last : (acc l : Bytes) → IsLine l → split_from acc l ≡ reverse_aux acc l ∷ []
unfolding split_from
split_from-last acc [] h = refl
split_from-last acc (c ∷ l) n =
    let (h, hs) = head-tail c l n in rw (split_from, h) (split_from-last (c ∷ acc) l hs)

pub split-join :
    (l : Bytes) (ls : List Bytes) → All IsLine (l ∷ ls) → split_lines (join_lines (l ∷ ls)) ≡ l ∷ ls
unfolding split_lines join_lines
split-join l [] (h, hs) = split_from-last [] l h
split-join l (m ∷ ms) (h, hs) =
    split_from-line [] l (join_lines (m ∷ ms)) h ∙ ap (λ rest. l ∷ rest) (split-join m ms hs)
