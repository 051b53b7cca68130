-- ===== src/Base/Bytes.antt =====
-- Go's `strings` functions, on the bytes of a text. Case and white space are those of ASCII.
pub mod Lines
pub mod Paths
use Prim.Native.Nat.{ℕ, zero, suc, ◌+◌, ◌-◌}
use Prim.Native.Char.{code}
use Prim.Native.String.{String}
use mathlib.Core.Path.{◌≡◌, refl}
use native.Mathlib.Omega.{arith}
use mathlib.Core.Bool.{Bool, true, false, ◌&&◌, ◌||◌}
use mathlib.Core.Option
use mathlib.Core.Option.{Option, some, none}
use mathlib.Core.List.{List, [], ◌∷◌, ◌++◌, map, reverse}
use clankwork.Base.Lists.{length, any}
use clankwork.Base.Tests.{eqb, leb, if◌then◌else◌}

abbrev pub Bytes : Type 0
Bytes = List ℕ

-- The code points of a literal: its bytes, as it is ASCII.
abbrev pub bytes : String → Bytes
bytes String.[] = []
bytes (String.◌∷◌ c s) = code c ∷ bytes s

unfoldable pub same : Bytes → Bytes → Bool
same [] [] = true
same [] (y ∷ ys) = false
same (x ∷ xs) [] = false
same (x ∷ xs) (y ∷ ys) = eqb x y && same xs ys

pub same_sound : (a b : Bytes) → same a b ≡ true → a ≡ b
unfolding same
same_sound [] [] h = refl
same_sound [] (y ∷ ys) h = cc
same_sound (x ∷ xs) [] h = cc
same_sound (x ∷ xs) (y ∷ ys) h = ground (arith, same_sound xs ys)

-- strings.HasPrefix(s, p)
unfoldable pub has_prefix : Bytes → Bytes → Bool
has_prefix s [] = true
has_prefix [] (y ∷ p) = false
has_prefix (x ∷ s) (y ∷ p) = eqb x y && has_prefix s p

-- strings.HasSuffix(s, p)
unfoldable pub has_suffix : Bytes → Bytes → Bool
unfolding has_prefix
has_suffix s p = has_prefix (reverse s) (reverse p)

-- strings.Contains(s, p)
unfoldable pub contains_text : Bytes → Bytes → Bool
unfolding has_prefix
contains_text [] p = has_prefix [] p
contains_text (x ∷ s) p = has_prefix (x ∷ s) p || contains_text s p

lower : ℕ → ℕ
lower c = if leb b'A' c && leb c b'Z' then c + 32 else c

-- strings.ToLower
unfoldable pub to_lower : Bytes → Bytes
unfolding lower
to_lower = map lower

abbrev is_space : ℕ → Bool
is_space c = eqb c 32 || leb 9 c && leb c 13

trim_left : Bytes → Bytes
trim_left [] = []
trim_left (c ∷ s) = let rest = trim_left s in if is_space c then rest else c ∷ s

-- strings.TrimSpace
unfoldable pub trim_space : Bytes → Bytes
unfolding trim_left
trim_space s = reverse (trim_left (reverse (trim_left s)))

split_from : Bytes → Bytes → List Bytes
split_from acc [] = reverse acc ∷ []
split_from acc (c ∷ s) = elim (eqb c 10) [
  | true ↦ reverse acc ∷ split_from [] s
  | false ↦ split_from (c ∷ acc) s
]

-- strings.Split(s, "\n")
unfoldable pub split_lines : Bytes → List Bytes
unfolding split_from
split_lines s = split_from [] s

-- strings.Join(lines, "\n")
unfoldable pub join_lines : List Bytes → Bytes
join_lines [] = []
join_lines (l ∷ []) = l
join_lines (l ∷ m ∷ rest) = l ++ 10 ∷ join_lines (m ∷ rest)

unfoldable pub is_blank : Bytes → Bool
unfolding trim_space
is_blank s = same (trim_space s) []

-- `s == w` for a word of a slice of literals.
abbrev pub is_one_of : Bytes → List String → Bool
is_one_of b words = any (λ word. same b (bytes word)) words

-- strings.Contains(s, w), strings.HasPrefix(s, w) and strings.HasSuffix(s, w) for a literal.
abbrev pub holds : Bytes → String → Bool
holds s word = contains_text s (bytes word)

abbrev pub starts : Bytes → String → Bool
starts s word = has_prefix s (bytes word)

abbrev pub ends : Bytes → String → Bool
ends s word = has_suffix s (bytes word)

-- s[n:]
abbrev pub drop : ℕ → Bytes → Bytes
drop n [] = []
drop zero (c ∷ s) = c ∷ s
drop (suc n) (c ∷ s) = drop n s

-- What stands before and after the first place of `p`, by strings.Index.
unfoldable pub cut_text : Bytes → Bytes → Option (Bytes × Bytes)
unfolding has_prefix
cut_text [] p = if has_prefix [] p then some ([], []) else none
cut_text (c ∷ s) p =
    let rest = cut_text s p in
    if has_prefix (c ∷ s) p
    then some ([], drop (length p) (c ∷ s))
    else Option.map (λ (before, after). (c ∷ before, after)) rest

-- With the number of bytes of the separator that are still to skip.
split_after : Bytes → ℕ → Bytes → Bytes → List Bytes
unfolding has_prefix
split_after p n acc [] = reverse acc ∷ []
split_after p (suc n) acc (c ∷ s) = split_after p n acc s
split_after p zero acc (c ∷ s) = elim (has_prefix (c ∷ s) p) [
  | true ↦ reverse acc ∷ split_after p (length p - 1) [] s
  | false ↦ split_after p 0 (c ∷ acc) s
]

-- strings.Split(s, p), where `p` is not empty.
unfoldable pub split_text : Bytes → Bytes → List Bytes
unfolding split_after
split_text s p = split_after p 0 [] s

ext_from : Bytes → Bytes → Bytes
ext_from acc [] = []
ext_from acc (c ∷ s) = elim (eqb c b'/') [
  | true ↦ []
  | false ↦ elim (eqb c b'.') [ true ↦ c ∷ acc | false ↦ ext_from (c ∷ acc) s ]
]

-- filepath.Ext: from the last dot of the last element of the path.
unfoldable pub file_ext : Bytes → Bytes
unfolding ext_from
file_ext s = ext_from [] (reverse s)

skip_slashes : Bytes → Bytes
skip_slashes [] = []
skip_slashes (c ∷ s) = let rest = skip_slashes s in if eqb c b'/' then rest else c ∷ s

until_slash : Bytes → Bytes
until_slash [] = []
until_slash (c ∷ s) = let rest = until_slash s in if eqb c b'/' then [] else c ∷ rest

base_of : Bytes → Bytes → Bytes
base_of [] name = bytes "."
base_of (c ∷ s) [] = bytes "/"
base_of (c ∷ s) (d ∷ name) = d ∷ name

-- filepath.Base: the last element of the path, without the slashes at its end.
unfoldable pub file_base : Bytes → Bytes
unfolding skip_slashes until_slash base_of
file_base s = base_of s (reverse (until_slash (skip_slashes (reverse s))))

trims : trim_space (bytes "  a b  ") ≡ bytes "a b"
unfolding trim_space
trims = refl

splits : split_lines (bytes "ab") ≡ bytes "ab" ∷ []
unfolding split_lines
splits = refl

splits_text : split_text (bytes "a--b--") (bytes "--") ≡ bytes "a" ∷ bytes "b" ∷ [] ∷ []
unfolding split_text
splits_text = refl

based : file_base (bytes "a/b.min.js/") ≡ bytes "b.min.js"
unfolding file_base
based = refl

extended : file_ext (bytes "a/b.min.js") ≡ bytes ".js"
unfolding file_ext
extended = refl
