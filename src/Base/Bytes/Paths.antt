-- ===== src/Base/Bytes/Paths.antt =====
-- What filepath.Ext returns: nothing, or a dot and a text without one.
use mathlib.Core.Path.{◌≡◌, refl}
use mathlib.Core.Logic.{◌⊎◌, inl, inr}
use mathlib.Core.Bool.{false}
use mathlib.Core.List.{[], ◌∷◌, map, reverse}
use native.Mathlib.Omega.{arith}
use clankwork.Base.Tests.{eqb, Bool-cases}
use clankwork.Base.Lists.{All}
use clankwork.Base.Bytes.{Bytes, ext_from, file_ext, lower, to_lower}

abbrev pub NoDot : Bytes → Type 0
NoDot w = All (λ c. eqb c b'.' ≡ false) w

abbrev pub IsExt : Bytes → Type 0
IsExt e = (e ≡ []) ⊎ ((w : Bytes) × (e ≡ b'.' ∷ w) × NoDot w)

ext_from-IsExt : (acc s : Bytes) → NoDot acc → IsExt (ext_from acc s)
unfolding ext_from
ext_from-IsExt acc [] h = inl refl
ext_from-IsExt acc (c ∷ s) h = elim (Bool-cases (eqb c b'/')) [
  | inl e ↦ rw (ext_from, e) (inl refl)
  | inr e ↦ elim (Bool-cases (eqb c b'.')) [
    | inl d ↦ rw (ext_from, e, d) (inr (acc, ground arith, h))
    | inr d ↦ rw (ext_from, e, d) (ext_from-IsExt (c ∷ acc) s (d, h))
  ]
]

lower-NoDot : (w : Bytes) → NoDot w → NoDot (map lower w)
unfolding lower
lower-NoDot [] h = tt
lower-NoDot (c ∷ w) (h, hs) = (ground arith, lower-NoDot w hs)

pub file_ext-IsExt : (path : Bytes) → IsExt (to_lower (file_ext path))
unfolding file_ext to_lower lower
file_ext-IsExt path = elim (ext_from-IsExt [] (reverse path) tt) [
  | inl e ↦ inl (rw (e) refl)
  | inr (w, e, h) ↦ inr (map lower w, rw (e) refl, lower-NoDot w h)
]
