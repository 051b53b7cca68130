-- ===== src/Merge/Conflicts/Minified.antt =====
-- The test of isGeneratedFile for minified bundles, on what filepath.Ext returns.
use clankwork.Base.{arith, ◌≡◌, refl, Bool, false, ◌||◌, Bool-cases, inl, inr, [], ◌∷◌}
use clankwork.Base.Bytes.{Bytes, bytes, same, same_sound, to_lower, file_ext, file_base}
use clankwork.Base.Bytes.Paths.{NoDot, IsExt, file_ext-IsExt}
use clankwork.Merge.Conflicts.{is_minified, is_generated_name, is_generated_file}
use mathlib.Core.Path.{subst}

abbrev after_dot : Bytes → Bytes
after_dot [] = []
after_dot (c ∷ s) = s

or-false : (a b : Bool) → b ≡ false → (a || b) ≡ a
or-false a b h = ground arith

not_bundle : (w word : Bytes) → NoDot w → (NoDot word → ⊥) → same (b'.' ∷ w) (b'.' ∷ word) ≡ false
not_bundle w word h two = elim (Bool-cases (same (b'.' ∷ w) (b'.' ∷ word))) [
  | inr e ↦ e
  | inl e ↦
      absurd (two (subst (λ v. NoDot (after_dot v)) (same_sound (b'.' ∷ w) (b'.' ∷ word) e) h))
]

IsExt-is_minified : (e : Bytes) → IsExt e → is_minified e ≡ false
unfolding is_minified
IsExt-is_minified e (inl h) = rw (h) refl
IsExt-is_minified e (inr (w, h, n)) =
    rw
      (
        h,
        not_bundle w (bytes "min.js") n (λ (m, (i, (n, (dot, rest)))). cc),
        not_bundle w (bytes "min.css") n (λ (m, (i, (n, (dot, rest)))). cc),
      )
      refl

-- The test for minified bundles never passes: a file is taken as generated exactly by the other
-- tests of its path and name.
pub minified_unseen :
    (path : Bytes)
    → is_generated_file path (to_lower (file_base path)) (to_lower (file_ext path))
      ≡ is_generated_name path (to_lower (file_base path))
unfolding is_generated_file
minified_unseen path =
    or-false (is_generated_name path (to_lower (file_base path)))
      (is_minified (to_lower (file_ext path)))
      (IsExt-is_minified (to_lower (file_ext path)) (file_ext-IsExt path))
