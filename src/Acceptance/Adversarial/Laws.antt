-- ===== src/Acceptance/Adversarial/Laws.antt =====
-- What appending the suggested probes guarantees.
use clankwork.Base.{
  ap, ◌≡◌, inl, inr, refl, ℕ, zero, suc, ◌+◌, ◌≤◌, ◌<◌, String, true, false, List, [], ◌∷◌, ◌==◌,
  ==_iff, contains, length, leb, arith, Bool-cases, if◌then◌else◌,
}
use clankwork.Acceptance.Adversarial.{append_text, free_id, new_id}

abbrev size : String → ℕ
size String.[] = 0
size (String.◌∷◌ c s) = suc (size s)

size-append_text : (s t : String) → size (append_text s t) ≡ size s + size t
unfolding append_text
size-append_text String.[] t = omega arith
size-append_text (String.◌∷◌ c s) t = omega (arith, size-append_text s t)

-- How many texts of a list are at least so long.
abbrev longer : ℕ → List String → ℕ
longer n [] = 0
longer n (x ∷ xs) = if leb n (size x) then suc (longer n xs) else longer n xs

longer_mono : (n m : ℕ) (xs : List String) → n ≤ m → longer m xs ≤ longer n xs
longer_mono n m [] h = omega arith
longer_mono n m (x ∷ xs) h = ground (arith, longer_mono n m xs h)

longer-length : (n : ℕ) (xs : List String) → longer n xs ≤ length xs
longer-length n [] = omega arith
longer-length n (x ∷ xs) = ground (arith, longer-length n xs)

-- A text that is there is not among the longer ones.
longer-less :
    (id : String) (m : ℕ) (xs : List String)
    → size id < m
    → contains xs id ≡ true
    → longer m xs < longer (size id) xs
longer-less id m [] h c = cc c
longer-less id m (x ∷ xs) h c = elim (Bool-cases (x == id)) [
  | inl p ↦
      let same : size x ≡ size id = ap size ((==_iff x id).0 p) in
      ground (arith, longer_mono (size id) m xs (omega (arith, h)), same, h)
  | inr p ↦ ground (arith, longer-less id m xs h (rw p at c), h)
]

-- With more rounds than there are ids as long as the first, a free one is found.
free_id-free :
    (fuel : ℕ) (ids : List String) (id : String)
    → longer (size id) ids < fuel
    → contains ids (free_id fuel ids id) ≡ false
unfolding free_id
free_id-free zero ids id h = absurd (omega (arith, h))
free_id-free (suc fuel) ids id h = elim (Bool-cases (contains ids id)) [
  | inr c ↦ rw (c, c) refl
  | inl c ↦ rw c (
      free_id-free fuel ids (append_text id "_retry") (
        omega (
          arith,
          longer-less id (size (append_text id "_retry")) ids
              (omega (arith, size-append_text id "_retry")) c,
          h,
        )))
]

pub new_id-free : (i : ℕ) (ids : List String) → contains ids (new_id i ids) ≡ false
unfolding new_id
new_id-free i ids = free_id-free (length ids + 1) ids _ (omega (arith, longer-length (size _) ids))
