-- ===== src/Merge/Table/Order.antt =====
-- MergeQueueNext takes the most urgent row.
use mathlib.Core.Path.{subst}
use mathlib.Core.List.{Memᴰ}
use clankwork.Base.{
  ◌≡◌, ◌⊎◌, ◌≤◌, inl, inr, refl, String, true, false, none, some, List, [], ◌∷◌, arith, Bool-cases,
  Option-cases, All, All-map,
}
use clankwork.Base.Int.{◌≤ℤ◌, ◌<ℤ◌}
use clankwork.Merge.{Item}
use clankwork.Merge.Table.{is_candidate, is_before, next_item}

-- Of a higher priority, or of no lower one and queued no later.
abbrev pub NoLater : Item → Item → Type 0
NoLater i j =
    (j.priority <ℤ i.priority) ⊎ ((j.priority ≤ℤ i.priority) × (i.queued_at ≤ j.queued_at))

abbrev pub IsBest : String → Item → Item → Type 0
IsBest repo_id i j = (is_candidate repo_id j ≡ false) ⊎ NoLater i j

NoLater-refl : (i : Item) → NoLater i i
NoLater-refl i = omega arith

NoLater-trans : (i j k : Item) → NoLater i j → NoLater j k → NoLater i k
NoLater-trans i j k p q = omega arith

NoLater-of_before : (i j : Item) → is_before i j ≡ true → NoLater i j
NoLater-of_before i j h = ground arith

NoLater-of_not_before : (i j : Item) → is_before i j ≡ false → NoLater j i
NoLater-of_not_before i j h = ground arith

IsBest-of_NoLater :
    (repo_id : String) (i j k : Item) → NoLater i j → IsBest repo_id j k → IsBest repo_id i k
IsBest-of_NoLater repo_id i j k p (inl c) = inl c
IsBest-of_NoLater repo_id i j k p (inr q) = inr (NoLater-trans i j k p q)

abbrev pub IsNext : String → List Item → Item → Type 0
IsNext repo_id l i = Memᴰ i l × (is_candidate repo_id i ≡ true) × All (IsBest repo_id i) l

-- When no row is found, no row waits in the repository.
pub next_item-none :
    (repo_id : String) (l : List Item)
    → next_item repo_id l ≡ none
    → All (λ j. is_candidate repo_id j ≡ false) l
unfolding next_item
next_item-none repo_id [] h = tt
next_item-none repo_id (i ∷ rest) h = elim (Bool-cases (is_candidate repo_id i)) [
  | inl c ↦ cc (rw c at h)
  | inr c ↦ (c, next_item-none repo_id rest (rw c at h))
]

-- The row that is taken waits in the repository, and every other row that waits there has a lower
-- priority, or no higher one and was queued no earlier.
pub next_item_lem :
    (repo_id : String) (l : List Item) (i : Item)
    → next_item repo_id l ≡ some i
    → IsNext repo_id l i
unfolding next_item
next_item_lem repo_id [] i h = cc
next_item_lem repo_id (x ∷ rest) i h = elim (Bool-cases (is_candidate repo_id x)) [
  | inr c ↦
      let (m, k, best) = next_item_lem repo_id rest i (rw c at h) in (Memᴰ.tail m, k, (inl c, best))
  | inl c ↦ elim (Option-cases (next_item repo_id rest)) [
    | inl n ↦
        let p : x ≡ i = ground (arith, c, n) in
        subst (IsNext repo_id (x ∷ rest)) p (
          Memᴰ.head refl,
          c,
          (inr (NoLater-refl x), All-map _ _ rest (λ j. inl) (next_item-none repo_id rest n)),
        )
    | inr (y, s) ↦
        let (m, k, best) = next_item_lem repo_id rest y s in
        elim (Bool-cases (is_before x y)) [
          | inl b ↦
              let p : x ≡ i = ground (arith, c, s, b) in
              subst (IsNext repo_id (x ∷ rest)) p (
                Memᴰ.head refl,
                c,
                (
                  inr (NoLater-refl x),
                  All-map _ _ rest (λ j. IsBest-of_NoLater repo_id x y j (NoLater-of_before x y b))
                      best,
                ),
              )
          | inr b ↦
              let p : y ≡ i = ground (arith, c, s, b) in
              subst (IsNext repo_id (x ∷ rest)) p
                (Memᴰ.tail m, k, (inr (NoLater-of_not_before x y b), best))
        ]
  ]
]
