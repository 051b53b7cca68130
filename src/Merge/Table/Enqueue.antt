-- ===== src/Merge/Table/Enqueue.antt =====
-- The table keeps one row for each task: what enqueueing does to it.
use clankwork.Base.{
  ◌≡◌, ◌≢◌, ◌⊎◌, inl, inr, refl, String, true, false, not, ◌&&◌, Option, none, some, List, [], ◌∷◌,
  ◌++◌, ◌==◌, ==_iff, ==_refl, arith, Bool-cases, Option-cases, if◌then◌else◌,
}
use clankwork.Merge.{Item, is_terminal}
use clankwork.Merge.Table.Rows.{IsTable, ne_of_get_item, ne_of_get_by_task, IsTable-append}
use clankwork.Merge.Table.{
  get_item, get_by_task, is_some, is_taken, reset_item, requeue_terminal, enqueue,
}

module _ (fresh : Item) where
  get_by_task-reset_item :
      (l : List Item) (k : String)
      → get_by_task l k ≡ none
      → get_by_task (reset_item fresh l) k ≡ none
  unfolding reset_item
  get_by_task-reset_item [] k h = refl
  get_by_task-reset_item (i ∷ rest) k h =
      let (n, r) = ne_of_get_by_task i rest k h in
      ground (
        arith,
        get_by_task-reset_item rest k r,
        ==_iff i.task_id fresh.task_id,
        ==_iff i.task_id k,
        ==_iff fresh.task_id k,
      )

  reset_item-other :
      (l : List Item) (k : String)
      → fresh.task_id ≢ k
      → get_by_task (reset_item fresh l) k ≡ get_by_task l k
  unfolding reset_item
  reset_item-other [] k ne = refl
  reset_item-other (i ∷ rest) k ne = ground (
    arith,
    reset_item-other rest k ne,
    ==_iff i.task_id fresh.task_id,
    ==_iff i.task_id k,
    ==_iff fresh.task_id k,
  )

  reset_item-own :
      (l : List Item) (i : Item)
      → get_by_task l fresh.task_id ≡ some i
      → is_terminal i.status ≡ true
      → get_by_task (reset_item fresh l) fresh.task_id ≡ some fresh
  unfolding reset_item
  reset_item-own [] i h d = cc
  reset_item-own (x ∷ rest) i h d = elim (Bool-cases (x.task_id == fresh.task_id)) [
    | inl e ↦ let p : x ≡ i = ground (arith, e) in rw (e, p, d, ==_refl fresh.task_id)
    | inr e ↦ rw (e, e) (reset_item-own rest i (rw e at h) d)
  ]

  reset_item-none : (l : List Item) → get_by_task l fresh.task_id ≡ none → reset_item fresh l ≡ l
  unfolding reset_item
  reset_item-none [] h = refl
  reset_item-none (i ∷ rest) h =
      let (n, r) = ne_of_get_by_task i rest fresh.task_id h in rw (n, reset_item-none rest r)

  get_item-reset_item :
      (l : List Item) (k : String)
      → get_item l k ≡ none
      → (fresh.id == k) ≡ false
      → get_item (reset_item fresh l) k ≡ none
  unfolding reset_item
  get_item-reset_item [] k h e = refl
  get_item-reset_item (i ∷ rest) k h e =
      let (n, r) = ne_of_get_item i rest k h in ground (arith, get_item-reset_item rest k r e)

  not_taken :
      (l : List Item)
      → is_taken l fresh.id fresh.task_id ≡ false
      → get_by_task l fresh.task_id ≡ none
      → get_item l fresh.id ≡ none
  not_taken [] h n = refl
  not_taken (i ∷ rest) h n =
      let (e, r) = ne_of_get_by_task i rest fresh.task_id n in ground (arith, not_taken rest, e, r)

  IsTable-reset_item :
      (l : List Item)
      → IsTable l
      → is_taken l fresh.id fresh.task_id ≡ false
      → IsTable (reset_item fresh l)
  unfolding reset_item
  IsTable-reset_item [] t h = tt
  IsTable-reset_item (i ∷ rest) t h = elim (Bool-cases (i.task_id == fresh.task_id)) [
    | inl e ↦
        let own : i.task_id ≡ fresh.task_id = (==_iff i.task_id fresh.task_id).0 e in
        let gone : get_by_task rest fresh.task_id ≡ none = rw (← own) t.1 in
        let untaken : is_taken rest fresh.id fresh.task_id ≡ false = ground (arith, h) in
        elim (Bool-cases (is_terminal i.status)) [
          | inl d ↦ rw (e, d, reset_item-none rest gone) (not_taken rest untaken gone, gone, t.2)
          | inr d ↦ rw (e, d, reset_item-none rest gone) t
        ]
    | inr e ↦
        let untaken : is_taken rest fresh.id fresh.task_id ≡ false = ground (arith, h) in
        let other : (fresh.id == i.id) ≡ false =
          ground (arith, h, e, ==_iff fresh.id i.id, ==_iff i.id fresh.id) in
        rw e (
          get_item-reset_item rest i.id t.0 other,
          get_by_task-reset_item rest i.task_id t.1,
          IsTable-reset_item rest t.2 untaken,
        )
  ]

is_some-none {ℓ} : {A : Type ℓ} (o : Option A) → is_some o ≡ false → o ≡ none
is_some-none none h = refl
is_some-none (some a) h = cc

-- How an accepted row came in: beside the others, or in place of its task's terminal row.
pub enqueue-cases :
    (fresh : Item) (l l' : List Item)
    → enqueue fresh l ≡ some l'
    → ((get_item l fresh.id ≡ none) × (get_by_task l fresh.task_id ≡ none) × (l' ≡ l ++ fresh ∷ []))
      ⊎ ((i : Item) × (get_by_task l fresh.task_id ≡ some i)
          × (is_terminal i.status ≡ true)
          × (is_taken l fresh.id fresh.task_id ≡ false)
          × (l' ≡ reset_item fresh l))
unfolding enqueue requeue_terminal
enqueue-cases fresh l l' h = elim (Option-cases (get_by_task l fresh.task_id)) [
  | inl n ↦ elim (Option-cases (get_item l fresh.id)) [
    | inl m ↦ inl (m, n, ground (arith, h, n, m))
    | inr (j, m) ↦ cc (rw (n, m) at h)
  ]
  | inr (i, s) ↦ let (d, u, e) = requeued i (rw s at h) in inr (i, s, d, u, e)
]
  where
    requeued :
        (i : Item)
        → (if not (is_some (get_item l fresh.id)) && false
            then some (l ++ fresh ∷ [])
            else requeue_terminal fresh l (some i))
          ≡ some l'
        → (is_terminal i.status ≡ true)
          × (is_taken l fresh.id fresh.task_id ≡ false)
          × (l' ≡ reset_item fresh l)
    requeued i h = unfold requeue_terminal in ground (arith, h)

get_by_task-append_own :
    (l : List Item) (x : Item)
    → get_by_task l x.task_id ≡ none
    → get_by_task (l ++ x ∷ []) x.task_id ≡ some x
get_by_task-append_own [] x h = rw (==_refl x.task_id)
get_by_task-append_own (i ∷ rest) x h = ground (arith, get_by_task-append_own rest x)

get_by_task-append_other :
    (l : List Item) (x : Item) (k : String)
    → x.task_id ≢ k
    → get_by_task (l ++ x ∷ []) k ≡ get_by_task l k
get_by_task-append_other [] x k ne = ground (arith, ==_iff x.task_id k)
get_by_task-append_other (i ∷ rest) x k ne = ground (arith, get_by_task-append_other rest x k ne)

-- A row that is accepted keeps the table free of two rows with one id or task, is then the row of
-- its task, and leaves the rows of other tasks as they were.
pub enqueue-IsTable :
    (fresh : Item) (l l' : List Item) (k : String)
    → IsTable l
    → enqueue fresh l ≡ some l'
    → fresh.task_id ≢ k
    → IsTable l'
      × (get_by_task l' fresh.task_id ≡ some fresh)
      × (get_by_task l' k ≡ get_by_task l k)
enqueue-IsTable fresh l l' k t h ne = elim (enqueue-cases fresh l l' h) [
  | inl (m, n, e) ↦ rw e (
    IsTable-append l fresh t m n,
    get_by_task-append_own l fresh n,
    get_by_task-append_other l fresh k ne,
  )
  | inr (i, s, d, u, e) ↦
      rw e (
        IsTable-reset_item fresh l t u,
        reset_item-own fresh l i s d,
        reset_item-other fresh l k ne,
      )
]

-- A terminal row gives way to the new row of its task, if that row's id is free.
pub enqueue_terminal :
    (fresh : Item) (l : List Item) (i : Item)
    → get_by_task l fresh.task_id ≡ some i
    → is_terminal i.status ≡ true
    → is_taken l fresh.id fresh.task_id ≡ false
    → (l' : List Item) × (enqueue fresh l ≡ some l') × (get_by_task l' fresh.task_id ≡ some fresh)
unfolding enqueue requeue_terminal
enqueue_terminal fresh l i s d u =
    (reset_item fresh l, ground (arith, s, d, u), reset_item-own fresh l i s d)
