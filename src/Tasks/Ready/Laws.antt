-- ===== src/Tasks/Ready/Laws.antt =====
-- What the ready query returns.
use mathlib.Core.Path.{subst}
use mathlib.Core.List.{Memᴰ}
use mathlib.Core.List.Memᴰ
use clankwork.Base.{
  ℕ, zero, suc, ◌≡◌, ◌⊎◌, ◌≤◌, inl, inr, refl, true, false, List, [], ◌∷◌, length, arith,
  Bool-cases, All, All-map, All-mem,
}
use clankwork.Base.Int.{pos, ◌≤ℤ◌, ◌<ℤ◌}
use clankwork.Tasks.{Task}
use clankwork.Tasks.Ready.{
  Dependency, is_ready, select_ready, is_first, insert_by_order, order_tasks, take, tasks_ready,
}

-- Of a higher priority, or of no lower one and created no later.
abbrev pub ComesFirst : Task → Task → Type 0
ComesFirst t u =
    (u.priority <ℤ t.priority) ⊎ ((u.priority ≤ℤ t.priority) × (t.created_at ≤ u.created_at))

abbrev InOrder : List Task → Type 0
InOrder [] = Unit
InOrder (t ∷ rest) = All (ComesFirst t) rest × InOrder rest

ComesFirst-is_first : (t u : Task) → is_first t u ≡ true → ComesFirst t u
ComesFirst-is_first t u h = ground arith

ComesFirst-not_first : (t u : Task) → is_first t u ≡ false → ComesFirst u t
ComesFirst-not_first t u h = ground arith

ComesFirst-trans : (t u v : Task) → ComesFirst t u → ComesFirst u v → ComesFirst t v
ComesFirst-trans t u v p q = omega arith

module _ {ℓ} (P : Task → Type ℓ) where
  All-insert_by_order : (t : Task) (l : List Task) → P t → All P l → All P (insert_by_order t l)
  All-insert_by_order t [] p h = (p, tt)
  All-insert_by_order t (u ∷ rest) p (q, h) = elim (Bool-cases (is_first t u)) [
    | inl e ↦ rw e (p, (q, h))
    | inr e ↦ rw e (q, All-insert_by_order t rest p h)
  ]

  All-order_tasks : (l : List Task) → All P l → All P (order_tasks l)
  All-order_tasks [] h = tt
  All-order_tasks (t ∷ rest) (p, h) =
      All-insert_by_order t (order_tasks rest) p (All-order_tasks rest h)

  All-take : (n : ℕ) (l : List Task) → All P l → All P (take n l)
  All-take zero l h = tt
  All-take (suc n) [] h = tt
  All-take (suc n) (t ∷ rest) (p, h) = (p, All-take n rest h)

insert-InOrder : (t : Task) (l : List Task) → InOrder l → InOrder (insert_by_order t l)
insert-InOrder t [] h = (tt, tt)
insert-InOrder t (u ∷ rest) (p, h) = elim (Bool-cases (is_first t u)) [
  | inl e ↦
      let c = ComesFirst-is_first t u e in
      rw e ((c, All-map _ _ rest (λ v. ComesFirst-trans t u v c) p), (p, h))
  | inr e ↦ rw e (
    All-insert_by_order (ComesFirst u) t rest (ComesFirst-not_first t u e) p,
    insert-InOrder t rest h,
  )
]

order-InOrder : (l : List Task) → InOrder (order_tasks l)
order-InOrder [] = tt
order-InOrder (t ∷ rest) = insert-InOrder t (order_tasks rest) (order-InOrder rest)

mem-insert_by_order :
    (t : Task) (l : List Task) (u : Task) → (u ≡ t) ⊎ Memᴰ u l → Memᴰ u (insert_by_order t l)
mem-insert_by_order t [] u (inl p) = Memᴰ.head p
mem-insert_by_order t [] u (inr m) = elim m [ ]
mem-insert_by_order t (v ∷ rest) u h = elim (Bool-cases (is_first t v)) [
  | inl e ↦ rw e (elim h [ inl p ↦ Memᴰ.head p | inr m ↦ Memᴰ.tail m ])
  | inr e ↦ rw e (elim h [
    | inl p ↦ Memᴰ.tail (mem-insert_by_order t rest u (inl p))
    | inr m ↦ elim (Memᴰ.cases_cons m) [
      | inl p ↦ Memᴰ.head p
      | inr n ↦ Memᴰ.tail (mem-insert_by_order t rest u (inr n))
    ]
  ])
]

mem-order_tasks : (l : List Task) (u : Task) → Memᴰ u l → Memᴰ u (order_tasks l)
mem-order_tasks [] u m = elim m [ ]
mem-order_tasks (t ∷ rest) u (Memᴰ.head p) = mem-insert_by_order t (order_tasks rest) u (inl p)
mem-order_tasks (t ∷ rest) u (Memᴰ.tail m) =
    mem-insert_by_order t (order_tasks rest) u (inr (mem-order_tasks rest u m))

module _ (tasks : List Task) (deps : List Dependency) where
  -- A task of the table that is pending and waits for nothing.
  abbrev pub IsReadyOf : List Task → Task → Type 0
  IsReadyOf l t = Memᴰ t l × (is_ready tasks deps t ≡ true)

  selected : (l : List Task) → All (IsReadyOf l) (select_ready tasks deps l)
  selected [] = tt
  selected (t ∷ rest) =
      let more =
        All-map (IsReadyOf rest) (IsReadyOf (t ∷ rest)) _ (λ u (m, r). (Memᴰ.tail m, r))
          (selected rest) in
      elim (Bool-cases (is_ready tasks deps t)) [
        | inl e ↦ rw e ((Memᴰ.head refl, e), more)
        | inr e ↦ rw e more
      ]

  mem-select_ready :
      (l : List Task) (u : Task)
      → Memᴰ u l
      → is_ready tasks deps u ≡ true
      → Memᴰ u (select_ready tasks deps l)
  mem-select_ready [] u m r = elim m [ ]
  mem-select_ready (t ∷ rest) u (Memᴰ.head p) r =
      let e = subst (λ x. is_ready tasks deps x ≡ true) p r in rw e (Memᴰ.head p)
  mem-select_ready (t ∷ rest) u (Memᴰ.tail m) r = elim (Bool-cases (is_ready tasks deps t)) [
    | inl e ↦ rw e (Memᴰ.tail (mem-select_ready rest u m r))
    | inr e ↦ rw e (mem-select_ready rest u m r)
  ]

-- Of a list in order, what is taken comes before what is left.
take-first :
    (n : ℕ) (l : List Task) (t u : Task)
    → InOrder l
    → Memᴰ t (take n l)
    → Memᴰ u l
    → Memᴰ u (take n l) ⊎ ComesFirst t u
take-first zero l t u o m k = elim m [ ]
take-first (suc n) [] t u o m k = elim m [ ]
take-first (suc n) (x ∷ rest) t u (f, o) m k = elim (Memᴰ.cases_cons k) [
  | inl p ↦ inl (Memᴰ.head p)
  | inr k' ↦ elim (Memᴰ.cases_cons m) [
    | inl p ↦ inr (rw p (All-mem _ rest u f k'))
    | inr m' ↦ elim (take-first n rest t u o m' k') [ inl h ↦ inl (Memᴰ.tail h) | inr h ↦ inr h ]
  ]
]

length-take : (n : ℕ) (l : List Task) → length (take n l) ≤ n
length-take zero l = omega arith
length-take (suc n) [] = omega arith
length-take (suc n) (t ∷ rest) = omega (arith, length-take n rest)

-- With a limit that is not negative the query returns no more tasks than it. A task that it returns
-- is a pending one of the table that depends on no unfinished one; and another such task is also
-- returned, or has a lower priority, or no higher one and was created no earlier.
pub tasks_ready_lem :
    (tasks : List Task) (deps : List Dependency) (n : ℕ) (t u : Task)
    → Memᴰ t (tasks_ready tasks deps (pos n))
    → IsReadyOf tasks deps tasks u
    → (length (tasks_ready tasks deps (pos n)) ≤ n)
      × IsReadyOf tasks deps tasks t
      × (Memᴰ u (tasks_ready tasks deps (pos n)) ⊎ ComesFirst t u)
unfolding tasks_ready
tasks_ready_lem tasks deps n t u m (k, r) =
    let chosen = select_ready tasks deps tasks in
    let sorted = order_tasks chosen in
    let ready = All-take _ n sorted (All-order_tasks _ chosen (selected tasks deps tasks)) in
    (
      length-take n sorted,
      All-mem _ (take n sorted) t ready m,
      take-first n sorted t u (order-InOrder chosen) m
          (mem-order_tasks chosen u (mem-select_ready tasks deps tasks u k r)),
    )
