-- ===== src/Tasks/Cycle/Laws.antt =====
-- The search meets its target exactly along dependencies, so what it lets in makes no cycle.
use mathlib.Core.Path.{subst}
use clankwork.Base.{
  ℕ, zero, suc, ◌+◌, ◌≤◌, ◌<◌, ◌≡◌, ◌↔◌, ◌⊎◌, inl, inr, refl, sym, String, true, false, List, [],
  ◌∷◌, ◌++◌, ◌==◌, ==_iff, ==_refl, length, length-append, contains, In, In-append_left,
  In-append_right, if◌then◌else◌, arith, Bool-cases, All,
}
use clankwork.Tasks.Ready.{Dependency}
use clankwork.Tasks.Cycle.{visit, met, seen, entered, next_ids, search_from, makes_cycle}

-- A task depends on itself in no step, and on what a row names in one more.
pub data DependsOn (deps : List Dependency) (x : String) : String → Type 0 where
  none_yet : DependsOn deps x x
  one_more : {y z : String} → DependsOn deps x y → In z (next_ids deps y) → DependsOn deps x z

-- The rows of tasks that have not been visited.
open_rows : List String → List Dependency → ℕ
open_rows visited [] = 0
open_rows visited (d ∷ rest) =
    (if contains visited d.task_id then 0 else 1) + open_rows visited rest

open_rows-le : (visited : List String) (l : List Dependency) → open_rows visited l ≤ length l
unfolding open_rows
open_rows-le visited [] = omega arith
open_rows-le visited (d ∷ rest) = ground (arith, open_rows-le visited rest)

-- Entering a task takes its rows.
open_rows-enter :
    (id : String) (visited : List String) (l : List Dependency)
    → contains visited id ≡ false
    → open_rows (id ∷ visited) l + length (next_ids l id) ≡ open_rows visited l
unfolding open_rows next_ids
open_rows-enter id visited [] n = refl
open_rows-enter id visited (d ∷ rest) n =
    ground (arith, open_rows-enter id visited rest n, ==_iff d.task_id id, ==_iff id d.task_id)

visit_cases :
    (target : String) (visited : List String) (id : String)
    → ((visit target visited id ≡ met) × (id ≡ target))
      ⊎ ((visit target visited id ≡ seen) × In id visited)
      ⊎ ((visit target visited id ≡ entered)
          × ((id == target) ≡ false)
          × (contains visited id ≡ false))
unfolding visit
visit_cases target visited id = elim (Bool-cases (id == target)) [
  | inl k ↦ inl (rw k, (==_iff id target).0 k)
  | inr k ↦ elim (Bool-cases (contains visited id)) [
    | inl v ↦ inr (inl (rw (k, v), v))
    | inr v ↦ inr (inr (rw (k, v), k, v))
  ]
]

module _ (P : String → Type 0) where
  All-append : (xs ys : List String) → All P xs → All P ys → All P (xs ++ ys)
  All-append [] ys h k = k
  All-append (x ∷ xs) ys (p, h) k = (p, All-append xs ys h k)

  All-In : (xs : List String) → ((y : String) → In y xs → P y) → All P xs
  All-In [] f = tt
  All-In (x ∷ xs) f = (f x (rw (==_refl x)), All-In xs (λ y m. f y (ground (arith, m))))

In-append-cases : (a : String) (xs ys : List String) → In a (xs ++ ys) → In a xs ⊎ In a ys
In-append-cases a [] ys h = inr h
In-append-cases a (x ∷ xs) ys h = elim (Bool-cases (x == a)) [
  | inl e ↦ inl (rw e)
  | inr e ↦ elim (In-append-cases a xs ys (rw e at h)) [ inl m ↦ inl (rw e m) | inr m ↦ inr m ]
]

module _ (deps : List Dependency) (target : String) where
  search_sound :
      (from : String) (fuel : ℕ) (visited agenda : List String)
      → open_rows visited deps + length agenda < fuel
      → All (DependsOn deps from) agenda
      → search_from fuel deps target visited agenda ≡ true
      → DependsOn deps from target
  unfolding search_from
  search_sound from zero visited agenda b h e = absurd (omega (arith, b))
  search_sound from (suc fuel) visited [] b h e = cc
  search_sound from (suc fuel) visited (id ∷ agenda) b (p, h) e =
      elim (visit_cases target visited id) [
        | inl (k, q) ↦ subst (DependsOn deps from) q p
        | inr (inl (k, v)) ↦
            search_sound from fuel visited agenda (omega (arith, b)) h (rw (k, search_from) at e)
        | inr (inr (k, _, v)) ↦
            let nexts = next_ids deps id in
            let rows = open_rows-enter id visited deps v in
            let size = length-append nexts agenda in
            let reached = All-In (DependsOn deps from) nexts (λ y m. one_more p m) in
            search_sound from fuel (id ∷ visited) (nexts ++ agenda) (omega (arith, b, rows, size))
              (All-append (DependsOn deps from) nexts agenda reached h) (rw (k, search_from) at e)
      ]

  -- A set that the target is not in, and that dependencies do not leave.
  abbrev Closed : List String → Type 0
  Closed w =
      (contains w target ≡ false) × ((x y : String) → In x w → In y (next_ids deps x) → In y w)

  -- The same of what has been visited, but for what waits.
  abbrev Waits : List String → List String → Type 0
  Waits visited agenda =
      (contains visited target ≡ false)
      × ((x y : String) → In x visited → In y (next_ids deps x) → In y visited ⊎ In y agenda)

  -- What is visited or waits is in a closed set.
  abbrev Covered : List String → List String → Type 0
  Covered visited agenda =
      (w : List String) × Closed w
      × ((x : String) → In x visited → In x w)
      × ((x : String) → In x agenda → In x w)

  Waits-entered :
      (id : String) (visited agenda : List String)
      → (id == target) ≡ false
      → Waits visited (id ∷ agenda)
      → Waits (id ∷ visited) (next_ids deps id ++ agenda)
  Waits-entered id visited agenda k (n, c) = (
    rw k n,
    λ x y m e. elim (Bool-cases (id == x)) [
      | inl q ↦
          let here = subst (λ z. In y (next_ids deps z)) (sym ((==_iff id x).0 q)) e in
          inr (In-append_left y (next_ids deps id) agenda here)
      | inr q ↦ elim (c x y (rw q at m) e) [
        | inl v ↦ inl (ground (arith, v))
        | inr w ↦ elim (Bool-cases (id == y)) [
          | inl r ↦ inl (rw r)
          | inr r ↦ inr (In-append_right y (next_ids deps id) agenda (rw r at w))
        ]
      ]
    ],
  )

  Waits-seen :
      (id : String) (visited agenda : List String)
      → In id visited
      → Waits visited (id ∷ agenda)
      → Waits visited agenda
  Waits-seen id visited agenda v (n, c) = (
    n,
    λ x y m e. elim (c x y m e) [
      | inl h ↦ inl h
      | inr w ↦ elim (Bool-cases (id == y)) [
        | inl r ↦ inl (subst (λ z. In z visited) ((==_iff id y).0 r) v)
        | inr r ↦ inr (rw r at w)
      ]
    ],
  )

  search_complete :
      (fuel : ℕ) (visited agenda : List String)
      → Waits visited agenda
      → search_from fuel deps target visited agenda ≡ false
      → Covered visited agenda
  unfolding search_from
  search_complete zero visited agenda c e = cc
  search_complete (suc fuel) visited [] (n, c) e =
      (visited, (n, λ x y m d. elim (c x y m d) [ inl v ↦ v | inr w ↦ cc ]), λ x m. m, λ x m. cc)
  search_complete (suc fuel) visited (id ∷ agenda) c e = elim (visit_cases target visited id) [
    | inl (k, _) ↦ cc (rw (k, search_from) at e)
    | inr (inl (k, v)) ↦
        let (w, cl, sv, sa) =
          search_complete fuel visited agenda (Waits-seen id visited agenda v c)
            (rw (k, search_from) at e) in
        (
          w,
          cl,
          sv,
          λ x m. elim (Bool-cases (id == x)) [
            | inl r ↦ sv x (subst (λ z. In z visited) ((==_iff id x).0 r) v)
            | inr r ↦ sa x (rw r at m)
          ],
        )
    | inr (inr (k, q, v)) ↦
        let nexts = next_ids deps id in
        let (w, cl, sv, sa) =
          search_complete fuel (id ∷ visited) (nexts ++ agenda)
            (Waits-entered id visited agenda q c) (rw (k, search_from) at e) in
        (
          w,
          cl,
          λ x m. sv x (ground (arith, m)),
          λ x m. elim (Bool-cases (id == x)) [
            | inl r ↦ sv x (rw r)
            | inr r ↦ sa x (In-append_right x nexts agenda (rw r at m))
          ],
        )
  ]

  stays-Closed :
      (from : String) (w : List String) {y : String}
      → Closed w
      → In from w
      → DependsOn deps from y
      → In y w
  stays-Closed from w cl m none_yet = m
  stays-Closed from w cl m (one_more p e) = cl.1 _ _ (stays-Closed from w cl m p) e

-- A dependency on `from` is found to make a cycle exactly when `from` already depends, in any number
-- of steps, on the task that would depend on it; so the fuel is enough.
pub makes_cycle_iff :
    (deps : List Dependency) (target from : String)
    → (makes_cycle deps target from ≡ true) ↔ DependsOn deps from target
unfolding makes_cycle
makes_cycle_iff deps target from = (
  λ h.
      search_sound deps target from (suc (suc (length deps))) [] (from ∷ [])
        (omega (arith, open_rows-le [] deps)) (none_yet, tt) h,
  λ p. elim (Bool-cases (search_from (suc (suc (length deps))) deps target [] (from ∷ []))) [
    | inl h ↦ h
    | inr h ↦
        let (w, cl, _, sa) =
          search_complete deps target (suc (suc (length deps))) [] (from ∷ []) (refl, λ x y m e. cc)
            h in
        let hit = stays-Closed deps target from w cl (sa from (rw (==_refl from))) p in
        cc (cl.0, hit)
  ],
)
