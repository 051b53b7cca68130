-- ===== src/Tasks/Cycle/Acyclic.antt =====
-- What the check lets in keeps the dependencies free of cycles.
use mathlib.Core.Path.{subst}
use clankwork.Base.{
  ◌≡◌, ◌⊎◌, inl, inr, sym, String, some, List, [], ◌∷◌, ◌++◌, ◌==◌, ==_iff, In, arith, Bool-cases,
}
use clankwork.Tasks.Ready.{Dependency}
use clankwork.Tasks.Cycle.{next_ids, makes_cycle, has_dependency, add_dep_with_cycle_check}
use clankwork.Tasks.Cycle.Laws.{DependsOn, none_yet, one_more, makes_cycle_iff}

-- No task depends, in one or more steps, on itself.
abbrev pub IsAcyclic : List Dependency → Type 0
IsAcyclic deps = (x y : String) → In y (next_ids deps x) → ¬ DependsOn deps y x

DependsOn-trans :
    (deps : List Dependency) (x y : String) {z : String}
    → DependsOn deps x y
    → DependsOn deps y z
    → DependsOn deps x z
DependsOn-trans deps x y p none_yet = p
DependsOn-trans deps x y p (one_more q e) = one_more (DependsOn-trans deps x y p q) e

next_ids-append :
    (deps : List Dependency) (d : Dependency) (x y : String)
    → In y (next_ids (deps ++ d ∷ []) x)
    → In y (next_ids deps x) ⊎ ((x ≡ d.task_id) × (y ≡ d.depends_on_id))
unfolding next_ids
next_ids-append [] d x y m = elim (Bool-cases (d.task_id == x)) [
  | inl e ↦
      inr
        (sym ((==_iff d.task_id x).0 e), sym ((==_iff d.depends_on_id y).0 (ground (arith, m, e))))
  | inr e ↦ cc (rw e at m)
]
next_ids-append (c ∷ deps) d x y m = elim (Bool-cases (c.task_id == x)) [
  | inl e ↦ elim (Bool-cases (c.depends_on_id == y)) [
    | inl f ↦ inl (rw (e, f))
    | inr f ↦ elim (next_ids-append deps d x y (ground (arith, m, e, f))) [
      | inl h ↦ inl (rw (e, f) h)
      | inr h ↦ inr h
    ]
  ]
  | inr e ↦ elim (next_ids-append deps d x y (rw e at m)) [ inl h ↦ inl (rw e h) | inr h ↦ inr h ]
]

module _ (deps : List Dependency) (d : Dependency) where
  -- A way with the new row goes without it, or up to it and on from it.
  by_new_row :
      (x : String) {y : String}
      → DependsOn (deps ++ d ∷ []) x y
      → DependsOn deps x y ⊎ (DependsOn deps x d.task_id × DependsOn deps d.depends_on_id y)
  by_new_row x none_yet = inl none_yet
  by_new_row x (one_more {y} {z} p e) = elim (next_ids-append deps d y z e) [
    | inl old ↦ elim (by_new_row x p) [
      | inl q ↦ inl (one_more q old)
      | inr (q, r) ↦ inr (q, one_more r old)
    ]
    | inr (ey, ez) ↦ elim (by_new_row x p) [
      | inl q ↦
          inr (
            subst (DependsOn deps x) ey q,
            subst (DependsOn deps d.depends_on_id) (sym ez) none_yet,
          )
      | inr (q, _) ↦ inr (q, subst (DependsOn deps d.depends_on_id) (sym ez) none_yet)
    ]
  ]

  added-IsAcyclic :
      IsAcyclic deps → ¬ DependsOn deps d.depends_on_id d.task_id → IsAcyclic (deps ++ d ∷ [])
  added-IsAcyclic a n x y e p = elim (next_ids-append deps d x y e) [
    | inl old ↦ elim (by_new_row y p) [
      | inl q ↦ a x y old q
      | inr (q, r) ↦ n (DependsOn-trans deps d.depends_on_id y (one_more r old) q)
    ]
    | inr (ex, ey) ↦ elim (by_new_row y p) [
      | inl q ↦ n (subst (λ v. DependsOn deps v d.task_id) ey (subst (DependsOn deps y) ex q))
      | inr (q, _) ↦ n (subst (λ v. DependsOn deps v d.task_id) ey q)
    ]
  ]

-- A dependency that is let in leaves dependencies without a cycle without one.
pub add_dep-IsAcyclic :
    (deps after : List Dependency) (d : Dependency)
    → IsAcyclic deps
    → add_dep_with_cycle_check d deps ≡ some after
    → IsAcyclic after
unfolding add_dep_with_cycle_check
add_dep-IsAcyclic deps after d a h =
    elim (Bool-cases (makes_cycle deps d.task_id d.depends_on_id)) [
      | inl c ↦ cc (rw c at h)
      | inr c ↦
          let n : ¬ DependsOn deps d.depends_on_id d.task_id =
            λ p. cc (c, (makes_cycle_iff deps d.task_id d.depends_on_id).1 p) in
          elim (Bool-cases (has_dependency deps d)) [
            | inl old ↦ let p : deps ≡ after = ground (arith, h, c, old) in subst IsAcyclic p a
            | inr new ↦
                let p : deps ++ d ∷ [] ≡ after = ground (arith, h, c, new) in
                subst IsAcyclic p (added-IsAcyclic deps d a n)
          ]
    ]
