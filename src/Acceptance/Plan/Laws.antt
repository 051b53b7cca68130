-- ===== src/Acceptance/Plan/Laws.antt =====
-- When an execution plan is accepted.
use mathlib.Core.Path.{subst}
use mathlib.Core.List.{Memᴰ}
use clankwork.Base.{
  sym, ◌∙◌, ◌≡◌, ◌↔◌, inl, inr, refl, String, Bool, true, false, not, ◌&&◌, ◌||◌, none, some, List,
  [], ◌∷◌, ◌++◌, ◌==◌, ==_iff, ==_refl, any, any-eq-true, any-eq-false, any-mem, All, All-map,
  All-mem, All-of_mem, contains, In, map, is_empty, arith, Bool-cases,
}
use clankwork.Base.Lists.{collect}
use clankwork.Acceptance.{AcceptanceProbe, AcceptanceSpec, trim, is_blank}
use clankwork.Acceptance.Checks.{
  plan_of_other_task, probe_without_step, check-none, or_else-none, first_problem,
  first_problem-none, or_else,
}
use clankwork.Acceptance.Plan.{
  is_other_task, PlanStep, ExecutionPlan, probes_of, required_pairs, produced_pairs, has_pair,
  is_lacking, step_problem, steps_problem, probe_problem, coverage_problem, validate_execution_plan,
}

-- No two steps have one id.
abbrev pub Distinct : List PlanStep → Type 0
Distinct [] = Unit
Distinct (s ∷ rest) = (any (λ r. r.id == s.id) rest ≡ false) × Distinct rest

-- A step that is in order by itself.
abbrev pub InOrder : AcceptanceSpec → PlanStep → Type 0
InOrder spec s = (is_blank s.id ≡ false) × (step_problem (some spec) s ≡ none)

-- A step of the plan runs the probe, and yields the evidence.
abbrev pub Runs : List PlanStep → String → Type 0
Runs steps id = (s : PlanStep) × Memᴰ s steps × (s.probe_id ≡ id)

abbrev pub Yields : List PlanStep → String → String → Type 0
Yields steps id e = (s : PlanStep) × Memᴰ s steps × (s.probe_id ≡ id) × In e (map trim s.produces)

-- Every probe is run, and all evidence that is required of it, here or by a probe of the same id, is
-- yielded by a step that runs it.
abbrev pub Covers : AcceptanceSpec → List PlanStep → Type 0
Covers spec steps =
    All
      (λ p.
        Runs steps p.id
        × ((e : String) → Memᴰ (p.id, e) (required_pairs spec) → Yields steps p.id e))
      (probes_of spec)

has_pair-append :
    (xs ys : List (String × String)) (k e : String)
    → has_pair (xs ++ ys) k e ≡ (has_pair xs k e || has_pair ys k e)
has_pair-append [] ys k e = refl
has_pair-append ((j, d) ∷ xs) ys k e = ground (arith, has_pair-append xs ys k e)

has_pair-map :
    (j : String) (l : List String) (k e : String)
    → has_pair (map (λ d. (j, trim d)) l) k e ≡ (j == k && contains (map trim l) e)
has_pair-map j [] k e = ground arith
has_pair-map j (d ∷ l) k e = ground (arith, has_pair-map j l k e)

abbrev yields : String → String → PlanStep → Bool
yields k e s = s.probe_id == k && contains (map trim s.produces) e

has_pair-produced :
    (steps : List PlanStep) (k e : String)
    → has_pair (produced_pairs steps) k e ≡ any (yields k e) steps
unfolding collect
has_pair-produced [] k e = refl
has_pair-produced (s ∷ rest) k e =
    has_pair-append (map (λ d. (s.probe_id, trim d)) s.produces) (produced_pairs rest) k e
    ∙ ground (arith, has_pair-map s.probe_id s.produces k e, has_pair-produced rest k e)

has_pair-Yields :
    (steps : List PlanStep) (k e : String)
    → (has_pair (produced_pairs steps) k e ≡ true) ↔ Yields steps k e
has_pair-Yields steps k e = (
  λ h.
      let (s, m, y) = any-eq-true (yields k e) steps (sym (has_pair-produced steps k e) ∙ h) in
      (s, m, (==_iff s.probe_id k).0 (ground arith), ground arith),
  λ (s, m, p, i).
      has_pair-produced steps k e
      ∙ any-mem (yields k e) steps s m (ground (arith, (==_iff s.probe_id k).1 p, i)),
)

any-Runs :
    (steps : List PlanStep) (k : String) → (any (λ s. s.probe_id == k) steps ≡ true) ↔ Runs steps k
any-Runs steps k = (
  λ h.
      let (s, m, y) = any-eq-true (λ (s : PlanStep). s.probe_id == k) steps h in
      (s, m, (==_iff s.probe_id k).0 y),
  λ (s, m, p). any-mem (λ (s : PlanStep). s.probe_id == k) steps s m ((==_iff s.probe_id k).1 p),
)

any-of_false :
    {A : Type 0} (p : A → Bool) (xs : List A) → All (λ x. p x ≡ false) xs → any p xs ≡ false
any-of_false p [] h = refl
any-of_false p (x ∷ xs) h = ground (arith, h.0, any-of_false p xs h.1)

lacking-none :
    (spec : AcceptanceSpec) (steps : List PlanStep) (id : String)
    → (any (is_lacking steps id) (required_pairs spec) ≡ false)
      ↔ ((e : String) → Memᴰ (id, e) (required_pairs spec) → Yields steps id e)
lacking-none spec steps id = (
  λ h e m.
      let q =
        All-mem (λ x. is_lacking steps id x ≡ false) (required_pairs spec) (id, e)
          (any-eq-false (is_lacking steps id) (required_pairs spec) h) m in
      (has_pair-Yields steps id e).0 (ground (arith, q, ==_refl id)),
  λ h. any-of_false (is_lacking steps id) (required_pairs spec) (
      All-of_mem (λ x. is_lacking steps id x ≡ false) (required_pairs spec)
        λ (k, e) m. elim (Bool-cases (k == id)) [
          | inr p ↦ rw p refl
          | inl p ↦
              let q = h e (subst (λ x. Memᴰ (x, e) (required_pairs spec)) ((==_iff k id).0 p) m) in
              rw (p, (has_pair-Yields steps id e).1 q) refl
        ]),
)

abbrev Fresh : List String → List PlanStep → Type 0
Fresh seen = All (λ s. contains seen s.id ≡ false)

-- What is fresh beside one more id, is fresh and has another id.
Fresh-one :
    (seen : List String) (x : PlanStep) (l : List PlanStep)
    → Fresh (x.id ∷ seen) l ↔ (Fresh seen l × (any (λ r. r.id == x.id) l ≡ false))
Fresh-one seen x [] = (λ h. (tt, refl), λ h. tt)
Fresh-one seen x (s ∷ l) =
    let (to, from) = Fresh-one seen x l in
    (
      λ (h, hs).
          let (f, d) = to hs in
          ((ground (arith, h), f), ground (arith, h, d, ==_iff x.id s.id, ==_iff s.id x.id)),
      λ ((h, hs), d).
          (ground (arith, h, d, ==_iff x.id s.id, ==_iff s.id x.id), from (hs, ground (arith, d))),
    )

steps_problem-none :
    (spec : AcceptanceSpec) (seen : List String) (l : List PlanStep)
    → (steps_problem (some spec) seen l ≡ none) ↔ (All (InOrder spec) l × Fresh seen l × Distinct l)
unfolding steps_problem
steps_problem-none spec seen [] = (λ h. (tt, tt, tt), λ h. refl)
steps_problem-none spec seen (s ∷ rest) =
    let more = steps_problem (some spec) (s.id ∷ seen) rest in
    let here = or_else (step_problem (some spec) s) more in
    let (to, from) = steps_problem-none spec (s.id ∷ seen) rest in
    (
      λ h.
          let (b, h1) = (check-none _ _ _).0 h in
          let (c, h2) = (check-none _ _ here).0 h1 in
          let (p, h3) = (or_else-none (step_problem (some spec) s) more).0 h2 in
          let (o, f, d) = to h3 in
          let (f', n) = (Fresh-one seen s rest).0 f in (((b, p), o), (c, f'), (n, d)),
      λ (((b, p), o), (c, f), (n, d)). (check-none _ _ _).1 (
        b,
        (check-none _ _ here).1 (
          c,
          (or_else-none (step_problem (some spec) s) more).1
              (p, from (o, (Fresh-one seen s rest).1 (f, n), d)),
        ),
      ),
    )

probe_problem-none :
    (spec : AcceptanceSpec) (steps : List PlanStep) (p : AcceptanceProbe)
    → (probe_problem spec steps p ≡ none) ↔ (
        Runs steps p.id
        × ((e : String) → Memᴰ (p.id, e) (required_pairs spec) → Yields steps p.id e))
unfolding probe_problem
probe_problem-none spec steps p =
    let ran = not (any (λ (s : PlanStep). s.probe_id == p.id) steps) in
    (
      λ h.
          let (r, h1) = (check-none ran probe_without_step _).0 h in
          let (l, h2) = (check-none _ _ none).0 h1 in
          ((any-Runs steps p.id).0 (ground (arith, r)), (lacking-none spec steps p.id).0 l),
      λ (r, y). (check-none _ _ _).1 (
        ground (arith, (any-Runs steps p.id).1 r),
        (check-none _ _ none).1 ((lacking-none spec steps p.id).1 y, refl),
      ),
    )

-- What an accepted plan is, for the specification of a task.
abbrev pub IsPlan : AcceptanceSpec → ExecutionPlan → Type 0
IsPlan spec plan =
    (is_blank plan.task_id ≡ false)
    × (plan.task_id ≡ spec.task_id)
    × (is_empty plan.steps ≡ false)
    × All (InOrder spec) plan.steps
    × Distinct plan.steps
    × Covers spec plan.steps

all-Fresh : (l : List PlanStep) → Fresh [] l
all-Fresh [] = tt
all-Fresh (s ∷ l) = (refl, all-Fresh l)

-- A plan is accepted for a specification exactly when it names the specification's task, has steps,
-- each in order by itself and no two with one id, and its steps run every probe and yield all the
-- evidence that is required of it.
pub validate_execution_plan_iff :
    (plan : ExecutionPlan) (spec : AcceptanceSpec)
    → (validate_execution_plan (some plan) (some spec) ≡ none) ↔ IsPlan spec plan
unfolding validate_execution_plan coverage_problem
validate_execution_plan_iff plan spec =
    let other = is_other_task (some spec) plan.task_id in
    let sp = steps_problem (some spec) [] plan.steps in
    let cp = first_problem (probe_problem spec plan.steps) (probes_of spec) in
    let P : AcceptanceProbe → Type 0 = λ p. probe_problem spec plan.steps p ≡ none in
    let Q : AcceptanceProbe → Type 0 = λ p.
      Runs plan.steps p.id
      × ((e : String) → Memᴰ (p.id, e) (required_pairs spec) → Yields plan.steps p.id e) in
    (
      λ h.
          let (b, h1) = (check-none _ _ _).0 h in
          let (t, h2) = (check-none other plan_of_other_task _).0 h1 in
          let (e, h3) = (check-none _ _ (or_else sp cp)).0 h2 in
          let (s, c) = (or_else-none sp cp).0 h3 in
          let (o, f, d) = (steps_problem-none spec [] plan.steps).0 s in
          (
            b,
            (==_iff plan.task_id spec.task_id).0 (ground (arith, t)),
            e,
            o,
            d,
            All-map P Q (probes_of spec) (λ p. (probe_problem-none spec plan.steps p).0)
                ((first_problem-none (probe_problem spec plan.steps) (probes_of spec)).0 c),
          ),
      λ (b, t, e, o, d, c). (check-none _ _ _).1 (
        b,
        (check-none other plan_of_other_task _).1 (
          ground (arith, (==_iff plan.task_id spec.task_id).1 t),
          (check-none _ _ (or_else sp cp)).1 (
            e,
            (or_else-none sp cp).1 (
              (steps_problem-none spec [] plan.steps).1 (o, all-Fresh plan.steps, d),
              (first_problem-none (probe_problem spec plan.steps) (probes_of spec)).1
                  (All-map Q P (probes_of spec) (λ p. (probe_problem-none spec plan.steps p).1) c),
            ),
          ),
        ),
      ),
    )
