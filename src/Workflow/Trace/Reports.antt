-- ===== src/Workflow/Trace/Reports.antt =====
-- A report is valid exactly when each trace is.
use mathlib.Core.Path.{subst}
use mathlib.Core.Option.{some-injective}
use mathlib.Core.List.{Memᴰ}
use mathlib.Core.List.Memᴰ
use clankwork.Base.{
  sym, ◌∙◌, any-eq-true, any-mem, All-mem, All-of_mem, ◌≡◌, ◌↔◌, ◌⊎◌, inl, inr, refl, ap, String,
  true, Option, none, some, List, [], ◌∷◌, ◌==◌, ==_iff, is_empty, arith, Bool-cases, collect,
  append-eq-nil, collect-eq-nil,
}
use clankwork.Workflow.{Graph}
use clankwork.Workflow.Trace.{
  Trace, Routed, DetResult, Finding, of_type, completes, validate_routed_event,
  validate_deterministic_result, has_success_path_to_complete, validate_terminal_done, routed_pass,
  result_pass, terminal_pass, route_pass, findings_of, validate_trace_conformance,
}
use clankwork.Workflow.Trace.Laws.{
  SameKeys, IsKnown, Conforms, validate_routed_event_iff, report-eq-nil, not-eq-false,
}

of_type-mem :
    (ty : String) (l : List Trace) (tr : Trace)
    → Memᴰ tr (of_type ty l)
    → Memᴰ tr l × (tr.event_type ≡ ty)
of_type-mem ty [] tr m = elim m [ ]
of_type-mem ty (x ∷ rest) tr m = elim (Bool-cases (x.event_type == ty)) [
  | inl e ↦ elim (Memᴰ.cases_cons (rw e at m)) [
    | inl p ↦ (Memᴰ.head p, ap (λ (t : Trace). t.event_type) p ∙ (==_iff x.event_type ty).0 e)
    | inr n ↦ let (k, q) = of_type-mem ty rest tr n in (Memᴰ.tail k, q)
  ]
  | inr e ↦ let (k, q) = of_type-mem ty rest tr (rw e at m) in (Memᴰ.tail k, q)
]

mem-of_type :
    (ty : String) (l : List Trace) (tr : Trace)
    → Memᴰ tr l
    → tr.event_type ≡ ty
    → Memᴰ tr (of_type ty l)
mem-of_type ty [] tr m h = elim m [ ]
mem-of_type ty (x ∷ rest) tr (Memᴰ.head p) h =
    rw ((==_iff x.event_type ty).1 (sym (ap (λ (t : Trace). t.event_type) p) ∙ h)) (Memᴰ.head p)
mem-of_type ty (x ∷ rest) tr (Memᴰ.tail n) h = elim (Bool-cases (x.event_type == ty)) [
  | inl e ↦ rw e (Memᴰ.tail (mem-of_type ty rest tr n h))
  | inr e ↦ rw e (mem-of_type ty rest tr n h)
]

-- What a pass over the traces of one type finds.
pass-eq-nil :
    (ty : String) (f : Trace → List Finding) (l : List Trace)
    → (collect f (of_type ty l) ≡ []) ↔ ((tr : Trace) → Memᴰ tr l → tr.event_type ≡ ty → f tr ≡ [])
pass-eq-nil ty f l = (
  λ h tr m e. All-mem _ _ tr ((collect-eq-nil f (of_type ty l)).0 h) (mem-of_type ty l tr m e),
  λ h.
      (collect-eq-nil f (of_type ty l)).1
        (All-of_mem _ _ (λ tr m. let (n, e) = of_type-mem ty l tr m in h tr n e)),
)

is_empty_iff {ℓ} : {A : Type ℓ} (xs : List A) → (is_empty xs ≡ true) ↔ (xs ≡ [])
is_empty_iff [] = (λ _. refl, λ _. refl)
is_empty_iff (x ∷ xs) = (λ h. cc, λ h. cc)

IsKnown-step :
    (g : Graph) (tr : Trace) (d : DetResult)
    → (validate_deterministic_result g tr (some d) ≡ []) ↔ ((d.step ≡ "") ⊎ IsKnown g d.step)
unfolding validate_deterministic_result
IsKnown-step g tr d = (
  λ h. ground (arith, ==_iff d.step "", ==_iff d.step "complete"),
  λ h. ground (arith, ==_iff d.step "", ==_iff d.step "complete"),
)

module _ (decode_routed : String → Option Routed) where
  -- Some trace routes to "complete" with success.
  abbrev pub Completed : List Trace → Type 0
  Completed traces =
      (tr : Trace) × (r : Routed) × Memᴰ tr traces
      × (tr.event_type ≡ "step.routed")
      × (decode_routed tr.payload ≡ some r)
      × (r.to ≡ "complete")
      × (r.outcome ≡ "success")

  completes-true :
      (o : Option Routed)
      → completes o ≡ true
      → (r : Routed) × (o ≡ some r) × (r.to ≡ "complete") × (r.outcome ≡ "success")
  completes-true none h = cc
  completes-true (some r) h =
      (r, refl, ground (arith, ==_iff r.to "complete"), ground (arith, ==_iff r.outcome "success"))

  completes-some :
      (r : Routed) → r.to ≡ "complete" → r.outcome ≡ "success" → completes (some r) ≡ true
  completes-some r p q = ground (arith, ==_iff r.to "complete", ==_iff r.outcome "success")

  path_iff :
      (l : List Trace)
      → (has_success_path_to_complete decode_routed (of_type "step.routed" l) ≡ true) ↔ Completed l
  unfolding has_success_path_to_complete
  path_iff l = (
    λ h.
        let (tr, m, c) = any-eq-true _ (of_type "step.routed" l) h in
        let (n, e) = of_type-mem "step.routed" l tr m in
        let (r, d, p, q) = completes-true (decode_routed tr.payload) c in (tr, r, n, e, d, p, q),
    λ (tr, r, n, e, d, p, q).
        any-mem _ (of_type "step.routed" l) tr (mem-of_type "step.routed" l tr n e)
          (rw d (completes-some r p q)),
  )

  routed_event-eq-nil :
      (g : Graph) (tr : Trace) (o : Option Routed)
      → SameKeys g
      → (validate_routed_event g tr o ≡ []) ↔ ((r : Routed) × (o ≡ some r) × Conforms g r)
  unfolding validate_routed_event
  routed_event-eq-nil g tr none s = (λ h. cc, λ (r, p, _). cc)
  routed_event-eq-nil g tr (some r) s = (
    λ h. (r, refl, (validate_routed_event_iff g tr r s).0 h),
    λ (q, p, c).
        (validate_routed_event_iff g tr r s).1 (subst (Conforms g) (sym (some-injective _ _ p)) c),
  )

  routed_pass-eq-nil :
      (g : Graph) (l : List Trace)
      → SameKeys g
      → (routed_pass decode_routed g l ≡ []) ↔ (
          (tr : Trace)
          → Memᴰ tr l
          → tr.event_type ≡ "step.routed"
          → (r : Routed) × (decode_routed tr.payload ≡ some r) × Conforms g r)
  unfolding routed_pass
  routed_pass-eq-nil g l s = (
    λ h tr m e. (routed_event-eq-nil g tr _ s).0 ((pass-eq-nil _ _ l).0 h tr m e),
    λ v. (pass-eq-nil _ _ l).1 (λ tr m e. (routed_event-eq-nil g tr _ s).1 (v tr m e)),
  )

  done-eq-nil :
      (l : List Trace) (tr : Trace)
      → (validate_terminal_done decode_routed (of_type "step.routed" l) tr ≡ []) ↔ Completed l
  unfolding validate_terminal_done
  done-eq-nil l tr =
      (λ h. (path_iff l).0 (not-eq-false _ (report-eq-nil _ _ h)), λ c. rw ((path_iff l).1 c))

  terminal_pass-eq-nil :
      (l : List Trace)
      → (terminal_pass decode_routed l ≡ [])
        ↔ ((tr : Trace) → Memᴰ tr l → tr.event_type ≡ "signal.done" → Completed l)
  unfolding terminal_pass
  terminal_pass-eq-nil l = (
    λ h tr m e. (done-eq-nil l tr).0 ((pass-eq-nil _ _ l).0 h tr m e),
    λ v. (pass-eq-nil _ _ l).1 (λ tr m e. (done-eq-nil l tr).1 (v tr m e)),
  )

  first_of_type :
      (ty : String) (l : List Trace) → (of_type ty l ≡ []) ⊎ ((tr : Trace) × Memᴰ tr (of_type ty l))
  first_of_type ty l = go (of_type ty l)
    where
      go : (k : List Trace) → (k ≡ []) ⊎ ((tr : Trace) × Memᴰ tr k)
      go [] = inl refl
      go (tr ∷ k) = inr (tr, Memᴰ.head refl)

  -- The last check repeats the one before it.
  route_pass-eq-nil :
      (l : List Trace)
      → ((tr : Trace) → Memᴰ tr l → tr.event_type ≡ "signal.done" → Completed l)
      → route_pass decode_routed l ≡ []
  unfolding route_pass
  route_pass-eq-nil l v = elim (first_of_type "signal.done" l) [
    | inl e ↦ rw e
    | inr (tr, m) ↦
        let (n, e) = of_type-mem "signal.done" l tr m in
        let c : has_success_path_to_complete decode_routed (of_type "step.routed" l) ≡ true =
          (path_iff l).1 (v tr n e) in
        ground (arith, c)
  ]

result_pass-eq-nil :
    (decode_result : String → Option DetResult) (g : Graph) (l : List Trace)
    → (result_pass decode_result g l ≡ []) ↔ (
        (tr : Trace)
        → Memᴰ tr l
        → tr.event_type ≡ "step.deterministic_result"
        → (d : DetResult) → decode_result tr.payload ≡ some d
        → (d.step ≡ "") ⊎ IsKnown g d.step)
unfolding result_pass
result_pass-eq-nil decode_result g l = (
  λ h tr m e d p. (IsKnown-step g tr d).0 (rw p at ((pass-eq-nil _ _ l).0 h tr m e)),
  λ v. (pass-eq-nil _ _ l).1 (λ tr m e. result-eq-nil g tr (decode_result tr.payload) (v tr m e)),
)
  where
    result-eq-nil :
        (g : Graph) (tr : Trace) (o : Option DetResult)
        → ((d : DetResult) → o ≡ some d → (d.step ≡ "") ⊎ IsKnown g d.step)
        → validate_deterministic_result g tr o ≡ []
    result-eq-nil g tr none v = unfold validate_deterministic_result in refl
    result-eq-nil g tr (some d) v = (IsKnown-step g tr d).1 (v d refl)

module _ (decode_routed : String → Option Routed) (decode_result : String → Option DetResult) where
  -- What each kind of trace must meet.
  abbrev pub IsValidTrace : Graph → List Trace → Trace → Type 0
  IsValidTrace g traces tr =
      (tr.event_type ≡ "step.routed"
        → (r : Routed) × (decode_routed tr.payload ≡ some r) × Conforms g r)
      × (tr.event_type ≡ "step.deterministic_result"
          → (d : DetResult) → decode_result tr.payload ≡ some d
          → (d.step ≡ "") ⊎ IsKnown g d.step)
      × (tr.event_type ≡ "signal.done" → Completed decode_routed traces)

  -- On a graph whose two maps have the same keys, a report is valid exactly when every routed trace
  -- can be read and conforms, every deterministic result names no step, "complete" or a node, and
  -- there is no done signal unless some trace routes to "complete" with success.
  pub report_valid_iff :
      (g : Graph) (task_id : String) (traces : List Trace)
      → SameKeys g
      → ((validate_trace_conformance decode_routed decode_result (some g) task_id traces).valid
          ≡ true)
        ↔ ((tr : Trace) → Memᴰ tr traces → IsValidTrace g traces tr)
  unfolding validate_trace_conformance findings_of
  report_valid_iff g task_id traces s = (
    λ h tr m.
        let (hr, rest) =
          (append-eq-nil (routed_pass decode_routed g traces) _).0
            ((is_empty_iff (findings_of decode_routed decode_result g traces)).0 h) in
        let (hd, rest') = (append-eq-nil (result_pass decode_result g traces) _).0 rest in
        let (ht, _) = (append-eq-nil (terminal_pass decode_routed traces) _).0 rest' in
        (
          (routed_pass-eq-nil decode_routed g traces s).0 hr tr m,
          (result_pass-eq-nil decode_result g traces).0 hd tr m,
          (terminal_pass-eq-nil decode_routed traces).0 ht tr m,
        ),
    λ v. (is_empty_iff (findings_of decode_routed decode_result g traces)).1 (
        (append-eq-nil _ _).1 (
          (routed_pass-eq-nil decode_routed g traces s).1 (λ tr m. (v tr m).0),
          (append-eq-nil _ _).1 (
            (result_pass-eq-nil decode_result g traces).1 (λ tr m. (v tr m).1),
            (append-eq-nil _ _).1 (
              (terminal_pass-eq-nil decode_routed traces).1 (λ tr m. (v tr m).2),
              route_pass-eq-nil decode_routed traces (λ tr m. (v tr m).2),
            ),
          ),
        )),
  )
