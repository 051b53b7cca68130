-- ===== src/Workflow/Validate/Laws.antt =====
-- A template that Validate accepts is structured, and compiles without a structural diagnostic.
use clankwork.Base.{
  ◌≡◌, ◌≢◌, ◌↔◌, refl, String, false, Option, none, some, List, [], ◌∷◌, ==_iff, arith, All,
}
use clankwork.Workflow.{Step, Template, graph_of}
use clankwork.Workflow.Compile.{policy_diagnostics, compile}
use clankwork.Workflow.Compile.Structure.{
  IsStep, IsTarget, HasTargets, IsStructured, structural_diagnostics-eq-nil, agent_ne_deterministic,
}
use clankwork.Workflow.Validate.{
  ValidationError, ◌orelse◌, step_error, is_missing, entry_error, loop_error, validate,
}

orelse-eq-none : (a b : Option ValidationError) → ((a orelse b) ≡ none) ↔ ((a ≡ none) × (b ≡ none))
orelse-eq-none none b = (λ h. (refl, h), λ h. h.1)
orelse-eq-none (some e) b = (λ h. cc, λ h. cc)

step_error-eq-none : (e : String × Step) → (step_error e ≡ none) ↔ IsStep e
unfolding step_error
step_error-eq-none (name, step) = (
  λ h. ground (
    arith,
    ==_iff step.step_type "agent",
    ==_iff step.step_type "deterministic",
    ==_iff step.command "",
  ),
  λ h. ground (
    arith,
    ==_iff step.step_type "agent",
    ==_iff step.step_type "deterministic",
    ==_iff step.command "",
    agent_ne_deterministic,
  ),
)

is_missing_iff : (t : Template) (x : String) → (is_missing t x ≡ false) ↔ IsTarget t x
is_missing_iff t x = (
  λ h. ground (arith, ==_iff x "", ==_iff x "complete"),
  λ h. ground (arith, ==_iff x "", ==_iff x "complete"),
)

entry_error-eq-none :
    (t : Template) (e : String × Step) → (entry_error t e ≡ none) ↔ (IsStep e × HasTargets t e)
unfolding entry_error
entry_error-eq-none t (name, step) = (
  λ h.
      let (p, q) = (orelse-eq-none (step_error (name, step)) _).0 h in
      (
        (step_error-eq-none (name, step)).0 p,
        (
          (is_missing_iff t step.on_success).0 (ground arith),
          (is_missing_iff t step.on_failure).0 (ground arith),
        ),
      ),
  λ h. rw (
    (step_error-eq-none (name, step)).1 h.0,
    (is_missing_iff t step.on_success).1 h.1.0,
    (is_missing_iff t step.on_failure).1 h.1.1,
  ),
)

loop_error-eq-none :
    (t : Template) (l : List (String × Step))
    → (loop_error t l ≡ none) ↔ (All IsStep l × All (HasTargets t) l)
unfolding loop_error
loop_error-eq-none t [] = (λ h. (tt, tt), λ h. refl)
loop_error-eq-none t (e ∷ rest) = (
  λ h.
      let (p, q) = (orelse-eq-none (entry_error t e) _).0 h in
      let (s, d) = (entry_error-eq-none t e).0 p in
      let (ss, ds) = (loop_error-eq-none t rest).0 q in ((s, ss), (d, ds)),
  λ (s, d).
      (orelse-eq-none (entry_error t e) _).1
        ((entry_error-eq-none t e).1 (s.0, d.0), (loop_error-eq-none t rest).1 (s.1, d.1)),
)

-- A template is accepted exactly when it has a name, an entry, and the structure that Compile
-- checks.
pub validate_iff :
    (t : Template) → (validate t ≡ none) ↔ ((t.name ≢ "") × (t.entry ≢ "") × IsStructured t)
unfolding validate
validate_iff t = (
  λ h.
      let l : loop_error t t.steps ≡ none = ground arith in
      let (ss, ds) = (loop_error-eq-none t t.steps).0 l in
      (
        λ e. ground (arith, ==_iff t.name ""),
        λ e. ground (arith, ==_iff t.entry ""),
        record { steps_known = ss; entry_known = ground arith; targets_known = ds },
      ),
  λ (n, e, w).
      let l = (loop_error-eq-none t t.steps).1 (w.steps_known, w.targets_known) in
      ground (arith, w.entry_known, ==_iff t.name "", ==_iff t.entry ""),
)

-- An accepted template compiles to no diagnostics but those of the gate policy.
pub compile-validate :
    (t : Template) → validate t ≡ none → (compile t).1 ≡ policy_diagnostics (graph_of t)
unfolding compile
compile-validate t h = rw ((structural_diagnostics-eq-nil t).1 ((validate_iff t).0 h).2)
