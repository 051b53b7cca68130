-- ===== src/Workflow/Compile/Structure.antt =====
-- The structural checks of Compile: step kinds, the entry, edge targets.
use clankwork.Base.{
  ◌≡◌, ◌≢◌, ◌↔◌, ◌⊎◌, refl, String, Bool, true, false, List, [], ◌∷◌, ==_iff, has, map, arith, All,
  All-map, collect, append-eq-nil, collect-eq-nil,
}
use clankwork.Workflow.{Step, Template, node_of, edges_of, graph_of}
use clankwork.Workflow.Compile.{
  Diagnostic, when, step_diagnostics, entry_diagnostics, is_dangling, edge_diagnostics,
  structural_diagnostics,
}

-- A step of a known kind, a deterministic one with a command.
abbrev pub IsStep : String × Step → Type 0
IsStep e = (e.1.step_type ≡ "agent") ⊎ ((e.1.step_type ≡ "deterministic") × (e.1.command ≢ ""))

-- Where an edge may lead.
abbrev pub IsTarget : Template → String → Type 0
IsTarget t x = (x ≡ "") ⊎ (x ≡ "complete") ⊎ (has t.steps x ≡ true)

abbrev pub HasTargets : Template → String × Step → Type 0
HasTargets t e = IsTarget t e.1.on_success × IsTarget t e.1.on_failure

pub record IsStructured (t : Template) : Type 0 where
  pub steps_known : All IsStep t.steps
  pub entry_known : has t.steps t.entry ≡ true
  pub targets_known : All (HasTargets t) t.steps

pub agent_ne_deterministic : ¬ (◌≡◌ {A = String} "agent" "deterministic")
agent_ne_deterministic p = cc ((==_iff "agent" "deterministic").1 p)

step_diagnostics-eq-nil : (e : String × Step) → (step_diagnostics e ≡ []) ↔ IsStep e
unfolding step_diagnostics
step_diagnostics-eq-nil (name, step) = (
  λ h. ground (
    arith,
    ==_iff step.step_type "agent",
    ==_iff step.step_type "deterministic",
    ==_iff step.command "",
  ),
  λ h. ground (
    arith,
    ==_iff step.step_type "agent",
    ==_iff step.step_type "deterministic",
    ==_iff step.command "",
    agent_ne_deterministic,
  ),
)

when-eq-nil : (b : Bool) (d : Diagnostic) → when b d ≡ [] → b ≡ false
when-eq-nil b d h = ground arith

pub has-node_of :
    (steps : List (String × Step)) (k : String) → has (map node_of steps) k ≡ has steps k
unfolding node_of
has-node_of [] k = refl
has-node_of ((j, s) ∷ rest) k = rw (has-node_of rest k)

entry_diagnostics-eq-nil :
    (t : Template) → (entry_diagnostics (graph_of t) ≡ []) ↔ (has t.steps t.entry ≡ true)
unfolding entry_diagnostics graph_of
entry_diagnostics-eq-nil t = rw has-node_of (λ h. ground arith, λ h. ground arith)

is_dangling_iff : (t : Template) (x : String) → (is_dangling (graph_of t) x ≡ false) ↔ IsTarget t x
unfolding graph_of
is_dangling_iff t x = rw has-node_of (
  λ h. ground (arith, ==_iff x "", ==_iff x "complete"),
  λ h. ground (arith, ==_iff x "", ==_iff x "complete"),
)

edge_diagnostics-eq-nil :
    (t : Template) (e : String × Step)
    → (edge_diagnostics (graph_of t) (edges_of e) ≡ []) ↔ HasTargets t e
unfolding edge_diagnostics edges_of
edge_diagnostics-eq-nil t (name, step) = (
  λ h.
      let (p, q) = (append-eq-nil _ _).0 h in
      (
        (is_dangling_iff t step.on_success).0 (when-eq-nil _ _ p),
        (is_dangling_iff t step.on_failure).0 (when-eq-nil _ _ q),
      ),
  λ h. rw ((is_dangling_iff t step.on_success).1 h.0, (is_dangling_iff t step.on_failure).1 h.1),
)

All-of-map {ℓ κ ν} :
    {A : Type ℓ} {B : Type κ} (P : B → Type ν) (f : A → B) (xs : List A)
    → All P (map f xs) ↔ All (λ x. P (f x)) xs
All-of-map P f [] = (λ h. tt, λ h. tt)
All-of-map P f (x ∷ xs) =
    (λ h. (h.0, (All-of-map P f xs).0 h.1), λ h. (h.0, (All-of-map P f xs).1 h.1))

edges_diagnostics-eq-nil :
    (t : Template)
    → (collect (edge_diagnostics (graph_of t)) (graph_of t).edges ≡ []) ↔ All (HasTargets t) t.steps
unfolding graph_of
edges_diagnostics-eq-nil t = (
  λ h.
      All-map _ _ t.steps (λ e. (edge_diagnostics-eq-nil t e).0)
        ((All-of-map _ edges_of t.steps).0 ((collect-eq-nil _ _).0 h)),
  λ h. (collect-eq-nil _ _).1 (
      (All-of-map _ edges_of t.steps).1
        (All-map _ _ t.steps (λ e. (edge_diagnostics-eq-nil t e).1) h)),
)

pub structural_diagnostics-eq-nil :
    (t : Template) → (structural_diagnostics t ≡ []) ↔ IsStructured t
unfolding structural_diagnostics
structural_diagnostics-eq-nil t = (
  λ h.
      let (hs, rest) = (append-eq-nil _ _).0 h in
      let (he, ht) = (append-eq-nil _ _).0 rest in
      record {
        steps_known =
            All-map _ _ t.steps (λ e. (step_diagnostics-eq-nil e).0) ((collect-eq-nil _ _).0 hs);
        entry_known = (entry_diagnostics-eq-nil t).0 he;
        targets_known = (edges_diagnostics-eq-nil t).0 ht;
      },
  λ w. (append-eq-nil _ _).1 (
    (collect-eq-nil _ _).1 (All-map _ _ t.steps (λ e. (step_diagnostics-eq-nil e).1) w.steps_known),
    (append-eq-nil _ _).1 (
      (entry_diagnostics-eq-nil t).1 w.entry_known,
      (edges_diagnostics-eq-nil t).1 w.targets_known,
    ),
  ),
)
