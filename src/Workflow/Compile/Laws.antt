-- ===== src/Workflow/Compile/Laws.antt =====
-- A template compiles without diagnostics exactly when it conforms.
use clankwork.Base.{
  any-mem, ◌≡◌, ◌↔◌, inl, inr, refl, String, Bool, true, some, List, [], ◌∷◌, any, get, UniqueKeys,
  map, arith, Bool-cases, Option-cases, append-eq-nil,
}
use clankwork.Workflow.{
  Step, Template, GateClass, acceptance_spec, implementation, deterministic_verification,
  acceptance_verification, same_gate, Node, Graph, node_of, graph_of,
}
use clankwork.Workflow.Reach.{can_reach, has_gate}
use clankwork.Workflow.Reach.Path.{Leads}
use clankwork.Workflow.Reach.Exact.{can_reach_iff}
use clankwork.Workflow.Compile.Structure.{IsStructured, structural_diagnostics-eq-nil, has-node_of}
use clankwork.Workflow.Compile.{any_gate, gate_diagnostics, policy_diagnostics, compile}

-- Where an acceptance specification is written, an implementation leads to a deterministic check,
-- and a deterministic check to an acceptance check.
abbrev pub IsSubstantive : Graph → Type 0
IsSubstantive g =
    any_gate g acceptance_spec ≡ true
    → Leads g implementation deterministic_verification
      × Leads g deterministic_verification acceptance_verification

any_gate_of_get :
    (c : GateClass) (l : List (String × Node)) (t : String) (node : Node)
    → get l t ≡ some node
    → same_gate node.gate_class c ≡ true
    → any (λ (e : String × Node). same_gate e.1.gate_class c) l ≡ true
any_gate_of_get c [] t node e h = cc
any_gate_of_get c ((j, n) ∷ rest) t node e h = ground (arith, any_gate_of_get c rest t node)

any_gate_of_has :
    (g : Graph) (c : GateClass) (t : String) → has_gate g c t ≡ true → any_gate g c ≡ true
unfolding has_gate any_gate
any_gate_of_has g c t h = elim (Option-cases (get g.nodes t)) [
  | inl e ↦ cc (rw e at h)
  | inr (node, e) ↦ any_gate_of_get c g.nodes t node e (rw e at h)
]

any_gate_of_Leads :
    (g : Graph) (from to : GateClass)
    → Leads g from to
    → (any_gate g from ≡ true) × (any_gate g to ≡ true)
unfolding any_gate
any_gate_of_Leads g from to (s, node, t, m, k, path, hit) =
    (any-mem _ g.nodes (s, node) m k, unfold any_gate in any_gate_of_has g to t hit)

gate_diagnostics-eq-nil :
    (g : Graph) (impl det acc : Bool)
    → (gate_diagnostics g impl det acc ≡ []) ↔ (
        (impl ≡ true)
        × (det ≡ true)
        × (acc ≡ true)
        × (can_reach g implementation deterministic_verification ≡ true)
        × (can_reach g deterministic_verification acceptance_verification ≡ true))
unfolding gate_diagnostics
gate_diagnostics-eq-nil g impl det acc = (λ h. ground arith, λ h. ground arith)

module _ (g : Graph) (u : UniqueKeys g.nodes) where
  impl_det :
      (can_reach g implementation deterministic_verification ≡ true)
      ↔ Leads g implementation deterministic_verification
  impl_det = can_reach_iff g implementation deterministic_verification u refl

  det_acc :
      (can_reach g deterministic_verification acceptance_verification ≡ true)
      ↔ Leads g deterministic_verification acceptance_verification
  det_acc = can_reach_iff g deterministic_verification acceptance_verification u refl

  policy_sound : policy_diagnostics g ≡ [] → IsSubstantive g
  unfolding policy_diagnostics
  policy_sound h spec =
      let (_, _, _, r, q) = (gate_diagnostics-eq-nil g _ _ _).0 (rw spec at h) in
      (impl_det.0 r, det_acc.0 q)

  policy_complete : IsSubstantive g → policy_diagnostics g ≡ []
  unfolding policy_diagnostics
  policy_complete s = elim (Bool-cases (any_gate g acceptance_spec)) [
    | inl spec ↦
        let (p, q) = s spec in
        let (hi, hd) = any_gate_of_Leads g _ _ p in
        let (_, ha) = any_gate_of_Leads g _ _ q in
        rw spec ((gate_diagnostics-eq-nil g _ _ _).1 (hi, hd, ha, impl_det.1 p, det_acc.1 q))
    | inr none_spec ↦ rw none_spec
  ]

UniqueKeys-node_of :
    (steps : List (String × Step)) → UniqueKeys steps → UniqueKeys (map node_of steps)
unfolding node_of
UniqueKeys-node_of [] u = tt
UniqueKeys-node_of ((k, s) ∷ rest) u = (rw has-node_of u.0, UniqueKeys-node_of rest u.1)

UniqueKeys-graph_of : (t : Template) → UniqueKeys t.steps → UniqueKeys (graph_of t).nodes
unfolding graph_of
UniqueKeys-graph_of t u = UniqueKeys-node_of t.steps u

-- A template, a map with no step name twice, compiles without a diagnostic exactly when its steps,
-- entry and edge targets are known and, if it has an acceptance specification, an implementation
-- leads along success edges to a deterministic check and such a check to an acceptance check.
pub compile_clean_iff :
    (t : Template)
    → UniqueKeys t.steps
    → ((compile t).1 ≡ []) ↔ (IsStructured t × IsSubstantive (graph_of t))
unfolding compile
compile_clean_iff t u = (
  λ h.
      let (p, q) = (append-eq-nil _ _).0 h in
      (
        (structural_diagnostics-eq-nil t).0 p,
        policy_sound (graph_of t) (UniqueKeys-graph_of t u) q,
      ),
  λ (p, q). (append-eq-nil _ _).1 (
    (structural_diagnostics-eq-nil t).1 p,
    policy_complete (graph_of t) (UniqueKeys-graph_of t u) q,
  ),
)
