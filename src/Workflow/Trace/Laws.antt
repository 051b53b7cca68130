-- ===== src/Workflow/Trace/Laws.antt =====
-- What a clean validation says of the routes.
use clankwork.Base.{
  ◌∙◌, sym, ◌≡◌, ◌≢◌, ◌↔◌, ◌⊎◌, inl, inr, refl, String, Bool, true, false, not, Option, none, some,
  [], ◌∷◌, ◌==◌, ==_iff, get, has, get-has, get-none, arith, Bool-cases, append-eq-nil,
}
use clankwork.Workflow.{Edges, Graph}
use clankwork.Workflow.Trace.{
  Trace, Routed, routed_wrong_edge_terminal, an_error, report_if, is_unknown, expected_target,
  inner_edge_findings, terminal_edge_findings, edge_findings, routed_findings,
  validate_routed_event,
}

-- Compiled graphs have an entry in both maps for each step.
abbrev pub SameKeys : Graph → Type 0
SameKeys g = (k : String) → has g.nodes k ≡ has g.edges k

abbrev pub IsKnown : Graph → String → Type 0
IsKnown g x = (x ≡ "complete") ⊎ (has g.nodes x ≡ true)

-- The route takes the edge that its outcome selects.
abbrev pub FollowsEdge : Graph → Routed → Type 0
FollowsEdge g r =
    (e : Edges) × (get g.edges r.from ≡ some e)
    × (((r.outcome ≡ "success") × (r.to ≡ e.success))
        ⊎ ((r.outcome ≡ "failure") × (r.to ≡ e.failure)))

abbrev pub Conforms : Graph → Routed → Type 0
Conforms g r = IsKnown g r.to × ((r.from ≡ "complete") ⊎ FollowsEdge g r)

pub report-eq-nil : (b : Bool) (f : _) → report_if b f ≡ [] → b ≡ false
report-eq-nil b f h = ground arith

pub not-eq-false : (b : Bool) → not b ≡ false → b ≡ true
not-eq-false b h = ground arith

source-IsKnown :
    (g : Graph) (r : Routed)
    → SameKeys g
    → (r.from ≡ "complete") ⊎ FollowsEdge g r
    → IsKnown g r.from
source-IsKnown g r same (inl c) = inl c
source-IsKnown g r same (inr (e, p, _)) = inr (same r.from ∙ get-has g.edges r.from e p)

pub success_ne_failure : ¬ (◌≡◌ {A = String} "success" "failure")
success_ne_failure p = cc ((==_iff "success" "failure").1 p)

expected_target_cases :
    (outcome : String) (e : Edges)
    → ((outcome ≡ "success") × (expected_target outcome e ≡ e.success))
      ⊎ ((outcome ≡ "failure") × (expected_target outcome e ≡ e.failure))
      ⊎ (expected_target outcome e ≡ "")
expected_target_cases outcome e = elim (Bool-cases (outcome == "success")) [
  | inl p ↦ inl ((==_iff outcome "success").0 p, rw p)
  | inr p ↦ elim (Bool-cases (outcome == "failure")) [
    | inl q ↦ inr (inl ((==_iff outcome "failure").0 q, rw (p, q)))
    | inr q ↦ inr (inr (rw (p, q)))
  ]
]

-- An edge whose selected target is "complete", taken to "complete".
taken :
    (g : Graph) (r : Routed) (e : Edges)
    → get g.edges r.from ≡ some e
    → r.to ≡ "complete"
    → expected_target r.outcome e ≡ "complete"
    → FollowsEdge g r
taken g r e p c q = elim (expected_target_cases r.outcome e) [
  | inl (o, x) ↦ (e, p, inl (o, c ∙ sym q ∙ x))
  | inr (inl (o, x)) ↦ (e, p, inr (o, c ∙ sym q ∙ x))
  | inr (inr x) ↦ cc
]

module _ (g : Graph) (tr : Trace) (r : Routed) where
  inner_sound :
      (o : Option Edges)
      → get g.edges r.from ≡ o
      → has g.edges r.from ≡ true
      → inner_edge_findings g tr r o ≡ []
      → FollowsEdge g r
  unfolding inner_edge_findings
  inner_sound none e k h = cc (get-none g.edges r.from e)
  inner_sound (some e) p k h = (
    e,
    p,
    ground (
      arith,
      ==_iff r.outcome "success",
      ==_iff r.outcome "failure",
      ==_iff r.to e.success,
      ==_iff r.to e.failure,
    ),
  )

  terminal_sound :
      (o : Option Edges)
      → get g.edges r.from ≡ o
      → has g.edges r.from ≡ true
      → r.to ≡ "complete"
      → terminal_edge_findings tr r o ≡ []
      → FollowsEdge g r
  unfolding terminal_edge_findings
  terminal_sound none e k c h = cc (get-none g.edges r.from e)
  terminal_sound (some e) p k c h =
      let q : not (expected_target r.outcome e == "complete") ≡ false = report-eq-nil _ _ h in
      taken g r e p c ((==_iff (expected_target r.outcome e) "complete").0 (not-eq-false _ q))

  edge_sound :
      has g.edges r.from ≡ true
      → edge_findings g tr r ≡ []
      → (r.from ≡ "complete") ⊎ FollowsEdge g r
  unfolding edge_findings
  edge_sound k h = elim (Bool-cases (r.from == "complete")) [
    | inl p ↦ inl ((==_iff r.from "complete").0 p)
    | inr p ↦ elim (Bool-cases (r.to == "complete")) [
      | inl q ↦ inr (
          terminal_sound (get g.edges r.from) refl k ((==_iff r.to "complete").0 q)
            (rw (p, q) at h))
      | inr q ↦ inr (inner_sound (get g.edges r.from) refl k (rw (p, q) at h))
    ]
  ]

  pub IsKnown-of_is_unknown : (x : String) → is_unknown g x ≡ false → IsKnown g x
  IsKnown-of_is_unknown x h = ground (arith, ==_iff x "complete")

  pub is_unknown_of_IsKnown : (x : String) → IsKnown g x → is_unknown g x ≡ false
  is_unknown_of_IsKnown x h = ground (arith, ==_iff x "complete")

  edge_complete : (r.from ≡ "complete") ⊎ FollowsEdge g r → edge_findings g tr r ≡ []
  unfolding edge_findings inner_edge_findings terminal_edge_findings
  edge_complete (inl p) = ground (arith, ==_iff r.from "complete")
  edge_complete (inr (e, p, inl (o, q))) = rw p (
      ground (
        arith,
        ==_iff r.outcome "success",
        ==_iff r.to e.success,
        ==_iff r.to "complete",
        ==_iff e.success "complete",
      ))
  edge_complete (inr (e, p, inr (o, q))) = rw p (
      ground (
        arith,
        success_ne_failure,
        ==_iff r.outcome "success",
        ==_iff r.outcome "failure",
        ==_iff r.to e.failure,
        ==_iff r.to "complete",
        ==_iff e.failure "complete",
      ))

-- In a graph whose two maps have the same keys, an event of a readable route draws no finding
-- exactly when its target is known, and its source is "complete" or has the edge that the route
-- took.
pub validate_routed_event_iff :
    (g : Graph) (tr : Trace) (r : Routed)
    → SameKeys g
    → (validate_routed_event g tr (some r) ≡ []) ↔ Conforms g r
unfolding validate_routed_event routed_findings
validate_routed_event_iff g tr r same = (
  λ h.
      let (hs, rest) = (append-eq-nil _ _).0 h in
      let (ht, he) = (append-eq-nil _ _).0 rest in
      let known = IsKnown-of_is_unknown g tr r r.from (report-eq-nil _ _ hs) in
      (
        IsKnown-of_is_unknown g tr r r.to (report-eq-nil _ _ ht),
        elim known [ inl c ↦ inl c | inr k ↦ edge_sound g tr r (sym (same r.from) ∙ k) he ],
      ),
  λ (k, w).
      let ks : IsKnown g r.from = source-IsKnown g r same w in
      rw (is_unknown_of_IsKnown g tr r r.from ks, is_unknown_of_IsKnown g tr r r.to k)
        (edge_complete g tr r w),
)

-- A success that leaves a known step by an empty edge for "complete" draws one finding.
pub empty_edge_finding :
    (g : Graph) (tr : Trace) (current : String) (e : Edges)
    → SameKeys g
    → get g.edges current ≡ some e
    → current ≢ "complete"
    → e.success ≡ ""
    → validate_routed_event g tr
        (some (record { from = current; to = "complete"; outcome = "success" }))
      ≡ an_error routed_wrong_edge_terminal tr ∷ []
unfolding validate_routed_event routed_findings edge_findings terminal_edge_findings
empty_edge_finding g tr current e same p nc em =
    let known : has g.nodes current ≡ true = same current ∙ get-has g.edges current e p in
    let differs : (current == "complete") ≡ false = ground (arith, ==_iff current "complete") in
    rw (differs, known, p, em)
