-- ===== src/Routing/Conformance.antt =====
-- The traces that routing leaves, held against the validator of the same graph.
use mathlib.Core.Option.{some-injective}
use clankwork.Base.{
  ◌≡◌, ◌≢◌, ◌⊎◌, inl, inr, refl, sym, ◌∙◌, String, Option, none, some, List, [], ◌∷◌, ◌==◌, ==_iff,
  get, has, get-All, arith, ℕ, map, Bool-cases,
}
use clankwork.Base.Int.{ℤ}
use clankwork.Workflow.{Step, Template, Edges, edges_of, graph_of}
use clankwork.Workflow.Compile.Structure.{IsTarget, HasTargets, IsStructured, has-node_of}
use clankwork.Workflow.Trace.{
  Trace, Routed, an_error, routed_wrong_edge_terminal, validate_routed_event,
}
use clankwork.Workflow.Trace.Laws.{
  SameKeys, IsKnown, Conforms, success_ne_failure, empty_edge_finding, validate_routed_event_iff,
}
use clankwork.Tasks.{Task, task_set_step_if_running}
use clankwork.Routing.{
  Effect, step_routed, Repeated, next_step, advance, route_along, graph_limits, route_with_graph,
}

-- The step.routed trace among the effects of a call.
abbrev pub traced : List Effect → Option Routed
traced [] = none
traced (step_routed r ∷ rest) = some r
traced (other ∷ rest) = traced rest

abbrev pub route_trace : String → Edges → String → Routed
route_trace current e outcome = record {
  from = current;
  to = next_step outcome e;
  outcome = outcome;
}

along_traced :
    (now : ℕ) (rep : Repeated) (limits : String → Option ℤ) (task : Task) (o : Option Edges)
    (current outcome : String) (row : Task) (r : Routed)
    → traced (route_along now rep limits task o current outcome row).effects ≡ some r
    → (e : Edges) × (o ≡ some e) × (r ≡ route_trace current e outcome)
unfolding route_along task_set_step_if_running
along_traced now rep limits task none current outcome row r h = cc
along_traced now rep limits task (some e) current outcome row r h = (e, refl, ground arith)

has-edges_of :
    (steps : List (String × Step)) (k : String) → has (map edges_of steps) k ≡ has steps k
unfolding edges_of
has-edges_of [] k = refl
has-edges_of ((j, s) ∷ rest) k = rw (has-edges_of rest k)

-- A compiled graph has an entry in both maps for each step.
pub SameKeys-graph_of : (t : Template) → SameKeys (graph_of t)
unfolding graph_of
SameKeys-graph_of t k = has-node_of t.steps k ∙ sym (has-edges_of t.steps k)

edges-step :
    (steps : List (String × Step)) (k : String) (s : Step)
    → get steps k ≡ some s
    → get (map edges_of steps) k ≡ some (record { success = s.on_success; failure = s.on_failure })
unfolding edges_of
edges-step [] k s h = cc
edges-step ((j, x) ∷ rest) k s h = elim (Bool-cases (j == k)) [
  | inl e ↦ let p : x ≡ s = ground (arith, e) in rw (e, p)
  | inr e ↦ rw e (edges-step rest k s (rw e at h))
]

known : (t : Template) (x : String) → IsTarget t x → x ≢ "" → IsKnown (graph_of t) x
unfolding graph_of
known t x (inl e) ne = absurd (ne e)
known t x (inr (inl e)) ne = inl e
known t x (inr (inr h)) ne = inr (has-node_of t.steps x ∙ h)

next_success :
    (outcome : String) (e : Edges)
    → outcome ≡ "success"
    → e.success ≢ ""
    → next_step outcome e ≡ e.success
next_success outcome e o n = ground (arith, ==_iff outcome "success", ==_iff e.success "")

next_failure :
    (outcome : String) (e : Edges)
    → outcome ≡ "failure"
    → e.failure ≢ ""
    → next_step outcome e ≡ e.failure
next_failure outcome e o n =
    ground (arith, ==_iff outcome "success", ==_iff e.failure "", success_ne_failure)

module _ (t : Template) (current : String) (s : Step) (w : IsStructured t)
    (p : get t.steps current ≡ some s) where
  abbrev out_edges : Edges
  out_edges = record { success = s.on_success; failure = s.on_failure }

  edges-graph_of : get (graph_of t).edges current ≡ some out_edges
  unfolding graph_of
  edges-graph_of = edges-step t.steps current s p

  follows :
      (outcome : String)
      → (outcome ≡ "success") ⊎ (outcome ≡ "failure")
      → s.on_success ≢ ""
      → s.on_failure ≢ ""
      → Conforms (graph_of t) (route_trace current out_edges outcome)
  follows outcome (inl o) ns nf =
      let e = next_success outcome out_edges o ns in
      let targets = get-All (HasTargets t) t.steps current s w.targets_known p in
      (rw e (known t s.on_success targets.0 ns), inr (out_edges, edges-graph_of, inl (o, e)))
  follows outcome (inr o) ns nf =
      let e = next_failure outcome out_edges o nf in
      let targets = get-All (HasTargets t) t.steps current s w.targets_known p in
      (rw e (known t s.on_failure targets.1 nf), inr (out_edges, edges-graph_of, inr (o, e)))

-- Where a structured template gives a step both edges, the trace that routing leaves by the
-- compiled graph, for a success or a failure, draws no finding from that graph's validator.
pub route_conforms :
    (now : ℕ) (rep : Repeated) (t : Template) (task : Task) (current outcome : String) (row : Task)
    (s : Step) (r : Routed) (tr : Trace)
    → IsStructured t
    → get t.steps current ≡ some s
    → (outcome ≡ "success") ⊎ (outcome ≡ "failure")
    → s.on_success ≢ ""
    → s.on_failure ≢ ""
    → traced (route_with_graph now rep (graph_of t) task current outcome row).effects ≡ some r
    → validate_routed_event (graph_of t) tr (some r) ≡ []
unfolding route_with_graph
route_conforms now rep t task current outcome row s r tr w p out ns nf h =
    let (e, q, er) =
      along_traced now rep (graph_limits (graph_of t)) task (get (graph_of t).edges current) current
        outcome row r h in
    let same_edges : out_edges t current s w p ≡ e =
      some-injective _ _ (sym (edges-graph_of t current s w p) ∙ q) in
    (validate_routed_event_iff (graph_of t) tr r (SameKeys-graph_of t)).1
      (rw (er, ← same_edges) (follows t current s w p outcome out ns nf))

-- A step with an empty success edge, as the documented default allows, completes its task, and the
-- validator of the same graph calls that route an error.
pub empty_edge_flagged :
    (now : ℕ) (rep : Repeated) (t : Template) (task : Task) (current : String) (row : Task)
    (s : Step) (tr : Trace)
    → IsStructured t
    → get t.steps current ≡ some s
    → current ≢ "complete"
    → s.on_success ≡ ""
    → let r : Routed = record { from = current; to = "complete"; outcome = "success" } in
      (traced (route_with_graph now rep (graph_of t) task current "success" row).effects ≡ some r)
      × (validate_routed_event (graph_of t) tr (some r)
          ≡ an_error routed_wrong_edge_terminal tr ∷ [])
unfolding route_with_graph
empty_edge_flagged now rep t task current row s tr w p nc em = (
  unfold route_along advance in rw (edges-graph_of t current s w p, em),
  empty_edge_finding (graph_of t) tr current (out_edges t current s w p) (SameKeys-graph_of t)
      (edges-graph_of t current s w p) nc em,
)
