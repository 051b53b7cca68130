-- ===== src/Workflow/Reach/Exact.antt =====
-- The search answers exactly whether a node of the one class leads to a node of the other.
use mathlib.Core.List.{Memᴰ}
use clankwork.Base.{
  ◌≡◌, ◌↔◌, inl, inr, ap, String, true, false, some, List, [], ◌∷◌, ◌==◌, ==_iff, ==_refl, get, In,
  UniqueKeys, get-mem, arith, Bool-cases,
}
use clankwork.Workflow.{GateClass, same_gate, Node, Graph}
use clankwork.Workflow.Reach.{sources_of, has_gate, can_reach}
use clankwork.Workflow.Reach.Path.{Leads}
use clankwork.Workflow.Reach.Sound.{can_reach_sound}
use clankwork.Workflow.Reach.Complete.{Inv, unvisited-le, bfs_complete}

sources-mem :
    (from : GateClass) (l : List (String × Node)) (s : String) (node : Node)
    → Memᴰ (s, node) l
    → same_gate node.gate_class from ≡ true
    → In s (sources_of from l)
unfolding sources_of
sources-mem from [] s node m k = elim m [ ]
sources-mem from ((j, n) ∷ rest) s node (Memᴰ.head p) k =
    let en : node ≡ n = ap (λ (x : String × Node). x.1) p in
    let es : s ≡ j = ap (λ (x : String × Node). x.0) p in ground (arith, ==_refl j)
sources-mem from ((j, n) ∷ rest) s node (Memᴰ.tail r) k =
    ground (arith, sources-mem from rest s node r k)

-- A source has the class `from`, and so no other.
sources-class :
    (from : GateClass) (l : List (String × Node)) (v : String)
    → In v (sources_of from l)
    → (node : Node) × Memᴰ (v, node) l × (same_gate node.gate_class from ≡ true)
unfolding sources_of
sources-class from [] v m = cc
sources-class from ((j, n) ∷ rest) v m = elim (Bool-cases (same_gate n.gate_class from)) [
  | inl e ↦ elim (Bool-cases (j == v)) [
    | inl p ↦ (n, Memᴰ.head (rw ((==_iff j v).0 p)), e)
    | inr p ↦ let (node, r, k) = sources-class from rest v (ground arith) in (node, Memᴰ.tail r, k)
  ]
  | inr e ↦ let (node, r, k) = sources-class from rest v (ground arith) in (node, Memᴰ.tail r, k)
]

same_gate_unique :
    (c from to : GateClass)
    → same_gate from to ≡ false
    → same_gate c from ≡ true
    → same_gate c to ≡ false
same_gate_unique c from to d h = ground arith

has_gate_of_get :
    (g : Graph) (to : GateClass) (v : String) (node : Node)
    → get g.nodes v ≡ some node
    → same_gate node.gate_class to ≡ false
    → has_gate g to v ≡ false
unfolding has_gate
has_gate_of_get g to v node e h = ground arith

start-Inv :
    (g : Graph) (from to : GateClass)
    → UniqueKeys g.nodes
    → same_gate from to ≡ false
    → Inv g to (sources_of from g.nodes) (sources_of from g.nodes)
start-Inv g from to u d = record {
  closed = λ v m. inl m;
  missed = λ v m.
      let (node, r, k) = sources-class from g.nodes v m in
      has_gate_of_get g to v node (get-mem g.nodes v node u r)
        (same_gate_unique node.gate_class from to d k);
}

-- Between two different classes, in a graph with no node name twice, the search answers `true`
-- exactly when some node of class `from` leads, along success edges, to one of class `to`; so its
-- fuel is enough.
pub can_reach_iff :
    (g : Graph) (from to : GateClass)
    → UniqueKeys g.nodes
    → same_gate from to ≡ false
    → (can_reach g from to ≡ true) ↔ Leads g from to
can_reach_iff g from to u d = (
  can_reach_sound g from to,
  λ (s, node, t, m, k, path, hit).
      unfold can_reach in
      bfs_complete g to s t path hit _ (sources_of from g.nodes) (sources_of from g.nodes)
        (omega (arith, unvisited-le (sources_of from g.nodes) g.edges))
        (sources-mem from g.nodes s node m k) (start-Inv g from to u d),
)
