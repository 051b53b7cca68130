-- ===== src/Workflow/Reach/Complete.antt =====
-- Where a way exists, the search finds it within its fuel.
use clankwork.Base.{
  ℕ, zero, suc, ◌+◌, ◌≤◌, ◌<◌, ◌≡◌, ◌⊎◌, inl, inr, String, true, false, some, List, [], ◌∷◌, ◌++◌,
  ◌==◌, ==_iff, ==_refl, length, length-append, get, contains, In, In-append_left, In-append_right,
  if◌then◌else◌, arith, Bool-cases,
}
use clankwork.Workflow.{GateClass, Edges, Graph}
use clankwork.Workflow.Reach.{edge_target, success_of, has_gate, bfs}
use clankwork.Workflow.Reach.Path.{SuccessPath, one, more, turn_cases}

-- The edges whose target has not been visited: each of them may still queue one node.
pub unvisited : List String → List (String × Edges) → ℕ
unvisited visited [] = 0
unvisited visited ((k, e) ∷ rest) =
    (if contains visited e.success then 0 else 1) + unvisited visited rest

pub unvisited-le :
    (visited : List String) (l : List (String × Edges)) → unvisited visited l ≤ length l
unfolding unvisited
unvisited-le visited [] = omega arith
unvisited-le visited ((k, e) ∷ rest) = ground (arith, unvisited-le visited rest)

unvisited-grow :
    (t : String) (visited : List String) (l : List (String × Edges))
    → unvisited (t ∷ visited) l ≤ unvisited visited l
unfolding unvisited
unvisited-grow t visited [] = omega arith
unvisited-grow t visited ((k, e) ∷ rest) = ground (arith, unvisited-grow t visited rest)

-- Visiting the target of an edge leaves one edge fewer.
unvisited-visit :
    (t c : String) (visited : List String) (l : List (String × Edges))
    → edge_target (get l c) ≡ some t
    → contains visited t ≡ false
    → unvisited (t ∷ visited) l < unvisited visited l
unfolding unvisited edge_target
unvisited-visit t c visited [] h new = cc
unvisited-visit t c visited ((k, e) ∷ rest) h new =
    ground (arith, unvisited-visit t c visited rest, unvisited-grow t visited rest, ==_refl t)

unvisited-success_of :
    (g : Graph) (t c : String) (visited : List String)
    → success_of g c ≡ some t
    → contains visited t ≡ false
    → unvisited (t ∷ visited) g.edges < unvisited visited g.edges
unfolding success_of
unvisited-success_of g t c visited h new = unvisited-visit t c visited g.edges h new

-- What holds between two turns: a visited node is queued or has its target visited, and no visited
-- node but a source has the class that is looked for.
pub record Inv (g : Graph) (to : GateClass) (visited queue : List String) : Type 0 where
  pub closed :
      (v : String)
      → In v visited
      → In v queue ⊎ ((t : String) → success_of g v ≡ some t → In t visited)
  pub missed : (v : String) → In v visited → has_gate g to v ≡ false

In-cons : (v c : String) (q : List String) → In v (c ∷ q) → (c ≡ v) ⊎ In v q
In-cons v c q h = elim (Bool-cases (c == v)) [
  | inl e ↦ inl ((==_iff c v).0 e)
  | inr e ↦ inr (ground arith)
]

Inv-skip :
    (g : Graph) (to : GateClass) (visited : List String) (c : String) (queue : List String)
    → ((t : String) → success_of g c ≡ some t → In t visited)
    → Inv g to visited (c ∷ queue)
    → Inv g to visited queue
Inv-skip g to visited c queue says i = record {
  closed = λ v m. elim (i.closed v m) [
    | inl q ↦ elim (In-cons v c queue q) [ inl e ↦ inr (λ t p. says t (rw e p)) | inr r ↦ inl r ]
    | inr f ↦ inr f
  ];
  missed = i.missed;
}

Inv-push :
    (g : Graph) (to : GateClass) (visited : List String) (c : String) (queue : List String)
    (t : String)
    → success_of g c ≡ some t
    → has_gate g to t ≡ false
    → Inv g to visited (c ∷ queue)
    → Inv g to (t ∷ visited) (queue ++ t ∷ [])
Inv-push g to visited c queue t step miss i = record {
  closed = λ v m. elim (In-cons v t visited m) [
    | inl e ↦ inl (In-append_right v queue (t ∷ []) (rw e (ground (arith, ==_refl v))))
    | inr old ↦ elim (i.closed v old) [
      | inl q ↦ elim (In-cons v c queue q) [
        | inl e ↦ inr (λ u p. ground (arith, ==_refl t))
        | inr r ↦ inl (In-append_left v queue (t ∷ []) r)
      ]
      | inr f ↦ inr (λ u p. ground (arith, f u p))
    ]
  ];
  missed = λ v m. elim (In-cons v t visited m) [ inl e ↦ rw (← e) miss | inr old ↦ i.missed v old ];
}

-- With an empty queue the visited nodes are closed under success edges.
path_visited :
    (g : Graph) (to : GateClass) (visited : List String) (s t : String)
    → Inv g to visited []
    → In s visited
    → SuccessPath g s t
    → In t visited
path_visited g to visited s t i m (one step) = elim (i.closed s m) [ inl q ↦ cc | inr f ↦ f t step ]
path_visited g to visited s t i m (more {t = u} p step) =
    elim (i.closed u (path_visited g to visited s u i m p)) [ inl q ↦ cc | inr f ↦ f t step ]

module _ (g : Graph) (to : GateClass) (s t : String) (path : SuccessPath g s t)
    (hit : has_gate g to t ≡ true) where
  pub bfs_complete :
      (fuel : ℕ) (visited queue : List String)
      → length queue + unvisited visited g.edges < fuel
      → In s visited
      → Inv g to visited queue
      → bfs g to fuel visited queue ≡ true
  unfolding bfs
  bfs_complete zero visited queue lt m i = elim lt [ ]
  bfs_complete (suc fuel) visited [] lt m i =
      cc (i.missed t (path_visited g to visited s t i m path))
  bfs_complete (suc fuel) visited (c ∷ queue) lt m i = elim (turn_cases g to visited c) [
    | inl (e, says) ↦
        rw (e, bfs)
          (bfs_complete fuel visited queue (omega arith) m (Inv-skip g to visited c queue says i))
    | inr (inl (u, e, _, _)) ↦ rw (e, bfs)
    | inr (inr (u, e, step, new, miss)) ↦
        rw (e, bfs)
          (bfs_complete fuel (u ∷ visited) (queue ++ u ∷ [])
            (omega
              (arith, length-append queue (u ∷ []), unvisited-success_of g u c visited step new))
            (ground arith) (Inv-push g to visited c queue u step miss i))
  ]
