-- ===== src/Workflow/Reach/Path.antt =====
-- What the search is for: paths along success edges. And what one turn of its loop finds out.
use mathlib.Core.List.{Memᴰ}
use clankwork.Base.{
  ◌≡◌, ◌⊎◌, inl, inr, refl, String, true, false, Option, none, some, List, contains, In, arith,
  Bool-cases,
}
use clankwork.Workflow.{GateClass, same_gate, Node, Graph}
use clankwork.Workflow.Reach.{success_of, has_gate, skip, found, push, turn_at, turn}

-- A way along success edges, of at least one edge.
pub data SuccessPath (g : Graph) (s : String) : String → Type 0 where
  one : {t : String} → success_of g s ≡ some t → SuccessPath g s t
  more : {t u : String} → SuccessPath g s t → success_of g t ≡ some u → SuccessPath g s u

-- Some node of class `from` leads to a node of class `to`.
abbrev pub Leads : Graph → GateClass → GateClass → Type 0
Leads g from to =
    (s : String) × (node : Node) × (t : String) × Memᴰ (s, node) g.nodes
    × (same_gate node.gate_class from ≡ true)
    × SuccessPath g s t
    × (has_gate g to t ≡ true)

turn_at_cases :
    (g : Graph) (to : GateClass) (visited : List String) (c : String) (o : Option String)
    → success_of g c ≡ o
    → ((turn_at g to visited o ≡ skip) × ((t : String) → success_of g c ≡ some t → In t visited))
      ⊎ ((t : String) × (turn_at g to visited o ≡ found)
          × (success_of g c ≡ some t)
          × (has_gate g to t ≡ true))
      ⊎ ((t : String) × (turn_at g to visited o ≡ push t)
          × (success_of g c ≡ some t)
          × (contains visited t ≡ false)
          × (has_gate g to t ≡ false))
unfolding turn_at
turn_at_cases g to visited c none e = inl (refl, λ t p. cc)
turn_at_cases g to visited c (some t) e = elim (Bool-cases (contains visited t)) [
  | inl old ↦ inl (rw old, λ u p. ground arith)
  | inr new ↦ elim (Bool-cases (has_gate g to t)) [
    | inl hit ↦ inr (inl (t, rw (new, hit), e, hit))
    | inr miss ↦ inr (inr (t, rw (new, miss), e, new, miss))
  ]
]

-- The turn at a node, with what it means.
pub turn_cases :
    (g : Graph) (to : GateClass) (visited : List String) (c : String)
    → ((turn g to visited c ≡ skip) × ((t : String) → success_of g c ≡ some t → In t visited))
      ⊎ ((t : String) × (turn g to visited c ≡ found)
          × (success_of g c ≡ some t)
          × (has_gate g to t ≡ true))
      ⊎ ((t : String) × (turn g to visited c ≡ push t)
          × (success_of g c ≡ some t)
          × (contains visited t ≡ false)
          × (has_gate g to t ≡ false))
unfolding turn
turn_cases g to visited c = turn_at_cases g to visited c (success_of g c) refl
