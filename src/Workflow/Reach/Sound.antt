-- ===== src/Workflow/Reach/Sound.antt =====
-- A search that answers `true` has found a way.
use mathlib.Core.List.{Memᴰ}
use clankwork.Base.{
  ℕ, zero, suc, ◌≡◌, ◌⊎◌, inl, inr, refl, String, true, some, List, [], ◌∷◌, ◌++◌, All, Bool-cases,
}
use clankwork.Workflow.{GateClass, same_gate, Node, Graph}
use clankwork.Workflow.Reach.{sources_of, success_of, has_gate, bfs, can_reach}
use clankwork.Workflow.Reach.Path.{SuccessPath, one, more, Leads, turn_cases}

All-append {ℓ κ} :
    {A : Type ℓ} (P : A → Type κ) (xs ys : List A) → All P xs → All P ys → All P (xs ++ ys)
All-append P [] ys hx hy = hy
All-append P (x ∷ xs) ys hx hy = (hx.0, All-append P xs ys hx.1 hy)

-- For any property of nodes that success edges keep.
module _ (g : Graph) (to : GateClass) (P : String → Type 0)
    (keeps : (c t : String) → P c → success_of g c ≡ some t → P t) where
  bfs_sound :
      (fuel : ℕ) (visited queue : List String)
      → All P queue
      → bfs g to fuel visited queue ≡ true
      → (c : String) × (t : String) × P c × (success_of g c ≡ some t) × (has_gate g to t ≡ true)
  unfolding bfs
  bfs_sound zero visited queue ps h = cc
  bfs_sound (suc fuel) visited [] ps h = cc
  bfs_sound (suc fuel) visited (c ∷ queue) ps h = elim (turn_cases g to visited c) [
    | inl (e, _) ↦ bfs_sound fuel visited queue ps.1 (rw (e, bfs) at h)
    | inr (inl (t, e, step, hit)) ↦ (c, t, ps.0, step, hit)
    | inr (inr (t, e, step, _, _)) ↦
        bfs_sound fuel (t ∷ visited) (queue ++ t ∷ [])
          (All-append P queue (t ∷ []) ps.1 (keeps c t ps.0 step, tt)) (rw (e, bfs) at h)
  ]

-- A node that a source is, or leads to.
abbrev Origin : Graph → GateClass → String → Type 0
Origin g from v =
    (s : String) × (node : Node) × Memᴰ (s, node) g.nodes
    × (same_gate node.gate_class from ≡ true)
    × ((s ≡ v) ⊎ SuccessPath g s v)

extend :
    (g : Graph) (s c t : String)
    → (s ≡ c) ⊎ SuccessPath g s c
    → success_of g c ≡ some t
    → SuccessPath g s t
extend g s c t (inl e) step = one (rw e step)
extend g s c t (inr p) step = more p step

Origin-keeps :
    (g : Graph) (from : GateClass) (c t : String)
    → Origin g from c
    → success_of g c ≡ some t
    → Origin g from t
Origin-keeps g from c t (s, node, m, k, way) step = (s, node, m, k, inr (extend g s c t way step))

sources_sound :
    (g : Graph) (from : GateClass) (l : List (String × Node))
    → ((e : String × Node) → Memᴰ e l → Memᴰ e g.nodes)
    → All (Origin g from) (sources_of from l)
unfolding sources_of
sources_sound g from [] sub = tt
sources_sound g from ((name, node) ∷ rest) sub =
    elim (Bool-cases (same_gate node.gate_class from)) [
      | inl e ↦ rw e (
        (name, node, sub (name, node) (Memᴰ.head refl), e, inl refl),
        sources_sound g from rest (λ x m. sub x (Memᴰ.tail m)),
      )
      | inr e ↦ rw e (sources_sound g from rest (λ x m. sub x (Memᴰ.tail m)))
    ]

pub can_reach_sound :
    (g : Graph) (from to : GateClass) → can_reach g from to ≡ true → Leads g from to
unfolding can_reach
can_reach_sound g from to h =
    let (c, t, (s, node, m, k, way), step, hit) =
      bfs_sound g to (Origin g from) (Origin-keeps g from) _ (sources_of from g.nodes)
        (sources_of from g.nodes) (sources_sound g from g.nodes (λ _ m. m)) h in
    (s, node, t, m, k, extend g s c t way step, hit)
