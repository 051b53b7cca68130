-- ===== src/Merge/Requeue/Reset.antt =====
-- The first loop of StartupRecovery resets every item at work.
use mathlib.Core.Path.{subst}
use clankwork.Base.{
  ◌≡◌, ◌⊎◌, refl, inl, inr, sym, String, true, false, Option, none, some, List, [], ◌∷◌, ◌==◌,
  ==_iff, ==_refl, arith, Bool-cases, All, All-map,
}
use clankwork.Merge.{queued, merged, is_stuck, Item, Repo, World}
use clankwork.Merge.Table.{
  get_item, is_some, update_item, set_status, set_worktree_path, keep_status, reset_stuck,
}
use clankwork.Merge.Process.{put, put_status}
use clankwork.Merge.Requeue.{Surroundings, get_repo, reset_one, reset_all}

-- No row is at work.
abbrev pub Idle : List Item → Type 0
Idle l = All (λ j. is_stuck j.status ≡ false) l

-- A row that is not at work, or that is still to be reset.
abbrev pub Left : List Item → Item → Type 0
Left rest j = (is_stuck j.status ≡ false) ⊎ (is_some (get_item rest j.id) ≡ true)

Left-other :
    (i : Item) (rest : List Item) (x : Item)
    → (x.id == i.id) ≡ false
    → Left (i ∷ rest) x
    → Left rest x
Left-other i rest x e (inl s) = inl s
Left-other i rest x e (inr s) = inr (ground (arith, e, s, ==_iff x.id i.id, ==_iff i.id x.id))

Left-after :
    (i : Item) (rest : List Item) (f : Item → Item) (l : List Item)
    → ((x : Item) → is_stuck (f x).status ≡ false)
    → All (Left (i ∷ rest)) l
    → All (Left rest) (update_item i.id f l)
unfolding update_item
Left-after i rest f [] idle h = tt
Left-after i rest f (x ∷ l) idle (p, h) = elim (Bool-cases (x.id == i.id)) [
  | inl e ↦ rw e (inl (idle x), Left-after i rest f l idle h)
  | inr e ↦ rw e (Left-other i rest x e p, Left-after i rest f l idle h)
]

Left-path :
    (rest : List Item) (id path : String) (l : List Item)
    → All (Left rest) l
    → All (Left rest) (update_item id (set_worktree_path path) l)
unfolding update_item
Left-path rest id path [] h = tt
Left-path rest id path (x ∷ l) (p, h) = elim (Bool-cases (x.id == id)) [
  | inl e ↦ rw e (p, Left-path rest id path l h)
  | inr e ↦ rw e (p, Left-path rest id path l h)
]

Left-more : (i : Item) (rest : List Item) (x : Item) → Left rest x → Left (i ∷ rest) x
Left-more i rest x (inl s) = inl s
Left-more i rest x (inr s) = inr (ground (arith, s))

stuck_kept :
    (x : Item) (l : List Item)
    → is_stuck x.status ≡ true
    → keep_status is_stuck (x ∷ l) ≡ x ∷ keep_status is_stuck l
stuck_kept x l e = rw e

others_dropped :
    (x : Item) (l : List Item)
    → is_stuck x.status ≡ false
    → keep_status is_stuck (x ∷ l) ≡ keep_status is_stuck l
others_dropped x l e = rw e

Left-at_first : (l : List Item) → All (Left (keep_status is_stuck l)) l
Left-at_first [] = tt
Left-at_first (x ∷ l) =
    let rest = keep_status is_stuck l in
    let more = Left-at_first l in
    elim (Bool-cases (is_stuck x.status)) [
      | inl e ↦
          let here : Left (x ∷ rest) x = inr (rw (==_refl x.id)) in
          subst (λ r. All (Left r) (x ∷ l)) (sym (stuck_kept x l e))
            (here, All-map (Left rest) (Left (x ∷ rest)) l (Left-more x rest) more)
      | inr e ↦ subst (λ r. All (Left r) (x ∷ l)) (sym (others_dropped x l e)) (inl e, more)
    ]

reset_one-Left :
    (env : Surroundings) (i : Item) (rest : List Item) (repo : Option Repo) (w : World)
    → All (Left (i ∷ rest)) w.items
    → All (Left rest) (reset_one env i repo w).items
unfolding reset_one put put_status
reset_one-Left env i rest none w h = elim (Bool-cases (i.worktree_path == "")) [
  | inl e ↦ rw e (Left-after i rest (set_status env.now queued) _ (λ x. refl) h)
  | inr e ↦ rw e (
      Left-after i rest (set_status env.now queued) _ (λ x. refl)
        (Left-path (i ∷ rest) i.id "" _ h))
]
reset_one-Left env i rest (some r) w h = elim (Bool-cases (env.is_merged_into r i)) [
  | inl m ↦ rw m (Left-after i rest (set_status env.now merged) _ (λ x. refl) h)
  | inr m ↦ elim (Bool-cases (i.worktree_path == "")) [
    | inl e ↦ rw (m, e) (Left-after i rest (set_status env.now queued) _ (λ x. refl) h)
    | inr e ↦
        rw (m, e)
          (Left-after i rest (set_status env.now queued) _ (λ x. refl)
            (Left-path (i ∷ rest) i.id "" _ h))
  ]
]

Left-nothing : (x : Item) → Left [] x → is_stuck x.status ≡ false
Left-nothing x (inl s) = s
Left-nothing x (inr s) = cc

pub reset_all-Idle :
    (env : Surroundings) (rest : List Item) (w : World)
    → All (Left rest) w.items
    → Idle (reset_all env rest w).items
unfolding reset_all
reset_all-Idle env [] w h = All-map _ _ w.items Left-nothing h
reset_all-Idle env (i ∷ rest) w h =
    reset_all-Idle env rest (reset_one env i (get_repo env.repos i.repo_id) w)
      (reset_one-Left env i rest (get_repo env.repos i.repo_id) w h)

pub stuck-Left : (l : List Item) → All (Left (reset_stuck l)) l
unfolding reset_stuck
stuck-Left l = Left-at_first l
