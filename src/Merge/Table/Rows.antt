-- ===== src/Merge/Table/Rows.antt =====
-- The table has one row for each id and each task, also after an update or an insertion.
use clankwork.Base.{
  ◌≡◌, inl, inr, refl, String, false, none, some, List, [], ◌∷◌, ◌++◌, ◌==◌, ==_iff, ==_refl, arith,
  Bool-cases,
}
use clankwork.Merge.{Item}
use clankwork.Merge.Table.{get_item, get_by_task, update_item}

-- No two rows have the same id or task.
abbrev pub IsTable : List Item → Type 0
IsTable [] = Unit
IsTable (i ∷ rest) =
    (get_item rest i.id ≡ none) × (get_by_task rest i.task_id ≡ none) × IsTable rest

get_item-append :
    (l : List Item) (x : Item) (k : String)
    → get_item l k ≡ none
    → (x.id == k) ≡ false
    → get_item (l ++ x ∷ []) k ≡ none
get_item-append [] x k h e = rw e
get_item-append (i ∷ rest) x k h e = ground (arith, get_item-append rest x k)

get_by_task-append :
    (l : List Item) (x : Item) (k : String)
    → get_by_task l k ≡ none
    → (x.task_id == k) ≡ false
    → get_by_task (l ++ x ∷ []) k ≡ none
get_by_task-append [] x k h e = rw e
get_by_task-append (i ∷ rest) x k h e = ground (arith, get_by_task-append rest x k)

pub ne_of_get_item :
    (i : Item) (rest : List Item) (k : String)
    → get_item (i ∷ rest) k ≡ none
    → ((i.id == k) ≡ false) × (get_item rest k ≡ none)
ne_of_get_item i rest k h = ground arith

pub ne_of_get_by_task :
    (i : Item) (rest : List Item) (k : String)
    → get_by_task (i ∷ rest) k ≡ none
    → ((i.task_id == k) ≡ false) × (get_by_task rest k ≡ none)
ne_of_get_by_task i rest k h = ground arith

==_sym : (a b : String) → (a == b) ≡ false → (b == a) ≡ false
==_sym a b h = ground (arith, ==_iff a b, ==_iff b a)

pub IsTable-append :
    (l : List Item) (x : Item)
    → IsTable l
    → get_item l x.id ≡ none
    → get_by_task l x.task_id ≡ none
    → IsTable (l ++ x ∷ [])
IsTable-append [] x t hi ht = (refl, refl, tt)
IsTable-append (i ∷ rest) x t hi ht =
    let (ni, ri) = ne_of_get_item i rest x.id hi in
    let (nt, rt) = ne_of_get_by_task i rest x.task_id ht in
    (
      get_item-append rest x i.id t.0 (==_sym _ _ ni),
      get_by_task-append rest x i.task_id t.1 (==_sym _ _ nt),
      IsTable-append rest x t.2 ri rt,
    )

get_item-update_item-none :
    (id k : String) (f : Item → Item) (l : List Item)
    → ((x : Item) → (f x).id ≡ x.id)
    → get_item l k ≡ none
    → get_item (update_item id f l) k ≡ none
unfolding update_item
get_item-update_item-none id k f [] keep h = refl
get_item-update_item-none id k f (i ∷ rest) keep h =
    let (n, r) = ne_of_get_item i rest k h in
    let more = get_item-update_item-none id k f rest keep r in
    let miss : ((f i).id == k) ≡ false = rw (keep i) n in
    elim (Bool-cases (i.id == id)) [ inl e ↦ rw (e, miss) more | inr e ↦ rw (e, n) more ]

get_by_task-update_item-none :
    (id k : String) (f : Item → Item) (l : List Item)
    → ((x : Item) → (f x).task_id ≡ x.task_id)
    → get_by_task l k ≡ none
    → get_by_task (update_item id f l) k ≡ none
unfolding update_item
get_by_task-update_item-none id k f [] keep h = refl
get_by_task-update_item-none id k f (i ∷ rest) keep h =
    let (n, r) = ne_of_get_by_task i rest k h in
    let more = get_by_task-update_item-none id k f rest keep r in
    let miss : ((f i).task_id == k) ≡ false = rw (keep i) n in
    elim (Bool-cases (i.id == id)) [ inl e ↦ rw (e, miss) more | inr e ↦ rw (e, n) more ]

pub IsTable-update_item :
    (id : String) (f : Item → Item) (l : List Item)
    → ((x : Item) → (f x).id ≡ x.id)
    → ((x : Item) → (f x).task_id ≡ x.task_id)
    → IsTable l
    → IsTable (update_item id f l)
unfolding update_item
IsTable-update_item id f [] ki kt t = tt
IsTable-update_item id f (i ∷ rest) ki kt t =
    let ni = get_item-update_item-none id i.id f rest ki t.0 in
    let nt = get_by_task-update_item-none id i.task_id f rest kt t.1 in
    let more = IsTable-update_item id f rest ki kt t.2 in
    elim (Bool-cases (i.id == id)) [
      | inl e ↦
          let mi : get_item (update_item id f rest) (f i).id ≡ none = rw (ki i) ni in
          let mt : get_by_task (update_item id f rest) (f i).task_id ≡ none = rw (kt i) nt in
          rw e (mi, mt, more)
      | inr e ↦ rw e (ni, nt, more)
    ]

-- In a table, the row that an id finds is the one that its task finds.
pub get_by_task_of_item :
    (l : List Item) (id : String) (i : Item)
    → IsTable l
    → get_item l id ≡ some i
    → get_by_task l i.task_id ≡ some i
get_by_task_of_item [] id i t h = cc
get_by_task_of_item (x ∷ rest) id i t h = elim (Bool-cases (x.id == id)) [
  | inl e ↦ let p : x ≡ i = ground (arith, e) in ground (arith, p, ==_refl x.task_id)
  | inr e ↦
      let r = get_by_task_of_item rest id i t.2 (rw e at h) in
      elim (Bool-cases (x.task_id == i.task_id)) [
        | inl k ↦
            let same : x.task_id ≡ i.task_id = (==_iff x.task_id i.task_id).0 k in cc (t.1, r, same)
        | inr k ↦ rw k r
      ]
]
