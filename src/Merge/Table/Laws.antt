-- ===== src/Merge/Table/Laws.antt =====
-- The rows that the statements reach, and the row that is processed next.
use clankwork.Base.{
  ◌≡◌, ◌≢◌, inl, inr, refl, String, true, false, none, some, List, [], ◌∷◌, ◌==◌, ==_iff, arith,
  Bool-cases,
}
use clankwork.Merge.{Item}
use clankwork.Merge.Table.{get_item, update_item}

pub update_item-none :
    (id : String) (f : Item → Item) (l : List Item) → get_item l id ≡ none → update_item id f l ≡ l
unfolding update_item
update_item-none id f [] h = refl
update_item-none id f (i ∷ rest) h = elim (Bool-cases (i.id == id)) [
  | inl e ↦ cc (rw e at h)
  | inr e ↦ rw (e, update_item-none id f rest (rw e at h))
]

pub get_item-update_item :
    (id : String) (f : Item → Item) (l : List Item) (i : Item)
    → ((x : Item) → (f x).id ≡ x.id)
    → get_item l id ≡ some i
    → get_item (update_item id f l) id ≡ some (f i)
unfolding update_item
get_item-update_item id f [] i keep h = cc
get_item-update_item id f (x ∷ rest) i keep h = elim (Bool-cases (x.id == id)) [
  | inl e ↦
      let p : x ≡ i = ground (arith, e) in
      let hit : ((f x).id == id) ≡ true = rw (keep x) e in rw (e, hit, p)
  | inr e ↦ rw (e, e) (get_item-update_item id f rest i keep (rw e at h))
]

pub get_item-update_other :
    (id j : String) (f : Item → Item) (l : List Item)
    → ((x : Item) → (f x).id ≡ x.id)
    → j ≢ id
    → get_item (update_item id f l) j ≡ get_item l j
unfolding update_item
get_item-update_other id j f [] keep ne = refl
get_item-update_other id j f (x ∷ rest) keep ne = elim (Bool-cases (x.id == id)) [
  | inl e ↦
      let other : (x.id == j) ≡ false = ground (arith, ==_iff x.id id, ==_iff x.id j) in
      let miss : ((f x).id == j) ≡ false = rw (keep x) other in
      rw (e, miss, other) (get_item-update_other id j f rest keep ne)
  | inr e ↦ rw (e, get_item-update_other id j f rest keep ne)
]
