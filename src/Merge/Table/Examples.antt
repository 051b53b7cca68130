-- ===== src/Merge/Table/Examples.antt =====
-- A queue of two items, and the table's theorems on it.
use clankwork.Base.{◌≢◌, ◌≡◌, refl, String, some, List, [], ◌∷◌, ==_iff}
use clankwork.Base.Int.{pos}
use clankwork.Merge.{failed, Item}
use clankwork.Merge.Table.{get_by_task, new_item, next_item, reset_item, enqueue, requeue_terminal}
use clankwork.Merge.Table.Order.{IsNext, next_item_lem}
use clankwork.Merge.Table.Rows.{IsTable}
use clankwork.Merge.Table.Enqueue.{enqueue-IsTable}

abbrev pub first_item : Item
first_item = new_item 10 "m1" "t1" "r1" "clankwork/t1" "main" (pos 0)

abbrev pub urgent_item : Item
urgent_item = new_item 20 "m2" "t2" "r1" "clankwork/t2" "main" (pos 5)

abbrev pub failed_item : Item
failed_item = record first_item { status = failed; attempt_count = 2; completed_at = some 15 }

abbrev pub two_items : List Item
two_items = first_item ∷ urgent_item ∷ []

urgent_is_next : next_item "r1" two_items ≡ some urgent_item
unfolding next_item
urgent_is_next = refl

next_item_lem_example : IsNext "r1" two_items urgent_item
next_item_lem_example = next_item_lem "r1" two_items urgent_item urgent_is_next

abbrev with_failed : List Item
with_failed = failed_item ∷ urgent_item ∷ []

abbrev again : Item
again = new_item 30 "m3" "t1" "r1" "clankwork/t1" "main" (pos 0)

pub two_items-IsTable : IsTable two_items
two_items-IsTable = (refl, refl, (refl, refl, tt))

with_failed-IsTable : IsTable with_failed
with_failed-IsTable = (refl, refl, (refl, refl, tt))

failed_comes_back : enqueue again with_failed ≡ some (again ∷ urgent_item ∷ [])
unfolding enqueue requeue_terminal reset_item
failed_comes_back = refl

t1_ne_t2 : ◌≢◌ {A = String} "t1" "t2"
t1_ne_t2 p = cc ((==_iff "t1" "t2").1 p)

enqueue-IsTable_example :
    IsTable (again ∷ urgent_item ∷ [])
    × (get_by_task (again ∷ urgent_item ∷ []) "t1" ≡ some again)
    × (get_by_task (again ∷ urgent_item ∷ []) "t2" ≡ get_by_task with_failed "t2")
enqueue-IsTable_example =
    enqueue-IsTable again with_failed (again ∷ urgent_item ∷ []) "t2" with_failed-IsTable
      failed_comes_back t1_ne_t2
