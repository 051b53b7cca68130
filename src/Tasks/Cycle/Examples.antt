-- ===== src/Tasks/Cycle/Examples.antt =====
-- Two dependencies in a row, and the third that would close them to a cycle.
use clankwork.Base.{◌≡◌, ◌↔◌, refl, true, none, some, List, [], ◌∷◌}
use clankwork.Tasks.Ready.{Dependency}
use clankwork.Tasks.Cycle.{visit, next_ids, search_from, makes_cycle, add_dep_with_cycle_check}
use clankwork.Tasks.Cycle.Laws.{DependsOn, makes_cycle_iff}
use clankwork.Tasks.Cycle.Acyclic.{IsAcyclic, add_dep-IsAcyclic}

abbrev c_on_b : Dependency
c_on_b = record { task_id = "c"; depends_on_id = "b" }

abbrev b_on_a : Dependency
b_on_a = record { task_id = "b"; depends_on_id = "a" }

abbrev a_on_c : Dependency
a_on_c = record { task_id = "a"; depends_on_id = "c" }

abbrev one_row : List Dependency
one_row = c_on_b ∷ []

abbrev two_rows : List Dependency
two_rows = c_on_b ∷ b_on_a ∷ []

first_let_in : add_dep_with_cycle_check c_on_b [] ≡ some one_row
unfolding add_dep_with_cycle_check makes_cycle search_from visit next_ids
first_let_in = refl

second_let_in : add_dep_with_cycle_check b_on_a one_row ≡ some two_rows
unfolding add_dep_with_cycle_check makes_cycle search_from visit next_ids
second_let_in = refl

third_refused : add_dep_with_cycle_check a_on_c two_rows ≡ none
unfolding add_dep_with_cycle_check makes_cycle search_from visit next_ids
third_refused = refl

empty-IsAcyclic : IsAcyclic []
unfolding next_ids
empty-IsAcyclic x y m = cc

one_row-IsAcyclic : IsAcyclic one_row
one_row-IsAcyclic = add_dep-IsAcyclic [] one_row c_on_b empty-IsAcyclic first_let_in

add_dep-IsAcyclic_example : IsAcyclic two_rows
add_dep-IsAcyclic_example =
    add_dep-IsAcyclic one_row two_rows b_on_a one_row-IsAcyclic second_let_in

makes_cycle_iff_example : (makes_cycle two_rows "a" "c" ≡ true) ↔ DependsOn two_rows "c" "a"
makes_cycle_iff_example = makes_cycle_iff two_rows "a" "c"
