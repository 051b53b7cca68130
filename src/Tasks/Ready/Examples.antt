-- ===== src/Tasks/Ready/Examples.antt =====
-- Two ready tasks and one that waits for the second, with one slot.
use mathlib.Core.List.{Memᴰ}
use clankwork.Base.{◌⊎◌, ◌≤◌, refl, none, List, [], ◌∷◌, length, ◌≡◌}
use clankwork.Base.Int.{pos}
use clankwork.Tasks.{Task, pending}
use clankwork.Tasks.Ready.{Dependency, tasks_ready}
use clankwork.Tasks.Ready.Laws.{ComesFirst, IsReadyOf, tasks_ready_lem}

abbrev small : Task
small = record {
  id = "a";
  repo_id = "r1";
  template = "";
  priority = pos 0;
  status = pending;
  retry_count = pos 0;
  current_step = "";
  step_attempts = [];
  created_at = 1;
  updated_at = 1;
  started_at = none;
  completed_at = none;
}

abbrev urgent : Task
urgent = record small { id = "b"; priority = pos 3; created_at = 2 }

abbrev waiting : Task
waiting = record urgent { id = "c"; priority = pos 9 }

abbrev three_tasks : List Task
three_tasks = small ∷ urgent ∷ waiting ∷ []

abbrev one_dependency : List Dependency
one_dependency = record { task_id = "c"; depends_on_id = "b" } ∷ []

urgent_returned : tasks_ready three_tasks one_dependency (pos 1) ≡ urgent ∷ []
unfolding tasks_ready
urgent_returned = refl

urgent_is_in : Memᴰ urgent (tasks_ready three_tasks one_dependency (pos 1))
unfolding tasks_ready
urgent_is_in = Memᴰ.head refl

small_is_ready : IsReadyOf three_tasks one_dependency three_tasks small
small_is_ready = (Memᴰ.head refl, refl)

tasks_ready_lem_example :
    (length (tasks_ready three_tasks one_dependency (pos 1)) ≤ 1)
    × IsReadyOf three_tasks one_dependency three_tasks urgent
    × (Memᴰ small (tasks_ready three_tasks one_dependency (pos 1)) ⊎ ComesFirst urgent small)
tasks_ready_lem_example =
    tasks_ready_lem three_tasks one_dependency 1 urgent small urgent_is_in small_is_ready
