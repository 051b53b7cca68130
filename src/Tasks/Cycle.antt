-- ===== src/Tasks/Cycle.antt =====
-- TaskAddDepWithCycleCheck, checkNoCycle and TaskAddDep of internal/store/tasks.go. The calls of the
-- depth-first search that are still to be made stand on an agenda: a call of `dfs` puts its own
-- before those that wait, so the visits, and the map that they share, come in the code's order.
pub mod Laws
pub mod Acyclic
pub mod Examples
use clankwork.Base.{
  ℕ, zero, suc, String, Bool, true, false, ◌&&◌, ◌||◌, Option, none, some, List, [], ◌∷◌, ◌++◌,
  ◌==◌, length, contains, if◌then◌else◌,
}
use clankwork.Tasks.Ready.{Dependency}

-- `SELECT depends_on_id FROM task_deps WHERE task_id = ?`
pub next_ids : List Dependency → String → List String
next_ids [] id = []
next_ids (d ∷ rest) id =
    let more = next_ids rest id in if d.task_id == id then d.depends_on_id ∷ more else more

-- What a call finds first.
pub data Visit : Type 0 where
  met seen entered : Visit

pub visit : String → List String → String → Visit
visit target visited id =
    if id == target then met else if contains visited id then seen else entered

-- Whether the target is met; also where the fuel runs out.
pub search_from : ℕ → List Dependency → String → List String → List String → Bool
unfolding next_ids
search_from zero deps target visited agenda = true
search_from (suc fuel) deps target visited [] = false
search_from (suc fuel) deps target visited (id ∷ agenda) = elim (visit target visited id) [
  | met ↦ true
  | seen ↦ search_from fuel deps target visited agenda
  | entered ↦ search_from fuel deps target (id ∷ visited) (next_ids deps id ++ agenda)
]

-- Each row is on the agenda at most once.
pub makes_cycle : List Dependency → String → String → Bool
unfolding search_from
makes_cycle deps target from = search_from (suc (suc (length deps))) deps target [] (from ∷ [])

abbrev pub has_dependency : List Dependency → Dependency → Bool
has_dependency [] d = false
has_dependency (e ∷ rest) d =
    (e.task_id == d.task_id && e.depends_on_id == d.depends_on_id) || has_dependency rest d

-- `INSERT OR IGNORE`
abbrev pub add_dep : Dependency → List Dependency → List Dependency
add_dep d deps = if has_dependency deps d then deps else deps ++ d ∷ []

-- `none` is the error of a cycle.
pub add_dep_with_cycle_check : Dependency → List Dependency → Option (List Dependency)
unfolding makes_cycle
add_dep_with_cycle_check d deps =
    if makes_cycle deps d.task_id d.depends_on_id then none else some (add_dep d deps)
