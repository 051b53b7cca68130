-- ===== src/Routing/Landing.antt =====
-- Where a routed outcome leaves the task's row, on every branch, told from the outcome, the edges and
-- the counts alone.
use mathlib.Core.Option.{some-injective}
use clankwork.Base.{Bool, ◌↔◌, ◌≡◌, ◌≢◌, ◌⊎◌, refl, String, true, false, Option, none, some, arith}
use clankwork.Base.Int.{ℤ, pos, ◌+ℤ◌, ◌≤ℤ◌}
use clankwork.Workflow.{Edges}
use clankwork.Tasks.{TaskStatus, Task, pending, done, failed, blocked, attempts_of}
use clankwork.Routing.{Repeated, is_oscillating}

-- Where the edges of a step lead an outcome: a missing edge completes the task.
pub data Leads (e : Edges) (outcome dest : String) : Type 0 where
  by_success : outcome ≡ "success" → e.success ≢ "" → dest ≡ e.success → Leads e outcome dest
  by_failure : outcome ≢ "success" → e.failure ≢ "" → dest ≡ e.failure → Leads e outcome dest
  past_success : outcome ≡ "success" → e.success ≡ "" → dest ≡ "complete" → Leads e outcome dest
  past_failure : outcome ≢ "success" → e.failure ≡ "" → dest ≡ "complete" → Leads e outcome dest

-- Three failures in a row had one signature.
abbrev pub Repeats : Repeated → Type 0
Repeats rep = (count : ℤ) × (rep ≡ some count) × (pos 3 ≤ℤ count)

-- The destination has a positive limit, and it is reached.
abbrev pub IsSpent : Option ℤ → Task → String → Type 0
IsSpent limit task dest =
    (n : ℤ) × (limit ≡ some n) × (pos 1 ≤ℤ n) × (n ≤ℤ attempts_of task.step_attempts dest)

-- The row is given a status, and stays at its step with its counts.
abbrev pub Closes : TaskStatus → Task → Task → Type 0
Closes s row after =
    (after.status ≡ s)
    × (after.current_step ≡ row.current_step)
    × (after.step_attempts ≡ row.step_attempts)

-- The row waits at the destination, where one more attempt is counted than before, and none at any
-- other step.
abbrev pub Enters : Task → String → Task → Type 0
Enters task dest after =
    (after.status ≡ pending)
    × (after.current_step ≡ dest)
    × (attempts_of after.step_attempts dest ≡ attempts_of task.step_attempts dest +ℤ 1)
    × ((j : String)
        → dest ≢ j
        → attempts_of after.step_attempts j ≡ attempts_of task.step_attempts j)

-- What becomes of a running row when the outcome leads to a destination.
pub data Lands (rep : Repeated) (limit : Option ℤ) (task : Task) (current outcome dest : String)
    (row after : Task) : Type 0 where
  completed :
      dest ≡ "complete"
      → Closes done row after
      → Lands rep limit task current outcome dest row after
  repeated_itself :
      dest ≢ "complete"
      → outcome ≢ "success"
      → Repeats rep
      → Closes blocked row after
      → Lands rep limit task current outcome dest row after
  ran_out :
      dest ≢ "complete"
      → outcome ≢ "success"
      → ¬ Repeats rep
      → IsSpent limit task dest
      → Closes failed row after
      → Lands rep limit task current outcome dest row after
  went_elsewhere :
      dest ≢ "complete"
      → (outcome ≡ "success") ⊎ (¬ Repeats rep × ¬ IsSpent limit task dest)
      → row.current_step ≢ current
      → after ≡ row
      → Lands rep limit task current outcome dest row after
  entered :
      dest ≢ "complete"
      → (outcome ≡ "success") ⊎ (¬ Repeats rep × ¬ IsSpent limit task dest)
      → row.current_step ≡ current
      → Enters task dest after
      → Lands rep limit task current outcome dest row after

-- The statuses that end a task.
abbrev is_closing : TaskStatus → Bool
is_closing done = true
is_closing failed = true
is_closing blocked = true
is_closing _ = false

pub is_oscillating_iff : (rep : Repeated) → (is_oscillating rep ≡ true) ↔ Repeats rep
is_oscillating_iff none = (λ h. cc, λ (c, e, l). cc)
is_oscillating_iff (some count) = (
  λ h. (count, refl, ground arith),
  λ (c, e, l). let same : count ≡ c = some-injective _ _ e in rw (same) (ground (arith, l)),
)
