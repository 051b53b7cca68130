-- ===== src/Routing/Retry.antt =====
-- A step that fails over and over, and whose failure edge leads back to it.
use clankwork.Base.{
  ap, ◌∙◌, ℕ, zero, suc, ◌+◌, ◌≡◌, ◌≢◌, ◌⊎◌, ◌≤◌, ◌<◌, refl, inl, inr, String, Bool, true, false,
  some, Bool-cases, ==_iff, ==_refl, get, if◌then◌else◌, arith,
}
use clankwork.Base.Int.{pos}
use clankwork.Workflow.{Node, Edges, Graph}
use clankwork.Tasks.{
  TaskStatus, pending, running, failed, blocked, Task, attempts_of, bump, task_set_status,
  task_set_status_if_running, task_set_step_if_running,
}
use clankwork.Tasks.Laws.{attempts_of-bump}
use clankwork.Routing.Landing.{Repeats, is_oscillating_iff}
use clankwork.Routing.{
  Repeated, is_oscillating, moved, advance, fail_on, route_along, route_with_graph,
}

abbrev pub is_waiting : TaskStatus → Bool
is_waiting pending = true
is_waiting _ = false

-- Route a failure of the step, and if the task waits then, start it again and have it fail again.
-- `found m` is what repeatedFailureSignature returns with `m` rounds to go.
abbrev pub fail_again : ℕ → (ℕ → Repeated) → Graph → String → ℕ → Task → Task
fail_again now found g step zero row = row
fail_again now found g step (suc n) row =
    let routed = (route_with_graph now (found n) g row step "failure" row).row in
    let again = fail_again now found g step n (task_set_status now running routed) in
    if is_waiting routed.status then again else routed

-- The task is over: failed, or blocked after three failures in a row with one signature.
abbrev pub GivenUp : (ℕ → Repeated) → ℕ → Task → Type 0
GivenUp found n after =
    (after.status ≡ failed) ⊎ ((after.status ≡ blocked) × ((m : ℕ) × (m < n) × Repeats (found m)))

module _ (found : ℕ → Repeated) where
  ended :
      (n : ℕ) (r again : Task)
      → is_waiting r.status ≡ false
      → GivenUp found n r
      → GivenUp found n (if is_waiting r.status then again else r)
  ended n r again f h = rw f h

  goes_on :
      (n : ℕ) (r again : Task)
      → r.status ≡ pending
      → GivenUp found n again
      → GivenUp found (suc n) (if is_waiting r.status then again else r)
  goes_on n r again p (inl f) = rw p (inl f)
  goes_on n r again p (inr (b, (m, lt, rep))) = rw p (inr (b, (m, omega (arith, lt), rep)))

  over_now :
      (n : ℕ) (r again : Task)
      → ((is_oscillating (found n) ≡ true) × (r.status ≡ blocked)) ⊎ (r.status ≡ failed)
      → GivenUp found (suc n) (if is_waiting r.status then again else r)
  over_now n r again (inr f) = ended (suc n) r again (ground (arith, f)) (inl f)
  over_now n r again (inl (o, b)) =
      ended (suc n) r again (ground (arith, b))
        (inr (b, (n, omega arith, (is_oscillating_iff (found n)).0 o)))

module _ (now : ℕ) (found : ℕ → Repeated) (g : Graph) (step : String) (e : Edges) (node : Node)
    (limit : ℕ) (he : get g.edges step ≡ some e) (hf : e.failure ≡ step)
    (hn : get g.nodes step ≡ some node) (hl : node.max_retries ≡ pos (suc limit)) (ne : step ≢ "")
    (nc : step ≢ "complete") where
  -- A running task at the step.
  abbrev pub AtStep : Task → ℕ → Type 0
  AtStep row k =
      (row.status ≡ running)
      × (row.current_step ≡ step)
      × (attempts_of row.step_attempts step ≡ pos k)

  -- What one failure does, with a signature that is found.
  one_failure :
      (rep : Repeated) (row : Task) (k : ℕ)
      → AtStep row k
      → let r = (route_with_graph now rep g row step "failure" row).row in
        ((is_oscillating rep ≡ true) × (r.status ≡ blocked))
        ⊎ ((suc limit ≤ k) × (r.status ≡ failed))
        ⊎ ((k < suc limit)
            × (r.status ≡ pending)
            × (r.current_step ≡ step)
            × (r.step_attempts ≡ bump row.step_attempts step))
  unfolding route_with_graph route_along fail_on advance moved task_set_status_if_running
      task_set_step_if_running
  one_failure rep row k (s, c, a) = elim (Bool-cases (is_oscillating rep)) [
    | inl o ↦
        rw (he, hf)
          (ground (arith, he, hf, o, s, c, a, ==_iff step "", ==_iff step "complete", ==_refl step))
    | inr o ↦
        rw (he, hf)
          (ground (
            arith,
            he,
            hf,
            hn,
            hl,
            o,
            s,
            c,
            a,
            ==_iff step "",
            ==_iff step "complete",
            ==_refl step,
          ))
  ]

  restarted :
      (row r : Task) (k : ℕ)
      → attempts_of row.step_attempts step ≡ pos k
      → r.current_step ≡ step
      → r.step_attempts ≡ bump row.step_attempts step
      → AtStep (task_set_status now running r) (k + 1)
  unfolding task_set_status
  restarted row r k a c b =
      let counted : attempts_of (bump row.step_attempts step) step ≡ pos (k + 1) =
        ground (arith, attempts_of-bump row.step_attempts step step, ==_refl step, a) in
      (refl, c, ap (λ m. attempts_of m step) b ∙ counted)

  again_fails :
      (n k : ℕ) (row : Task)
      → AtStep row k
      → suc limit ≤ k + n
      → GivenUp found (suc n) (fail_again now found g step (suc n) row)
  again_fails zero k row at b =
      let r = (route_with_graph now (found zero) g row step "failure" row).row in
      elim (one_failure (found zero) row k at) [
        | inl blocks ↦ over_now found zero r _ (inl blocks)
        | inr rest ↦ elim rest [
          | inl (_, f) ↦ over_now found zero r _ (inr f)
          | inr (lt, p, c, m) ↦ absurd (omega (arith, b, lt))
        ]
      ]
  again_fails (suc n) k row at b =
      let r = (route_with_graph now (found (suc n)) g row step "failure" row).row in
      elim (one_failure (found (suc n)) row k at) [
        | inl blocks ↦ over_now found (suc n) r _ (inl blocks)
        | inr rest ↦ elim rest [
          | inl (_, f) ↦ over_now found (suc n) r _ (inr f)
          | inr (lt, p, c, m) ↦ goes_on found (suc n) r _ p (
              again_fails n (k + 1) (task_set_status now running r) (restarted row r k at.2 c m)
                (omega (arith, b)))
        ]
      ]

-- A running task at a step whose failure edge leads back to it, and whose node allows a positive
-- number of attempts, is over when the step has failed and was started again as often as attempts are
-- left, and once more, whatever signatures its failures have: it has failed, or it is blocked and in
-- one of those rounds three failures in a row had one signature. The step is not retried forever.
pub fail_again-GivenUp :
    (now : ℕ) (found : ℕ → Repeated) (g : Graph) (step : String) (e : Edges) (node : Node)
    (limit k n : ℕ) (row : Task)
    → get g.edges step ≡ some e
    → e.failure ≡ step
    → get g.nodes step ≡ some node
    → node.max_retries ≡ pos (suc limit)
    → step ≢ ""
    → step ≢ "complete"
    → row.status ≡ running
    → row.current_step ≡ step
    → attempts_of row.step_attempts step ≡ pos k
    → suc limit ≤ k + n
    → GivenUp found (suc n) (fail_again now found g step (suc n) row)
fail_again-GivenUp now found g step e node limit k n row he hf hn hl ne nc s c a b =
    again_fails now found g step e node limit he hf hn hl ne nc n k row (s, c, a) b
