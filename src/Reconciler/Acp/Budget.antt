-- ===== src/Reconciler/Acp/Budget.antt =====
-- An agent that never signals is not nudged forever.
use clankwork.Base.{
  ◌≡◌, ◌⊎◌, inl, inr, refl, ℕ, String, false, ◌&&◌, some, List, [], ◌∷◌, ◌==◌, ==_refl, arith,
  Bool-cases, if◌then◌else◌, if-elim, get, ltb, ◌+◌, ◌<◌, ◌≤◌, length,
}
use clankwork.Base.Int.{ℤ, ltb_ℤ, ◌≤ℤ◌}
use clankwork.Controller.Health.{evaluate_agent_health}
use clankwork.Tasks.{Task, get_task}
use clankwork.Reconciler.{
  Agent, World, Env, emit, mark_nudged, since, nudge_timeout, count_of, nudge_error_retry_budget,
  put_key,
}
use clankwork.Reconciler.Events.{AcpReconcileState}
use clankwork.Reconciler.Actions.{ensure_runtime_transport, fail_task, block_task}
use clankwork.Reconciler.Actions.Laws.{task_runs, fail_task-Ended, block_task-Ended}
use clankwork.Reconciler.Steps.{Finds}
use clankwork.Reconciler.Steps.Laws.{Stopped, Ended-Stopped, found_by_id}
use clankwork.Reconciler.Acp.{
  hand_off, ask_to_stop, renudge, after_ended_nudge, handle_acp_ended_without_signal, is_block,
  ended_observation, trace_decision, block_reason, signature_hash,
}
use clankwork.Reconciler.Acp.Laws.{ask_to_stop-SameTables, renudge-SameTables}

get-put_key {ℓ} :
    {V : Type ℓ} (k : String) (v : V) (m : List (String × V)) → get (put_key k v m) k ≡ some v
unfolding put_key
get-put_key k v [] = rw (==_refl k) refl
get-put_key k v ((j, w) ∷ m) = ground (arith, get-put_key k v m)

count_of-put_key : (k : String) (n : ℕ) (m : List (String × ℕ)) → count_of (put_key k n m) k ≡ n
unfolding put_key
count_of-put_key k n [] = rw (==_refl k) refl
count_of-put_key k n ((j, w) ∷ m) = ground (arith, count_of-put_key k n m)

-- Each tick comes when the nudge before it has run out.
abbrev pub Spaced : ℕ → List (Env × AcpReconcileState) → Type 0
Spaced sent_at [] = Unit
Spaced sent_at ((env, s) ∷ rest) = (nudge_timeout ≤ℤ since env.now sent_at) × Spaced env.now rest

expired : (d : ℤ) → nudge_timeout ≤ℤ d → ltb_ℤ d nudge_timeout ≡ false
expired d h = ground arith

module _ (a : Agent) (t : Task) where
  -- What the ticks do that find the agent idle, each with its own clock, answers and events, as long
  -- as its task runs.
  pub polls : List (Env × AcpReconcileState) → World → World
  polls [] w = w
  polls ((env, s) ∷ rest) w =
      let later = polls rest (handle_acp_ended_without_signal env a t s w) in
      if task_runs (get_task w.tasks a.task_id) then later else w

  stays-Stopped :
      (l : List (Env × AcpReconcileState)) (w : World)
      → Stopped w a.task_id
      → Stopped (polls l w) a.task_id
  unfolding polls
  stays-Stopped [] w h = h
  stays-Stopped ((env, s) ∷ rest) w h = rw h h

  failed-Stopped : (env : Env) (w : World) → Finds a t w → Stopped (fail_task env a t w) a.task_id
  failed-Stopped env w found =
      Ended-Stopped a t w (fail_task env a t w) found
        (fail_task-Ended env a t w (found_by_id a t w found)).0

  hand_off-Stopped :
      (env : Env) (reason : String) (w : World)
      → Finds a t w
      → Stopped (hand_off env a t reason w) a.task_id
  unfolding hand_off
  hand_off-Stopped env reason w found =
      failed-Stopped env (ask_to_stop env a reason w)
        (rw ((ask_to_stop-SameTables env a w reason).1) found)

  -- What a nudge after an error leaves: the same task, a new mark, and one retry more.
  renudge-lem :
      (env : Env) (w : World)
      → ((renudge env a w).tasks ≡ w.tasks)
        × (get (renudge env a w).nudge_sent a.id ≡ some env.now)
        × (count_of (renudge env a w).nudge_error_retries a.id
            ≡ count_of w.nudge_error_retries a.id + 1)
  unfolding renudge emit mark_nudged ensure_runtime_transport
  renudge-lem env w = (
    (renudge-SameTables env a t w).1,
    get-put_key a.id env.now _,
    if-elim
        (λ (v : World).
          count_of v.nudge_error_retries a.id ≡ count_of w.nudge_error_retries a.id + 1)
        _ _ _ (count_of-put_key a.id _ w.nudge_error_retries)
        (count_of-put_key a.id _ w.nudge_error_retries),
  )

  -- One tick after the nudge has run out: the task stops, or a retry is spent.
  pub handle_expired :
      (env : Env) (s : AcpReconcileState) (w : World) (sent_at : ℕ)
      → Finds a t w
      → get w.nudge_sent a.id ≡ some sent_at
      → nudge_timeout ≤ℤ since env.now sent_at
      → let v = handle_acp_ended_without_signal env a t s w in
        Stopped v a.task_id
        ⊎ ((count_of w.nudge_error_retries a.id < nudge_error_retry_budget)
            × (v.tasks ≡ w.tasks)
            × (get v.nudge_sent a.id ≡ some env.now)
            × (count_of v.nudge_error_retries a.id ≡ count_of w.nudge_error_retries a.id + 1))
  unfolding handle_acp_ended_without_signal trace_decision emit after_ended_nudge
  handle_expired env s w sent_at found sent late =
      let d = evaluate_agent_health (ended_observation a s) in
      elim (Bool-cases (is_block d.action)) [
        | inl b ↦ inl (
            rw b (
              Ended-Stopped a t (trace_decision d w)
                (block_task env a t block_reason (signature_hash d.failure_signature)
                  (trace_decision d w))
                found (block_task-Ended env a t block_reason _ (trace_decision d w))))
        | inr b ↦
            rw (b, sent, expired (since env.now sent_at) late)
              (elim (Bool-cases (
                s.last_stop_reason == "error"
                && ltb (count_of w.nudge_error_retries a.id) nudge_error_retry_budget)) [
                  | inl e ↦
                      let (same, marked, counted) = renudge-lem env w in
                      rw e (inr (ground (arith, e), same, marked, counted))
                  | inr e ↦ rw e (inl (hand_off-Stopped env "acp_no_signal_nudge_timeout" w found))
                ])
      ]

  -- An agent that stays idle, whatever its events show and the runtime answers, is given up: once a
  -- nudge was sent, as many ticks as retries are left, and one more, each after the nudge before it
  -- has run out, leave its task no longer running.
  pub polls-Stopped :
      (l : List (Env × AcpReconcileState)) (w : World) (sent_at : ℕ)
      → get w.nudge_sent a.id ≡ some sent_at
      → Finds a t w
      → Spaced sent_at l
      → count_of w.nudge_error_retries a.id ≤ nudge_error_retry_budget
      → nudge_error_retry_budget < length l + count_of w.nudge_error_retries a.id
      → Stopped (polls l w) a.task_id
  unfolding polls
  polls-Stopped [] w sent_at sent found spaced bound enough = absurd (omega (arith, enough, bound))
  polls-Stopped ((env, s) ∷ rest) w sent_at sent found (late, spaced) bound enough =
      elim (Bool-cases (task_runs (get_task w.tasks a.task_id))) [
        | inr stopped ↦ rw stopped stopped
        | inl r ↦ rw r (elim (handle_expired env s w sent_at found sent late) [
          | inl stopped ↦ stays-Stopped rest _ stopped
          | inr (few, same, marked, counted) ↦
              polls-Stopped rest (handle_acp_ended_without_signal env a t s w) env.now marked
                (rw same found) spaced (omega (arith, counted, few))
                (omega (arith, enough, counted))
        ])
      ]
