-- ===== src/Reconciler/Acp/Blocking.antt =====
-- When an idle agent's task is blocked, and what an idle or a silent agent can lose its task for.
use clankwork.Base.{
  ◌≡◌, ◌⊎◌, ◌↔◌, inl, inr, refl, ℕ, String, Bool, true, false, not, ◌&&◌, ◌||◌, Option, none, some,
  List, ◌==◌, ==_iff, arith, Bool-cases, if-cases, get, ◌≤◌,
}
use clankwork.Base.Int.{ℤ, pos, ltb_ℤ, ◌≤ℤ◌}
use clankwork.Controller.{Action, block, progress_absent}
use clankwork.Controller.Health.{evaluate_agent_health, oscillation_score, oscillation_threshold}
use clankwork.Controller.Health.Laws.{block_iff, oscillation_score-IsMax}
use clankwork.Tasks.{Task}
use clankwork.Reconciler.{Agent, World, Env, since, nudge_timeout}
use clankwork.Reconciler.Events.{AcpReconcileState, progress_evidence, ended_without_signal}
use clankwork.Reconciler.Acp.{
  is_block, ended_observation, handle_acp_ended_without_signal, after_ended_nudge, event_fresh,
  decide_acp, handle_acp_stall, after_stall_nudge,
}
use clankwork.Reconciler.Acp.Laws.{first_nudge-SameTables}

is_block-eq : (x : Action) → (is_block x ≡ true) ↔ (x ≡ block)
is_block-eq x = (λ h. ground arith, λ h. ground arith)

absent_iff :
    (s : AcpReconcileState)
    → ended_without_signal s ≡ true
    → (progress_evidence s ≡ progress_absent) ↔ (s.tool_activity ≡ false)
unfolding progress_evidence
absent_iff s h = (λ e. ground arith, λ e. ground arith)

score_of_count :
    (q : ℤ) (n : ℕ)
    → ((q ≡ pos 0) ⊎ (q ≡ pos n) ⊎ (q ≡ pos 0) ⊎ (q ≡ pos 0))
    → oscillation_threshold ≤ℤ q
    → 3 ≤ n
score_of_count q n h high = ground arith

count_is_high : (q : ℤ) (n : ℕ) → pos n ≤ℤ q → 3 ≤ n → oscillation_threshold ≤ℤ q
count_is_high q n h three = ground arith

-- The health evaluation decides to block an idle agent's task exactly when no tool was used since its last turn started and
-- three turns have ended with an error.
pub is_block-ended_iff :
    (a : Agent) (s : AcpReconcileState)
    → ended_without_signal s ≡ true
    → (is_block (evaluate_agent_health (ended_observation a s)).action ≡ true)
      ↔ ((s.tool_activity ≡ false) × (3 ≤ s.error_turn_count))
unfolding ended_observation
is_block-ended_iff a s h =
    let o = ended_observation a s in
    let (zero, low, r, n, score) = oscillation_score-IsMax o in
    (
      λ b.
          let (wrong, high) =
            (block_iff o).0 ((is_block-eq (evaluate_agent_health o).action).0 b) in
          (
            elim wrong [
              | inl e ↦ cc e
              | inr w ↦ elim w [ inl e ↦ cc e | inr e ↦ (absent_iff s h).0 e ]
            ],
            score_of_count (oscillation_score o) s.error_turn_count score high,
          ),
      λ (absent, three). (is_block-eq (evaluate_agent_health o).action).1 (
          (block_iff o).1 (
            inr (inr ((absent_iff s h).1 absent)),
            count_is_high (oscillation_score o) s.error_turn_count low three,
          )),
    )

-- The nudge that was sent has run out.
abbrev pub NudgeExpired : Env → Agent → List (String × ℕ) → Type 0
NudgeExpired env a sent =
    (sent_at : ℕ) × (get sent a.id ≡ some sent_at) × (nudge_timeout ≤ℤ since env.now sent_at)

-- Nobody lost an agent or a task.
abbrev pub Spared : World → World → Type 0
Spared w w' = (w'.agents ≡ w.agents) × (w'.tasks ≡ w.tasks)

pub not_waiting : (d : ℤ) → ltb_ℤ d nudge_timeout ≡ false → nudge_timeout ≤ℤ d
not_waiting d h = ground arith

module _ (env : Env) (a : Agent) (t : Task) where
  after_ended_nudge-Spared :
      (s : AcpReconcileState) (w : World) (o : Option ℕ)
      → get w.nudge_sent a.id ≡ o
      → Spared w (after_ended_nudge env a t s o w) ⊎ NudgeExpired env a w.nudge_sent
  unfolding after_ended_nudge
  after_ended_nudge-Spared s w none e =
      let (ea, et, ee) = first_nudge-SameTables env a t w "acp_turn_ended_without_signal" in
      inl (ea, et)
  after_ended_nudge-Spared s w (some sent_at) e =
      elim (Bool-cases (ltb_ℤ (since env.now sent_at) nudge_timeout)) [
        | inl p ↦ rw p (inl (refl, refl))
        | inr p ↦ inr (sent_at, e, not_waiting (since env.now sent_at) p)
      ]

  after_stall_nudge-Spared :
      (w : World) (o : Option ℕ)
      → get w.nudge_sent a.id ≡ o
      → Spared w (after_stall_nudge env a t o w) ⊎ NudgeExpired env a w.nudge_sent
  unfolding after_stall_nudge
  after_stall_nudge-Spared w none e =
      let (ea, et, ee) = first_nudge-SameTables env a t w "acp_events_and_heartbeat_silent" in
      inl (ea, et)
  after_stall_nudge-Spared w (some sent_at) e =
      elim (Bool-cases (ltb_ℤ (since env.now sent_at) nudge_timeout)) [
        | inl p ↦ rw p (inl (refl, refl))
        | inr p ↦ inr (sent_at, e, not_waiting (since env.now sent_at) p)
      ]

  handle_ended-Spared :
      (s : AcpReconcileState) (w : World)
      → ended_without_signal s ≡ true
      → Spared w (handle_acp_ended_without_signal env a t s w)
        ⊎ ((s.tool_activity ≡ false) × (3 ≤ s.error_turn_count))
        ⊎ NudgeExpired env a w.nudge_sent
  unfolding handle_acp_ended_without_signal
  handle_ended-Spared s w h =
      elim (Bool-cases (is_block (evaluate_agent_health (ended_observation a s)).action)) [
        | inl b ↦ inr (inl ((is_block-ended_iff a s h).0 b))
        | inr b ↦ rw b (elim (after_ended_nudge-Spared s w (get w.nudge_sent a.id) refl) [
          | inl kept ↦ inl kept
          | inr late ↦ inr (inr late)
        ])
      ]

-- What may cost an ACP agent its task.
pub data AcpFault (env : Env) (a : Agent) (alive heartbeat_fresh : Bool) (s : AcpReconcileState)
    (sent : List (String × ℕ)) : Type 0 where
  turn_cancelled :
      s.last_stop_reason ≡ "cancelled"
      → ended_without_signal s ≡ true
      → AcpFault env a alive heartbeat_fresh s sent
  process_lost :
      alive ≡ false
      → heartbeat_fresh ≡ false
      → event_fresh env s ≡ false
      → AcpFault env a alive heartbeat_fresh s sent
  context_full :
      alive ≡ true → s.context_limit_error ≡ true → AcpFault env a alive heartbeat_fresh s sent
  keeps_failing :
      ended_without_signal s ≡ true
      → s.tool_activity ≡ false
      → 3 ≤ s.error_turn_count
      → AcpFault env a alive heartbeat_fresh s sent
  never_signals :
      ended_without_signal s ≡ true
      → NudgeExpired env a sent
      → AcpFault env a alive heartbeat_fresh s sent
  is_silent :
      heartbeat_fresh ≡ false
      → event_fresh env s ≡ false
      → NudgeExpired env a sent
      → AcpFault env a alive heartbeat_fresh s sent

module _ (env : Env) (a : Agent) (t : Task) (alive fresh : Bool) (s : AcpReconcileState)
    (w : World) where
  idle-Spared :
      ended_without_signal s ≡ true
      → Spared w (handle_acp_ended_without_signal env a t s w)
        ⊎ AcpFault env a alive fresh s w.nudge_sent
  idle-Spared h = elim (handle_ended-Spared env a t s w h) [
    | inl kept ↦ inl kept
    | inr e ↦ elim e [
      | inl (absent, three) ↦ inr (keeps_failing h absent three)
      | inr late ↦ inr (never_signals h late)
    ]
  ]

  silent-Spared :
      (fresh || event_fresh env s) ≡ false
      → Spared w (handle_acp_stall env a t w) ⊎ AcpFault env a alive fresh s w.nudge_sent
  unfolding handle_acp_stall
  silent-Spared h = elim (after_stall_nudge-Spared env a t w (get w.nudge_sent a.id) refl) [
    | inl kept ↦ inl kept
    | inr late ↦ inr (is_silent (ground arith) (ground arith) late)
  ]

  -- An ACP agent keeps its status and its task unless there is such a fault.
  pub decide_acp-Spared :
      Spared w (decide_acp env a t alive fresh s w) ⊎ AcpFault env a alive fresh s w.nudge_sent
  unfolding decide_acp
  decide_acp-Spared =
      let P : World → Type 0 = λ v. Spared w v ⊎ AcpFault env a alive fresh s w.nudge_sent in
      if-cases P (s.last_stop_reason == "cancelled" && ended_without_signal s) _ _
        (λ e. inr (
          turn_cancelled ((==_iff s.last_stop_reason "cancelled").0 (ground arith)) (ground arith)))
        λ _.
          if-cases P (not alive && not fresh && not (event_fresh env s)) _ _
            (λ e. inr (process_lost (ground arith) (ground arith) (ground arith)))
            λ _.
              if-cases P (not alive) _ _ (λ _. inl (refl, refl))
                λ up.
                  if-cases P s.context_limit_error _ _ (λ e. inr (context_full (ground arith) e))
                    λ _. if-cases P (ended_without_signal s) _ _ idle-Spared λ _.
                      if-cases P (fresh || event_fresh env s) _ _ (λ _. inl (refl, refl))
                        silent-Spared
