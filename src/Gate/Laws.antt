-- ===== src/Gate/Laws.antt =====
-- How much Tick dispatches under pressure.
use clankwork.Base.{◌≡◌, ◌↔◌, ◌⊎◌, inl, inr, refl, true, false, none, some, arith}
use clankwork.Base.Int.{ℤ, pos, ◌≤ℤ◌, ◌<ℤ◌, ◌-ℤ◌}
use clankwork.Controller.Pressure.{
  none_level, reduced, Snapshot, PressureDecision, compute_queue_pressure, positive_or,
}
use clankwork.Controller.Pressure.Laws.{pressure_cases}
use clankwork.Gate.{
  Gate, is_legacy, pause_gate, resume_gate, is_paused, set_queue_pressure,
  set_queue_pressure_decision, tick_slots,
}

-- What a decision of one of the four levels says.
abbrev Consistent : PressureDecision → ℤ → Type 0
Consistent d slots =
    ((d.level ≡ none_level)
      × (d.should_pause ≡ false)
      × (d.max_dispatch ≡ positive_or (pos 1) slots))
    ⊎ ((d.level ≡ reduced) × (d.should_pause ≡ false) × (d.max_dispatch ≡ pos 1))
    ⊎ (d.should_pause ≡ true)

under_decision :
    (d : PressureDecision) (g : Gate) (slots running n : ℤ)
    → pos 0 <ℤ slots
    → pos 0 ≤ℤ running
    → Consistent d slots
    → tick_slots slots running (set_queue_pressure_decision d g) ≡ some n
    → (g.user_paused ≡ false)
      × (d.should_pause ≡ false)
      × (pos 0 <ℤ n)
      × (n ≤ℤ (slots -ℤ running))
      × (n ≤ℤ d.max_dispatch)
unfolding tick_slots
under_decision d g slots running n hs hr (inl (l, s, m)) h = ground (arith, l, s, m, hs, hr, h)
under_decision d g slots running n hs hr (inr (inl (l, s, m))) h =
    ground (arith, l, s, m, hs, hr, h)
under_decision d g slots running n hs hr (inr (inr s)) h = ground (arith, s, h)

-- Under the decision that the merge processor last computed and set, Tick asks for tasks only when
-- neither the user nor the decision pauses it, and then for at least one, for no more than the free
-- slots, and for no more than the decision allows.
pub tick_within_pressure :
    (obs : Snapshot) (target age slots running n : ℤ) (g : Gate)
    → pos 0 <ℤ slots
    → pos 0 ≤ℤ running
    → tick_slots slots running
        (set_queue_pressure_decision (compute_queue_pressure obs target age slots) g)
      ≡ some n
    → let d = compute_queue_pressure obs target age slots in
      (g.user_paused ≡ false)
      × (d.should_pause ≡ false)
      × (pos 0 <ℤ n)
      × (n ≤ℤ (slots -ℤ running))
      × (n ≤ℤ d.max_dispatch)
tick_within_pressure obs target age slots running n g hs hr h =
    under_decision (compute_queue_pressure obs target age slots) g slots running n hs hr
      (pressure_cases obs target age slots) h

-- The flag is that of the decision.
abbrev pub Agrees : Gate → Type 0
Agrees g = g.queue_pressured ≡ g.queue_pressure.should_pause

-- With a slot free, a gate whose flag is its decision's is paused, for those who ask, exactly when
-- Tick does nothing; and pausing, resuming, setting a decision and raising the old flag all keep
-- the two alike.
pub paused_iff :
    (g : Gate) (slots running : ℤ) (d : PressureDecision)
    → Agrees g
    → running <ℤ slots
    → ((is_paused g ≡ true) ↔ (tick_slots slots running g ≡ none))
      × Agrees (pause_gate g)
      × Agrees (resume_gate g)
      × Agrees (set_queue_pressure_decision d g)
      × Agrees (set_queue_pressure true g)
unfolding tick_slots
paused_iff g slots running d a f =
    ((λ h. ground (arith, a, f, h), λ h. ground (arith, a, f, h)), a, a, refl, refl)

-- Clearing the old flag under a decision that pauses, and that the flag did not set, leaves a gate
-- that says it is not paused while Tick does nothing.
pub cleared_but_idle :
    (d : PressureDecision) (g : Gate) (slots running : ℤ)
    → d.should_pause ≡ true
    → is_legacy d.reason ≡ false
    → g.user_paused ≡ false
    → let after = set_queue_pressure false (set_queue_pressure_decision d g) in
      (is_paused after ≡ false) × (tick_slots slots running after ≡ none)
unfolding tick_slots
cleared_but_idle d g slots running s l u = (ground (arith, u), ground (arith, s, l))
