-- ===== src/Controller/Pressure/Laws.antt =====
-- Bounds and monotonicity of the queue pressure.
use clankwork.Base.{
  ◌||◌, Bool-cases, zero, suc, inl, inr, refl, ℕ, ◌≤◌, ◌≡◌, ◌↔◌, ◌⊎◌, Bool, true, false, arith,
}
use clankwork.Base.Int.{◌*ℤ◌, leb_ℤ, negsuc, max_ℤ, half, ℤ, pos, ◌≤ℤ◌, ◌<ℤ◌}
use clankwork.Controller.Pressure.{
  Level, none_level, reduced, drain, hard, Snapshot, PressureDecision, PressureHistory, positive_or,
  default_age_max, differs, differs_Bool, differs_ℤ, is_changed, is_hard, is_drain, is_reduced,
  compute_queue_pressure, should_record,
}

-- Dispatch pauses exactly when nothing may be dispatched, and then the level is `drain` or `hard`;
-- what may be dispatched is never negative and never more than the slots.
pub pause_bounds :
    (obs : Snapshot) (target age slots : ℤ)
    → let d = compute_queue_pressure obs target age slots in
      ((d.should_pause ≡ true) ↔ (d.max_dispatch ≡ pos 0))
      × ((d.should_pause ≡ true) ↔ ((d.level ≡ drain) ⊎ (d.level ≡ hard)))
      × (pos 0 ≤ℤ d.max_dispatch)
      × (d.max_dispatch ≤ℤ positive_or (pos 1) slots)
unfolding compute_queue_pressure
pause_bounds obs target age slots = (
  (λ h. ground arith, λ h. ground arith),
  (λ h. ground arith, λ h. ground arith),
  ground arith,
  ground arith,
)

-- The three kinds of decision: unthrottled, one at a time, paused.
pub pressure_cases :
    (obs : Snapshot) (target age slots : ℤ)
    → let d = compute_queue_pressure obs target age slots in
      ((d.level ≡ none_level)
        × (d.should_pause ≡ false)
        × (d.max_dispatch ≡ positive_or (pos 1) slots))
      ⊎ ((d.level ≡ reduced) × (d.should_pause ≡ false) × (d.max_dispatch ≡ pos 1))
      ⊎ (d.should_pause ≡ true)
unfolding compute_queue_pressure
pressure_cases obs target age slots = ground arith

-- How restrictive a level is.
abbrev pub rank : Level → ℕ
rank hard = 3
rank drain = 2
rank reduced = 1
rank _ = 0

-- A queue that is deeper, older, and has more failures and conflicts is under no less pressure.
abbrev pub Worse : Snapshot → Snapshot → Type 0
Worse a b =
    (a.depth ≤ℤ b.depth)
    × (a.oldest_age ≤ℤ b.oldest_age)
    × (a.recent_failures ≤ℤ b.recent_failures)
    × (a.conflict_count ≤ℤ b.conflict_count)

leb_ℤ_trans : (t x y : ℤ) → x ≤ℤ y → leb_ℤ t x ≡ true → leb_ℤ t y ≡ true
leb_ℤ_trans t x y h e = ground arith

or_mono :
    (p q r p' q' r' : Bool)
    → (p ≡ true → p' ≡ true)
    → (q ≡ true → q' ≡ true)
    → (r ≡ true → r' ≡ true)
    → (p || q || r) ≡ true
    → (p' || q' || r') ≡ true
or_mono p q r p' q' r' f g h e = ground arith

module _ (a b : Snapshot) (target age : ℤ) (h : Worse a b) where
  is_hard_mono : is_hard a target age ≡ true → is_hard b target age ≡ true
  unfolding is_hard
  is_hard_mono =
      or_mono _ _ _ _ _ _ (leb_ℤ_trans (target *ℤ 3) a.depth b.depth h.0)
        (leb_ℤ_trans (age *ℤ 2) a.oldest_age b.oldest_age h.1)
        (leb_ℤ_trans target a.recent_failures b.recent_failures h.2)

  is_drain_mono : is_drain a target age ≡ true → is_drain b target age ≡ true
  unfolding is_drain
  is_drain_mono =
      or_mono _ _ _ _ _ _ (leb_ℤ_trans (target *ℤ 2) a.depth b.depth h.0)
        (leb_ℤ_trans age a.oldest_age b.oldest_age h.1)
        (leb_ℤ_trans (max_ℤ (pos 1) (half target)) a.recent_failures b.recent_failures h.2)

  is_reduced_mono : is_reduced a target ≡ true → is_reduced b target ≡ true
  unfolding is_reduced
  is_reduced_mono e = ground arith

-- Against the same limits, a queue that is in no better shape is under no less pressure.
pub pressure_mono :
    (a b : Snapshot) (target age slots : ℤ)
    → Worse a b
    → rank (compute_queue_pressure a target age slots).level
      ≤ rank (compute_queue_pressure b target age slots).level
unfolding compute_queue_pressure
pressure_mono a b target age slots h =
    let t = positive_or (pos 1) target in
    let m = positive_or default_age_max age in
    ground (arith, is_hard_mono a b t m h, is_drain_mono a b t m h, is_reduced_mono a b t m h)

positive_or_pos : (k : ℕ) (x : ℤ) → (n : ℕ) × (positive_or (pos (suc k)) x ≡ pos (suc n))
positive_or_pos k (pos zero) = (k, refl)
positive_or_pos k (pos (suc n)) = (n, ground arith)
positive_or_pos k (negsuc n) = (k, ground arith)

-- Below its limits the queue is in no band.
abbrev pub WithinLimits : Snapshot → ℤ → ℤ → Type 0
WithinLimits obs t m =
    (obs.depth <ℤ t)
    × (obs.conflict_count ≤ℤ pos 0)
    × (obs.oldest_age <ℤ m)
    × (obs.recent_failures <ℤ max_ℤ (pos 1) (half t))

module _ (obs : Snapshot) (t m : ℕ) where
  not_hard :
      WithinLimits obs (pos (suc t)) (pos (suc m)) → is_hard obs (pos (suc t)) (pos (suc m)) ≡ false
  unfolding is_hard
  not_hard w = ground arith

  not_drain :
      WithinLimits obs (pos (suc t)) (pos (suc m))
      → is_drain obs (pos (suc t)) (pos (suc m)) ≡ false
  unfolding is_drain
  not_drain w = ground arith

  not_reduced : WithinLimits obs (pos (suc t)) (pos (suc m)) → is_reduced obs (pos (suc t)) ≡ false
  unfolding is_reduced
  not_reduced w = ground arith

  WithinLimits-of_bands :
      is_drain obs (pos (suc t)) (pos (suc m)) ≡ false
      → is_reduced obs (pos (suc t)) ≡ false
      → WithinLimits obs (pos (suc t)) (pos (suc m))
  unfolding is_drain is_reduced
  WithinLimits-of_bands e f = (ground arith, ground arith, ground arith, ground arith)

-- Dispatch is unthrottled exactly when the queue is below its target depth, free of conflicts,
-- young, and has few failures, the limits being those that the defaults have made positive.
pub full_speed_iff :
    (obs : Snapshot) (target age slots : ℤ)
    → ((compute_queue_pressure obs target age slots).level ≡ none_level)
      ↔ WithinLimits obs (positive_or (pos 1) target) (positive_or default_age_max age)
unfolding compute_queue_pressure
full_speed_iff obs target age slots =
    let (t, et) = positive_or_pos 0 target in
    let (m, em) = positive_or_pos 1799999999999 age in
    rw (et, em)
      (
        λ h. WithinLimits-of_bands obs t m (ground arith) (ground arith),
        λ w. ground (arith, not_hard obs t m w, not_drain obs t m w, not_reduced obs t m w),
      )

differs_self {ℓ} : {A : Type ℓ} (dec : Discrete A) (a : A) → differs dec a a ≡ false
differs_self dec a =
    elim (dec a a) as (λ d. (elim d as (λ _. Bool) [ yes _ ↦ false | no _ ↦ true ]) ≡ false) [
      | yes _ ↦ refl
      | no h ↦ absurd (h refl)
    ]

differs_ℤ-self : (a : ℤ) → differs_ℤ a a ≡ false
differs_ℤ-self a = ground arith

differs_Bool-self : (b : Bool) → differs_Bool b b ≡ false
differs_Bool-self b = ground arith

is_changed_self :
    (d : PressureDecision) → is_changed (record { last = d; had_history = true }) d ≡ false
unfolding is_changed
is_changed_self d =
    simp (differs_self, differs_ℤ-self d.max_dispatch, differs_Bool-self d.should_pause)

-- A decision is recorded at most once: at once again it counts as unchanged.
pub should_record_once :
    (h : PressureHistory) (d : PressureDecision) → (should_record (should_record h d).0 d).1 ≡ false
unfolding should_record
should_record_once h d = elim (Bool-cases (is_changed h d)) [
  | inl e ↦ rw e (is_changed_self d)
  | inr e ↦ rw e e
]
