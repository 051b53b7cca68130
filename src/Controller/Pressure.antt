-- ===== src/Controller/Pressure.antt =====
-- ComputeQueuePressure of internal/model/controller.go, and shouldRecordQueuePressure of
-- internal/mergequeue/processor.go.
pub mod Laws
pub mod Examples
use clankwork.Base.{Bool, true, false, not, ◌&&◌, ◌||◌, if◌then◌else◌}
use clankwork.Base.Int.{ℤ, pos, ◌*ℤ◌, half, leb_ℤ, ltb_ℤ, max_ℤ}

-- From least to most restrictive, below them the empty string of a zero value.
pub data Level : Type 0 where
  empty_level none_level reduced drain hard : Level

-- The texts of `Reason`, one constructor for each; the dispatcher tests for `legacy`.
pub data Reason : Type 0 where
  empty_reason within_target hard_pressure should_drain elevated legacy : Reason

pub record Snapshot : Type 0 where
  pub depth : ℤ
  pub oldest_age : ℤ
  pub recent_failures : ℤ
  pub conflict_count : ℤ

pub record PressureDecision : Type 0 where
  pub level : Level
  pub max_dispatch : ℤ
  pub should_pause : Bool
  pub reason : Reason
  pub observed : Snapshot
  pub target_depth : ℤ
  pub oldest_age_max : ℤ

-- 30 minutes in nanoseconds.
abbrev pub default_age_max : ℤ
default_age_max = pos 1800000000000

-- `if x <= 0 { x = d }`
abbrev pub positive_or : ℤ → ℤ → ℤ
positive_or d x = if leb_ℤ x (pos 0) then d else x

unfoldable pub is_hard : Snapshot → ℤ → ℤ → Bool
is_hard obs target age_max =
    leb_ℤ (target *ℤ 3) obs.depth
    || leb_ℤ (age_max *ℤ 2) obs.oldest_age
    || leb_ℤ target obs.recent_failures

unfoldable pub is_drain : Snapshot → ℤ → ℤ → Bool
is_drain obs target age_max =
    leb_ℤ (target *ℤ 2) obs.depth
    || leb_ℤ age_max obs.oldest_age
    || leb_ℤ (max_ℤ (pos 1) (half target)) obs.recent_failures

unfoldable pub is_reduced : Snapshot → ℤ → Bool
is_reduced obs target = leb_ℤ target obs.depth || ltb_ℤ (pos 0) obs.conflict_count

-- The `switch`, on arguments that the defaults have made positive.
pressure_of : Snapshot → ℤ → ℤ → ℤ → PressureDecision
pressure_of obs target age_max slots =
    if is_hard obs target age_max
    then decide hard (pos 0) true hard_pressure
    else if is_drain obs target age_max
    then decide drain (pos 0) true should_drain
    else if is_reduced obs target
    then decide reduced (pos 1) false elevated
    else decide none_level slots false within_target
  where
    decide : Level → ℤ → Bool → Reason → PressureDecision
    decide level max_dispatch pause reason = record {
      level = level;
      max_dispatch = max_dispatch;
      should_pause = pause;
      reason = reason;
      observed = obs;
      target_depth = target;
      oldest_age_max = age_max;
    }

unfoldable pub compute_queue_pressure : Snapshot → ℤ → ℤ → ℤ → PressureDecision
unfolding pressure_of
compute_queue_pressure obs target age_max slots =
    pressure_of obs (positive_or (pos 1) target) (positive_or default_age_max age_max)
      (positive_or (pos 1) slots)

-- What the merge processor remembers of the last decision that it recorded.
pub record PressureHistory : Type 0 where
  pub last : PressureDecision
  pub had_history : Bool

Level-discrete : Discrete Level
Level-discrete = hlevel

Reason-discrete : Discrete Reason
Reason-discrete = hlevel

abbrev differs {ℓ} : {A : Type ℓ} → Discrete A → A → A → Bool
differs dec a b = elim (dec a b) [ yes _ ↦ false | no _ ↦ true ]

abbrev differs_Bool : Bool → Bool → Bool
differs_Bool a b = if a then not b else b

abbrev differs_ℤ : ℤ → ℤ → Bool
differs_ℤ a b = not (leb_ℤ a b && leb_ℤ b a)

-- Has anything changed that is worth an observation?
is_changed : PressureHistory → PressureDecision → Bool
is_changed h d =
    not h.had_history
    || differs Level-discrete h.last.level d.level
    || differs_ℤ h.last.max_dispatch d.max_dispatch
    || differs_Bool h.last.should_pause d.should_pause
    || differs Reason-discrete h.last.reason d.reason

-- What has changed is remembered.
pub should_record : PressureHistory → PressureDecision → PressureHistory × Bool
should_record h d =
    let changed = is_changed h d in
    (if changed then record { last = d; had_history = true } else h, changed)
