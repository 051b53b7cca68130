-- ===== src/Reconciler/Events/Laws.antt =====
-- The events' state against an independent reading of the events.
use mathlib.Core.Path.{subst}
use clankwork.Base.{
  sym, if-elim, ◌∙◌, ap, ◌≡◌, ◌⊎◌, ◌↔◌, inl, inr, refl, String, Bool, true, false, Option, none,
  some, List, [], ◌∷◌, ◌++◌, arith, Bool-cases, if◌then◌else◌, All,
}
use clankwork.Reconciler.Events.{
  AgentEvent, AcpReconcileState, no_state, Fields, stop_reason, turn_started, turn_ended,
  note_limit, note_stop, start_turn, end_turn, note_activity, read_message, read_event, walk,
  compute_acp_state, ended_without_signal,
}

abbrev pub says_ended : Option Fields → Bool
says_ended none = false
says_ended (some msg) = turn_ended msg

abbrev pub says_started : Option Fields → Bool
says_started none = false
says_started (some msg) = turn_started msg

-- The event ends a turn, and none after it starts or ends one.
abbrev pub EndedLast : List AgentEvent → Type 0
EndedLast events =
    (before : List AgentEvent) × (ev : AgentEvent) × (after : List AgentEvent) × (events
      ≡ (before ++ ev ∷ after))
    × (says_ended ev.payload ≡ true)
    × All (λ e. (says_ended e.payload ≡ false) × (says_started e.payload ≡ false)) after

after_message : Option Fields → Bool → Bool
after_message o ended = if says_ended o then true else if says_started o then false else ended

turns-ended :
    (started finished : Bool) (s : AcpReconcileState)
    → ended_without_signal (end_turn finished (start_turn started s))
      ≡ (if finished then true else if started then false else ended_without_signal s)
unfolding start_turn end_turn
turns-ended true true s = refl
turns-ended true false s = ground arith
turns-ended false true s = refl
turns-ended false false s = refl

note_stop-ended :
    (reason : String) (s : AcpReconcileState)
    → ended_without_signal (note_stop reason s) ≡ ended_without_signal s
unfolding note_stop
note_stop-ended reason s = ground arith

note_limit-ended :
    (msg : Fields) (s : AcpReconcileState)
    → ended_without_signal (note_limit msg s) ≡ ended_without_signal s
unfolding note_limit
note_limit-ended msg s =
    if-elim (λ v. ended_without_signal v ≡ ended_without_signal s) _ _ _ refl refl

seen-ended :
    (msg : Fields) (reason : String) (s : AcpReconcileState)
    → ended_without_signal (note_stop reason (note_limit msg s)) ≡ ended_without_signal s
seen-ended msg reason s = note_stop-ended reason (note_limit msg s) ∙ note_limit-ended msg s

read_message-ended :
    (o : Option Fields) (s : AcpReconcileState)
    → ended_without_signal (read_message o s) ≡ after_message o (ended_without_signal s)
unfolding read_message note_activity after_message
read_message-ended none s = refl
read_message-ended (some msg) s =
    turns-ended (turn_started msg) (turn_ended msg) (note_stop (stop_reason msg) (note_limit msg s))
    ∙ rw (seen-ended msg (stop_reason msg) s) refl

read_event-ended :
    (ev : AgentEvent) (s : AcpReconcileState)
    → ended_without_signal (read_event ev s) ≡ after_message ev.payload (ended_without_signal s)
unfolding read_event
read_event-ended ev s = read_message-ended ev.payload _

abbrev Quiet : List AgentEvent → Type 0
Quiet = All (λ e. (says_ended e.payload ≡ false) × (says_started e.payload ≡ false))

-- Either an event of the list decides, or the flag that was there before it.
Decided : List AgentEvent → Bool → Type 0
Decided events ended = EndedLast events ⊎ (Quiet events × (ended ≡ true))

ended_later :
    (ev : AgentEvent) (events : List AgentEvent) → EndedLast events → EndedLast (ev ∷ events)
ended_later ev events (before, e, after, p, d, q) =
    (ev ∷ before, e, after, ap (λ l. ev ∷ l) p, d, q)

step_back :
    (ev : AgentEvent) (events : List AgentEvent) (ended : Bool)
    → Decided events (after_message ev.payload ended)
    → Decided (ev ∷ events) ended
unfolding Decided after_message
step_back ev events ended (inl last) = inl (ended_later ev events last)
step_back ev events ended (inr (quiet, e)) = elim (Bool-cases (says_ended ev.payload)) [
  | inl d ↦ inl ([], ev, events, refl, d, quiet)
  | inr d ↦ elim (Bool-cases (says_started ev.payload)) [
    | inl st ↦ cc (rw (d, st) at e)
    | inr st ↦ inr (((d, st), quiet), rw (d, st) at e)
  ]
]

abbrev tail_of : List AgentEvent → List AgentEvent
tail_of [] = []
tail_of (x ∷ xs) = xs

abbrev head_of : AgentEvent → List AgentEvent → AgentEvent
head_of d [] = d
head_of d (x ∷ xs) = x

step_on :
    (ev : AgentEvent) (events : List AgentEvent) (ended : Bool)
    → Decided (ev ∷ events) ended
    → Decided events (after_message ev.payload ended)
unfolding Decided after_message
step_on ev events ended (inr ((here, quiet), e)) = inr (quiet, rw (here.0, here.1) e)
step_on ev events ended (inl ([], e, after, p, d, q)) =
    let same : ev ≡ e = ap (head_of ev) p in
    let rest : events ≡ after = ap tail_of p in
    inr (
      rw rest q,
      subst
          (λ x.
            (if says_ended x.payload then true else if says_started x.payload then false else ended)
            ≡ true)
          (sym same) (rw d refl),
    )
step_on ev events ended (inl (b ∷ before, e, after, p, d, q)) =
    inl (before, e, after, ap tail_of p, d, q)

nothing_decided :
    (before : List AgentEvent) (ev : AgentEvent) (after : List AgentEvent)
    → ¬ ([] ≡ (before ++ ev ∷ after))
nothing_decided [] ev after p = cc
nothing_decided (b ∷ before) ev after p = cc

walk-Decided :
    (events : List AgentEvent) (s : AcpReconcileState)
    → (ended_without_signal (walk events s) ≡ true) ↔ Decided events (ended_without_signal s)
unfolding walk Decided
walk-Decided [] s = (
  λ h. inr (tt, h),
  λ h. elim h [
    | inl (before, ev, after, p, d, q) ↦ absurd (nothing_decided before ev after p)
    | inr (q, e) ↦ e
  ],
)
walk-Decided (ev ∷ rest) s =
    let here = read_event-ended ev s in
    let (to, from) = walk-Decided rest (read_event ev s) in
    (
      λ h. step_back ev rest (ended_without_signal s) (rw here at (to h)),
      λ h. from (rw here (step_on ev rest (ended_without_signal s) h)),
    )

-- An agent counts as idle without a signal exactly when some event ends a turn and no later one
-- starts or ends one.
pub compute_acp_state-ended_iff :
    (events : List AgentEvent)
    → (ended_without_signal (compute_acp_state events) ≡ true) ↔ EndedLast events
unfolding compute_acp_state Decided
compute_acp_state-ended_iff events =
    let (to, from) = walk-Decided events no_state in
    (λ h. elim (to h) [ inl last ↦ last | inr (q, e) ↦ cc e ], λ last. from (inl last))
