-- ===== src/Reconciler/Events/Tallies.antt =====
-- What the events' state counts and remembers.
use mathlib.Core.Path.{subst}
use clankwork.Base.{
  sym, ap, ◌∙◌, ◌≡◌, refl, ℕ, String, Bool, true, false, ◌||◌, Option, none, some, List, [], ◌∷◌,
  ◌==◌, ==_iff, ◌+◌, arith, Bool-cases, if◌then◌else◌, any, inl, inr,
}
use clankwork.Reconciler.Events.{
  AgentEvent, AcpReconcileState, no_state, Fields, stop_reason, turn_started, turn_ended,
  note_limit, note_stop, start_turn, end_turn, note_activity, read_message, read_event, walk,
  compute_acp_state, acp_message_has_context_limit_error,
}

-- The stop reason of an event, empty where it has none.
abbrev pub reason_of : AgentEvent → Option Fields → String
reason_of ev none = ""
reason_of ev (some msg) = stop_reason msg

abbrev pub shows_limit : Option Fields → Bool
shows_limit none = false
shows_limit (some msg) = acp_message_has_context_limit_error msg

abbrev pub reason : AgentEvent → String
reason ev = reason_of ev ev.payload

abbrev pub error_turns : List AgentEvent → ℕ
error_turns [] = 0
error_turns (ev ∷ rest) = if reason ev == "error" then error_turns rest + 1 else error_turns rest

-- The last stop reason that was given.
abbrev pub last_reason : String → List AgentEvent → String
last_reason r [] = r
last_reason r (ev ∷ rest) = last_reason (if reason ev == "" then r else reason ev) rest

empty_is_no_error : (r : String) → (r == "") ≡ true → (r == "error") ≡ false
empty_is_no_error r e = subst (λ x. (x == "error") ≡ false) (sym ((==_iff r "").0 e)) refl

note_stop-fields :
    (r : String) (s : AcpReconcileState)
    → ((note_stop r s).error_turn_count
        ≡ (if r == "error" then s.error_turn_count + 1 else s.error_turn_count))
      × ((note_stop r s).last_stop_reason ≡ (if r == "" then s.last_stop_reason else r))
      × ((note_stop r s).context_limit_error ≡ s.context_limit_error)
unfolding note_stop
note_stop-fields r s = elim (Bool-cases (r == "")) [
  | inl e ↦ rw (e, empty_is_no_error r e) (refl, refl, refl)
  | inr e ↦ rw e (refl, refl, refl)
]

note_limit-fields :
    (msg : Fields) (s : AcpReconcileState)
    → ((note_limit msg s).error_turn_count ≡ s.error_turn_count)
      × ((note_limit msg s).last_stop_reason ≡ s.last_stop_reason)
      × ((note_limit msg s).context_limit_error
          ≡ (acp_message_has_context_limit_error msg || s.context_limit_error))
unfolding note_limit
note_limit-fields msg s = elim (Bool-cases (acp_message_has_context_limit_error msg)) [
  | inl e ↦ rw e (refl, refl, refl)
  | inr e ↦ rw e (refl, refl, refl)
]

turn-fields :
    (started finished : Bool) (s : AcpReconcileState)
    → ((end_turn finished (start_turn started s)).error_turn_count ≡ s.error_turn_count)
      × ((end_turn finished (start_turn started s)).last_stop_reason ≡ s.last_stop_reason)
      × ((end_turn finished (start_turn started s)).context_limit_error ≡ s.context_limit_error)
unfolding start_turn end_turn
turn-fields true true s = (refl, refl, refl)
turn-fields true false s = (refl, refl, refl)
turn-fields false true s = (refl, refl, refl)
turn-fields false false s = (refl, refl, refl)

read_message-fields :
    (ev : AgentEvent) (o : Option Fields) (s : AcpReconcileState)
    → ((read_message o s).error_turn_count
        ≡ (if reason_of ev o == "error" then s.error_turn_count + 1 else s.error_turn_count))
      × ((read_message o s).last_stop_reason
          ≡ (if reason_of ev o == "" then s.last_stop_reason else reason_of ev o))
      × ((read_message o s).context_limit_error ≡ (shows_limit o || s.context_limit_error))
unfolding read_message note_activity
read_message-fields ev none s = (refl, refl, refl)
read_message-fields ev (some msg) s =
    let seen = note_limit msg s in
    let (c, l, x) = note_limit-fields msg s in
    let (c', l', x') = note_stop-fields (stop_reason msg) seen in
    let (c'', l'', x'') =
      turn-fields (turn_started msg) (turn_ended msg) (note_stop (stop_reason msg) seen) in
    (c'' ∙ c' ∙ rw c refl, l'' ∙ l' ∙ rw l refl, x'' ∙ x' ∙ x)

read_event-fields :
    (ev : AgentEvent) (s : AcpReconcileState)
    → ((read_event ev s).error_turn_count
        ≡ (if reason ev == "error" then s.error_turn_count + 1 else s.error_turn_count))
      × ((read_event ev s).last_stop_reason
          ≡ (if reason ev == "" then s.last_stop_reason else reason ev))
      × ((read_event ev s).context_limit_error ≡ (shows_limit ev.payload || s.context_limit_error))
unfolding read_event
read_event-fields ev s = read_message-fields ev ev.payload _

count_on :
    (ev : AgentEvent) (rest : List AgentEvent) (n m k : ℕ)
    → m ≡ (if reason ev == "error" then n + 1 else n)
    → k ≡ error_turns rest + m
    → k ≡ error_turns (ev ∷ rest) + n
count_on ev rest n m k e f = elim (Bool-cases (reason ev == "error")) [
  | inl p ↦ let q : m ≡ n + 1 = rw p at e in rw p (omega arith)
  | inr p ↦ let q : m ≡ n = rw p at e in rw p (omega arith)
]

or_on : (b c d : Bool) → (c || (b || d)) ≡ ((b || c) || d)
or_on b c d = ground arith

walk-tallies :
    (events : List AgentEvent) (s : AcpReconcileState)
    → ((walk events s).error_turn_count ≡ error_turns events + s.error_turn_count)
      × ((walk events s).last_stop_reason ≡ last_reason s.last_stop_reason events)
      × ((walk events s).context_limit_error
          ≡ (any (λ e. shows_limit e.payload) events || s.context_limit_error))
unfolding walk
walk-tallies [] s = (omega arith, refl, refl)
walk-tallies (ev ∷ rest) s =
    let (c, l, x) = walk-tallies rest (read_event ev s) in
    let (c', l', x') = read_event-fields ev s in
    (
      count_on ev rest s.error_turn_count _ _ c' c,
      l ∙ ap (λ r. last_reason r rest) l',
      x
          ∙ ap (λ b. any (λ e. shows_limit e.payload) rest || b) x'
          ∙ or_on (shows_limit ev.payload) (any (λ e. shows_limit e.payload) rest)
              s.context_limit_error,
    )

-- The state counts the turns that ended with an error, keeps the last stop reason, and remembers
-- whether any message showed the context limit.
pub compute_acp_state-tallies :
    (events : List AgentEvent)
    → ((compute_acp_state events).error_turn_count ≡ error_turns events)
      × ((compute_acp_state events).last_stop_reason ≡ last_reason "" events)
      × ((compute_acp_state events).context_limit_error ≡ any (λ e. shows_limit e.payload) events)
unfolding compute_acp_state
compute_acp_state-tallies events =
    let (c, l, x) = walk-tallies events no_state in (omega arith, l, x ∙ ground arith)
