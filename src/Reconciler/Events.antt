-- ===== src/Reconciler/Events.antt =====
-- What internal/scheduler/reconciler.go reads from an agent's ACP events: computeACPState and the
-- search for context-limit errors, which the terminal's text is also searched for.
pub mod Laws
pub mod Tallies
use clankwork.Base.{
  ℕ, String, Bool, true, false, not, ◌&&◌, ◌||◌, Option, none, some, List, [], ◌∷◌, ◌==◌, any, ltb,
  ◌+◌, if◌then◌else◌,
}
use clankwork.Base.Bytes.{bytes, same, to_lower, contains_text}
use clankwork.Controller.{Progress, progress_unknown, progress_present, progress_absent}

-- A decoded JSON value. The fields of an object stand with their keys, none of them twice.
mutual
  pub data Json : Type 0 where
    null : Json
    bool : Bool → Json
    num : String → Json
    str : String → Json
    arr : Items → Json
    obj : Fields → Json

  pub data Items : Type 0 where
    nil : Items
    cons : Json → Items → Items

  pub data Fields : Type 0 where
    end : Fields
    field : String → Json → Fields → Fields

-- `m[k]`; `null` where the key is missing, which no type assertion below tells apart.
pub lookup : Fields → String → Json
lookup end k = null
lookup (field j v fs) k = if j == k then v else lookup fs k

-- `v.(map[string]any)`
abbrev pub as_object : Json → Option Fields
as_object (obj fs) = some fs
as_object _ = none

-- `v, _ := v.(string)`
abbrev pub as_text : Json → String
as_text (str s) = s
as_text _ = ""

-- A nil map reads like one without fields.
abbrev pub fields_of : Option Fields → Fields
fields_of none = end
fields_of (some fs) = fs

abbrev pub context_limit_patterns : List String
context_limit_patterns =
    "context window is full" ∷ "context_window_exceeded" ∷ "Unable to compact" ∷ "compaction failed"
    ∷ "too long to continue" ∷ []

pub has_context_limit_error : String → Bool
unfolding to_lower contains_text
has_context_limit_error pane =
    any (λ pattern. contains_text (to_lower (bytes pane)) (to_lower (bytes pattern)))
      context_limit_patterns

-- The key's own value in the list of searched fields.
abbrev found_at : List (String × Bool) → String → Bool
found_at [] k = false
found_at ((j, b) ∷ m) k = if j == k then b else found_at m k

unfoldable mutual
  pub structured_context_limit : Json → Bool
  structured_context_limit (str s) = has_context_limit_error s
  structured_context_limit (obj fs) =
      any (found_at (limit_fields fs))
        ("message" ∷ "details" ∷ "data" ∷ "error" ∷ "stopReason" ∷ [])
  structured_context_limit (arr xs) = limit_items xs
  structured_context_limit _ = false

  pub limit_items : Items → Bool
  limit_items nil = false
  limit_items (cons x xs) = structured_context_limit x || limit_items xs

  -- The search of each field, of which those under the five keys are asked for.
  pub limit_fields : Fields → List (String × Bool)
  limit_fields end = []
  limit_fields (field k v fs) = (k, structured_context_limit v) ∷ limit_fields fs

-- An object under a key, searched if it is there.
limit_under : Json → Bool
unfolding structured_context_limit
limit_under (obj fs) = structured_context_limit (obj fs)
limit_under _ = false

result_limit : Option Fields → Bool
unfolding structured_context_limit
result_limit none = false
result_limit (some result) =
    same (to_lower (bytes (as_text (lookup result "stopReason")))) (bytes "context_limit")
    || structured_context_limit (obj result)

update_limit : Option Fields → Bool
unfolding limit_under
update_limit none = false
update_limit (some update) = limit_under (lookup update "error")

params_limit : Option Fields → Bool
unfolding limit_under update_limit
params_limit none = false
params_limit (some params) =
    limit_under (lookup params "error") || update_limit (as_object (lookup params "update"))

pub acp_message_has_context_limit_error : Fields → Bool
unfolding result_limit limit_under params_limit
acp_message_has_context_limit_error msg =
    result_limit (as_object (lookup msg "result"))
    || limit_under (lookup msg "error")
    || params_limit (as_object (lookup msg "params"))

-- The update in the params, or else the params themselves.
acp_update_object : Option Fields → Fields
acp_update_object none = end
acp_update_object (some params) = elim (as_object (lookup params "update")) [
  | some update ↦ update
  | none ↦ params
]

abbrev is_tool : String → Bool
is_tool value =
    value == "tool_use"
    || value == "tool_result"
    || value == "tool_call"
    || value == "tool_call_update"
    || value == "commandExecution"

pub acp_update_has_tool_activity : Fields → Fields → Bool
acp_update_has_tool_activity params update =
    any
      (λ fields.
        any (λ key. is_tool (as_text (lookup fields key)))
          ("type" ∷ "status" ∷ "itemType" ∷ "sessionUpdate" ∷ []))
      (params ∷ update ∷ [])

-- `payload` is what the JSON decoder makes of the text; `none` is its error. A time is a number, 0
-- the zero time.
pub record AgentEvent : Type 0 where
  pub created_at : ℕ
  pub payload : Option Fields

pub record AcpReconcileState : Type 0 where
  pub last_event_at : ℕ
  pub last_stop_reason : String
  pub in_turn : Bool
  pub had_turn : Bool
  pub permission_pending : Bool
  pub tool_activity : Bool
  pub context_limit_error : Bool
  pub error_turn_count : ℕ

-- The parts of a message that computeACPState reads.
pub stop_reason : Fields → String
stop_reason msg = as_text (lookup (fields_of (as_object (lookup msg "result"))) "stopReason")

abbrev params_of : Fields → Option Fields
params_of msg = as_object (lookup msg "params")

pub update_of : Fields → Fields
unfolding acp_update_object
update_of msg = acp_update_object (params_of msg)

abbrev says : String → Fields → Bool
says word update =
    as_text (lookup update "sessionUpdate") == word || as_text (lookup update "status") == word

pub turn_started : Fields → Bool
unfolding update_of
turn_started msg = says "turn_started" (update_of msg)

pub turn_ended : Fields → Bool
unfolding update_of stop_reason
turn_ended msg =
    not (stop_reason msg == "")
    || says "turn_completed" (update_of msg)
    || as_text (lookup (fields_of (as_object (lookup (update_of msg) "content"))) "text")
      == "turn_completed"

abbrev is_object : Json → Bool
is_object (obj fs) = true
is_object _ = false

note_limit : Fields → AcpReconcileState → AcpReconcileState
unfolding acp_message_has_context_limit_error
note_limit msg s =
    if acp_message_has_context_limit_error msg then record s { context_limit_error = true } else s

note_stop : String → AcpReconcileState → AcpReconcileState
note_stop reason s = if reason == "" then s else record s {
  last_stop_reason = reason;
  error_turn_count = if reason == "error" then s.error_turn_count + 1 else s.error_turn_count;
}

start_turn : Bool → AcpReconcileState → AcpReconcileState
start_turn true s = record s { in_turn = true; permission_pending = false; tool_activity = false }
start_turn false s = s

end_turn : Bool → AcpReconcileState → AcpReconcileState
end_turn true s = record s { in_turn = false; had_turn = true }
end_turn false s = s

note_activity : Fields → AcpReconcileState → AcpReconcileState
unfolding update_of acp_update_has_tool_activity
note_activity msg s = record s {
  permission_pending =
      is_object (lookup (update_of msg) "permissionRequest") || s.permission_pending;
  tool_activity =
      acp_update_has_tool_activity (fields_of (params_of msg)) (update_of msg) || s.tool_activity;
}

read_message : Option Fields → AcpReconcileState → AcpReconcileState
unfolding note_limit note_stop start_turn end_turn note_activity
read_message none s = s
read_message (some msg) s =
    let seen = note_stop (stop_reason msg) (note_limit msg s) in
    note_activity msg (end_turn (turn_ended msg) (start_turn (turn_started msg) seen))

pub read_event : AgentEvent → AcpReconcileState → AcpReconcileState
unfolding read_message
read_event ev s =
    let latest = if ltb s.last_event_at ev.created_at then ev.created_at else s.last_event_at in
    read_message ev.payload (record s { last_event_at = latest })

pub walk : List AgentEvent → AcpReconcileState → AcpReconcileState
unfolding read_event
walk [] s = s
walk (ev ∷ rest) s = walk rest (read_event ev s)

abbrev pub no_state : AcpReconcileState
no_state = record {
  last_event_at = 0;
  last_stop_reason = "";
  in_turn = false;
  had_turn = false;
  permission_pending = false;
  tool_activity = false;
  context_limit_error = false;
  error_turn_count = 0;
}

unfoldable pub compute_acp_state : List AgentEvent → AcpReconcileState
unfolding walk
compute_acp_state events = walk events no_state

abbrev pub ended_without_signal : AcpReconcileState → Bool
ended_without_signal s = s.had_turn && not s.in_turn

unfoldable pub progress_evidence : AcpReconcileState → Progress
progress_evidence s =
    if s.tool_activity
    then progress_present
    else if ended_without_signal s
    then progress_absent
    else progress_unknown
