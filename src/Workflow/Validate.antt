-- ===== src/Workflow/Validate.antt =====
-- Validate of internal/template/template.go, which stops at the first fault. An error is a
-- constructor for each of the code's texts, with the values that the text names.
pub mod Laws
pub mod Examples
use clankwork.Base.{
  String, Bool, not, ◌&&◌, Option, none, some, List, [], ◌∷◌, ◌==◌, has, if◌then◌else◌,
}
use clankwork.Workflow.{Step, Template}

pub data ValidationError : Type 0 where
  no_name no_entry : ValidationError
  entry_not_found : String → ValidationError
  requires_command : String → ValidationError
  unknown_type : String → String → ValidationError
  success_not_found : String → String → ValidationError
  failure_not_found : String → String → ValidationError

-- `if err == nil { err = next }`, in the order of the checks.
infixr 30 ◌orelse◌
abbrev pub ◌orelse◌ : Option ValidationError → Option ValidationError → Option ValidationError
none orelse e = e
some x orelse e = some x

abbrev fail_if : Bool → ValidationError → Option ValidationError
fail_if b e = if b then some e else none

step_error : String × Step → Option ValidationError
step_error (name, step) =
    if step.step_type == "agent"
    then none
    else if step.step_type == "deterministic"
    then fail_if (step.command == "") (requires_command name)
    else some (unknown_type name step.step_type)

abbrev is_missing : Template → String → Bool
is_missing t target = not (target == "complete") && not (target == "") && not (has t.steps target)

-- One round of the loop over the steps.
entry_error : Template → String × Step → Option ValidationError
unfolding step_error
entry_error t (name, step) =
    step_error (name, step)
    orelse (fail_if (is_missing t step.on_success) (success_not_found name step.on_success)
        orelse fail_if (is_missing t step.on_failure) (failure_not_found name step.on_failure))

loop_error : Template → List (String × Step) → Option ValidationError
loop_error t [] = none
loop_error t (e ∷ rest) = entry_error t e orelse loop_error t rest

pub validate : Template → Option ValidationError
validate t =
    if t.name == ""
    then some no_name
    else if t.entry == ""
    then some no_entry
    else if not (has t.steps t.entry)
    then some (entry_not_found t.entry)
    else loop_error t t.steps
