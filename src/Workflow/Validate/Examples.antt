-- ===== src/Workflow/Validate/Examples.antt =====
-- Validate's theorems on the same template.
use clankwork.Base.{◌≡◌, ◌≢◌, ◌↔◌, refl, none}
use clankwork.Workflow.{graph_of}
use clankwork.Workflow.Examples.{feature, short_feature}
use clankwork.Workflow.Compile.{compile, policy_diagnostics}
use clankwork.Workflow.Compile.Structure.{IsStructured}
use clankwork.Workflow.Validate.{step_error, entry_error, loop_error, validate}
use clankwork.Workflow.Validate.Laws.{validate_iff, compile-validate}

feature_validates : validate feature ≡ none
unfolding validate loop_error entry_error step_error
feature_validates = refl

validate_iff_example :
    (validate feature ≡ none) ↔ ((feature.name ≢ "") × (feature.entry ≢ "") × IsStructured feature)
validate_iff_example = validate_iff feature

compile-validate_example : (compile feature).1 ≡ policy_diagnostics (graph_of feature)
compile-validate_example = compile-validate feature feature_validates

short_feature_validates : validate short_feature ≡ none
unfolding validate loop_error entry_error step_error
short_feature_validates = refl

pub feature-IsStructured : IsStructured feature
feature-IsStructured = ((validate_iff feature).0 feature_validates).2

pub short_feature-IsStructured : IsStructured short_feature
short_feature-IsStructured = ((validate_iff short_feature).0 short_feature_validates).2
