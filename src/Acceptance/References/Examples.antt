-- ===== src/Acceptance/References/Examples.antt =====
-- A registry that has the artifact of a report, after an entry that is nil.
use clankwork.Base.{◌≡◌, refl, none, some, [], ◌∷◌, All, List, Option}
use clankwork.Base.Bytes.{same, contains_text, trim_space}
use clankwork.Acceptance.{folded, normalize_sha256}
use clankwork.Acceptance.Checks.{first_problem}
use clankwork.Acceptance.Report.Examples.{report}
use clankwork.Acceptance.References.Commands.{command_matches, strip_shell_variables}
use clankwork.Acceptance.References.{
  Artifact, find_artifact, registered_problem, requires_command_metadata, command_problem,
  evidence_reference, result_references, review_references, validate_artifact_references,
}
use clankwork.Acceptance.References.Laws.{
  IsRegistered, followups, validate_artifact_references-IsRegistered,
}

abbrev artifact : Artifact
artifact = record {
  id = "a1";
  task_id = "t1";
  path = "out.txt";
  artifact_type = "cli_transcript";
  sha256 = "0123456789ABCDEF";
  command = "run --bad ";
  status = "";
}

abbrev registry : List (Option Artifact)
registry = none ∷ some artifact ∷ []

registered : validate_artifact_references (some report) registry ≡ none
unfolding validate_artifact_references result_references review_references evidence_reference
    find_artifact registered_problem command_problem requires_command_metadata command_matches
    first_problem folded normalize_sha256 same contains_text trim_space strip_shell_variables
registered = refl

validate_artifact_references-IsRegistered_example :
    All (λ r. All (IsRegistered registry "t1") r.evidence) report.results
    × All (IsRegistered registry "t1") (followups report.adversarial_review)
validate_artifact_references-IsRegistered_example =
    validate_artifact_references-IsRegistered report registry registered
