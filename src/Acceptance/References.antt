-- ===== src/Acceptance/References.antt =====
-- The artifacts that a report refers to: ValidateArtifactReferences of internal/model/acceptance.go,
-- over a registry whose entries can be nil.
pub mod Commands
pub mod Laws
pub mod Examples
use clankwork.Base.{String, Bool, not, ◌&&◌, Option, none, some, List, [], ◌∷◌, ◌==◌, if◌then◌else◌}
use clankwork.Base.Bytes.{same, is_one_of}
use clankwork.Acceptance.{Evidence, folded, normalize_sha256}
use clankwork.Acceptance.Report.{AdversarialReview, VerificationResult, VerificationReport}
use clankwork.Acceptance.References.Commands.{command_matches}
use clankwork.Acceptance.Checks.{
  Problem, check, or_else, first_problem, artifact_unknown, artifact_of_other_task,
  artifact_invalidated, artifact_type_differs, artifact_path_differs, artifact_hash_differs,
  artifact_without_command, command_differs,
}

-- What the validation reads of an artifact.
pub record Artifact : Type 0 where
  pub id : String
  pub task_id : String
  pub path : String
  pub artifact_type : String
  pub sha256 : String
  pub command : String
  pub status : String

-- byID: the last entry of an id.
unfoldable pub find_artifact : List (Option Artifact) → String → Option Artifact
find_artifact [] id = none
find_artifact (none ∷ rest) id = find_artifact rest id
find_artifact (some a ∷ rest) id = elim (find_artifact rest id) [
  | some later ↦ some later
  | none ↦ if a.id == id then some a else none
]

unfoldable pub requires_command_metadata : String → Bool
unfolding folded same
requires_command_metadata t =
    is_one_of (folded t) ("cli_transcript" ∷ "test_output" ∷ "shell_output" ∷ "command_output" ∷ [])

-- The tests that both loops make, and what follows them.
unfoldable pub registered_problem : String → Evidence → Artifact → Option Problem → Option Problem
unfolding normalize_sha256 same
registered_problem task e a rest = check (not (a.task_id == task)) artifact_of_other_task (
    check (a.status == "invalidated") artifact_invalidated (
      check (not (a.artifact_type == e.evidence_type)) artifact_type_differs (
        check (not (e.path == "") && not (a.path == e.path)) artifact_path_differs (
          check
            (not (e.content_hash == "")
              && not (same (normalize_sha256 e.content_hash) (normalize_sha256 a.sha256)))
            artifact_hash_differs rest))))

unfoldable pub command_problem : Evidence → Artifact → Option Problem
unfolding requires_command_metadata command_matches
command_problem e a =
    if requires_command_metadata e.evidence_type
    then check (a.command == "") artifact_without_command (
        check (not (e.command == "") && not (command_matches e.command a.command)) command_differs
          none)
    else none

unfoldable pub evidence_reference : String → Evidence → Option Artifact → Option Problem
unfolding registered_problem command_problem
evidence_reference task e none = some artifact_unknown
evidence_reference task e (some a) = registered_problem task e a (command_problem e a)

unfoldable pub followup_reference : String → Evidence → Option Artifact → Option Problem
unfolding registered_problem
followup_reference task e none = some artifact_unknown
followup_reference task e (some a) = registered_problem task e a none

unfoldable pub result_references :
    List (Option Artifact) → String → VerificationResult → Option Problem
unfolding evidence_reference find_artifact first_problem
result_references artifacts task r =
    first_problem (λ e. evidence_reference task e (find_artifact artifacts e.artifact_id))
      r.evidence

unfoldable pub review_references :
    List (Option Artifact) → String → Option AdversarialReview → Option Problem
unfolding followup_reference find_artifact first_problem
review_references artifacts task none = none
review_references artifacts task (some r) =
    first_problem (λ e. followup_reference task e (find_artifact artifacts e.artifact_id))
      r.followup_evidence

unfoldable pub validate_artifact_references :
    Option VerificationReport → List (Option Artifact) → Option Problem
unfolding result_references review_references first_problem
validate_artifact_references none artifacts = none
validate_artifact_references (some report) artifacts =
    or_else (first_problem (result_references artifacts report.task_id) report.results)
      (review_references artifacts report.task_id report.adversarial_review)
