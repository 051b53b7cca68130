-- ===== src/Acceptance/Done.antt =====
-- The bundle that a worker sends when it is done: ValidateDoneBundle of
-- internal/model/acceptance.go, on DoneBundle of internal/model/model.go, of which the lists that it
-- does not read are left out.
pub mod Laws
pub mod Examples
use clankwork.Base.{String, Bool, not, ◌&&◌, Option, none, some, List, ◌==◌, any, is_empty}
use clankwork.Acceptance.{AcceptanceCriterion, AcceptanceSpec, Evidence}
use clankwork.Acceptance.Report.{provenance_problem, last_criterion}
use clankwork.Acceptance.Checks.{
  Problem, check, or_else, first_problem, bundle_required, bundle_of_other_task, summary_required,
  bundle_without_claims, bundle_without_artifacts, artifact_type_required, artifact_path_required,
  claim_criterion_required, claim_not_satisfied, claim_unknown, claim_type_missing,
}

pub record CompletionClaim : Type 0 where
  pub criterion_id : String
  pub status : String

pub record CompletionArtifact : Type 0 where
  pub artifact_type : String
  pub path : String
  pub criterion_id : String
  pub probe_id : String
  pub command : String
  pub producer_step : String
  pub producer_role : String
  pub timestamp : String
  pub content_hash : String
  pub authoritative : Bool

pub record DoneBundle : Type 0 where
  pub task_id : String
  pub summary : String
  pub claims : List CompletionClaim
  pub artifacts : List CompletionArtifact

-- The arguments of validateArtifactProvenance for an artifact.
abbrev pub provenance_of : CompletionArtifact → Evidence
provenance_of a = record {
  artifact_id = "";
  evidence_type = a.artifact_type;
  path = a.path;
  probe_id = a.probe_id;
  command = a.command;
  producer_step = a.producer_step;
  producer_role = a.producer_role;
  timestamp = a.timestamp;
  content_hash = a.content_hash;
  authoritative = a.authoritative;
}

unfoldable pub artifact_problem : CompletionArtifact → Option Problem
unfolding provenance_problem
artifact_problem a =
    check (a.artifact_type == "") artifact_type_required
      (check (a.path == "") artifact_path_required (provenance_problem (provenance_of a)))

-- artifactTypes[t]
abbrev pub has_type : List CompletionArtifact → String → Bool
has_type artifacts t = any (λ a. a.artifact_type == t) artifacts

-- artifactByCriterion[id][t]
abbrev pub has_type_for : List CompletionArtifact → String → String → Bool
has_type_for artifacts id t =
    any (λ a. not (a.criterion_id == "") && a.criterion_id == id && a.artifact_type == t) artifacts

unfoldable pub type_problem : List CompletionArtifact → String → String → Option Problem
type_problem artifacts id t =
    check (not (has_type artifacts t) && not (has_type_for artifacts id t)) claim_type_missing none

unfoldable pub criterion_types :
    List CompletionArtifact → String → Option AcceptanceCriterion → Option Problem
unfolding type_problem first_problem
criterion_types artifacts id none = some claim_unknown
criterion_types artifacts id (some c) =
    first_problem (type_problem artifacts id) c.required_artifacts

unfoldable pub claim_in_spec :
    Option AcceptanceSpec → List CompletionArtifact → String → Option Problem
unfolding criterion_types last_criterion
claim_in_spec none artifacts id = none
claim_in_spec (some spec) artifacts id =
    criterion_types artifacts id (last_criterion spec.criteria id)

unfoldable pub claim_problem :
    Option AcceptanceSpec → List CompletionArtifact → CompletionClaim → Option Problem
unfolding claim_in_spec
claim_problem spec artifacts c = check (c.criterion_id == "") claim_criterion_required (
    check (not (c.status == "satisfied")) claim_not_satisfied
      (claim_in_spec spec artifacts c.criterion_id))

unfoldable pub bundle_problem : DoneBundle → String → Option AcceptanceSpec → Option Problem
unfolding artifact_problem claim_problem first_problem
bundle_problem b task spec = check (not (b.task_id == task)) bundle_of_other_task (
    check (b.summary == "") summary_required (
      check (is_empty b.claims) bundle_without_claims (
        check (is_empty b.artifacts) bundle_without_artifacts (
          or_else (first_problem artifact_problem b.artifacts)
            (first_problem (claim_problem spec b.artifacts) b.claims)))))

unfoldable pub validate_done_bundle :
    Option DoneBundle → String → Option AcceptanceSpec → Option Problem
unfolding bundle_problem
validate_done_bundle none task spec = some bundle_required
validate_done_bundle (some b) task spec = bundle_problem b task spec
