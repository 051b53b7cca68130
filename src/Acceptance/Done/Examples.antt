-- ===== src/Acceptance/Done/Examples.antt =====
-- A bundle with one claim, whose artifact is linked to another criterion.
use clankwork.Base.{◌≡◌, ◌↔◌, refl, true, none, some, [], ◌∷◌}
use clankwork.Base.Bytes.{same}
use clankwork.Acceptance.{trim, folded, is_placeholder_hash}
use clankwork.Acceptance.Report.{provenance_problem, last_criterion}
use clankwork.Acceptance.Checks.{first_problem}
use clankwork.Acceptance.Plan.Examples.{spec}
use clankwork.Acceptance.Done.{
  CompletionClaim, CompletionArtifact, DoneBundle, validate_done_bundle, bundle_problem,
  artifact_problem, claim_problem, claim_in_spec, criterion_types, type_problem,
}
use clankwork.Acceptance.Done.Laws.{IsDone, validate_done_bundle_iff}

abbrev claim : CompletionClaim
claim = record { criterion_id = "c1"; status = "satisfied" }

abbrev artifact : CompletionArtifact
artifact = record {
  artifact_type = "cli_transcript";
  path = "out.txt";
  criterion_id = "c2";
  probe_id = "p1";
  command = "run --bad";
  producer_step = "implement";
  producer_role = "worker";
  timestamp = "2026-01-01";
  content_hash = "sha256:0123456789abcdef";
  authoritative = true;
}

abbrev bundle : DoneBundle
bundle = record { task_id = "t1"; summary = "done"; claims = claim ∷ []; artifacts = artifact ∷ [] }

accepted : validate_done_bundle (some bundle) "t1" (some spec) ≡ none
unfolding validate_done_bundle bundle_problem artifact_problem claim_problem claim_in_spec
    criterion_types type_problem provenance_problem last_criterion first_problem trim
    is_placeholder_hash same folded
accepted = refl

validate_done_bundle_iff_example :
    (validate_done_bundle (some bundle) "t1" (some spec) ≡ none) ↔ IsDone bundle "t1" spec
validate_done_bundle_iff_example = validate_done_bundle_iff bundle "t1" spec
