-- ===== src/Acceptance/Adversarial/Examples.antt =====
-- A review that suggests a probe, of which the id is taken.
use clankwork.Base.{◌≡◌, refl, true, false, [], ◌∷◌, All}
use clankwork.Acceptance.{AcceptanceProbe, AcceptanceCriterion, AcceptanceSpec, trim}
use clankwork.Acceptance.Report.{AdversarialReview}
use clankwork.Acceptance.Adversarial.{append_adversarial_probes}
use clankwork.Acceptance.Adversarial.Append.{
  DistinctProbes, IsAppended, has_id, append_adversarial_probes-Fresh,
}
use clankwork.Acceptance.Plan.Examples.{probe, criterion, spec}

abbrev taken : AcceptanceProbe
taken = record probe { id = "adversarial_1" }

abbrev first : AcceptanceCriterion
first = record criterion { probes = taken ∷ [] }

abbrev reviewed : AcceptanceSpec
reviewed = record spec { criteria = first ∷ [] }

abbrev review : AdversarialReview
review = record {
  task_id = "t1";
  adversarial_findings =
      (record { risk = "ignored"; suggested_probe = "try twice"; severity = "high" }) ∷ [];
  required_followup = true;
  appended_probe_ids = [];
  followup_evidence = [];
  dismissal_reason = "";
}

retried : (append_adversarial_probes reviewed review).1 ≡ "adversarial_1_retry" ∷ []
unfolding append_adversarial_probes trim
retried = refl

append_adversarial_probes-Fresh_example :
    (c' : AcceptanceCriterion) × ((append_adversarial_probes reviewed review).0.criteria
      ≡ (c' ∷ []))
    × DistinctProbes c'.probes
    × All (IsAppended c'.probes) (append_adversarial_probes reviewed review).1
    × All (λ id. has_id first.probes id ≡ false) (append_adversarial_probes reviewed review).1
append_adversarial_probes-Fresh_example =
    append_adversarial_probes-Fresh reviewed first [] review refl (refl, tt)
