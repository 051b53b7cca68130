-- ===== src/Acceptance/Adversarial.antt =====
-- The adversarial review, internal/model/acceptance.go: AdversarialCheckPassed,
-- AdversarialReviewSatisfied, and AppendAdversarialProbes, which adds the suggested probes to the
-- first criterion.
pub mod Laws
pub mod Append
pub mod Examples
use Prim.Native.Nat.{◌%◌}
use clankwork.Base.{
  ℕ, zero, suc, ◌+◌, ◌/◌, String, Bool, true, false, not, ◌&&◌, ◌||◌, Option, none, some, List, [],
  ◌∷◌, ◌++◌, ◌==◌, any, contains, map, is_empty, eqb, ltb, length, if◌then◌else◌,
}
use clankwork.Base.Bytes.{bytes, same, to_lower}
use clankwork.Acceptance.{
  AcceptanceProbe, AcceptanceCriterion, AcceptanceSpec, trim, folded, is_blank,
}
use clankwork.Acceptance.Report.{AdversarialFinding, AdversarialReview, VerificationReport}

-- normalizeRiskLevel gives "high"; RequiresAdversarialCheck.
unfoldable pub requires_adversarial_check : String → Bool
requires_adversarial_check risk = same (folded risk) (bytes "high")

-- A text is equal to a lower-case word of letters but for case, strings.EqualFold.
abbrev equal_fold : String → String → Bool
unfolding to_lower
equal_fold s word = same (to_lower (bytes s)) (bytes word)

abbrev is_open : AdversarialReview → Bool
is_open r = is_blank r.dismissal_reason && is_empty r.followup_evidence

unfoldable pub review_satisfied : Option AdversarialReview → Bool
unfolding equal_fold
review_satisfied none = false
review_satisfied (some r) =
    not (r.required_followup && is_open r)
    && not (any (λ f. equal_fold f.severity "high" && is_open r) r.adversarial_findings)

abbrev report_satisfied : Option VerificationReport → Bool
unfolding review_satisfied
report_satisfied none = false
report_satisfied (some report) = review_satisfied report.adversarial_review

unfoldable pub adversarial_check_passed : Option VerificationReport → String → Bool
unfolding report_satisfied requires_adversarial_check
adversarial_check_passed report risk =
    if requires_adversarial_check risk then report_satisfied report else true

-- `a + b`
pub append_text : String → String → String
append_text String.[] t = t
append_text (String.◌∷◌ c s) t = String.◌∷◌ c (append_text s t)

digit : ℕ → String
digit n =
    if eqb n 0
    then "0"
    else if eqb n 1
    then "1"
    else if eqb n 2
    then "2"
    else if eqb n 3
    then "3"
    else if eqb n 4
    then "4"
    else if eqb n 5
    then "5"
    else if eqb n 6
    then "6"
    else if eqb n 7
    then "7"
    else if eqb n 8
    then "8"
    else "9"

-- `%d` of a natural number; a number has fewer digits than its successor.
decimal : ℕ → ℕ → String
unfolding digit append_text
decimal zero n = ""
decimal (suc fuel) n =
    let front = decimal fuel (n / 10) in
    if ltb n 10 then digit n else append_text front (digit (n % 10))

-- `for existingIDs[id] { id += "_retry" }`
pub free_id : ℕ → List String → String → String
unfolding append_text
free_id zero ids id = id
free_id (suc fuel) ids id =
    let next = free_id fuel ids (append_text id "_retry") in if contains ids id then next else id

-- The loop's variables. The two maps are lists of their keys.
pub record Appending : Type 0 where
  pub probes : List AcceptanceProbe
  pub descriptions : List String
  pub ids : List String
  pub appended : List String

pub new_id : ℕ → List String → String
unfolding decimal append_text free_id
new_id i ids = free_id (length ids + 1) ids (append_text "adversarial_" (decimal (i + 2) (i + 1)))

abbrev pub new_probe : String → String → String → String → AcceptanceProbe
new_probe evidence_type id description risk = record {
  id = id;
  description = description;
  probe_type = "negative_assertion";
  command = "";
  required_evidence = evidence_type ∷ [];
  observable_side_effect = "adversarial follow-up evidence";
  negative_assertion = risk;
}

-- The body of the loop, for the finding at an index.
pub append_finding : String → ℕ → AdversarialFinding → Appending → Appending
unfolding new_id
append_finding evidence_type i f s =
    let description = trim f.suggested_probe in
    let id = new_id i s.ids in
    if description == "" || contains s.descriptions description then s else record {
      probes = s.probes ++ (new_probe evidence_type id description f.risk ∷ []);
      descriptions = description ∷ s.descriptions;
      ids = id ∷ s.ids;
      appended = s.appended ++ (id ∷ []);
    }

pub append_findings : String → ℕ → List AdversarialFinding → Appending → Appending
unfolding append_finding
append_findings evidence_type i [] s = s
append_findings evidence_type i (f ∷ rest) s =
    append_findings evidence_type (i + 1) rest (append_finding evidence_type i f s)

-- The first required artifact, and the required artifacts with one in any case.
abbrev evidence_type_of : List String → String
evidence_type_of [] = "cli_transcript"
evidence_type_of (t ∷ rest) = t

abbrev with_artifact : List String → List String
with_artifact [] = "cli_transcript" ∷ []
with_artifact (t ∷ rest) = t ∷ rest

abbrev pub start : AcceptanceCriterion → Appending
start c = record {
  probes = c.probes;
  descriptions = map (λ p. trim p.description) c.probes;
  ids = map (λ p. p.id) c.probes;
  appended = [];
}

append_first : AcceptanceCriterion → AdversarialReview → Appending
unfolding append_findings
append_first c r =
    append_findings (evidence_type_of c.required_artifacts) 0 r.adversarial_findings (start c)

append_to :
    AcceptanceSpec → AdversarialReview → List AcceptanceCriterion → AcceptanceSpec × List String
unfolding append_first
append_to spec r [] = (spec, [])
append_to spec r (c ∷ rest) =
    let s = append_first c r in
    let c' = record c {
      probes = s.probes;
      required_artifacts = with_artifact c.required_artifacts;
    } in
    if is_empty r.adversarial_findings
    then (spec, [])
    else (record spec { criteria = c' ∷ rest }, s.appended)

-- The specification as it is left, and the ids that are returned. A call without a specification or
-- a review does nothing.
pub append_adversarial_probes : AcceptanceSpec → AdversarialReview → AcceptanceSpec × List String
unfolding append_to
append_adversarial_probes spec r = append_to spec r spec.criteria
