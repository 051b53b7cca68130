-- ===== src/Acceptance/References/Laws.antt =====
-- What ValidateArtifactReferences has checked of the evidence of a report that it accepts.
use mathlib.Core.List.{Memᴰ}
use mathlib.Core.Option.{some-injective}
use clankwork.Base.{
  ◌≡◌, sym, ap, ◌∙◌, ◌⊎◌, inl, inr, String, false, not, ◌&&◌, Option, none, some, List, [], ◌∷◌,
  ◌==◌, ==_iff, All, All-map, arith, Bool-cases, Option-cases,
}
use clankwork.Acceptance.{Evidence}
use clankwork.Acceptance.Report.{AdversarialReview, VerificationResult, VerificationReport}
use clankwork.Acceptance.Checks.{
  Problem, artifact_unknown, check-none, or_else-none, first_problem-none, first_problem,
}
use clankwork.Acceptance.References.{
  Artifact, find_artifact, registered_problem, evidence_reference, followup_reference,
  command_problem, result_references, review_references, validate_artifact_references,
}

-- An artifact of the registry with the id and the type of the evidence, of the same task, that is not
-- invalidated, and has the path of the evidence where that has one.
abbrev pub IsRegistered : List (Option Artifact) → String → Evidence → Type 0
IsRegistered artifacts task e =
    (a : Artifact) × Memᴰ (some a) artifacts
    × (a.id ≡ e.artifact_id)
    × (a.task_id ≡ task)
    × ((a.status == "invalidated") ≡ false)
    × (a.artifact_type ≡ e.evidence_type)
    × ((e.path ≡ "") ⊎ (a.path ≡ e.path))

find_artifact-mem :
    (artifacts : List (Option Artifact)) (id : String) (a : Artifact)
    → find_artifact artifacts id ≡ some a
    → Memᴰ (some a) artifacts × (a.id ≡ id)
unfolding find_artifact
find_artifact-mem [] id a h = cc
find_artifact-mem (none ∷ rest) id a h =
    let (m, e) = find_artifact-mem rest id a h in (Memᴰ.tail m, e)
find_artifact-mem (some b ∷ rest) id a h = elim (Option-cases (find_artifact rest id)) [
  | inr (c, f) ↦
      let later : some c ≡ some a = rw (find_artifact, f) at h in
      let (m, e) = find_artifact-mem rest id a (f ∙ later) in (Memᴰ.tail m, e)
  | inl f ↦ elim (Bool-cases (b.id == id)) [
    | inl q ↦
        let here : some b ≡ some a = rw (find_artifact, f, q) at h in
        (
          Memᴰ.head (sym here),
          ap (λ (x : Artifact). x.id) (some-injective _ _ (sym here)) ∙ (==_iff b.id id).0 q,
        )
    | inr q ↦ let gone : none ≡ some a = rw (find_artifact, f, q) at h in cc
  ]
]

registered_problem-IsRegistered :
    (artifacts : List (Option Artifact)) (task : String) (e : Evidence) (a : Artifact)
    (rest : Option Problem)
    → find_artifact artifacts e.artifact_id ≡ some a
    → registered_problem task e a rest ≡ none
    → IsRegistered artifacts task e
unfolding registered_problem
registered_problem-IsRegistered artifacts task e a rest f h =
    let (m, i) = find_artifact-mem artifacts e.artifact_id a f in
    let (t, h1) = (check-none (not (a.task_id == task)) _ _).0 h in
    let (s, h2) = (check-none (a.status == "invalidated") _ _).0 h1 in
    let (y, h3) = (check-none (not (a.artifact_type == e.evidence_type)) _ _).0 h2 in
    let (p, h4) = (check-none (not (e.path == "") && not (a.path == e.path)) _ _).0 h3 in
    (
      a,
      m,
      i,
      ground (arith, t, ==_iff a.task_id task),
      s,
      ground (arith, y, ==_iff a.artifact_type e.evidence_type),
      same_path e.path a.path p,
    )
  where
    same_path : (p q : String) → (not (p == "") && not (q == p)) ≡ false → (p ≡ "") ⊎ (q ≡ p)
    same_path p q h = elim (Bool-cases (p == "")) [
      | inl b ↦ inl ((==_iff p "").0 b)
      | inr b ↦ inr ((==_iff q p).0 (ground (arith, h, b)))
    ]

evidence-IsRegistered :
    (artifacts : List (Option Artifact)) (task : String) (e : Evidence)
    → evidence_reference task e (find_artifact artifacts e.artifact_id) ≡ none
    → IsRegistered artifacts task e
unfolding evidence_reference
evidence-IsRegistered artifacts task e h =
    elim (Option-cases (find_artifact artifacts e.artifact_id)) [
      | inl f ↦ let gone : some artifact_unknown ≡ none = rw (f) at h in cc
      | inr (a, f) ↦
          registered_problem-IsRegistered artifacts task e a (command_problem e a) f (rw (f) at h)
    ]

followup-IsRegistered :
    (artifacts : List (Option Artifact)) (task : String) (e : Evidence)
    → followup_reference task e (find_artifact artifacts e.artifact_id) ≡ none
    → IsRegistered artifacts task e
unfolding followup_reference
followup-IsRegistered artifacts task e h =
    elim (Option-cases (find_artifact artifacts e.artifact_id)) [
      | inl f ↦ let gone : some artifact_unknown ≡ none = rw (f) at h in cc
      | inr (a, f) ↦ registered_problem-IsRegistered artifacts task e a none f (rw (f) at h)
    ]

result-IsRegistered :
    (artifacts : List (Option Artifact)) (task : String) (r : VerificationResult)
    → result_references artifacts task r ≡ none
    → All (IsRegistered artifacts task) r.evidence
unfolding result_references
result-IsRegistered artifacts task r h =
    let f : Evidence → Option Problem =
      λ e. evidence_reference task e (find_artifact artifacts e.artifact_id) in
    All-map (λ e. f e ≡ none) (IsRegistered artifacts task) r.evidence
      (evidence-IsRegistered artifacts task) ((first_problem-none f r.evidence).0 h)

-- The evidence of a review, if there is one.
abbrev pub followups : Option AdversarialReview → List Evidence
followups none = []
followups (some r) = r.followup_evidence

review-IsRegistered :
    (artifacts : List (Option Artifact)) (task : String) (o : Option AdversarialReview)
    → review_references artifacts task o ≡ none
    → All (IsRegistered artifacts task) (followups o)
unfolding review_references
review-IsRegistered artifacts task none h = tt
review-IsRegistered artifacts task (some r) h =
    let f : Evidence → Option Problem =
      λ e. followup_reference task e (find_artifact artifacts e.artifact_id) in
    All-map (λ e. f e ≡ none) (IsRegistered artifacts task) r.followup_evidence
      (followup-IsRegistered artifacts task) ((first_problem-none f r.followup_evidence).0 h)

-- In a report whose references are accepted, the evidence of every result and of the adversarial
-- review names an artifact of the registry that is of the report's task and of the type that the
-- evidence claims, is not invalidated, and has the path of the evidence where that gives one.
pub validate_artifact_references-IsRegistered :
    (report : VerificationReport) (artifacts : List (Option Artifact))
    → validate_artifact_references (some report) artifacts ≡ none
    → All (λ r. All (IsRegistered artifacts report.task_id) r.evidence) report.results
      × All (IsRegistered artifacts report.task_id) (followups report.adversarial_review)
unfolding validate_artifact_references
validate_artifact_references-IsRegistered report artifacts h =
    let f : VerificationResult → Option Problem = result_references artifacts report.task_id in
    let (results, review) = (or_else-none (first_problem f report.results) _).0 h in
    (
      All-map (λ r. f r ≡ none) (λ r. All (IsRegistered artifacts report.task_id) r.evidence)
          report.results (result-IsRegistered artifacts report.task_id)
          ((first_problem-none f report.results).0 results),
      review-IsRegistered artifacts report.task_id report.adversarial_review review,
    )
