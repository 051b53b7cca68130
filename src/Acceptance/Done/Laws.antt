-- ===== src/Acceptance/Done/Laws.antt =====
-- Which bundles ValidateDoneBundle accepts.
use mathlib.Core.Path.{subst, sym}
use mathlib.Core.Option.{some-injective}
use clankwork.Base.{
  ◌≡◌, ◌↔◌, refl, String, true, false, not, Option, none, some, List, [], ◌∷◌, ◌==◌, ==_iff, All,
  All-map, is_empty, arith,
}
use clankwork.Acceptance.{AcceptanceCriterion, AcceptanceSpec}
use clankwork.Acceptance.Report.{provenance_problem, last_criterion}
use clankwork.Acceptance.Checks.{
  Problem, check-none, or_else-none, first_problem-none, first_problem,
}
use clankwork.Acceptance.Done.{
  CompletionClaim, CompletionArtifact, DoneBundle, provenance_of, artifact_problem, has_type,
  has_type_for, type_problem, criterion_types, claim_in_spec, claim_problem, bundle_problem,
  validate_done_bundle,
}

-- A type and a path are given, and the provenance is in order.
abbrev pub IsProvided : CompletionArtifact → Type 0
IsProvided a =
    ((a.artifact_type == "") ≡ false)
    × ((a.path == "") ≡ false)
    × (provenance_problem (provenance_of a) ≡ none)

-- The criterion is one of the specification, and the bundle has an artifact of each type that it
-- requires, for whatever criterion.
abbrev pub IsBacked : AcceptanceSpec → List CompletionArtifact → CompletionClaim → Type 0
IsBacked spec artifacts claim =
    ((claim.criterion_id == "") ≡ false)
    × (claim.status ≡ "satisfied")
    × ((c : AcceptanceCriterion) × (last_criterion spec.criteria claim.criterion_id ≡ some c)
        × All (λ t. has_type artifacts t ≡ true) c.required_artifacts)

abbrev pub IsDone : DoneBundle → String → AcceptanceSpec → Type 0
IsDone b task spec =
    (b.task_id ≡ task)
    × ((b.summary == "") ≡ false)
    × (is_empty b.claims ≡ false)
    × (is_empty b.artifacts ≡ false)
    × All IsProvided b.artifacts
    × All (IsBacked spec b.artifacts) b.claims

has_type_for-has_type :
    (artifacts : List CompletionArtifact) (id t : String)
    → has_type_for artifacts id t ≡ true
    → has_type artifacts t ≡ true
has_type_for-has_type [] id t h = cc
has_type_for-has_type (a ∷ rest) id t h = ground (arith, has_type_for-has_type rest id t)

type_iff :
    (artifacts : List CompletionArtifact) (id t : String)
    → (type_problem artifacts id t ≡ none) ↔ (has_type artifacts t ≡ true)
unfolding type_problem
type_iff artifacts id t =
    let weaker = has_type_for-has_type artifacts id t in
    (λ h. ground (arith, weaker, h), λ h. ground (arith, h))

artifact_iff : (a : CompletionArtifact) → (artifact_problem a ≡ none) ↔ IsProvided a
unfolding artifact_problem
artifact_iff a =
    let outer = check-none (a.artifact_type == "") _ _ in
    let inner = check-none (a.path == "") _ _ in
    (
      λ h. let (t, h1) = outer.0 h in let (p, h2) = inner.0 h1 in (t, p, h2),
      λ (t, p, h). outer.1 (t, inner.1 (p, h)),
    )

-- A loop of tests finds no problem exactly if each element is in order.
loop_iff {ℓ κ} :
    {A : Type ℓ} (f : A → Option Problem) (P : A → Type κ) (xs : List A)
    → ((x : A) → (f x ≡ none) ↔ P x)
    → (first_problem f xs ≡ none) ↔ All P xs
loop_iff f P xs each = (
  λ h. All-map (λ x. f x ≡ none) P xs (λ x. (each x).0) ((first_problem-none f xs).0 h),
  λ h. (first_problem-none f xs).1 (All-map P (λ x. f x ≡ none) xs (λ x. (each x).1) h),
)

criterion_iff :
    (artifacts : List CompletionArtifact) (id : String) (o : Option AcceptanceCriterion)
    → (criterion_types artifacts id o ≡ none) ↔ (
        (c : AcceptanceCriterion) × (o ≡ some c)
        × All (λ t. has_type artifacts t ≡ true) c.required_artifacts)
unfolding criterion_types
criterion_iff artifacts id none = (λ h. cc, λ (c, e, a). cc)
criterion_iff artifacts id (some c) =
    let loop =
      loop_iff (type_problem artifacts id) (λ t. has_type artifacts t ≡ true) c.required_artifacts
        (type_iff artifacts id) in
    (
      λ h. (c, refl, loop.0 h),
      λ (d, e, all). loop.1 (
          subst
            (λ (x : AcceptanceCriterion).
              All (λ t. has_type artifacts t ≡ true) x.required_artifacts)
            (some-injective _ _ (sym e)) all),
    )

claim_iff :
    (spec : AcceptanceSpec) (artifacts : List CompletionArtifact) (claim : CompletionClaim)
    → (claim_problem (some spec) artifacts claim ≡ none) ↔ IsBacked spec artifacts claim
unfolding claim_problem claim_in_spec
claim_iff spec artifacts claim =
    let outer = check-none (claim.criterion_id == "") _ _ in
    let inner = check-none (not (claim.status == "satisfied")) _ _ in
    let types =
      criterion_iff artifacts claim.criterion_id
        (last_criterion spec.criteria claim.criterion_id) in
    (
      λ h.
          let (g, h1) = outer.0 h in
          let (s, h2) = inner.0 h1 in
          (g, ground (arith, s, ==_iff claim.status "satisfied"), types.0 h2),
      λ (g, s, h).
          outer.1 (g, inner.1 (ground (arith, s, ==_iff claim.status "satisfied"), types.1 h)),
    )

-- A bundle is accepted under a specification exactly if it is of the task, has a summary, a claim
-- and an artifact; each artifact has a type, a path and a provenance in order; and each claim is
-- satisfied and names a criterion of the specification such that the bundle has an artifact of each
-- type that the criterion requires, whichever criterion that artifact is linked to.
pub validate_done_bundle_iff :
    (b : DoneBundle) (task : String) (spec : AcceptanceSpec)
    → (validate_done_bundle (some b) task (some spec) ≡ none) ↔ IsDone b task spec
unfolding validate_done_bundle bundle_problem
validate_done_bundle_iff b task spec =
    let c1 = check-none (not (b.task_id == task)) _ _ in
    let c2 = check-none (b.summary == "") _ _ in
    let c3 = check-none (is_empty b.claims) _ _ in
    let c4 = check-none (is_empty b.artifacts) _ _ in
    let c5 = or_else-none (first_problem artifact_problem b.artifacts) _ in
    let provided = loop_iff artifact_problem IsProvided b.artifacts artifact_iff in
    let backed =
      loop_iff (claim_problem (some spec) b.artifacts) (IsBacked spec b.artifacts) b.claims
        (claim_iff spec b.artifacts) in
    (
      λ h.
          let (t, h1) = c1.0 h in
          let (s, h2) = c2.0 h1 in
          let (n, h3) = c3.0 h2 in
          let (m, h4) = c4.0 h3 in
          let (p, q) = c5.0 h4 in
          (ground (arith, t, ==_iff b.task_id task), s, n, m, provided.0 p, backed.0 q),
      λ (t, s, n, m, p, q). c1.1 (
        ground (arith, t, ==_iff b.task_id task),
        c2.1 (s, c3.1 (n, c4.1 (m, c5.1 (provided.1 p, backed.1 q)))),
      ),
    )
