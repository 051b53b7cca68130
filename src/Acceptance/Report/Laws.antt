-- ===== src/Acceptance/Report/Laws.antt =====
-- What a report that passes has shown.
use mathlib.Core.List.{Memᴰ}
use clankwork.Base.{
  ◌≡◌, ◌⊎◌, String, Bool, true, false, not, ◌&&◌, Option, none, List, ◌==◌, ==_iff, any,
  any-eq-true, All, All-map, All-mem, is_empty, arith,
}
use clankwork.Acceptance.{
  AcceptanceProbe, AcceptanceCriterion, AcceptanceSpec, Evidence, is_blank,
  is_verifier_evidence_producer, is_placeholder_hash,
}
use clankwork.Acceptance.Checks.{
  evidence_type_missing, probe_evidence_missing, Problem, check-none, or_else-none, first_problem,
  first_problem-none, check,
}
use clankwork.Acceptance.Report.{
  VerificationResult, provenance_problem, evidence_problem, result_problem, is_linked,
  is_linked_type, probe_evidence_problem, passed_problem,
}

-- Evidence that the verifier vouches for: produced by it, with its origin, its link to a probe or a
-- command, and a content hash that is no placeholder where it names a file.
abbrev pub IsVouched : Evidence → Type 0
IsVouched e =
    (is_verifier_evidence_producer e.producer_role ≡ true)
    × (e.authoritative ≡ true)
    × (is_blank e.producer_step ≡ false)
    × (is_blank e.timestamp ≡ false)
    × ((is_blank e.path ≡ true) ⊎ (is_blank e.content_hash ≡ false))
    × (is_placeholder_hash e.content_hash ≡ false)

abbrev pub Shows : List Evidence → String → Type 0
Shows evidence t = (e : Evidence) × Memᴰ e evidence × (e.evidence_type ≡ t) × IsVouched e

abbrev pub ShowsProbe : List Evidence → String → String → Type 0
ShowsProbe evidence probe t =
    (e : Evidence) × Memᴰ e evidence × (e.probe_id ≡ probe) × (e.evidence_type ≡ t) × IsVouched e

-- A passing result of the report with all the evidence that the criterion asks for.
abbrev pub IsShown : List VerificationResult → AcceptanceCriterion → Type 0
IsShown results c =
    (r : VerificationResult) × Memᴰ r results
    × (r.criterion_id ≡ c.id)
    × (r.status ≡ "pass")
    × All (Shows r.evidence) c.required_artifacts
    × All (λ p. All (ShowsProbe r.evidence p.id) p.required_evidence) c.probes

provenance-IsVouched :
    (e : Evidence)
    → provenance_problem e ≡ none
    → is_verifier_evidence_producer e.producer_role ≡ true
    → IsVouched e
unfolding provenance_problem
provenance-IsVouched e h role =
    let (step, h1) = (check-none (is_blank e.producer_step) _ _).0 h in
    let (r, h2) = (check-none (is_blank e.producer_role) _ _).0 h1 in
    let (stamp, h3) = (check-none (is_blank e.timestamp) _ _).0 h2 in
    let (link, h4) = (check-none (is_blank e.probe_id && is_blank e.command) _ _).0 h3 in
    let (hash, h5) = (check-none (not (is_blank e.path) && is_blank e.content_hash) _ _).0 h4 in
    let (auth, h6) = (check-none (not e.authoritative) _ _).0 h5 in
    let (fake, h7) = (check-none (is_placeholder_hash e.content_hash) _ _).0 h6 in
    (
      role,
      ground (arith, auth),
      step,
      stamp,
      path_or_hash (is_blank e.path) (is_blank e.content_hash) hash,
      fake,
    )
  where
    path_or_hash : (p q : Bool) → (not p && q) ≡ false → (p ≡ true) ⊎ (q ≡ false)
    path_or_hash p q h = ground arith

evidence-IsVouched :
    (spec : Option AcceptanceSpec) (criterion : String) (e : Evidence)
    → evidence_problem spec criterion e ≡ none
    → IsVouched e
unfolding evidence_problem
evidence-IsVouched spec criterion e h =
    let (a, h1) = (check-none (is_blank e.artifact_id) _ _).0 h in
    let (t, h2) = (check-none (e.evidence_type == "") _ _).0 h1 in
    let (p, h3) = (or_else-none (provenance_problem e) _).0 h2 in
    let (role, h4) = (check-none (not (is_verifier_evidence_producer e.producer_role)) _ _).0 h3 in
    provenance-IsVouched e p (ground (arith, role))

pub result-IsVouched :
    (spec : Option AcceptanceSpec) (r : VerificationResult)
    → result_problem spec r ≡ none
    → All IsVouched r.evidence
unfolding result_problem
result-IsVouched spec r h =
    let loop = first_problem (evidence_problem spec r.criterion_id) r.evidence in
    let (a, h1) = (check-none (r.criterion_id == "") _ _).0 h in
    let (b, h2) = (check-none (not (r.status == "pass") && not (r.status == "fail")) _ _).0 h1 in
    let (c, h3) = (check-none (r.status == "pass" && is_empty r.evidence) _ loop).0 h2 in
    All-map (λ e. evidence_problem spec r.criterion_id e ≡ none) IsVouched r.evidence
      (evidence-IsVouched spec r.criterion_id)
      ((first_problem-none (evidence_problem spec r.criterion_id) r.evidence).0 h3)

type-shown :
    (evidence : List Evidence) (t : String)
    → All IsVouched evidence
    → any (λ e. e.evidence_type == t) evidence ≡ true
    → Shows evidence t
type-shown evidence t v h =
    let (e, m, q) = any-eq-true (λ (e : Evidence). e.evidence_type == t) evidence h in
    (e, m, (==_iff e.evidence_type t).0 q, All-mem IsVouched evidence e v m)

probe_type-shown :
    (evidence : List Evidence) (probe t : String)
    → All IsVouched evidence
    → any (is_linked_type probe t) evidence ≡ true
    → ShowsProbe evidence probe t
probe_type-shown evidence probe t v h =
    let (e, m, q) = any-eq-true (is_linked_type probe t) evidence h in
    (
      e,
      m,
      (==_iff e.probe_id probe).0 (ground arith),
      (==_iff e.evidence_type t).0 (ground arith),
      All-mem IsVouched evidence e v m,
    )

probe-shown :
    (evidence : List Evidence) (p : AcceptanceProbe)
    → All IsVouched evidence
    → probe_evidence_problem evidence p ≡ none
    → All (ShowsProbe evidence p.id) p.required_evidence
unfolding probe_evidence_problem
probe-shown evidence p v h =
    let f : String → Option Problem =
      λ t. check (not (any (is_linked_type p.id t) evidence)) probe_evidence_missing none in
    let (a, h1) =
      (check-none (not (any (is_linked p.id) evidence)) _ (first_problem f p.required_evidence)).0
        h in
    All-map (λ t. f t ≡ none) (ShowsProbe evidence p.id) p.required_evidence
      (λ t q.
        probe_type-shown evidence p.id t v
          (ground (arith, (check-none (not (any (is_linked_type p.id t) evidence)) _ none).0 q)))
      ((first_problem-none f p.required_evidence).0 h1)

pub passed-shown :
    (c : AcceptanceCriterion) (evidence : List Evidence)
    → All IsVouched evidence
    → passed_problem c evidence ≡ none
    → All (Shows evidence) c.required_artifacts
      × All (λ p. All (ShowsProbe evidence p.id) p.required_evidence) c.probes
unfolding passed_problem
passed-shown c evidence v h =
    let f : String → Option Problem = λ t.
      check (not (any (λ (e : Evidence). e.evidence_type == t) evidence)) evidence_type_missing
        none in
    let (a, b) =
      (or_else-none (first_problem f c.required_artifacts)
          (first_problem (probe_evidence_problem evidence) c.probes)).0
        h in
    (
      All-map (λ t. f t ≡ none) (Shows evidence) c.required_artifacts
          (λ t q. type-shown evidence t v (
            ground (
              arith,
              (check-none (not (any (λ (e : Evidence). e.evidence_type == t) evidence)) _ none).0 q,
            )))
          ((first_problem-none f c.required_artifacts).0 a),
      All-map (λ p. probe_evidence_problem evidence p ≡ none)
          (λ p. All (ShowsProbe evidence p.id) p.required_evidence) c.probes
          (λ p. probe-shown evidence p v)
          ((first_problem-none (probe_evidence_problem evidence) c.probes).0 b),
    )
