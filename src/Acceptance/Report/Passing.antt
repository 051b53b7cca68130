-- ===== src/Acceptance/Report/Passing.antt =====
-- What a report that passes has shown, criterion by criterion.
use mathlib.Core.List.{Memᴰ}
use clankwork.Base.{
  ap, sym, ◌∙◌, ◌≡◌, inl, inr, refl, String, Bool, true, false, not, ◌&&◌, Option, none, some, List,
  [], ◌∷◌, ◌==◌, ==_iff, any, any-eq-false, All, All-map, All-mem, All-of_mem, is_empty, arith,
  Bool-cases, Option-cases, if◌then◌else◌,
}
use clankwork.Acceptance.{AcceptanceCriterion, AcceptanceSpec}
use clankwork.Acceptance.Checks.{
  Problem, check-none, or_else-none, first_problem, first_problem-none, or_else,
}
use clankwork.Acceptance.Report.{
  given_review_problem, VerificationResult, VerificationReport, result_problem, criterion_problem,
  spec_problem, last_result, is_pass, all_pass, report_pass, report_problem, Checked, invalid,
  valid, settle, validate_verification_report,
}
use clankwork.Acceptance.Report.Laws.{IsShown, result-IsVouched, passed-shown}

some_inj : (r x : VerificationResult) → some r ≡ some x → r ≡ x
some_inj r x e = ap (or_first r) e
  where
    or_first : VerificationResult → Option VerificationResult → VerificationResult
    or_first d none = d
    or_first d (some y) = y

last_result-mem :
    (l : List VerificationResult) (id : String) (r : VerificationResult)
    → last_result l id ≡ some r
    → Memᴰ r l × (r.criterion_id ≡ id)
unfolding last_result
last_result-mem [] id r h = cc
last_result-mem (x ∷ rest) id r h = elim (Option-cases (last_result rest id)) [
  | inr (later, e) ↦
      let same : some later ≡ some r = rw e at h in
      let (m, q) = last_result-mem rest id r (e ∙ same) in (Memᴰ.tail m, q)
  | inl e ↦
      let here : (if x.criterion_id == id then some x else none) ≡ some r = rw e at h in
      elim (Bool-cases (x.criterion_id == id)) [
        | inr p ↦ cc (rw p at here)
        | inl p ↦
            let same : some x ≡ some r = rw p at here in
            let eq : r ≡ x = some_inj r x (sym same) in
            (
              Memᴰ.head eq,
              ap (λ (y : VerificationResult). y.criterion_id) eq ∙ (==_iff x.criterion_id id).0 p,
            )
      ]
]

criterion-IsShown :
    (spec : Option AcceptanceSpec) (results : List VerificationResult) (c : AcceptanceCriterion)
    (o : Option VerificationResult)
    → last_result results c.id ≡ o
    → All (λ r. result_problem spec r ≡ none) results
    → is_pass o ≡ true
    → criterion_problem c o ≡ none
    → IsShown results c
unfolding criterion_problem
criterion-IsShown spec results c none e all p h = cc p
criterion-IsShown spec results c (some r) e all p h =
    let (m, id) = last_result-mem results c.id r e in
    let v = result-IsVouched spec r (All-mem (λ x. result_problem spec x ≡ none) results r all m) in
    let (a, b) = passed-shown c r.evidence v (rw p at h) in
    (r, m, id, (==_iff r.status "pass").0 p, a, b)

settle-valid : (o : Option Problem) (b c : Bool) → settle o b ≡ valid c → (o ≡ none) × (b ≡ c)
unfolding settle
settle-valid none b c h = (refl, ap (or_pass b) h)
  where
    or_pass : Bool → Checked → Bool
    or_pass d (invalid p) = d
    or_pass d (valid x) = x
settle-valid (some p) b c h = cc h

results_pass :
    (spec : Option AcceptanceSpec) (r : VerificationResult)
    → result_problem spec r ≡ none
    → (r.status == "fail") ≡ false
    → r.status ≡ "pass"
unfolding result_problem
results_pass spec r h f =
    let (a, h1) = (check-none (r.criterion_id == "") _ _).0 h in
    let (b, h2) = (check-none (not (r.status == "pass") && not (r.status == "fail")) _ _).0 h1 in
    (==_iff r.status "pass").0 (ground (arith, b, f))

empty-eq : {A : Type 0} (l : List A) → is_empty l ≡ true → l ≡ []
empty-eq [] h = refl
empty-eq (x ∷ l) h = cc h

all_pass-All :
    (spec : AcceptanceSpec) (results : List VerificationResult)
    → all_pass (some spec) results ≡ true
    → All (λ c. is_pass (last_result results c.id) ≡ true) spec.criteria
all_pass-All spec results h =
    let p : AcceptanceCriterion → Bool = λ c. not (is_pass (last_result results c.id)) in
    All-map (λ c. p c ≡ false) (λ c. is_pass (last_result results c.id) ≡ true) spec.criteria
      (λ c q. not_not (is_pass (last_result results c.id)) q)
      (any-eq-false p spec.criteria (not_true (any p spec.criteria) h))
  where
    not_not : (b : Bool) → not b ≡ false → b ≡ true
    not_not b h = ground arith

    not_true : (b : Bool) → not b ≡ true → b ≡ false
    not_true b h = ground arith

criteria-IsShown :
    (spec : AcceptanceSpec) (results : List VerificationResult) (l : List AcceptanceCriterion)
    → All (λ r. result_problem (some spec) r ≡ none) results
    → All (λ c. is_pass (last_result results c.id) ≡ true) l
    → All (λ c. criterion_problem c (last_result results c.id) ≡ none) l
    → All (IsShown results) l
criteria-IsShown spec results [] all p h = tt
criteria-IsShown spec results (c ∷ l) all p h = (
  criterion-IsShown (some spec) results c (last_result results c.id) refl all p.0 h.0,
  criteria-IsShown spec results l all p.1 h.1,
)

-- Of a report without an error, its results and the criteria have none.
report_problem-none :
    (report : VerificationReport) (task : String) (spec : AcceptanceSpec)
    → report_problem report task (some spec) ≡ none
    → All (λ r. result_problem (some spec) r ≡ none) report.results
      × All (λ c. criterion_problem c (last_result report.results c.id) ≡ none) spec.criteria
unfolding report_problem spec_problem
report_problem-none report task spec h =
    let f : AcceptanceCriterion → Option Problem =
      λ c. criterion_problem c (last_result report.results c.id) in
    let loop = first_problem (result_problem (some spec)) report.results in
    let rest = or_else loop (first_problem f spec.criteria) in
    let review = given_review_problem report.adversarial_review task in
    let (a, h1) = (check-none (not (report.task_id == task)) _ _).0 h in
    let (b, h2) = (check-none (is_empty report.results) _ _).0 h1 in
    let (c, h3) = (check-none (report.confidence == "") _ (or_else review rest)).0 h2 in
    let (d, h4) = (or_else-none review rest).0 h3 in
    let (e, h5) = (or_else-none loop (first_problem f spec.criteria)).0 h4 in
    (
      (first_problem-none (result_problem (some spec)) report.results).0 e,
      (first_problem-none f spec.criteria).0 h5,
    )

-- A report that passes for a specification names no failure, all its results are passes, and for
-- each criterion one of them has evidence of every artifact type that the criterion requires and,
-- for every probe, linked evidence of every type that the probe requires; and all that evidence is
-- the verifier's own, with its origin and with a content hash that is no placeholder where it names
-- a file.
pub report_passes :
    (report : VerificationReport) (task : String) (spec : AcceptanceSpec)
    → validate_verification_report (some report) task (some spec) ≡ valid true
    → (report.failures ≡ [])
      × All (λ r. r.status ≡ "pass") report.results
      × All (IsShown report.results) spec.criteria
unfolding validate_verification_report report_pass
report_passes report task spec h =
    let (p, pass) = settle-valid (report_problem report task (some spec)) _ true h in
    let (results, criteria) = report_problem-none report task spec p in
    let failed : VerificationResult → Bool = λ r. r.status == "fail" in
    let (e, n, c) =
      three (is_empty report.failures) (any failed report.results)
        (all_pass (some spec) report.results) pass in
    (
      empty-eq report.failures e,
      All-of_mem (λ r. r.status ≡ "pass") report.results
          (λ r m.
            results_pass (some spec) r
              (All-mem (λ x. result_problem (some spec) x ≡ none) report.results r results m)
              (All-mem (λ x. failed x ≡ false) report.results r
                (any-eq-false failed report.results n) m)),
      criteria-IsShown spec report.results spec.criteria results
          (all_pass-All spec report.results c) criteria,
    )
  where
    three : (a b c : Bool) → (a && not b && c) ≡ true → (a ≡ true) × (b ≡ false) × (c ≡ true)
    three a b c h = (ground arith, ground arith, ground arith)
