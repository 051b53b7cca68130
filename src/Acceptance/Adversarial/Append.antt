-- ===== src/Acceptance/Adversarial/Append.antt =====
-- What AppendAdversarialProbes leaves.
use mathlib.Core.List.{Memᴰ}
use clankwork.Base.{
  sym, ◌∙◌, ◌≡◌, inl, inr, refl, ℕ, ◌+◌, String, Bool, true, false, ◌||◌, List, [], ◌∷◌, ◌++◌, ◌==◌,
  ==_iff, All, All-map, contains, map, is_empty, arith, Bool-cases, if-elim,
}
use clankwork.Base.Lists.{mem-append_left, mem-append_right}
use clankwork.Acceptance.{AcceptanceProbe, AcceptanceCriterion, AcceptanceSpec, trim}
use clankwork.Acceptance.Report.{AdversarialFinding, AdversarialReview}
use clankwork.Acceptance.Adversarial.{
  new_id, Appending, new_probe, append_finding, append_findings, start, append_first, append_to,
  append_adversarial_probes, evidence_type_of, with_artifact,
}
use clankwork.Acceptance.Adversarial.Laws.{new_id-free}

abbrev pub has_id : List AcceptanceProbe → String → Bool
has_id [] id = false
has_id (p ∷ rest) id = p.id == id || has_id rest id

-- No two probes have one id.
abbrev pub DistinctProbes : List AcceptanceProbe → Type 0
DistinctProbes [] = Unit
DistinctProbes (p ∷ rest) = (has_id rest p.id ≡ false) × DistinctProbes rest

-- A probe of the list with this id, and it has no command.
abbrev pub IsAppended : List AcceptanceProbe → String → Type 0
IsAppended probes id = (p : AcceptanceProbe) × Memᴰ p probes × (p.id ≡ id) × (p.command ≡ "")

has_id-append :
    (xs ys : List AcceptanceProbe) (id : String)
    → has_id (xs ++ ys) id ≡ (has_id xs id || has_id ys id)
has_id-append [] ys id = refl
has_id-append (p ∷ xs) ys id = ground (arith, has_id-append xs ys id)

distinct-snoc :
    (xs : List AcceptanceProbe) (p : AcceptanceProbe)
    → DistinctProbes xs
    → has_id xs p.id ≡ false
    → DistinctProbes (xs ++ (p ∷ []))
distinct-snoc [] p d h = (refl, tt)
distinct-snoc (x ∷ xs) p (here, d) h = (
  has_id-append xs (p ∷ []) x.id ∙ ground (arith, here, h, ==_iff x.id p.id, ==_iff p.id x.id),
  distinct-snoc xs p d (ground (arith, h)),
)

All-append {ℓ} :
    {A : Type 0} (P : A → Type ℓ) (xs ys : List A) → All P xs → All P ys → All P (xs ++ ys)
All-append P [] ys h k = k
All-append P (x ∷ xs) ys h k = (h.0, All-append P xs ys h.1 k)

-- The loop's invariant, for the probes that were there before it.
abbrev Good : List AcceptanceProbe → Appending → Type 0
Good old s =
    DistinctProbes s.probes
    × ((id : String) → contains s.ids id ≡ has_id s.probes id)
    × ((id : String) → has_id old id ≡ true → has_id s.probes id ≡ true)
    × All (IsAppended s.probes) s.appended
    × All (λ id. has_id old id ≡ false) s.appended

old_free :
    (old : List AcceptanceProbe) (s : Appending) (id : String)
    → ((j : String) → has_id old j ≡ true → has_id s.probes j ≡ true)
    → has_id s.probes id ≡ false
    → has_id old id ≡ false
old_free old s id keep h = elim (Bool-cases (has_id old id)) [
  | inr p ↦ p
  | inl p ↦ cc (keep id p, h)
]

appended_one :
    (old : List AcceptanceProbe) (s : Appending) (id : String) (p : AcceptanceProbe)
    (ds : List String)
    → Good old s
    → contains s.ids id ≡ false
    → p.id ≡ id
    → p.command ≡ ""
    → Good old (record {
      probes = s.probes ++ (p ∷ []);
      descriptions = ds;
      ids = id ∷ s.ids;
      appended = s.appended ++ (id ∷ []);
    })
appended_one old s id p ds (d, same, keep, here, new) free e c =
    let free' : has_id s.probes p.id ≡ false = ground (arith, free, same id, e) in
    (
      distinct-snoc s.probes p d free',
      λ j. sym (has_id-append s.probes (p ∷ []) j ∙ ground (arith, same j, e)),
      λ j h. has_id-append s.probes (p ∷ []) j ∙ ground (arith, keep j h),
      All-append (IsAppended (s.probes ++ (p ∷ []))) s.appended (id ∷ [])
          (All-map (IsAppended s.probes) (IsAppended (s.probes ++ (p ∷ []))) s.appended
            (λ j (q, m, f, g). (q, mem-append_left q s.probes (p ∷ []) m, f, g)) here)
          ((p, mem-append_right p s.probes (p ∷ []) (Memᴰ.head refl), e, c), tt),
      All-append (λ j. has_id old j ≡ false) s.appended (id ∷ []) new
          (old_free old s id keep (sym (same id) ∙ free), tt),
    )

append_finding-Good :
    (old : List AcceptanceProbe) (t : String) (i : ℕ) (f : AdversarialFinding) (s : Appending)
    → Good old s
    → Good old (append_finding t i f s)
unfolding append_finding
append_finding-Good old t i f s good = if-elim (Good old) _ _ _ good (
    appended_one old s (new_id i s.ids)
      (new_probe t (new_id i s.ids) (trim f.suggested_probe) f.risk)
      (trim f.suggested_probe ∷ s.descriptions) good (new_id-free i s.ids) refl refl)

append_findings-Good :
    (old : List AcceptanceProbe) (t : String) (i : ℕ) (l : List AdversarialFinding) (s : Appending)
    → Good old s
    → Good old (append_findings t i l s)
unfolding append_findings
append_findings-Good old t i [] s good = good
append_findings-Good old t i (f ∷ rest) s good =
    append_findings-Good old t (i + 1) rest (append_finding t i f s)
      (append_finding-Good old t i f s good)

contains-ids :
    (l : List AcceptanceProbe) (id : String) → contains (map (λ p. p.id) l) id ≡ has_id l id
contains-ids [] id = refl
contains-ids (p ∷ l) id = ground (arith, contains-ids l id)

start-Good : (c : AcceptanceCriterion) → DistinctProbes c.probes → Good c.probes (start c)
start-Good c d = (d, contains-ids c.probes, λ id h. h, tt, tt)

-- Where the probes of the first criterion have different ids, they still have after the review's
-- probes are appended; the ids that are returned are new ones, and each is that of a probe of the
-- criterion, which has no command. The other criteria are as they were.
pub append_adversarial_probes-Fresh :
    (spec : AcceptanceSpec) (c : AcceptanceCriterion) (rest : List AcceptanceCriterion)
    (r : AdversarialReview)
    → spec.criteria ≡ (c ∷ rest)
    → DistinctProbes c.probes
    → (c' : AcceptanceCriterion) × ((append_adversarial_probes spec r).0.criteria ≡ (c' ∷ rest))
      × DistinctProbes c'.probes
      × All (IsAppended c'.probes) (append_adversarial_probes spec r).1
      × All (λ id. has_id c.probes id ≡ false) (append_adversarial_probes spec r).1
unfolding append_adversarial_probes append_to append_first
append_adversarial_probes-Fresh spec c rest r e d =
    let s = append_first c r in
    let (d', _, _, here, new) =
      append_findings-Good c.probes (evidence_type_of c.required_artifacts) 0 r.adversarial_findings
        (start c) (start-Good c d) in
    elim (Bool-cases (is_empty r.adversarial_findings)) [
      | inl p ↦ rw (e, p) (c, refl, d, tt, tt)
      | inr p ↦
          rw (e, p)
            (
              record c {
                probes = s.probes;
                required_artifacts = with_artifact c.required_artifacts;
              },
              refl,
              d',
              here,
              new,
            )
    ]
