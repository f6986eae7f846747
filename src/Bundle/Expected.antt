-- ===== src/Bundle/Expected.antt =====
-- The failures of an analysis that the pipeline allows: unresolved mandatory requirements.
use proofbid.Regex.{◌then◌}
use proofbid.Readiness.Gate.{blocked_by_items}
use proofbid.Readiness.{ValidationFinding, report_passed}
use proofbid.Prelude.{
  Bool, Bool-cases, List, String, [], all, all-append, and_true, arith, false, flat_map,
  if◌then◌else◌, inl, inr, list_eq, nat_eq, refl, text_eq, true, ◌++◌, ◌==◌, ◌||◌, ◌∷◌, ◌≡◌, any,
  select,
}
use proofbid.Contracts.{
  AnalysisBundle, Requirement, is_compliant, BomLine, ComplianceMatch, Deviation, EvidenceRef,
  MissingItem,
}
use proofbid.Bundle.Passing.{passes, all-passes, passes-blocker}
use proofbid.Bundle.{
  effective_status, finding, mandatory_findings, match_by_requirement, bom_findings,
  deviation_findings, evidence_findings, identifier_findings, line_has_proof, lineage_ok,
  match_findings, match_has_proof, one_match_finding, requirement_findings, validate_bundle,
}
use Prim.Native.Char.{code}

-- `finding.code in _EXPECTED_BUSINESS_BLOCKERS`
abbrev pub is_expected : ValidationFinding → Bool
is_expected f = f.code == "MANDATORY_REQUIREMENT_RESOLVED"

-- A finding that does not stop a run.
abbrev pub is_allowed : ValidationFinding → Bool
is_allowed f = passes f || is_expected f

-- Where findings are all allowed, they all pass.
pub record IsStrict (fs : List ValidationFinding) : Type 0 where
  pub strict : all is_allowed fs ≡ true → all passes fs ≡ true

pub append-IsStrict :
    (fs gs : List ValidationFinding) → IsStrict fs → IsStrict gs → IsStrict (fs ++ gs)
append-IsStrict fs gs h k = record {
  strict = λ all_allowed.
      let (a, b) =
        and_true (all is_allowed fs) (all is_allowed gs)
          (rw (all-append is_allowed fs gs) at all_allowed) in
      rw (all-append passes fs gs) (ground (arith, h.strict a, k.strict b));
}

pub flat_map-IsStrict :
    {A : Type 0} (f : A → List ValidationFinding) (xs : List A)
    → ((x : A) → IsStrict (f x))
    → IsStrict (flat_map f xs)
flat_map-IsStrict f [] h = record { strict = λ all_allowed. refl }
flat_map-IsStrict f (x ∷ xs) h =
    append-IsStrict (f x) (flat_map f xs) (h x) (flat_map-IsStrict f xs h)

-- A finding of another code.
other-IsStrict :
    (severity code : String) (passed : Bool)
    → (code == "MANDATORY_REQUIREMENT_RESOLVED") ≡ false
    → IsStrict (finding severity code passed ∷ [])
other-IsStrict severity code passed h = record { strict = λ all_allowed. ground (arith, h) }

pub when-IsStrict :
    (c : Bool) (fs : List ValidationFinding) → IsStrict fs → IsStrict (if c then fs else [])
when-IsStrict true fs h = h
when-IsStrict false fs h = record { strict = λ all_allowed. refl }

pub cons-IsStrict :
    (f : ValidationFinding) (fs : List ValidationFinding)
    → IsStrict (f ∷ [])
    → IsStrict fs
    → IsStrict (f ∷ fs)
cons-IsStrict f fs h k = append-IsStrict (f ∷ []) fs h k

any-select_none :
    {A : Type 0} (p q : A → Bool) (xs : List A) → any p xs ≡ false → any p (select q xs) ≡ false
any-select_none p q [] h = refl
any-select_none p q (x ∷ xs) h = ground (arith, any-select_none p q xs (ground arith))

-- An unresolved requirement needs a missing item that blocks completion.
mandatory-strict :
    (b : AnalysisBundle) (r : Requirement)
    → blocked_by_items b ≡ false
    → all is_allowed (mandatory_findings b r) ≡ true
    → all passes (mandatory_findings b r) ≡ true
unfolding mandatory_findings
mandatory-strict b r unblocked all_allowed =
    elim (Bool-cases (is_compliant (effective_status (match_by_requirement b r.req_id)))) [
      | inl c ↦ rw c refl
      | inr c ↦
          let declared =
            any (λ (i : MissingItem). i.blocks_completion)
              (select (λ (i : MissingItem). i.requirement_id == r.req_id) b.missing_items) in
          let undeclared : declared ≡ false =
            any-select_none (λ (i : MissingItem). i.blocks_completion)
              (λ (i : MissingItem). i.requirement_id == r.req_id) b.missing_items unblocked in
          let same = passes-blocker "MANDATORY_UNKNOWN_DECLARED" declared in
          absurd (ground (arith, undeclared, same, rw (mandatory_findings, c) at all_allowed))
    ]

mandatory-IsStrict :
    (b : AnalysisBundle) (r : Requirement)
    → blocked_by_items b ≡ false
    → IsStrict (mandatory_findings b r)
mandatory-IsStrict b r unblocked = record { strict = mandatory-strict b r unblocked }

requirement-IsStrict :
    (b : AnalysisBundle)
    → blocked_by_items b ≡ false
    → (r : Requirement) → IsStrict (requirement_findings b r)
unfolding requirement_findings
requirement-IsStrict b unblocked r =
    cons-IsStrict _ _
      (other-IsStrict "blocker" "REQUIREMENT_EVIDENCE_LINEAGE" (lineage_ok b r) refl)
      (when-IsStrict r.mandatory (mandatory_findings b r) (mandatory-IsStrict b r unblocked))

evidence-IsStrict : (e : EvidenceRef) → IsStrict (evidence_findings e)
unfolding evidence_findings
evidence-IsStrict e =
    cons-IsStrict _ _ (other-IsStrict "error" "EVIDENCE_SOURCE_COMPLETE" _ refl)
      (other-IsStrict "error" "EVIDENCE_EXCERPT_PRESENT" _ refl)

match-IsStrict : (b : AnalysisBundle) (m : ComplianceMatch) → IsStrict (match_findings b m)
unfolding match_findings
match-IsStrict b m =
    cons-IsStrict _ _ (other-IsStrict "error" "MATCH_REFERENCES_REQUIREMENT" _ refl) (
      when-IsStrict (is_compliant m.status) _
        (other-IsStrict "blocker" "COMPLIANT_MATCH_HAS_PROOF" (match_has_proof b m) refl))

bom-IsStrict : (b : AnalysisBundle) (l : BomLine) → IsStrict (bom_findings b l)
unfolding bom_findings
bom-IsStrict b l =
    append-IsStrict _ _
      (when-IsStrict (is_compliant l.status) _
        (other-IsStrict "blocker" "COMPLIANT_BOM_LINE_HAS_PROOF" (line_has_proof b l) refl))
      (other-IsStrict "error" "BOM_REFERENCES_REQUIREMENT" _ refl)

deviation-IsStrict : (d : Deviation) → IsStrict (deviation_findings d)
unfolding deviation_findings
deviation-IsStrict d = other-IsStrict "blocker" "DEVIATION_DOES_NOT_MASK_UNKNOWN" _ refl

identifier-IsStrict : (b : AnalysisBundle) → IsStrict (identifier_findings b)
unfolding identifier_findings
identifier-IsStrict b = cons-IsStrict _ _ (other-IsStrict "blocker" "REQUIREMENTS_PRESENT" _ refl) (
    cons-IsStrict _ _ (other-IsStrict "error" "REQUIREMENT_IDS_UNIQUE" _ refl)
      (other-IsStrict "error" "EVIDENCE_IDS_UNIQUE" _ refl))

-- Where nothing blocks completion, and all findings are allowed, the report has passed.
pub validate_bundle-IsStrict :
    (b : AnalysisBundle)
    → blocked_by_items b ≡ false
    → all is_allowed (validate_bundle b).findings ≡ true
    → report_passed (validate_bundle b) ≡ true
unfolding validate_bundle one_match_finding
validate_bundle-IsStrict b unblocked h = rw (all-passes (validate_bundle b).findings) (
    (append-IsStrict (identifier_findings b) _ (identifier-IsStrict b) (
        append-IsStrict (flat_map evidence_findings b.evidence) _
          (flat_map-IsStrict evidence_findings b.evidence evidence-IsStrict)
          (cons-IsStrict (one_match_finding b) _
            (other-IsStrict "error" "ONE_MATCH_PER_REQUIREMENT" _ refl)
            (append-IsStrict (flat_map (requirement_findings b) b.requirements) _
              (flat_map-IsStrict (requirement_findings b) b.requirements
                (requirement-IsStrict b unblocked))
              (append-IsStrict (flat_map (match_findings b) b.matches) _
                (flat_map-IsStrict (match_findings b) b.matches (match-IsStrict b))
                (append-IsStrict (flat_map (bom_findings b) b.bom) _
                  (flat_map-IsStrict (bom_findings b) b.bom (bom-IsStrict b))
                  (flat_map-IsStrict deviation_findings b.deviations
                    deviation-IsStrict))))))).strict
      h)
