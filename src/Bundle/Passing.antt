-- ===== src/Bundle/Passing.antt =====
-- A passed report, read off as one test for each kind of record.
use proofbid.Prelude.{
  Bool, Bool-cases, List, String, [], all, all-append, all-flat_map, arith, casefold_in, contains,
  false, inl, inr, is_sha256, is_unique, map, nonempty, not, refl, strip, true, truthy, ◌&&◌, ◌||◌,
  ◌∷◌, ◌≡◌, nat_eq, text_eq, list_eq,
}
use mathlib.Core.Path.{fun_ext}
use proofbid.Contracts.{
  is_compliant, EvidenceRef, Requirement, ComplianceMatch, Deviation, BomLine, AnalysisBundle,
}
use proofbid.Readiness.{ValidationFinding, is_blocking, report_passed}
use proofbid.Bundle.{
  finding, is_unknown, match_by_requirement, effective_status, evidence_findings, lineage_ok,
  mandatory_findings, requirement_findings, match_has_proof, match_findings, line_has_proof,
  bom_findings, deviation_findings, identifier_findings, one_match_finding, validate_bundle,
}

-- A finding that does not stop the package.
abbrev pub passes : ValidationFinding → Bool
passes f = f.passed || not (is_blocking f)

pub passes-error : (code : String) (passed : Bool) → passes (finding "error" code passed) ≡ passed
unfolding is_blocking casefold_in
passes-error code true = refl
passes-error code false = refl

pub passes-blocker :
    (code : String) (passed : Bool) → passes (finding "blocker" code passed) ≡ passed
unfolding is_blocking casefold_in
passes-blocker code true = refl
passes-blocker code false = refl

pub all-passes :
    (fs : List ValidationFinding) → report_passed (record { findings = fs }) ≡ all passes fs
unfolding report_passed
all-passes [] = refl
all-passes (f ∷ fs) = ground (arith, all-passes fs)

-- The tests on single records.
unfoldable pub identifiers_ok : AnalysisBundle → Bool
identifiers_ok b =
    nonempty b.requirements
    && (is_unique (map (λ (r : Requirement). r.req_id) b.requirements)
        && all truthy (map (λ (r : Requirement). r.req_id) b.requirements))
    && (is_unique (map (λ (e : EvidenceRef). e.evidence_id) b.evidence)
        && all truthy (map (λ (e : EvidenceRef). e.evidence_id) b.evidence))

unfoldable pub evidence_ok : EvidenceRef → Bool
evidence_ok e =
    truthy e.evidence_id
    && is_sha256 e.source_hash
    && truthy (strip e.locator)
    && truthy (strip e.excerpt)

unfoldable pub requirement_ok : AnalysisBundle → Requirement → Bool
requirement_ok b r =
    lineage_ok b r
    && (not r.mandatory || is_compliant (effective_status (match_by_requirement b r.req_id)))

unfoldable pub match_ok : AnalysisBundle → ComplianceMatch → Bool
match_ok b m =
    contains (map (λ r. r.req_id) b.requirements) m.requirement_id
    && (not (is_compliant m.status) || match_has_proof b m)

unfoldable pub line_ok : AnalysisBundle → BomLine → Bool
line_ok b l =
    (not (is_compliant l.status) || line_has_proof b l)
    && contains (map (λ r. r.req_id) b.requirements) l.requirement_id

unfoldable pub deviation_ok : Deviation → Bool
deviation_ok d = not (is_compliant d.status && is_unknown d.actual)

unfoldable pub bundle_ok : AnalysisBundle → Bool
bundle_ok b =
    identifiers_ok b
    && (all evidence_ok b.evidence
        && (is_unique (map (λ (m : ComplianceMatch). m.requirement_id) b.matches)
            && (all (requirement_ok b) b.requirements
                && (all (match_ok b) b.matches
                    && (all (line_ok b) b.bom && all deviation_ok b.deviations)))))

all-evidence_findings : (e : EvidenceRef) → all passes (evidence_findings e) ≡ evidence_ok e
unfolding evidence_findings evidence_ok
all-evidence_findings e = simp (passes-error) (ground arith)

all-requirement_findings :
    (b : AnalysisBundle) (r : Requirement)
    → all passes (requirement_findings b r) ≡ requirement_ok b r
unfolding requirement_findings mandatory_findings requirement_ok
all-requirement_findings b r = elim (Bool-cases r.mandatory) [
  | inl m ↦ elim (Bool-cases (is_compliant (effective_status (match_by_requirement b r.req_id)))) [
    | inl c ↦ rw (m, c) (simp passes-blocker (ground arith))
    | inr c ↦ rw (m, c) (simp passes-blocker (ground arith))
  ]
  | inr m ↦ rw m (simp passes-blocker (ground arith))
]

all-match_findings :
    (b : AnalysisBundle) (m : ComplianceMatch) → all passes (match_findings b m) ≡ match_ok b m
unfolding match_findings match_ok
all-match_findings b m = elim (Bool-cases (is_compliant m.status)) [
  | inl c ↦ rw c (simp (passes-blocker, passes-error) (ground arith))
  | inr c ↦ rw c (simp passes-error (ground arith))
]

all-bom_findings : (b : AnalysisBundle) (l : BomLine) → all passes (bom_findings b l) ≡ line_ok b l
unfolding bom_findings line_ok
all-bom_findings b l = elim (Bool-cases (is_compliant l.status)) [
  | inl c ↦ rw c (simp (passes-blocker, passes-error) (ground arith))
  | inr c ↦ rw c (simp passes-error (ground arith))
]

all-deviation_findings : (d : Deviation) → all passes (deviation_findings d) ≡ deviation_ok d
unfolding deviation_findings deviation_ok
all-deviation_findings d = simp passes-blocker (ground arith)

all-identifier_findings :
    (b : AnalysisBundle) → all passes (identifier_findings b) ≡ identifiers_ok b
unfolding identifier_findings identifiers_ok
all-identifier_findings b = simp (passes-blocker, passes-error) (ground arith)

passes-one_match_finding :
    (b : AnalysisBundle)
    → passes (one_match_finding b)
      ≡ is_unique (map (λ (m : ComplianceMatch). m.requirement_id) b.matches)
unfolding one_match_finding
passes-one_match_finding b = rw passes-error

-- The report has passed exactly when every record has passed its own test.
pub validate_bundle-passed : (b : AnalysisBundle) → report_passed (validate_bundle b) ≡ bundle_ok b
unfolding validate_bundle bundle_ok
validate_bundle-passed b = rw all-passes (
    simp (
      all-append,
      all-flat_map,
      all-identifier_findings,
      passes-one_match_finding,
      fun_ext all-evidence_findings,
      fun_ext (all-requirement_findings b),
      fun_ext (all-match_findings b),
      fun_ext (all-bom_findings b),
      fun_ext all-deviation_findings,
    ))
