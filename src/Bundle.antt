-- ===== src/Bundle.antt =====
-- validators.py, `validate_bundle`: the findings on an analysis before it is rendered.
-- The bundle is the typed one of contracts.py, so `_field`, `_records` and `_ids` read the named
-- field. A `dict` built by a comprehension keeps the last record of a key.
pub mod Passing
pub mod Proof
pub mod Expected
use proofbid.Prelude.{
  Bool, List, Option, String, [], all, any, casefold_in, contains, filter_map, find_last, flat_map,
  if◌then◌else◌, is_sha256, is_some, is_unique, map, none, nonempty, not, select, some, strip, true,
  truthy, ◌&&◌, ◌++◌, ◌==◌, ◌||◌, ◌∷◌, nat_eq, text_eq, list_eq,
}
use proofbid.Contracts.{
  MatchStatus, is_compliant, EvidenceRef, Requirement, ComplianceMatch, MissingItem, Deviation,
  BomLine, AnalysisBundle,
}
use proofbid.Readiness.{ValidationFinding, ValidationReport}

-- `_finding(code, passed, …, severity=…)`, with the default `validator="bundle"`.
abbrev pub finding : String → String → Bool → ValidationFinding
finding severity code passed = record {
  validator = "bundle";
  code = code;
  severity = severity;
  passed = passed;
}

abbrev unknown_values : List String
unknown_values =
    "" ∷ "unknown" ∷ "n/a" ∷ "na" ∷ "none" ∷ "null" ∷ "tbd" ∷ "pending" ∷ "待确认" ∷ "未知" ∷ "缺失" ∷ []

-- `_is_unknown` on a text.
unfoldable pub is_unknown_text : String → Bool
is_unknown_text s = casefold_in unknown_values (strip s)

-- `_is_unknown` on a text or `None`.
unfoldable pub is_unknown : Option String → Bool
is_unknown none = true
is_unknown (some s) = is_unknown_text s

-- `str(value or "")`
abbrev pub or_empty : Option String → String
or_empty none = ""
or_empty (some s) = s

unfoldable pub evidence_by_id : AnalysisBundle → String → Option EvidenceRef
evidence_by_id b ref = if truthy ref then find_last (λ e. e.evidence_id == ref) b.evidence else none

unfoldable pub requirement_by_id : AnalysisBundle → String → Option Requirement
requirement_by_id b i = if truthy i then find_last (λ r. r.req_id == i) b.requirements else none

unfoldable pub match_by_requirement : AnalysisBundle → String → Option ComplianceMatch
match_by_requirement b i = find_last (λ m. m.requirement_id == i) b.matches

-- The evidence ids of a requirement that may be absent.
abbrev pub requirement_refs : Option Requirement → List String
requirement_refs none = []
requirement_refs (some r) = r.evidence_ids

-- The tests that a proof record has to pass against the requirement's own evidence.
unfoldable pub is_independent : AnalysisBundle → List String → String → EvidenceRef → Bool
is_independent b own_refs ref e =
    let own = filter_map (evidence_by_id b) own_refs in
    not (contains own_refs ref)
    && not (contains (map (λ x. x.source_document_id) own) e.source_document_id)
    && not (contains (map (λ x. x.source_path) own) e.source_path)

supporting_ref : AnalysisBundle → List String → String → Option EvidenceRef
unfolding is_independent
supporting_ref b own_refs ref = elim (evidence_by_id b ref) [
  | none ↦ none
  | some e ↦ if is_independent b own_refs ref e then some e else none
]

unfoldable pub independent_supporting_evidence :
    AnalysisBundle → Option Requirement → List String → List EvidenceRef
unfolding supporting_ref
independent_supporting_evidence b requirement refs =
    filter_map (supporting_ref b (requirement_refs requirement)) refs

-- `any(… extracted_value … == identity for item in supporting)`
abbrev pub names_identity : String → List EvidenceRef → Bool
names_identity identity supporting = any (λ e. or_empty e.extracted_value == identity) supporting

unfoldable pub evidence_findings : EvidenceRef → List ValidationFinding
evidence_findings e =
    finding "error" "EVIDENCE_SOURCE_COMPLETE"
      (truthy e.evidence_id && is_sha256 e.source_hash && truthy (strip e.locator))
    ∷ finding "error" "EVIDENCE_EXCERPT_PRESENT" (truthy (strip e.excerpt))
    ∷ []

unfoldable pub lineage_ok : AnalysisBundle → Requirement → Bool
lineage_ok b r =
    let linked_hashes = map (λ e. e.source_hash) (filter_map (evidence_by_id b) r.evidence_ids) in
    nonempty r.evidence_ids
    && all (λ ref. is_some (evidence_by_id b ref)) r.evidence_ids
    && is_sha256 r.source_hash
    && truthy (strip r.source_locator)
    && contains linked_hashes r.source_hash
    && all is_sha256 linked_hashes

-- Without a match the status is `unknown`.
abbrev pub effective_status : Option ComplianceMatch → MatchStatus
effective_status none = MatchStatus.unknown
effective_status (some m) = m.status

unfoldable pub mandatory_findings : AnalysisBundle → Requirement → List ValidationFinding
mandatory_findings b r =
    let unresolved = not (is_compliant (effective_status (match_by_requirement b r.req_id))) in
    let explicit_blocker =
      any (λ i. i.blocks_completion) (select (λ i. i.requirement_id == r.req_id) b.missing_items) in
    finding "blocker" "MANDATORY_REQUIREMENT_RESOLVED" (not unresolved)
    ∷ (if unresolved
        then finding "blocker" "MANDATORY_UNKNOWN_DECLARED" explicit_blocker ∷ []
        else [])

unfoldable pub requirement_findings : AnalysisBundle → Requirement → List ValidationFinding
requirement_findings b r =
    finding "blocker" "REQUIREMENT_EVIDENCE_LINEAGE" (lineage_ok b r)
    ∷ (if r.mandatory then mandatory_findings b r else [])

-- The test behind `COMPLIANT_MATCH_HAS_PROOF`.
unfoldable pub match_has_proof : AnalysisBundle → ComplianceMatch → Bool
match_has_proof b m =
    let supporting =
      independent_supporting_evidence b (requirement_by_id b m.requirement_id) m.evidence_ids in
    let candidate_id = or_empty m.candidate_id in
    not (is_unknown m.actual)
    && (nonempty m.evidence_ids && all (λ ref. is_some (evidence_by_id b ref)) m.evidence_ids)
    && nonempty supporting
    && (not (truthy candidate_id) || names_identity candidate_id supporting)

unfoldable pub match_findings : AnalysisBundle → ComplianceMatch → List ValidationFinding
match_findings b m =
    finding "error" "MATCH_REFERENCES_REQUIREMENT"
      (contains (map (λ r. r.req_id) b.requirements) m.requirement_id)
    ∷ (if is_compliant m.status
        then finding "blocker" "COMPLIANT_MATCH_HAS_PROOF" (match_has_proof b m) ∷ []
        else [])

-- The test behind `COMPLIANT_BOM_LINE_HAS_PROOF`. A quantity is a number, so it is unknown only
-- where it is absent.
unfoldable pub line_has_proof : AnalysisBundle → BomLine → Bool
line_has_proof b l =
    let supporting =
      independent_supporting_evidence b (requirement_by_id b l.requirement_id) l.evidence_ids in
    let item_id = or_empty l.item_id in
    (not (is_unknown_text item_id) && not (is_unknown l.name) && is_some l.qty)
    && nonempty l.evidence_ids
    && all (λ ref. is_some (evidence_by_id b ref)) l.evidence_ids
    && nonempty supporting
    && (truthy item_id && names_identity item_id supporting)

unfoldable pub bom_findings : AnalysisBundle → BomLine → List ValidationFinding
bom_findings b l =
    (if is_compliant l.status
      then finding "blocker" "COMPLIANT_BOM_LINE_HAS_PROOF" (line_has_proof b l) ∷ []
      else [])
    ++ finding "error" "BOM_REFERENCES_REQUIREMENT"
        (contains (map (λ r. r.req_id) b.requirements) l.requirement_id)
      ∷ []

unfoldable pub deviation_findings : Deviation → List ValidationFinding
deviation_findings d =
    finding "blocker" "DEVIATION_DOES_NOT_MASK_UNKNOWN"
      (not (is_compliant d.status && is_unknown d.actual))
    ∷ []

unfoldable pub identifier_findings : AnalysisBundle → List ValidationFinding
identifier_findings b =
    let requirement_ids = map (λ (r : Requirement). r.req_id) b.requirements in
    let evidence_ids = map (λ (e : EvidenceRef). e.evidence_id) b.evidence in
    finding "blocker" "REQUIREMENTS_PRESENT" (nonempty b.requirements)
    ∷ finding "error" "REQUIREMENT_IDS_UNIQUE"
        (is_unique requirement_ids && all truthy requirement_ids)
    ∷ finding "error" "EVIDENCE_IDS_UNIQUE" (is_unique evidence_ids && all truthy evidence_ids)
    ∷ []

unfoldable pub one_match_finding : AnalysisBundle → ValidationFinding
one_match_finding b =
    finding "error" "ONE_MATCH_PER_REQUIREMENT"
      (is_unique (map (λ (m : ComplianceMatch). m.requirement_id) b.matches))

-- The findings in the order in which the source appends them.
unfoldable pub validate_bundle : AnalysisBundle → ValidationReport
validate_bundle b = record {
  findings =
      identifier_findings b
      ++ (flat_map evidence_findings b.evidence
          ++ (one_match_finding b
              ∷ (flat_map (requirement_findings b) b.requirements
                  ++ (flat_map (match_findings b) b.matches
                      ++ (flat_map (bom_findings b) b.bom
                          ++ flat_map deviation_findings b.deviations)))));
}
