-- ===== src/Bundle/Proof.antt =====
-- What a ready package promises of its mandatory requirements.
use proofbid.Prelude.{
  List, Memᴰ, Option-cases, String, all, all-mem, arith, eqb→eq, contains-map_of_mem, false,
  filter_map, find_last, find_last-mem, find_last_unique, inl, inr, is_sha256, map, mem-filter_map,
  mem-filter_map_intro, mem-map, mem_of_nonempty, nonempty, some, true, truthy, ◌==◌, ◌≡◌, ◌≢◌,
  text_eq, nat_eq, list_eq,
}
use proofbid.Errors.{ok}
use proofbid.Contracts.{
  is_compliant, EvidenceRef, Requirement, ComplianceMatch, AnalysisBundle, ReadinessDecision,
}
use proofbid.Readiness.{report_passed, build_readiness_decision}
use proofbid.Readiness.Gate.{build_readiness_decision-ready}
use proofbid.Bundle.{
  is_unknown, is_unknown_text, evidence_by_id, requirement_by_id, match_by_requirement,
  is_independent, supporting_ref, independent_supporting_evidence, match_has_proof, validate_bundle,
}
use proofbid.Bundle.Passing.{
  identifiers_ok, evidence_ok, requirement_ok, match_ok, bundle_ok, validate_bundle-passed,
}

-- `r` has a compliant match with a known actual value, and one of the records that the match lists
-- is a hashed source of another document and another path than the evidence of `r` itself.
pub record IsProved (b : AnalysisBundle) (r : Requirement) : Type 0 where
  pub match : ComplianceMatch
  pub recorded : Memᴰ match b.matches
  pub about : match.requirement_id ≡ r.req_id
  pub compliant : is_compliant match.status ≡ true
  pub actual : String
  pub stated : match.actual ≡ some actual
  pub known : is_unknown_text actual ≡ false
  pub source : EvidenceRef
  pub listed : Memᴰ source.evidence_id match.evidence_ids
  pub kept : Memᴰ source b.evidence
  pub hashed : is_sha256 source.source_hash ≡ true
  pub independent :
      (own : EvidenceRef)
      → Memᴰ own b.evidence
      → Memᴰ own.evidence_id r.evidence_ids
      → (own.source_document_id ≢ source.source_document_id)
        × (own.source_path ≢ source.source_path)

module _ (b : AnalysisBundle) (h : bundle_ok b ≡ true) where
  identifiers : identifiers_ok b ≡ true
  unfolding bundle_ok
  identifiers = ground arith

  evidence_all : all evidence_ok b.evidence ≡ true
  unfolding bundle_ok
  evidence_all = ground arith

  requirements_all : all (requirement_ok b) b.requirements ≡ true
  unfolding bundle_ok
  requirements_all = ground arith

  matches_all : all (match_ok b) b.matches ≡ true
  unfolding bundle_ok
  matches_all = ground arith

  evidence_by_id_self :
      {e : EvidenceRef} → Memᴰ e b.evidence → evidence_by_id b e.evidence_id ≡ some e
  unfolding evidence_by_id identifiers_ok
  evidence_by_id_self {e} m =
      let ids = identifiers in
      let id_of = λ (x : EvidenceRef). x.evidence_id in
      let named = all-mem truthy {xs = map id_of b.evidence} (ground arith) (mem-map id_of m) in
      rw named (find_last_unique id_of (ground arith) m)

  requirement_by_id_self :
      {r : Requirement} → Memᴰ r b.requirements → requirement_by_id b r.req_id ≡ some r
  unfolding requirement_by_id identifiers_ok
  requirement_by_id_self {r} m =
      let ids = identifiers in
      let id_of = λ (x : Requirement). x.req_id in
      let named = all-mem truthy {xs = map id_of b.requirements} (ground arith) (mem-map id_of m) in
      rw named (find_last_unique id_of (ground arith) m)

  -- What an entry of `independent_supporting_evidence` is.
  supporting_cases :
      (own_refs : List String) (ref : String) {e : EvidenceRef}
      → supporting_ref b own_refs ref ≡ some e
      → (evidence_by_id b ref ≡ some e) × (is_independent b own_refs ref e ≡ true)
  unfolding supporting_ref
  supporting_cases own_refs ref q = ground arith

  evidence_by_id-mem :
      {e : EvidenceRef} (ref : String)
      → evidence_by_id b ref ≡ some e
      → Memᴰ e b.evidence × (e.evidence_id ≡ ref)
  unfolding evidence_by_id
  evidence_by_id-mem {e} ref q =
      let found : find_last (λ x. x.evidence_id == ref) b.evidence ≡ some e = ground arith in
      let (m, t) = find_last-mem (λ x. x.evidence_id == ref) b.evidence found in
      (m, eqb→eq e.evidence_id ref t)

  -- A record that counts as independent differs in document and path from each own record.
  independent_of :
      (own_refs : List String) (ref : String) (e : EvidenceRef) {own : EvidenceRef}
      → is_independent b own_refs ref e ≡ true
      → Memᴰ own b.evidence
      → Memᴰ own.evidence_id own_refs
      → (own.source_document_id ≢ e.source_document_id) × (own.source_path ≢ e.source_path)
  unfolding is_independent
  independent_of own_refs ref e q m l =
      let linked = mem-filter_map_intro (evidence_by_id b) l (evidence_by_id_self m) in
      let document = contains-map_of_mem (λ (x : EvidenceRef). x.source_document_id) linked in
      let path = contains-map_of_mem (λ (x : EvidenceRef). x.source_path) linked in
      ((λ p. ground arith), (λ p. ground arith))

  match_of_mandatory :
      {r : Requirement}
      → Memᴰ r b.requirements
      → r.mandatory ≡ true
      → (m : ComplianceMatch) × (match_by_requirement b r.req_id ≡ some m)
        × (is_compliant m.status ≡ true)
  unfolding requirement_ok
  match_of_mandatory {r} k y =
      let passed = all-mem (requirement_ok b) requirements_all k in
      elim (Option-cases (match_by_requirement b r.req_id)) [
        | inl e ↦ absurd (ground arith)
        | inr (m, e) ↦ (m, e, ground arith)
      ]

  proof_of_match :
      {m : ComplianceMatch}
      → Memᴰ m b.matches
      → is_compliant m.status ≡ true
      → match_has_proof b m ≡ true
  unfolding match_ok
  proof_of_match k c = let passed = all-mem (match_ok b) matches_all k in ground arith

  supporting_of_match :
      {r : Requirement} (m : ComplianceMatch)
      → match_has_proof b m ≡ true
      → requirement_by_id b m.requirement_id ≡ some r
      → (e : EvidenceRef) × Memᴰ e.evidence_id m.evidence_ids
        × Memᴰ e b.evidence
        × (ref : String) × (is_independent b r.evidence_ids ref e ≡ true)
  unfolding match_has_proof independent_supporting_evidence
  supporting_of_match {r} m p q =
      let found = supporting_ref b r.evidence_ids in
      let full : nonempty (filter_map found m.evidence_ids) ≡ true =
        (let p' = rw q at p in ground arith) in
      let (e, s) = mem_of_nonempty (filter_map found m.evidence_ids) full in
      let (ref, listed, hit) = mem-filter_map found m.evidence_ids s in
      let (resolved, independent) = supporting_cases r.evidence_ids ref hit in
      let (kept, named) = evidence_by_id-mem ref resolved in
      (e, rw named listed, kept, ref, independent)

  actual_of_match :
      (m : ComplianceMatch)
      → match_has_proof b m ≡ true
      → (v : String) × (m.actual ≡ some v) × (is_unknown_text v ≡ false)
  unfolding match_has_proof is_unknown
  actual_of_match m p = elim (Option-cases m.actual) [
    | inl e ↦ absurd (ground arith)
    | inr (v, e) ↦ (v, e, ground arith)
  ]

  proved : {r : Requirement} → Memᴰ r b.requirements → r.mandatory ≡ true → IsProved b r
  unfolding match_by_requirement evidence_ok
  proved {r} k y =
      let (m, found, c) = match_of_mandatory k y in
      let (recorded, t) = find_last-mem (λ x. x.requirement_id == r.req_id) b.matches found in
      let about = eqb→eq m.requirement_id r.req_id t in
      let p = proof_of_match recorded c in
      let (v, stated, known) = actual_of_match m p in
      let (e, listed, kept, ref, independent) =
        supporting_of_match {r = r} m p (rw about (requirement_by_id_self k)) in
      let sound = all-mem evidence_ok evidence_all kept in
      record {
        match = m;
        recorded = recorded;
        about = about;
        compliant = c;
        actual = v;
        stated = stated;
        known = known;
        source = e;
        listed = listed;
        kept = kept;
        hashed = ground arith;
        independent = λ own own_kept own_listed.
            independent_of r.evidence_ids ref e independent own_kept own_listed;
      }

-- When the decision on a bundle and its own report says ready for submission, every mandatory
-- requirement has a compliant match with a known actual value and a hashed source outside the
-- documents and paths that state the requirement.
pub ready-IsProved :
    (b : AnalysisBundle) (d : ReadinessDecision) (r : Requirement)
    → build_readiness_decision b (validate_bundle b) ≡ ok d
    → d.ready_for_submission ≡ true
    → Memᴰ r b.requirements
    → r.mandatory ≡ true
    → IsProved b r
ready-IsProved b d r made ready k y =
    let (d', made', gate, _, _, _) = build_readiness_decision-ready b (validate_bundle b) in
    let passed : report_passed (validate_bundle b) ≡ true = ground arith in
    proved b (rw (validate_bundle-passed b) at passed) k y
