-- ===== src/Matching/Analysis.antt =====
-- matching.py, `build_analysis`: every requirement of an extraction is assessed, in its order.
-- `stable_id` stands for the SHA-256 digest of its parts.
use proofbid.Regex.{◌then◌}
use proofbid.Prelude.{
  Bool, Dict, List, Option, String, [], false, flat_map, from_keys, if◌then◌else◌, is_some, list_eq,
  nat_eq, none, not, put_key, set_default, some, text_eq, true, values, ◌&&◌, ◌++◌, ◌<>◌, ◌||◌, ◌∷◌,
}
use proofbid.Matching.Totals.{
  is_pricing, missing_reason_code, pricing_total_match, quantity, warranty_match,
}
use proofbid.Matching.Profile.{profile_match}
use proofbid.Matching.Policies.{pricing_policy_match}
use proofbid.Matching.Facts.{Outcome, mentions_any}
use proofbid.Matching.Catalog.{CatalogOutcome, catalog_match}
use proofbid.Matching.Candidates.{product_intent}
use proofbid.Contracts.{
  MatchStatus, RequirementCategory, Severity, AnalysisBundle, BidderProfile, BomLine, CatalogItem,
  ComplianceMatch, Deviation, EvidenceRef, ExtractionResult, MissingItem, Requirement, is_compliant,
  missing_item, requirement,
}
use proofbid.Errors.{Result, ok, ◌>>=◌}

-- What a matcher found for a requirement.
pub record Assessment : Type 0 where
  pub status : MatchStatus
  pub rationale : String
  pub candidate : Option CatalogItem
  pub expected : Option String
  pub actual : Option String
  pub supporting : List String

-- The lists that the loop fills.
pub record Progress : Type 0 where
  pub matches : List ComplianceMatch
  pub missing_items : List MissingItem
  pub deviations : List Deviation
  pub bom : List BomLine
  pub assessed : List Requirement
  pub selected : Dict String CatalogItem

abbrev pub is_technical : RequirementCategory → Bool
is_technical RequirementCategory.technical = true
is_technical _ = false

-- A technical requirement that asks for a product: it gets a line of the bill of materials.
unfoldable pub asks_for_product : Requirement → Bool
asks_for_product r = is_technical r.category && is_some (product_intent r.text)

-- An outcome that names no item of the catalog.
of_outcome : Requirement → Outcome → Assessment
of_outcome r o = record {
  status = o.status;
  rationale = o.rationale;
  candidate = none;
  expected = some r.text;
  actual = o.actual;
  supporting = o.supporting;
}

of_catalog : CatalogOutcome → Assessment
of_catalog o = record {
  status = o.status;
  rationale = o.rationale;
  candidate = o.candidate;
  expected = o.expected;
  actual = o.actual;
  supporting = [];
}

unfoldable pub is_warranty : Requirement → Bool
is_warranty r =
    is_technical r.category
    && mentions_any ("质保" ∷ "保修" ∷ []) r.text
    && not (is_some (product_intent r.text))

-- The matcher of a requirement that is neither a warranty nor a price.
unfoldable pub general : Requirement → BidderProfile → List CatalogItem → Result Assessment
unfolding of_outcome of_catalog
general r profile catalog =
    if is_technical r.category || is_pricing r.category
    then (catalog_match r catalog >>= λ o. ok (of_catalog o))
    else profile_match r profile >>= λ o. ok (of_outcome r o)

-- The choice of the matcher. The price limit is read before the matcher is chosen.
unfoldable pub assess :
    BidderProfile
    → List CatalogItem
    → List BomLine
    → List CatalogItem
    → Requirement
    → Result Assessment
unfolding of_outcome is_warranty
assess profile catalog bom selected r =
    (if is_pricing r.category then pricing_total_match r bom profile else ok none)
    >>= λ pricing_result.
        let pricing_policy =
          if is_pricing r.category then pricing_policy_match r profile else none in
        if is_warranty r
        then (warranty_match r selected >>= λ o. ok (of_outcome r o))
        else elim pricing_policy [
          | some o ↦ ok (of_outcome r o)
          | none ↦ elim pricing_result [
            | some o ↦ ok (of_outcome r o)
            | none ↦ general r profile catalog
          ]
        ]

-- `replace(requirement, status=status)`, before its `__post_init__`.
abbrev pub with_status : MatchStatus → Requirement → Requirement
with_status status r = record {
  req_id = r.req_id;
  title = r.title;
  category = r.category;
  mandatory = r.mandatory;
  text = r.text;
  evidence_ids = r.evidence_ids;
  source_locator = r.source_locator;
  source_hash = r.source_hash;
  status = status;
  attributes = r.attributes;
}

candidate_evidence : Option CatalogItem → List String
candidate_evidence none = []
candidate_evidence (some item) = item.evidence_ids

-- The evidence of a requirement, of its matcher and of its candidate, each id once.
unfoldable pub evidence_of_match : Requirement → Assessment → List String
unfolding candidate_evidence
evidence_of_match r a =
    from_keys (r.evidence_ids ++ (a.supporting ++ candidate_evidence a.candidate))

-- `candidate.field if candidate else None`
abbrev of_candidate : {A : Type 0} → (CatalogItem → Option A) → Option CatalogItem → Option A
of_candidate field none = none
of_candidate field (some item) = field item

abbrev pub is_deviation : MatchStatus → Bool
is_deviation MatchStatus.non_compliant = true
is_deviation MatchStatus.partial = true
is_deviation _ = false

-- `parsed_unit or (candidate.unit if candidate else None)`; a parsed unit is not empty.
unit_of : Option String → Option CatalogItem → Option String
unit_of (some u) candidate = some u
unit_of none candidate = of_candidate (λ i. i.unit) candidate

-- `selected_catalog.setdefault(candidate.item_id, candidate)` for a product.
select_item : Requirement → Option CatalogItem → Dict String CatalogItem → Dict String CatalogItem
select_item r none selected = selected
select_item r (some item) selected =
    if asks_for_product r then set_default item.item_id item selected else selected

put_refs : List EvidenceRef → Dict String EvidenceRef → Dict String EvidenceRef
put_refs [] d = d
put_refs (e ∷ es) d = put_refs es (put_key e.evidence_id e d)

abbrev pub fresh : Progress
fresh = record {
  matches = [];
  missing_items = [];
  deviations = [];
  bom = [];
  assessed = [];
  selected = [];
}

unfoldable pub analysis_evidence :
    ExtractionResult → BidderProfile → List CatalogItem → List EvidenceRef
unfolding put_refs
analysis_evidence extraction profile catalog = values (
    put_refs
      (extraction.evidence
        ++ (profile.evidence ++ flat_map (λ (i : CatalogItem). i.evidence) catalog))
      [])

module _ (stable_id : String → List String → String) (task_id : String) where
  unfoldable pub match_of : Requirement → Assessment → ComplianceMatch
  match_of r a = record {
    match_id = stable_id "match" (task_id ∷ r.req_id ∷ []);
    requirement_id = r.req_id;
    status = a.status;
    rationale = a.rationale;
    candidate_id = of_candidate (λ i. some i.item_id) a.candidate;
    expected = a.expected;
    actual = a.actual;
    evidence_ids = evidence_of_match r a;
  }

  unfoldable pub item_of : Requirement → MissingItem
  item_of r = record {
    id = stable_id "missing" (task_id ∷ r.req_id ∷ []);
    requirement_id = r.req_id;
    reason_code = missing_reason_code r;
    description = "需人工补充或确认：" <> r.text;
    severity = if r.mandatory then Severity.blocker else Severity.warning;
    blocks_completion = r.mandatory;
  }

  -- What is missing: the constructor tests the item.
  unfoldable pub missing_of : Requirement → MatchStatus → Result (List MissingItem)
  unfolding item_of
  missing_of r status =
      if is_compliant status then ok [] else missing_item (item_of r) >>= λ i. ok (i ∷ [])

  unfoldable pub deviations_of : Requirement → Assessment → List Deviation
  deviations_of r a =
      if is_deviation a.status
      then record {
        id = stable_id "dev" (task_id ∷ r.req_id ∷ []);
        requirement_id = r.req_id;
        expected = a.expected;
        actual = a.actual;
        status = a.status;
        evidence_ids = evidence_of_match r a;
        explanation = a.rationale;
      }
        ∷ []
      else []

  unfoldable pub lines_of : Requirement → Assessment → List BomLine
  unfolding unit_of
  lines_of r a =
      if asks_for_product r
      then record {
        id = stable_id "bom" (task_id ∷ r.req_id ∷ []);
        requirement_id = r.req_id;
        item_id = of_candidate (λ i. some i.item_id) a.candidate;
        name = of_candidate (λ i. i.name) a.candidate;
        qty = (quantity r.text).0;
        unit = unit_of (quantity r.text).1 a.candidate;
        unit_price = of_candidate (λ i. i.unit_price) a.candidate;
        currency = of_candidate (λ i. i.currency) a.candidate;
        status = a.status;
        evidence_ids = evidence_of_match r a;
        rationale = a.rationale;
      }
        ∷ []
      else []

  unfoldable pub add_assessment :
      Progress → Requirement → Assessment → Requirement → List MissingItem → Progress
  unfolding select_item
  add_assessment p r a checked missing = record {
    matches = p.matches ++ match_of r a ∷ [];
    missing_items = p.missing_items ++ missing;
    deviations = p.deviations ++ deviations_of r a;
    bom = p.bom ++ lines_of r a;
    assessed = p.assessed ++ checked ∷ [];
    selected = select_item r a.candidate p.selected;
  }

  -- One round of the loop.
  unfoldable pub assess_next :
      BidderProfile → List CatalogItem → Progress → Requirement → Result Progress
  assess_next profile catalog p r = do
    a ← assess profile catalog p.bom (values p.selected) r
    checked ← requirement (with_status a.status r)
    missing ← missing_of r a.status
    ok (add_assessment p r a checked missing)

  unfoldable pub assess_all :
      BidderProfile → List CatalogItem → Progress → List Requirement → Result Progress
  assess_all profile catalog p [] = ok p
  assess_all profile catalog p (r ∷ rs) =
      assess_next profile catalog p r >>= λ q. assess_all profile catalog q rs

  -- `build_analysis`
  unfoldable pub build_analysis :
      ExtractionResult → BidderProfile → List CatalogItem → Result AnalysisBundle
  build_analysis extraction profile catalog = do
    p ← assess_all profile catalog fresh extraction.requirements
    ok (record {
      task_id = task_id;
      requirements = p.assessed;
      evidence = analysis_evidence extraction profile catalog;
      matches = p.matches;
      bom = p.bom;
      deviations = p.deviations;
      missing_items = p.missing_items;
    })
