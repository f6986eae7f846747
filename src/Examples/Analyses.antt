-- ===== src/Examples/Analyses.antt =====
-- The theorems on analyses, applied to a small tender with a display, a warranty and a price limit.
use proofbid.Prelude.{
  List, String, [], false, join, map, some, true, ◌<>◌, ◌∷◌, list_eq, nat_eq, refl, text_eq, ◌≡◌,
  Memᴰ, all, contains,
}
use proofbid.Matching.Covered.{status_view}
use proofbid.Matching.Returns.{is_assessable}
use proofbid.Readiness.{ValidationReport, build_readiness_decision}
use proofbid.Matching.Totals.{subtotal_of}
use proofbid.Format.{show_fixed}
use proofbid.Matching.Covered.{IsCovered, build_analysis-IsCovered}
use proofbid.Matching.Blocking.{build_analysis-blocks}
use proofbid.Contracts.{ReadinessDecision}
use proofbid.Matching.Totals.{missing_reason_code}
use proofbid.Prelude.{true, ◌≡◌, refl}
use proofbid.Matching.Analysis.{build_analysis}
use proofbid.Decimal.{whole}
use proofbid.Contracts.{
  MatchStatus, RequirementCategory, Scalar, AnalysisBundle, BidderProfile, CatalogItem,
  ExtractionResult, Requirement,
}
use proofbid.Errors.{Result, ok, raised}

abbrev hash : String
hash = "aaaaaaaaaaaaaaaaaaaaaaaaaaaaaaaaaaaaaaaaaaaaaaaaaaaaaaaaaaaaaaaa"

abbrev asked : String → RequirementCategory → String → Requirement
asked req_id category text = record {
  req_id = req_id;
  title = text;
  category = category;
  mandatory = true;
  text = text;
  evidence_ids = ("ev-" <> req_id) ∷ [];
  source_locator = "line:1";
  source_hash = hash;
  status = MatchStatus.unknown;
  attributes = [];
}

abbrev extraction : ExtractionResult
extraction = record {
  requirements =
      asked "R1" RequirementCategory.technical "显示设备屏幕尺寸不低于 55 英寸，数量 2 台"
      ∷ asked "R2" RequirementCategory.technical "核心设备质保不少于 3 年"
      ∷ asked "R3" RequirementCategory.pricing "总报价不得超过 CNY 10,000.50"
      ∷ asked "R4" RequirementCategory.qualification "投标人应持有制造商授权书"
      ∷ [];
  evidence = [];
}

abbrev profile : BidderProfile
profile = record {
  source_document_id = "doc-bidder";
  source_hash = hash;
  legal_name = some "Bidder";
  facts = [];
  evidence = [];
}

abbrev screen : CatalogItem
screen = record {
  item_id = "S-55";
  name = some "会议显示屏";
  model = some "VX550";
  category = some "display";
  unit = some "台";
  unit_price = some (record { negative = false; digits = 45005; places = 1 });
  currency = some "CNY";
  attributes =
      ("screen_inches", Scalar.number (whole 55) "55")
      ∷ ("warranty_years", Scalar.number (whole 2) "2")
      ∷ [];
  certifications = [];
  evidence_ids = "ev-catalog" ∷ [];
  evidence = [];
}

abbrev ids : String → List String → String
ids prefix parts = prefix <> "-" <> join "-" parts

abbrev no_analysis : AnalysisBundle
no_analysis = record {
  task_id = "";
  requirements = [];
  evidence = [];
  matches = [];
  bom = [];
  deviations = [];
  missing_items = [];
}

abbrev analysis : Result AnalysisBundle
analysis = build_analysis ids "T1" extraction profile (screen ∷ [])

abbrev value_of : Result AnalysisBundle → AnalysisBundle
value_of (ok b) = b
value_of (raised e) = no_analysis

abbrev bundle : AnalysisBundle
bundle = value_of analysis

abbrev report : ValidationReport
report = record { findings = [] }

abbrev decision : ReadinessDecision
decision = record {
  ready_for_human_review = false;
  ready_for_submission = false;
  submission_executed = false;
  high_risk_actions_locked = true;
  blocking_reason_codes = "MANDATORY_EVIDENCE_MISSING" ∷ "PROJECT_AUTHORIZATION_MISSING" ∷ [];
}

-- The requirement that asks for an authorization, after the analysis.
abbrev authorization : Requirement
authorization = asked "R4" RequirementCategory.qualification "投标人应持有制造商授权书"

-- What the analysis says of the four requirements, the total of its bill of materials, and a price
-- text whose limit is a comma.
computed :
    (map status_view bundle.requirements
      ≡ ("R1", MatchStatus.compliant)
        ∷ ("R2", MatchStatus.non_compliant)
        ∷ ("R3", MatchStatus.compliant)
        ∷ ("R4", MatchStatus.unknown)
        ∷ [])
    × (show_fixed (subtotal_of bundle.bom) ≡ "9001.00")
    × (analysis ≡ ok bundle)
    × (build_readiness_decision bundle report ≡ ok decision)
    × (all is_assessable extraction.requirements ≡ true)
    × (is_assessable (asked "R5" RequirementCategory.pricing "最高限价为, 不得超过 100 元") ≡ false)
unfolding proofbid.Contracts.evidence_ref proofbid.Contracts.requirement
    proofbid.Contracts.extraction_result proofbid.Contracts.readiness_decision
    proofbid.Contracts.is_business_code proofbid.Contracts.missing_item proofbid.Decimal.decimal_le
    proofbid.Decimal.decimal_eq proofbid.Decimal.decimal_add proofbid.Decimal.decimal_mul
    proofbid.Format.show_nat proofbid.Format.show_general proofbid.Format.show_float
    proofbid.Format.show_fixed proofbid.Format.scalar_text
    proofbid.Matching.Analysis.asks_for_product proofbid.Matching.Analysis.is_warranty
    proofbid.Matching.Analysis.assess proofbid.Matching.Analysis.evidence_of_match
    proofbid.Matching.Analysis.analysis_evidence proofbid.Matching.Analysis.match_of
    proofbid.Matching.Analysis.item_of proofbid.Matching.Analysis.missing_of
    proofbid.Matching.Analysis.deviations_of proofbid.Matching.Analysis.lines_of
    proofbid.Matching.Analysis.add_assessment proofbid.Matching.Analysis.assess_next
    proofbid.Matching.Analysis.assess_all proofbid.Matching.Analysis.build_analysis
    proofbid.Matching.Candidates.product_intent proofbid.Matching.Candidates.item_intent
    proofbid.Matching.Candidates.candidate_score proofbid.Matching.Candidates.constraints_in
    proofbid.Matching.Candidates.compare_numbers proofbid.Matching.Candidates.aliases_of
    proofbid.Matching.Candidates.candidate_value proofbid.Matching.Catalog.resolution_check
    proofbid.Matching.Catalog.constraint_check proofbid.Matching.Catalog.checks_of
    proofbid.Matching.Catalog.constraint_fit proofbid.Matching.Catalog.choose_candidate
    proofbid.Matching.Catalog.judge proofbid.Matching.Catalog.catalog_match
    proofbid.Matching.Covered.unassessed proofbid.Matching.Facts.float_of
    proofbid.Matching.Facts.group_text proofbid.Matching.Facts.without_char
    proofbid.Matching.Facts.number_of proofbid.Errors.map_each proofbid.Matching.Catalog.rank
    proofbid.Matching.Catalog.constraint_points proofbid.Matching.Totals.with_years
    proofbid.Matching.Analysis.general proofbid.Matching.Facts.fact_text
    proofbid.Matching.Facts.normalized proofbid.Matching.Facts.key_ends
    proofbid.Matching.Facts.last_point proofbid.Matching.Facts.fact_groups
    proofbid.Matching.Facts.facts_with_term proofbid.Matching.Facts.profile_support_for_terms
    proofbid.Matching.Policies.is_final proofbid.Matching.Policies.final_facts
    proofbid.Matching.Policies.pricing_policy_match proofbid.Matching.Policies.deadline_facts
    proofbid.Matching.Policies.acknowledged_facts proofbid.Matching.Policies.deadline_outcome
    proofbid.Matching.Policies.submission_deadline_match proofbid.Matching.Policies.duration_outcome
    proofbid.Matching.Policies.duration_of proofbid.Matching.Policies.duration_profile_match
    proofbid.Matching.Profile.terms_in proofbid.Matching.Profile.standards_in
    proofbid.Matching.Profile.group_of_term proofbid.Matching.Profile.actual_part
    proofbid.Matching.Profile.status_of_group proofbid.Matching.Profile.check_groups
    proofbid.Matching.Profile.documents_outcome
    proofbid.Matching.Profile.qualification_document_match proofbid.Matching.Profile.profile_blob
    proofbid.Matching.Profile.terms_outcome proofbid.Matching.Profile.profile_match
    proofbid.Matching.Returns.meets_contract proofbid.Matching.Returns.has_readable_limit
    proofbid.Matching.Returns.is_assessable proofbid.Matching.Returns.is_code
    proofbid.Matching.Totals.demanded_years proofbid.Matching.Totals.warranty_years
    proofbid.Matching.Totals.warranty_match proofbid.Matching.Totals.limit_text
    proofbid.Matching.Totals.price_of proofbid.Matching.Totals.subtotal_of
    proofbid.Matching.Totals.total_outcome proofbid.Matching.Totals.pricing_total_match
    proofbid.Matching.Totals.quantity proofbid.Matching.Totals.missing_reason_code
    proofbid.Prelude.get_key proofbid.Prelude.put_key proofbid.Prelude.set_default
    proofbid.Prelude.find_last proofbid.Prelude.from_keys proofbid.Prelude.is_space
    proofbid.Prelude.lstrip proofbid.Prelude.rstrip proofbid.Prelude.strip proofbid.Prelude.casefold
    proofbid.Prelude.compact proofbid.Prelude.join proofbid.Prelude.casefold_in
    proofbid.Prelude.is_sha256 proofbid.Prelude.occurs proofbid.Prelude.text_le
    proofbid.Prelude.sorted proofbid.Prelude.is_infix proofbid.Readiness.is_blocking
    proofbid.Readiness.report_passed proofbid.Readiness.failures proofbid.Readiness.item_code
    proofbid.Readiness.blocking_codes proofbid.Readiness.build_readiness_decision
    proofbid.Regex.char proofbid.Regex.word_codes proofbid.Regex.one_of proofbid.Regex.word_any_case
    proofbid.Regex.at_most proofbid.Regex.at_most_lazily proofbid.Regex.many
    proofbid.Regex.many_lazily proofbid.Regex.exactly proofbid.Regex.take_text proofbid.Regex.group
    proofbid.Regex.match_start proofbid.Regex.search_text proofbid.Regex.group_of
    proofbid.Regex.find_all
computed = (refl, refl, refl, refl, refl, refl)

authorization-mem : Memᴰ authorization bundle.requirements
unfolding proofbid.Contracts.evidence_ref proofbid.Contracts.requirement
    proofbid.Contracts.extraction_result proofbid.Contracts.readiness_decision
    proofbid.Contracts.is_business_code proofbid.Contracts.missing_item proofbid.Decimal.decimal_le
    proofbid.Decimal.decimal_eq proofbid.Decimal.decimal_add proofbid.Decimal.decimal_mul
    proofbid.Format.show_nat proofbid.Format.show_general proofbid.Format.show_float
    proofbid.Format.show_fixed proofbid.Format.scalar_text
    proofbid.Matching.Analysis.asks_for_product proofbid.Matching.Analysis.is_warranty
    proofbid.Matching.Analysis.assess proofbid.Matching.Analysis.evidence_of_match
    proofbid.Matching.Analysis.analysis_evidence proofbid.Matching.Analysis.match_of
    proofbid.Matching.Analysis.item_of proofbid.Matching.Analysis.missing_of
    proofbid.Matching.Analysis.deviations_of proofbid.Matching.Analysis.lines_of
    proofbid.Matching.Analysis.add_assessment proofbid.Matching.Analysis.assess_next
    proofbid.Matching.Analysis.assess_all proofbid.Matching.Analysis.build_analysis
    proofbid.Matching.Candidates.product_intent proofbid.Matching.Candidates.item_intent
    proofbid.Matching.Candidates.candidate_score proofbid.Matching.Candidates.constraints_in
    proofbid.Matching.Candidates.compare_numbers proofbid.Matching.Candidates.aliases_of
    proofbid.Matching.Candidates.candidate_value proofbid.Matching.Catalog.resolution_check
    proofbid.Matching.Catalog.constraint_check proofbid.Matching.Catalog.checks_of
    proofbid.Matching.Catalog.constraint_fit proofbid.Matching.Catalog.choose_candidate
    proofbid.Matching.Catalog.judge proofbid.Matching.Catalog.catalog_match
    proofbid.Matching.Covered.unassessed proofbid.Matching.Facts.float_of
    proofbid.Matching.Facts.group_text proofbid.Matching.Facts.without_char
    proofbid.Matching.Facts.number_of proofbid.Errors.map_each proofbid.Matching.Catalog.rank
    proofbid.Matching.Catalog.constraint_points proofbid.Matching.Totals.with_years
    proofbid.Matching.Analysis.general proofbid.Matching.Facts.fact_text
    proofbid.Matching.Facts.normalized proofbid.Matching.Facts.key_ends
    proofbid.Matching.Facts.last_point proofbid.Matching.Facts.fact_groups
    proofbid.Matching.Facts.facts_with_term proofbid.Matching.Facts.profile_support_for_terms
    proofbid.Matching.Policies.is_final proofbid.Matching.Policies.final_facts
    proofbid.Matching.Policies.pricing_policy_match proofbid.Matching.Policies.deadline_facts
    proofbid.Matching.Policies.acknowledged_facts proofbid.Matching.Policies.deadline_outcome
    proofbid.Matching.Policies.submission_deadline_match proofbid.Matching.Policies.duration_outcome
    proofbid.Matching.Policies.duration_of proofbid.Matching.Policies.duration_profile_match
    proofbid.Matching.Profile.terms_in proofbid.Matching.Profile.standards_in
    proofbid.Matching.Profile.group_of_term proofbid.Matching.Profile.actual_part
    proofbid.Matching.Profile.status_of_group proofbid.Matching.Profile.check_groups
    proofbid.Matching.Profile.documents_outcome
    proofbid.Matching.Profile.qualification_document_match proofbid.Matching.Profile.profile_blob
    proofbid.Matching.Profile.terms_outcome proofbid.Matching.Profile.profile_match
    proofbid.Matching.Returns.meets_contract proofbid.Matching.Returns.has_readable_limit
    proofbid.Matching.Returns.is_assessable proofbid.Matching.Returns.is_code
    proofbid.Matching.Totals.demanded_years proofbid.Matching.Totals.warranty_years
    proofbid.Matching.Totals.warranty_match proofbid.Matching.Totals.limit_text
    proofbid.Matching.Totals.price_of proofbid.Matching.Totals.subtotal_of
    proofbid.Matching.Totals.total_outcome proofbid.Matching.Totals.pricing_total_match
    proofbid.Matching.Totals.quantity proofbid.Matching.Totals.missing_reason_code
    proofbid.Prelude.get_key proofbid.Prelude.put_key proofbid.Prelude.set_default
    proofbid.Prelude.find_last proofbid.Prelude.from_keys proofbid.Prelude.is_space
    proofbid.Prelude.lstrip proofbid.Prelude.rstrip proofbid.Prelude.strip proofbid.Prelude.casefold
    proofbid.Prelude.compact proofbid.Prelude.join proofbid.Prelude.casefold_in
    proofbid.Prelude.is_sha256 proofbid.Prelude.occurs proofbid.Prelude.text_le
    proofbid.Prelude.sorted proofbid.Prelude.is_infix proofbid.Regex.char proofbid.Regex.word_codes
    proofbid.Regex.one_of proofbid.Regex.word_any_case proofbid.Regex.at_most
    proofbid.Regex.at_most_lazily proofbid.Regex.many proofbid.Regex.many_lazily
    proofbid.Regex.exactly proofbid.Regex.take_text proofbid.Regex.group proofbid.Regex.match_start
    proofbid.Regex.search_text proofbid.Regex.group_of proofbid.Regex.find_all
authorization-mem = Memᴰ.tail (Memᴰ.tail (Memᴰ.tail (Memᴰ.head refl)))

build_analysis-IsCovered_example :
    IsCovered extraction.requirements bundle.requirements bundle.matches bundle.missing_items
      bundle.deviations bundle.bom
build_analysis-IsCovered_example =
    build_analysis-IsCovered ids "T1" extraction profile (screen ∷ []) bundle computed.2

build_analysis-blocks_example :
    (decision.ready_for_submission ≡ false)
    × (contains decision.blocking_reason_codes (missing_reason_code authorization) ≡ true)
build_analysis-blocks_example =
    build_analysis-blocks ids "T1" extraction profile (screen ∷ []) bundle authorization report
      decision computed.2 authorization-mem refl refl computed.3
