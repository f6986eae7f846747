-- ===== src/Examples/Extractions.antt =====
-- The theorems on extraction, applied to a tender of a few lines.
use proofbid.Prelude.{
  Bool, List, String, [], join, list_eq, map, nat_eq, refl, text_eq, ◌<>◌, ◌∷◌, ◌≡◌, is_unique,
  none, true, some, Option, false,
}
use proofbid.Extraction.Documents.{Reader, extract_requirements}
use proofbid.Contracts.{
  DocumentType, RequirementCategory, ExtractionResult, Requirement, SourceDocument,
}
use proofbid.Loading.{Json, Items, Fields, Codec, load_bidder_profile}
use proofbid.Loading.Linked.{IsLinked, load_bidder_profile-IsLinked}
use proofbid.Contracts.{Scalar, EvidenceRef}
use proofbid.Loading.Table.{Csv, load_catalog}
use proofbid.Loading.Stocked.{IsStocked, load_catalog-IsStocked}
use proofbid.Contracts.{CatalogItem}
use proofbid.Decimal.{Decimal}
use proofbid.Errors.{Result, ok, raised}
use proofbid.Extraction.Kept.{IsExtraction, extract_requirements-IsExtraction}
use proofbid.Extraction.Analysed.{matched_ids, extracted_ids, extracted-matched}
use proofbid.Matching.Analysis.{build_analysis}
use proofbid.Matching.Returns.{has_readable_limit}
use proofbid.Contracts.{AnalysisBundle, BidderProfile}

abbrev hash : String
hash = "aaaaaaaaaaaaaaaaaaaaaaaaaaaaaaaaaaaaaaaaaaaaaaaaaaaaaaaaaaaaaaaa"

abbrev pub tender : SourceDocument
tender = record {
  document_id = "doc-tender";
  relative_path = "tender.md";
  document_type = DocumentType.markdown;
  source_hash = hash;
  size_bytes = 100;
}

abbrev lines : String
lines = "# 技术要求\n\n- 显示设备屏幕尺寸不低于 55 英寸\n\n## 付款说明\n1. 交货在 30 日内完成\n> 引用"

abbrev pub reader : Reader
reader = record {
  read_bytes = λ document. ok [];
  sha256 = λ bytes. hash;
  decode = λ bytes. ok lines;
}

abbrev pub ids : String → List String → String
ids prefix parts = prefix <> "-" <> join "-" parts

abbrev nothing_read : ExtractionResult
nothing_read = record { requirements = []; evidence = [] }

abbrev value_of : Result ExtractionResult → ExtractionResult
value_of (ok x) = x
value_of (raised e) = nothing_read

abbrev extracted : ExtractionResult
extracted = value_of (extract_requirements ids reader (tender ∷ []))

abbrev view : Requirement → String × (Bool × String)
view r = (r.title, (r.mandatory, r.source_locator))

abbrev profile : BidderProfile
profile = record {
  source_document_id = "doc-bidder";
  source_hash = hash;
  legal_name = none;
  facts = [];
  evidence = [];
}

abbrev no_analysis : AnalysisBundle
no_analysis = record {
  task_id = "";
  requirements = [];
  evidence = [];
  matches = [];
  bom = [];
  deviations = [];
  missing_items = [];
}

abbrev analysis : Result AnalysisBundle
analysis = build_analysis ids "T1" extracted profile []

abbrev bundle_of : Result AnalysisBundle → AnalysisBundle
bundle_of (ok b) = b
bundle_of (raised e) = no_analysis

abbrev analysed : AnalysisBundle
analysed = bundle_of analysis

-- A bidder's profile with a nested list.
abbrev pub codec : Codec
codec = record {
  loads = λ text. ok (
      Json.object (
        Fields.field "name" (Json.scalar (Scalar.text " Bidder ")) (
          Fields.field "a/b"
            (Json.array (Items.item (Json.scalar (Scalar.flag true)) Items.no_items))
            Fields.no_fields)));
  dumps = λ value. "value";
}

abbrev pub profile_document : SourceDocument
profile_document = record {
  document_id = "doc-bidder";
  relative_path = "bidder_profile.json";
  document_type = DocumentType.json;
  source_hash = hash;
  size_bytes = 10;
}

abbrev profile_of : Result BidderProfile → BidderProfile
profile_of (ok p) = p
profile_of (raised e) = profile

abbrev loaded : BidderProfile
loaded = profile_of (load_bidder_profile ids reader codec profile_document)

-- A catalog with one filled row.
abbrev pub csv : Csv
csv = record {
  read_table = λ text. ok (record {
    fieldnames = "SKU" ∷ "price" ∷ "colour" ∷ [];
    rows =
        (("SKU", some "S-55") ∷ ("price", some "¥4,500.50") ∷ ("colour", some " red ") ∷ []) ∷ [];
  });
  dumps_row = λ row. "row";
}

abbrev pub catalog_document : SourceDocument
catalog_document = record {
  document_id = "doc-catalog";
  relative_path = "catalog.csv";
  document_type = DocumentType.csv;
  source_hash = hash;
  size_bytes = 10;
}

abbrev items_of : Result (List CatalogItem) → List CatalogItem
items_of (ok items) = items
items_of (raised e) = []

abbrev catalog : List CatalogItem
catalog = items_of (load_catalog ids reader csv catalog_document)

abbrev item_view : CatalogItem → String × (Option Decimal × List (String × Scalar))
item_view i = (i.item_id, (i.unit_price, i.attributes))

-- What is read off the lines.
computed :
    (map view extracted.requirements
      ≡ ("技术要求：显示设备屏幕尺寸不低于 55 英寸", (true, "line:3")) ∷ ("付款说明：交货在 30 日内完成", (true, "line:6")) ∷ [])
    × (extract_requirements ids reader (tender ∷ []) ≡ ok extracted)
    × (analysis ≡ ok analysed)
    × (load_bidder_profile ids reader codec profile_document ≡ ok loaded)
    × (map (λ (e : EvidenceRef). e.locator) loaded.evidence ≡ "json:/name" ∷ "json:/a~1b/0" ∷ [])
    × (loaded.legal_name ≡ some "Bidder")
    × (load_catalog ids reader csv catalog_document ≡ ok catalog)
    × (map item_view catalog
        ≡ (
          "S-55",
          (
            some (record { negative = false; digits = 450050; places = 2 }),
            ("colour", Scalar.text "red") ∷ [],
          ),
        )
          ∷ [])
unfolding proofbid.Contracts.evidence_ref proofbid.Contracts.requirement
    proofbid.Contracts.extraction_result proofbid.Contracts.readiness_decision
    proofbid.Contracts.is_business_code proofbid.Contracts.missing_item proofbid.Decimal.decimal_le
    proofbid.Decimal.decimal_eq proofbid.Decimal.decimal_add proofbid.Decimal.decimal_mul
    proofbid.Extraction.Documents.split_lines proofbid.Extraction.Documents.title_of
    proofbid.Extraction.Documents.add_all_new proofbid.Extraction.Documents.evidence_of_line
    proofbid.Extraction.Documents.requirement_of_line proofbid.Extraction.Documents.read_candidate
    proofbid.Extraction.Documents.read_line proofbid.Extraction.Documents.read_lines
    proofbid.Extraction.Documents.extract_text proofbid.Extraction.Documents.extract_document
    proofbid.Extraction.Documents.extract_all proofbid.Extraction.Documents.extract_requirements
    proofbid.Extraction.Kept.is_evidence proofbid.Extraction.Lines.bullet_pattern
    proofbid.Extraction.Lines.markdown_heading_pattern
    proofbid.Extraction.Lines.plain_heading_pattern
    proofbid.Extraction.Lines.table_separator_pattern proofbid.Extraction.Lines.without_bullet
    proofbid.Extraction.Lines.classify proofbid.Extraction.Lines.heading_of
    proofbid.Extraction.Lines.clean_title proofbid.Extraction.Lines.is_candidate
    proofbid.Extraction.Lines.is_mandatory proofbid.Format.show_nat proofbid.Format.show_general
    proofbid.Format.show_float proofbid.Format.show_fixed proofbid.Format.scalar_text
    proofbid.Loading.escaped proofbid.Loading.pointer_of proofbid.Loading.verified_text
    proofbid.Loading.object_of proofbid.Loading.evidence_of_leaf proofbid.Loading.evidence_of_leaves
    proofbid.Loading.load_bidder_profile proofbid.Loading.Table.first_of_row
    proofbid.Loading.Table.price_of_cell proofbid.Loading.Table.certifications_of
    proofbid.Loading.Table.is_attribute proofbid.Loading.Table.attributes_of
    proofbid.Loading.Table.is_blank proofbid.Loading.Table.item_of_row
    proofbid.Loading.Table.load_rows proofbid.Loading.Table.load_catalog
    proofbid.Matching.Analysis.asks_for_product proofbid.Matching.Analysis.is_warranty
    proofbid.Matching.Analysis.assess proofbid.Matching.Analysis.evidence_of_match
    proofbid.Matching.Analysis.analysis_evidence proofbid.Matching.Analysis.match_of
    proofbid.Matching.Analysis.item_of proofbid.Matching.Analysis.missing_of
    proofbid.Matching.Analysis.deviations_of proofbid.Matching.Analysis.lines_of
    proofbid.Matching.Analysis.add_assessment proofbid.Matching.Analysis.assess_next
    proofbid.Matching.Analysis.assess_all proofbid.Matching.Analysis.build_analysis
    proofbid.Matching.Candidates.product_intent proofbid.Matching.Candidates.item_intent
    proofbid.Matching.Candidates.candidate_score proofbid.Matching.Candidates.constraints_in
    proofbid.Matching.Candidates.compare_numbers proofbid.Matching.Candidates.aliases_of
    proofbid.Matching.Candidates.candidate_value proofbid.Matching.Catalog.resolution_check
    proofbid.Matching.Catalog.constraint_check proofbid.Matching.Catalog.checks_of
    proofbid.Matching.Catalog.constraint_fit proofbid.Matching.Catalog.choose_candidate
    proofbid.Matching.Catalog.judge proofbid.Matching.Catalog.catalog_match
    proofbid.Matching.Covered.unassessed proofbid.Matching.Facts.float_of
    proofbid.Matching.Facts.group_text proofbid.Matching.Facts.without_char
    proofbid.Matching.Facts.number_of proofbid.Errors.map_each proofbid.Matching.Catalog.rank
    proofbid.Matching.Catalog.constraint_points proofbid.Matching.Totals.with_years
    proofbid.Matching.Analysis.general proofbid.Matching.Facts.fact_text
    proofbid.Matching.Facts.normalized proofbid.Matching.Facts.key_ends
    proofbid.Matching.Facts.last_point proofbid.Matching.Facts.fact_groups
    proofbid.Matching.Facts.facts_with_term proofbid.Matching.Facts.profile_support_for_terms
    proofbid.Matching.Policies.is_final proofbid.Matching.Policies.final_facts
    proofbid.Matching.Policies.pricing_policy_match proofbid.Matching.Policies.deadline_facts
    proofbid.Matching.Policies.acknowledged_facts proofbid.Matching.Policies.deadline_outcome
    proofbid.Matching.Policies.submission_deadline_match proofbid.Matching.Policies.duration_outcome
    proofbid.Matching.Policies.duration_of proofbid.Matching.Policies.duration_profile_match
    proofbid.Matching.Profile.terms_in proofbid.Matching.Profile.standards_in
    proofbid.Matching.Profile.group_of_term proofbid.Matching.Profile.actual_part
    proofbid.Matching.Profile.status_of_group proofbid.Matching.Profile.check_groups
    proofbid.Matching.Profile.documents_outcome
    proofbid.Matching.Profile.qualification_document_match proofbid.Matching.Profile.profile_blob
    proofbid.Matching.Profile.terms_outcome proofbid.Matching.Profile.profile_match
    proofbid.Matching.Returns.meets_contract proofbid.Matching.Returns.has_readable_limit
    proofbid.Matching.Returns.is_assessable proofbid.Matching.Returns.is_code
    proofbid.Matching.Totals.demanded_years proofbid.Matching.Totals.warranty_years
    proofbid.Matching.Totals.warranty_match proofbid.Matching.Totals.limit_text
    proofbid.Matching.Totals.price_of proofbid.Matching.Totals.subtotal_of
    proofbid.Matching.Totals.total_outcome proofbid.Matching.Totals.pricing_total_match
    proofbid.Matching.Totals.quantity proofbid.Matching.Totals.missing_reason_code
    proofbid.Prelude.get_key proofbid.Prelude.put_key proofbid.Prelude.set_default
    proofbid.Prelude.find_last proofbid.Prelude.from_keys proofbid.Prelude.is_space
    proofbid.Prelude.lstrip proofbid.Prelude.rstrip proofbid.Prelude.strip proofbid.Prelude.casefold
    proofbid.Prelude.compact proofbid.Prelude.join proofbid.Prelude.casefold_in
    proofbid.Prelude.is_sha256 proofbid.Prelude.occurs proofbid.Prelude.text_le
    proofbid.Prelude.sorted proofbid.Prelude.is_infix proofbid.Regex.char proofbid.Regex.word_codes
    proofbid.Regex.one_of proofbid.Regex.word_any_case proofbid.Regex.at_most
    proofbid.Regex.at_most_lazily proofbid.Regex.many proofbid.Regex.many_lazily
    proofbid.Regex.exactly proofbid.Regex.take_text proofbid.Regex.group proofbid.Regex.match_start
    proofbid.Regex.search_text proofbid.Regex.group_of proofbid.Regex.find_all
    proofbid.Loading.leaves
computed = (refl, refl, refl, refl, refl, refl, refl, refl)

extract_requirements-IsExtraction_example : IsExtraction extracted
extract_requirements-IsExtraction_example =
    extract_requirements-IsExtraction ids reader (tender ∷ []) extracted computed.1

extracted-matched_example :
    (matched_ids analysed ≡ extracted_ids extracted) × (is_unique (matched_ids analysed) ≡ true)
extracted-matched_example =
    extracted-matched ids "T1" reader (tender ∷ []) extracted profile [] analysed computed.1
      computed.2

load_bidder_profile-IsLinked_example : IsLinked loaded
load_bidder_profile-IsLinked_example =
    load_bidder_profile-IsLinked ids reader codec profile_document loaded computed.3

load_catalog-IsStocked_example : IsStocked ids reader csv catalog_document catalog
load_catalog-IsStocked_example =
    load_catalog-IsStocked ids reader csv catalog_document catalog computed.6
