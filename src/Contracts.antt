-- ===== src/Contracts.antt =====
-- contracts.py: the data that the parts of the program hand to one another.
-- Prices and quantities are exact decimals; a confidence is in hundredths.
use proofbid.Prelude.{
  Bool, List, Option, String, [], all, any, codes, contains, false, leb, length, map, nonempty, not,
  strip, true, truthy, ℕ, ◌&&◌, ◌==◌, ◌||◌, ◌∷◌, text_eq, nat_eq, list_eq,
}
use proofbid.Decimal.{Decimal}
use proofbid.Errors.{Result, ok, ◌>>◌, refuse}

pub data DocumentType : Type 0 where
  markdown text json csv : DocumentType

-- `.value` of a document type.
abbrev pub document_type_value : DocumentType → String
document_type_value markdown = "markdown"
document_type_value text = "text"
document_type_value json = "json"
document_type_value csv = "csv"

abbrev pub document_types : List String
document_types = "markdown" ∷ "text" ∷ "json" ∷ "csv" ∷ []

pub record SourceDocument : Type 0 where
  pub document_id : String
  pub relative_path : String
  pub document_type : DocumentType
  pub source_hash : String
  pub size_bytes : ℕ

pub data RequirementCategory : Type 0 where
  qualification technical commercial pricing contract submission unknown : RequirementCategory

pub data MatchStatus : Type 0 where
  compliant partial non_compliant unknown : MatchStatus

pub data Severity : Type 0 where
  info warning error blocker : Severity

-- `.value` of a severity.
abbrev pub severity_value : Severity → String
severity_value info = "info"
severity_value warning = "warning"
severity_value error = "error"
severity_value blocker = "blocker"

-- `status == other` on match statuses
abbrev pub is_compliant : MatchStatus → Bool
is_compliant compliant = true
is_compliant _ = false

pub record EvidenceRef : Type 0 where
  pub evidence_id : String
  pub source_document_id : String
  pub source_path : String
  pub source_hash : String
  pub locator : String
  pub excerpt : String
  pub extracted_value : Option String
  pub confidence : ℕ

pub record Requirement : Type 0 where
  pub req_id : String
  pub title : String
  pub category : RequirementCategory
  pub mandatory : Bool
  pub text : String
  pub evidence_ids : List String
  pub source_locator : String
  pub source_hash : String
  pub status : MatchStatus
  pub attributes : List (String × Option String)

pub record ExtractionResult : Type 0 where
  pub requirements : List Requirement
  pub evidence : List EvidenceRef

-- A value of a JSON document or of a catalog cell. A number comes with the text that `str` gives it.
pub data Scalar : Type 0 where
  null : Scalar
  flag : Bool → Scalar
  number : (value : Decimal) (shown : String) → Scalar
  text : String → Scalar

pub record BidderFact : Type 0 where
  pub key : String
  pub value : Scalar
  pub evidence_id : String

pub record BidderProfile : Type 0 where
  pub source_document_id : String
  pub source_hash : String
  pub legal_name : Option String
  pub facts : List BidderFact
  pub evidence : List EvidenceRef

pub record CatalogItem : Type 0 where
  pub item_id : String
  pub name : Option String
  pub model : Option String
  pub category : Option String
  pub unit : Option String
  pub unit_price : Option Decimal
  pub currency : Option String
  pub attributes : List (String × Scalar)
  pub certifications : List String
  pub evidence_ids : List String
  pub evidence : List EvidenceRef

pub record ComplianceMatch : Type 0 where
  pub match_id : String
  pub requirement_id : String
  pub status : MatchStatus
  pub rationale : String
  pub candidate_id : Option String
  pub expected : Option String
  pub actual : Option String
  pub evidence_ids : List String

pub record MissingItem : Type 0 where
  pub id : String
  pub requirement_id : String
  pub reason_code : String
  pub description : String
  pub severity : Severity
  pub blocks_completion : Bool

pub record Deviation : Type 0 where
  pub id : String
  pub requirement_id : String
  pub expected : Option String
  pub actual : Option String
  pub status : MatchStatus
  pub evidence_ids : List String
  pub explanation : String

pub record BomLine : Type 0 where
  pub id : String
  pub requirement_id : String
  pub item_id : Option String
  pub name : Option String
  pub qty : Option Decimal
  pub unit : Option String
  pub unit_price : Option Decimal
  pub currency : Option String
  pub status : MatchStatus
  pub evidence_ids : List String
  pub rationale : String

pub record AnalysisBundle : Type 0 where
  pub task_id : String
  pub requirements : List Requirement
  pub evidence : List EvidenceRef
  pub matches : List ComplianceMatch
  pub bom : List BomLine
  pub deviations : List Deviation
  pub missing_items : List MissingItem

pub record ReadinessDecision : Type 0 where
  pub ready_for_human_review : Bool
  pub ready_for_submission : Bool
  pub submission_executed : Bool
  pub high_risk_actions_locked : Bool
  pub blocking_reason_codes : List String

-- The constructors run `__post_init__`, which raises on a value that breaks the contract.
unfoldable pub evidence_ref : EvidenceRef → Result EvidenceRef
evidence_ref r = do
  refuse (not (truthy r.source_hash) || not (length (codes r.source_hash) == 64))
      "EvidenceRef.source_hash must be a SHA-256 hex digest"
  refuse (not (truthy (strip r.locator)) || not (truthy (strip r.excerpt)))
      "EvidenceRef requires a locator and non-empty excerpt"
  refuse (not (leb r.confidence 100)) "EvidenceRef.confidence must be between 0 and 1"
  ok r

unfoldable pub requirement : Requirement → Result Requirement
requirement r = do
  refuse (not (nonempty r.evidence_ids)) "Every requirement must reference at least one EvidenceRef"
  refuse (not (truthy r.source_locator) || not (length (codes r.source_hash) == 64))
      "Requirement must retain its source locator and SHA-256"
  ok r

unfoldable pub extraction_result : ExtractionResult → Result ExtractionResult
extraction_result x = do
  let ledger = map (λ (r : EvidenceRef). r.evidence_id) x.evidence
  refuse
      (any (λ (r : Requirement). any (λ i. not (contains ledger i)) r.evidence_ids) x.requirements)
      "Requirements reference missing evidence"
  ok x

unfoldable pub readiness_decision : ReadinessDecision → Result ReadinessDecision
readiness_decision d = do
  refuse d.submission_executed "ProofBid preparation runs must never execute submission"
  refuse (not d.high_risk_actions_locked) "High-risk actions must remain locked"
  refuse (d.ready_for_submission && not d.ready_for_human_review)
      "Submission readiness requires human-review readiness"
  refuse (d.ready_for_submission && nonempty d.blocking_reason_codes)
      "A ready package cannot retain blocking reason codes"
  ok d

-- `re.fullmatch(r"[A-Z][A-Z0-9_]*", s)`
unfoldable pub is_business_code : List ℕ → Bool
is_business_code [] = false
is_business_code (c ∷ cs) =
    leb 65 c && leb c 90 && all (λ n. leb 65 n && leb n 90 || leb 48 n && leb n 57 || n == 95) cs

unfoldable pub missing_item : MissingItem → Result MissingItem
unfolding is_business_code
missing_item i = do
  refuse (not (truthy i.reason_code) || not (truthy (strip i.reason_code)))
      "Missing items require a stable reason_code"
  refuse (not (is_business_code (codes i.reason_code)))
      "Missing-item reason_code must be an uppercase business code"
  ok i
