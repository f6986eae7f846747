-- ===== src/Pipeline.antt =====
-- pipeline.py: the inputs that a run needs, and the failures that stop it.
pub mod Inputs
pub mod Trace
pub mod Plant
pub mod Run
pub mod Recorded
pub mod Packaged
pub mod Finished
use proofbid.Prelude.{
  Bool, List, Option, String, [], any, false, find_last, is_some, none, not, select, some, true,
  ◌&&◌, ◌==◌, ◌∷◌, text_eq, nat_eq, list_eq,
}
use proofbid.Errors.{Result, ok, raised, plain_failure, ◌>>=◌, ◌>>◌}
use proofbid.Contracts.{DocumentType, markdown, json, csv, document_type_value, SourceDocument}
use proofbid.Readiness.{ValidationFinding, ValidationReport, failures, is_blocking}

abbrev pub required_inputs : List (String × DocumentType)
required_inputs =
    ("tender.md", markdown) ∷ ("bidder_profile.json", json) ∷ ("catalog.csv", csv) ∷ []

-- `by_name.get(name)`, where `by_name` is keyed by the relative path.
unfoldable pub by_name : List SourceDocument → String → Option SourceDocument
by_name documents name = find_last (λ d. d.relative_path == name) documents

has_type : List SourceDocument → String × DocumentType → Bool
has_type documents (name, expected) = elim (by_name documents name) [
  | none ↦ false
  | some d ↦ document_type_value d.document_type == document_type_value expected
]

-- `raise PipelineError(…)` under a condition.
abbrev pub stop_if : Bool → Result (Unit {0})
stop_if true = raised (plain_failure "PipelineError")
stop_if false = ok tt

-- `_documents_by_name`, from the outcome of the scan of the workspace.
unfoldable pub documents_by_name : Result (List SourceDocument) → Result (List SourceDocument)
unfolding has_type
documents_by_name scanned = do
  documents ← scanned
  stop_if (any (λ (name, _). not (is_some (by_name documents name))) required_inputs)
  stop_if (any (λ required. not (has_type documents required)) required_inputs)
  ok documents

-- `_blocking_failures`
unfoldable pub blocking_failures : Bool → ValidationReport → List ValidationFinding
blocking_failures allow_business_blockers report =
    select
      (λ f.
        is_blocking f
        && not (allow_business_blockers && f.code == "MANDATORY_REQUIREMENT_RESOLVED"))
      (failures report)
