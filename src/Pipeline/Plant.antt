-- ===== src/Pipeline/Plant.antt =====
-- pipeline.py: what a run of the pipeline is given, and the steps of its stages. The scan, the
-- rendering and the writing of files are parameters, and so are the libraries of the parts.
use proofbid.Runtime.Freeze.{catalog_subtotal}
use proofbid.Regex.{◌then◌}
use proofbid.Planning.Plan.{ExecutionPlan, validate_execution_plan}
use proofbid.Planning.Payloads.{execution_plan_to_dict, provider_receipt_to_dict, task_spec_to_dict}
use proofbid.Matching.Analysis.{build_analysis}
use proofbid.Bundle.{validate_bundle}
use proofbid.Readiness.{ValidationReport, build_readiness_decision, report_passed}
use proofbid.Prelude.{
  Bool, List, Option, String, none, some, ℕ, [], false, if◌then◌else◌, length, list_eq, nat_eq,
  nonempty, not, select, strip, text_eq, truthy, ◌==◌, ◌∷◌,
}
use proofbid.Planning.Spec.{TaskSpec, assert_task_inputs_unchanged}
use proofbid.Planning.Receipt.{PlanningResult}
use proofbid.Planning.Evidence.{Digests}
use proofbid.Pipeline.Trace.{Trace}
use proofbid.Pipeline.{by_name, documents_by_name, stop_if}
use proofbid.Loading.Table.{Csv, load_catalog}
use proofbid.Loading.{Codec, Json, load_bidder_profile}
use proofbid.Extraction.Documents.{Reader, extract_requirements}
use proofbid.Errors.{Result, ok, raised, plain_failure}
use proofbid.Delivery.Checks.{OfficeChecks, validate_artifacts}
use proofbid.Delivery.{ArtifactSet, Library, Storage, planning_names}
use proofbid.Decimal.{Decimal}
use proofbid.Contracts.{
  AnalysisBundle, ReadinessDecision, SourceDocument, ExtractionResult, MissingItem,
}
use proofbid.Errors.{◌>>=◌, ◌>>◌}
use proofbid.Errors.{plan_validation}

pub record Plant : Type 0 where
  pub scan_workspace : Result (List SourceDocument)
  pub prepare_output : Result (Unit {0})
  pub write_json : String → Json → Result (Unit {0})
  pub render_bundle :
      AnalysisBundle
      → ValidationReport
      → Trace
      → List String
      → String
      → Result (ArtifactSet × Storage)
  pub entry_count : Storage → ℕ
  pub new_task_id : String
  pub stable_id : String → List String → String
  pub reader : Reader
  pub codec : Codec
  pub csv : Csv
  pub digests : Digests
  pub library : Library
  pub office : OfficeChecks

-- The task and the plan that a caller supplies.
abbrev pub Approved : Type 0
Approved = Option (TaskSpec × PlanningResult)

-- What `run_pipeline` returns; `artifact_integrity_passed` is the constant `True`.
pub record PipelineOutcome : Type 0 where
  pub task_id : String
  pub status : String
  pub readiness : ReadinessDecision
  pub requirement_count : ℕ
  pub evidence_count : ℕ
  pub bom_line_count : ℕ
  pub subtotal : Decimal
  pub missing_item_count : ℕ
  pub blocking_missing_item_count : ℕ
  pub domain_validation_passed : Bool
  pub artifacts : ArtifactSet
  pub plan_digest : Option String

-- `TaskSpec and PlanningResult must be supplied together`
unfoldable pub paired : Option TaskSpec → Option PlanningResult → Result Approved
paired none none = ok none
paired (some spec) (some planning) = ok (some (spec, planning))
paired none (some planning) = raised (plain_failure "PipelineError")
paired (some spec) none = raised (plain_failure "PipelineError")

-- `by_name[name]`
unfoldable pub document_at : List SourceDocument → String → Result SourceDocument
document_at documents name = elim (by_name documents name) [
  | none ↦ raised (plain_failure "KeyError")
  | some document ↦ ok document
]

-- `except PlanValidationError`
unfoldable pub unchanged_or_stop : Result (Unit {0}) → Result (Unit {0})
unchanged_or_stop (ok x) = ok x
unchanged_or_stop (raised (plan_validation reason_codes)) = raised (plain_failure "PipelineError")
unchanged_or_stop (raised e) = raised e

-- `task_spec.task_id != resolved_task_id`
abbrev pub is_other_id : Approved → String → Bool
is_other_id none id = false
is_other_id (some (spec, planning)) id = not (spec.task_id == id)

abbrev pub mode_of : List String → String
mode_of supplemental = if nonempty supplemental then "agentic" else "deterministic"

abbrev pub supplemental_names : Approved → List String
supplemental_names none = []
supplemental_names (some x) = planning_names

abbrev pub plan_digest_of : (ExecutionPlan → String) → Approved → Option String
plan_digest_of digest none = none
plan_digest_of digest (some (spec, planning)) = some (digest planning.plan)

module _ (plant : Plant) where
  -- `_documents_by_name`
  unfoldable pub intake : Result (List SourceDocument)
  intake = documents_by_name plant.scan_workspace

  -- `task_id or new_task_id()`
  unfoldable pub resolved_task_id : Option String → String
  resolved_task_id none = plant.new_task_id
  resolved_task_id (some id) = if truthy id then id else plant.new_task_id

  -- The intake of a run whose plan has been approved, before any output is touched.
  unfoldable pub planned_intake : Approved → Result (Option (List SourceDocument))
  planned_intake none = ok none
  planned_intake (some (spec, planning)) = do
    validate_execution_plan plant.digests.of_task planning.plan spec
    documents ← intake
    unchanged_or_stop (assert_task_inputs_unchanged spec documents)
    ok (some documents)

  -- `_write_planning_payloads`
  unfoldable pub write_planning_files : Approved → Result (List String)
  write_planning_files none = ok []
  write_planning_files (some (spec, planning)) = do
    validate_execution_plan plant.digests.of_task planning.plan spec
    stop_if (not (truthy (strip spec.task_id)))
    plant.write_json "task_spec.json" (task_spec_to_dict spec)
    plant.write_json "execution_plan.json" (execution_plan_to_dict planning.plan)
    plant.write_json "planner_receipt.json" (provider_receipt_to_dict planning.receipt)
    ok planning_names

  -- What the intake stage takes: the documents of the approved plan, or those of a new scan.
  unfoldable pub taken_in : Option (List SourceDocument) → Result (List SourceDocument)
  taken_in (some documents) = ok documents
  taken_in none = intake

  unfoldable pub extraction_of : List SourceDocument → Result ExtractionResult
  extraction_of documents = do
    tender ← document_at documents "tender.md"
    extract_requirements plant.stable_id plant.reader (tender ∷ [])

  unfoldable pub matched : String → List SourceDocument → ExtractionResult → Result AnalysisBundle
  matched task_id documents extraction = do
    profile_document ← document_at documents "bidder_profile.json"
    profile ← load_bidder_profile plant.stable_id plant.reader plant.codec profile_document
    catalog_document ← document_at documents "catalog.csv"
    catalog ← load_catalog plant.stable_id plant.reader plant.csv catalog_document
    build_analysis plant.stable_id task_id extraction profile catalog

  -- `validate_artifacts(bundle, artifacts, require_planning=execution_mode == "agentic")`
  unfoldable pub validated :
      AnalysisBundle → List String → ArtifactSet × Storage → Result ValidationReport
  validated bundle supplemental (artifacts, storage) =
      validate_artifacts plant.library plant.digests plant.office bundle artifacts storage
        (some (nonempty supplemental))

  -- A package, rendered over the trace as it stands.
  unfoldable pub rendered_package :
      AnalysisBundle → List String → Trace → Result (ArtifactSet × Storage)
  rendered_package bundle supplemental trace =
      plant.render_bundle bundle (validate_bundle bundle) trace supplemental (mode_of supplemental)

  -- The work of the stage `artifact_validation`: a fresh package, and the report on it.
  unfoldable pub previewed : AnalysisBundle → List String → Trace → Result ValidationReport
  previewed bundle supplemental trace = do
    made ← rendered_package bundle supplemental trace
    validated bundle supplemental made

  -- The dictionary at the end, once the package has passed.
  unfoldable pub outcome_with :
      String → Approved → AnalysisBundle → ArtifactSet → ReadinessDecision → PipelineOutcome
  outcome_with task_id approved bundle artifacts readiness =
      let blockers = select (λ (i : MissingItem). i.blocks_completion) bundle.missing_items in
      record {
        task_id = task_id;
        status = if nonempty blockers then "completed_with_blockers" else "completed";
        readiness = readiness;
        requirement_count = length bundle.requirements;
        evidence_count = length bundle.evidence;
        bom_line_count = length bundle.bom;
        subtotal = catalog_subtotal bundle.bom;
        missing_item_count = length bundle.missing_items;
        blocking_missing_item_count = length blockers;
        domain_validation_passed = report_passed (validate_bundle bundle);
        artifacts = artifacts;
        plan_digest = plan_digest_of plant.digests.of_plan approved;
      }

  unfoldable pub outcome_of :
      String → Approved → AnalysisBundle → ArtifactSet → Result PipelineOutcome
  outcome_of task_id approved bundle artifacts = do
    readiness ← build_readiness_decision bundle (validate_bundle bundle)
    ok (outcome_with task_id approved bundle artifacts readiness)
