-- ===== src/Pipeline/Run.antt =====
-- pipeline.py: `run_pipeline`, from the checks of its arguments to the validated package. The state
-- is the trace, which is empty until the output directory is there.
use proofbid.Runtime.Freeze.{catalog_subtotal}
use proofbid.Readiness.{ValidationReport, report_passed}
use proofbid.Prelude.{List, Option, String, [], length, map, none, nonempty, not, some, true, ◌∷◌}
use proofbid.Planning.Spec.{TaskSpec, task_spec}
use proofbid.Planning.Receipt.{PlanningResult, planning_result}
use proofbid.Planning.Payloads.{count_json, flag_json, number_json, text_json}
use proofbid.Pipeline.Trace.{Trace, record_event, stage}
use proofbid.Pipeline.Plant.{
  Approved, Plant, extraction_of, is_other_id, matched, outcome_of, paired, planned_intake,
  previewed, rendered_package, resolved_task_id, taken_in, validated, write_planning_files,
  PipelineOutcome,
}
use proofbid.Pipeline.{blocking_failures, stop_if}
use proofbid.Loading.{Json, object}
use proofbid.Json.{fields_of}
use proofbid.Errors.{Result, ok}
use proofbid.Delivery.Traced.{completed_details, json_details, started_details}
use proofbid.Delivery.{ArtifactSet}
use proofbid.Contracts.{AnalysisBundle, ExtractionResult, SourceDocument}
use proofbid.Bundle.{validate_bundle}
use proofbid.Exec.{Exec, lift, ◌>>=◌, ◌>>◌, pure, modify}

-- The two events of an approved plan.
unfoldable pub planning_events : Approved → Trace → Trace
planning_events none trace = trace
planning_events (some (spec, planning)) trace =
    let r = planning.receipt in
    record_event "planning" r.provider "completed" (json_details (completed_details r))
      (record_event "planning" r.provider "started" (json_details (started_details planning)) trace)

abbrev pub intake_details : List SourceDocument → List (String × Json)
intake_details documents =
    ("document_count", count_json (length documents))
    ∷ (
      "source_hashes",
      object (
          fields_of
            (map (λ (d : SourceDocument). (d.relative_path, text_json d.source_hash)) documents)),
    )
    ∷ []

abbrev pub extraction_details : ExtractionResult → List (String × Json)
extraction_details extraction =
    ("requirement_count", count_json (length extraction.requirements))
    ∷ ("evidence_count", count_json (length extraction.evidence))
    ∷ []

abbrev pub matching_details : AnalysisBundle → List (String × Json)
matching_details bundle =
    ("match_count", count_json (length bundle.matches))
    ∷ ("bom_line_count", count_json (length bundle.bom))
    ∷ ("missing_item_count", count_json (length bundle.missing_items))
    ∷ ("catalog_subtotal", number_json (catalog_subtotal bundle.bom))
    ∷ []

abbrev pub domain_details : ValidationReport → List (String × Json)
domain_details report =
    let fatal = blocking_failures true report in
    ("integrity_passed", flag_json (not (nonempty fatal)))
    ∷ ("domain_report_passed", flag_json (report_passed report))
    ∷ ("ready_for_submission", flag_json (report_passed report))
    ∷ ("finding_count", count_json (length report.findings))
    ∷ ("fatal_count", count_json (length fatal))
    ∷ []

abbrev pub preview_details : ValidationReport → List (String × Json)
preview_details report =
    let fatal = blocking_failures true report in
    ("artifact_integrity_passed", flag_json (not (nonempty fatal)))
    ∷ ("delivery_report_passed", flag_json (report_passed report))
    ∷ ("finding_count", count_json (length report.findings))
    ∷ ("fatal_count", count_json (length fatal))
    ∷ []

-- A step that reads the trace and leaves it.
abbrev pub reading : {A : Type 0} → (Trace → Result A) → Exec Trace A
reading work trace = (work trace, trace)

module _ (plant : Plant) where
  -- `_render_with_frozen_trace`: the last package is rendered over the whole trace.
  unfoldable pub render_with_frozen_trace :
      AnalysisBundle → List String → Exec Trace (ArtifactSet × ValidationReport)
  render_with_frozen_trace bundle supplemental = do
    stage "render" (rendered_package plant bundle supplemental)
        (λ (artifacts, storage). ("artifact_count", count_json (plant.entry_count storage)) ∷ [])
    reading (rendered_package plant bundle supplemental)
    stage "artifact_validation" (previewed plant bundle supplemental) preview_details
    made ← reading (rendered_package plant bundle supplemental)
    report ← lift (validated plant bundle supplemental made)
    pure (made.0, report)

  -- The stages of a run, and the checks between them.
  unfoldable pub run_stages :
      String → Approved → Option (List SourceDocument) → List String → Exec Trace PipelineOutcome
  run_stages task_id approved planned supplemental = do
    modify (planning_events approved)
    documents ← stage "intake" (λ t. taken_in plant planned) intake_details
    extraction ← stage "extraction" (λ t. extraction_of plant documents) extraction_details
    bundle ← stage "matching" (λ t. matched plant task_id documents extraction) matching_details
    domain_report ← stage "domain_validation" (λ t. ok (validate_bundle bundle)) domain_details
    lift (stop_if (nonempty (blocking_failures true domain_report)))
    final ← render_with_frozen_trace bundle supplemental
    lift (stop_if (nonempty (blocking_failures true final.1)))
    lift (outcome_of plant task_id approved bundle final.0)

  unfoldable pub run_pipeline :
      Option String → Option TaskSpec → Option PlanningResult → Exec Trace PipelineOutcome
  run_pipeline task_id task_spec planning_result = do
    approved ← lift (paired task_spec planning_result)
    let resolved = resolved_task_id plant task_id
    lift (stop_if (is_other_id approved resolved))
    planned ← lift (planned_intake plant approved)
    lift plant.prepare_output
    supplemental ← lift (write_planning_files plant approved)
    run_stages resolved approved planned supplemental
