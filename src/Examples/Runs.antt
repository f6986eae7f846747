-- ===== src/Examples/Runs.antt =====
-- The theorems on a run of the pipeline, applied to a tender with two open requirements.
use proofbid.Pipeline.Recorded.{IsRecorded, run_pipeline-IsRecorded}
use proofbid.Pipeline.Finished.{IsFinished, run_pipeline-IsFinished}
use proofbid.Regex.{◌then◌}
use proofbid.Prelude.{
  List, String, [], codes, contains, false, find_last, get_key, if◌then◌else◌, list_eq, map, nat_eq,
  none, some, suc, text_eq, zero, ℕ, ◌++◌, ◌==◌, ◌∷◌, refl, ◌≡◌,
}
use proofbid.Planning.Payloads.{list_json, text_json}
use proofbid.Pipeline.Trace.{Trace, Event}
use proofbid.Pipeline.Run.{run_pipeline}
use proofbid.Pipeline.Plant.{Plant, PipelineOutcome}
use proofbid.Loading.{Json, scalar, object}
use proofbid.Json.{fields_of}
use proofbid.Delivery.{
  ArtifactSet, Library, Storage, archive_name, core_names, manifest_name, trace_name,
}
use proofbid.Contracts.{null}
use proofbid.Examples.Extractions.{
  ids, reader, codec, csv, tender, profile_document, catalog_document,
}
use proofbid.Examples.Deliveries.{entry_of, member_of, supplied_at, office}
use proofbid.Errors.{ok, Result}

abbrev payload_names : List String
payload_names = core_names ++ trace_name ∷ []

abbrev package_files : List String
package_files = payload_names ++ manifest_name ∷ archive_name ∷ []

abbrev nulls : ℕ → List Json
nulls zero = []
nulls (suc n) = scalar null ∷ nulls n

abbrev texts : List (String × Json)
texts =
    (
      "manifest.json",
      object (
          fields_of (
            ("execution_mode", text_json "deterministic")
            ∷ ("files", list_json (map entry_of payload_names))
            ∷ [])),
    )
    ∷ (
      "result.json",
      object (
          fields_of
            (("execution_mode", text_json "deterministic") ∷ ("analysis", scalar null) ∷ [])),
    )
    ∷ ("requirements.json", object (fields_of (("requirements", list_json (nulls 2)) ∷ [])))
    ∷ ("evidence.json", object (fields_of (("evidence", list_json (nulls 5)) ∷ [])))
    ∷ []

abbrev storage : Storage
storage = record {
  root = "/out";
  file = λ name. if contains package_files name then some (codes name) else none;
  link = λ name. none;
  listing = some package_files;
}

abbrev artifacts : ArtifactSet
artifacts = record {
  output_dir = some (some "/out");
  fields = ("trace", supplied_at trace_name) ∷ [];
  supplemental_payloads = [];
  execution_mode = some "deterministic";
}

abbrev library : Library
library = record {
  sha256 = λ b. reader.sha256 b;
  decode = λ b.
      if b == codes trace_name then some "" else find_last (λ name. codes name == b) package_files;
  loads = λ s. get_key s texts;
  open_zip = λ b.
      some
        (record { corrupt = none; members = map member_of (payload_names ++ manifest_name ∷ []) });
  normalize = λ s. s;
  is_other = λ n. false;
  repr = λ x. "";
}

abbrev plant : Plant
plant = record {
  scan_workspace = ok (profile_document ∷ catalog_document ∷ tender ∷ []);
  prepare_output = ok tt;
  write_json = λ name value. ok tt;
  render_bundle = λ bundle report trace supplemental mode. ok (artifacts, storage);
  entry_count = λ s. 8;
  new_task_id = "task-1";
  stable_id = ids;
  reader = reader;
  codec = codec;
  csv = csv;
  digests = record { of_task = λ t. ""; of_plan = λ p. "" };
  library = library;
  office = office;
}

abbrev run : Result PipelineOutcome × Trace
run = run_pipeline plant none none none []

abbrev event_view : Event → String × String
event_view e = (e.step, e.status)

-- The run returns, with a trace of its six stages.
computed :
    ((outcome : PipelineOutcome) × ◌≡◌ {A = Result PipelineOutcome × Trace} run (ok outcome, run.1)
      × (outcome.status ≡ "completed_with_blockers"))
    × (map event_view run.1
        ≡ ("intake", "started")
          ∷ ("intake", "completed")
          ∷ ("extraction", "started")
          ∷ ("extraction", "completed")
          ∷ ("matching", "started")
          ∷ ("matching", "completed")
          ∷ ("domain_validation", "started")
          ∷ ("domain_validation", "completed")
          ∷ ("render", "started")
          ∷ ("render", "completed")
          ∷ ("artifact_validation", "started")
          ∷ ("artifact_validation", "completed")
          ∷ [])
unfolding proofbid.Errors.map_each proofbid.Matching.Catalog.rank
    proofbid.Matching.Catalog.constraint_points proofbid.Matching.Totals.with_years
    proofbid.Matching.Analysis.general proofbid.Matching.Facts.number_of
    proofbid.Loading.field_leaves proofbid.Bundle.evidence_by_id
    proofbid.Bundle.match_by_requirement proofbid.Bundle.evidence_findings
    proofbid.Bundle.lineage_ok proofbid.Bundle.mandatory_findings
    proofbid.Bundle.requirement_findings proofbid.Bundle.match_findings proofbid.Bundle.bom_findings
    proofbid.Bundle.identifier_findings proofbid.Bundle.one_match_finding
    proofbid.Bundle.validate_bundle proofbid.Contracts.evidence_ref proofbid.Contracts.requirement
    proofbid.Contracts.extraction_result proofbid.Contracts.readiness_decision
    proofbid.Contracts.missing_item proofbid.Decimal.decimal_le
    proofbid.Delivery.portable_payload_key proofbid.Delivery.is_canonical
    proofbid.Delivery.is_planning_key proofbid.Delivery.is_safe_flat_name
    proofbid.Delivery.load_json proofbid.Delivery.load_object proofbid.Delivery.json_text
    proofbid.Delivery.text_or_empty proofbid.Delivery.entry_text proofbid.Delivery.entry_names
    proofbid.Delivery.manifest_entries proofbid.Delivery.Archive.zip_names
    proofbid.Delivery.Archive.read_member proofbid.Delivery.Archive.is_regular_member
    proofbid.Delivery.Archive.member_findings proofbid.Delivery.Archive.content_findings
    proofbid.Delivery.Archive.zip_findings proofbid.Delivery.Archive.opened_findings
    proofbid.Delivery.Archive.archive_findings proofbid.Delivery.Archive.listed_findings
    proofbid.Delivery.Archive.manifest_findings
    proofbid.Delivery.Archive.validate_manifest_and_archive
    proofbid.Delivery.Checks.present_findings proofbid.Delivery.Checks.first_findings
    proofbid.Delivery.Checks.report_if_present proofbid.Delivery.Checks.validate_artifacts
    proofbid.Delivery.Content.content_findings_of proofbid.Delivery.Content.json_file_findings
    proofbid.Delivery.Content.validate_json_files proofbid.Delivery.Manifest.is_declared_file
    proofbid.Delivery.Manifest.file_findings proofbid.Delivery.Manifest.expected_payload_names
    proofbid.Delivery.Manifest.has_unique_names proofbid.Delivery.Manifest.entries_findings
    proofbid.Delivery.Modes.resolved proofbid.Delivery.Modes.loads_lines
    proofbid.Delivery.Modes.is_planning_event proofbid.Delivery.Modes.trace_is_consistent
    proofbid.Delivery.Modes.delivery_trace_state proofbid.Delivery.Modes.manifest_names
    proofbid.Delivery.Modes.observed_modes proofbid.Delivery.Modes.has_planning_marker
    proofbid.Delivery.Modes.is_planning_required proofbid.Delivery.Modes.is_mode_consistent
    proofbid.Delivery.Modes.mode_finding proofbid.Delivery.Paths.is_at
    proofbid.Delivery.Paths.is_fixed_path proofbid.Delivery.Paths.is_supplemental_path
    proofbid.Delivery.Paths.is_root_kept proofbid.Delivery.Paths.are_delivery_paths
    proofbid.Delivery.Paths.paths_finding proofbid.Delivery.Planned.bound_findings
    proofbid.Delivery.Planned.accepted_result proofbid.Delivery.Planned.planning_payloads
    proofbid.Delivery.Planned.evidence_findings_of proofbid.Delivery.Planned.looped_entries
    proofbid.Delivery.Planned.has_planning_trail proofbid.Delivery.Planned.files_findings
    proofbid.Delivery.Planned.planned_findings proofbid.Delivery.Planned.validate_planning_payloads
    proofbid.Extraction.Documents.split_lines proofbid.Extraction.Documents.title_of
    proofbid.Extraction.Documents.add_all_new proofbid.Extraction.Documents.evidence_of_line
    proofbid.Extraction.Documents.requirement_of_line proofbid.Extraction.Documents.read_candidate
    proofbid.Extraction.Documents.read_line proofbid.Extraction.Documents.read_lines
    proofbid.Extraction.Documents.extract_text proofbid.Extraction.Documents.extract_document
    proofbid.Extraction.Documents.extract_all proofbid.Extraction.Documents.extract_requirements
    proofbid.Extraction.Kept.is_evidence proofbid.Extraction.Lines.bullet_pattern
    proofbid.Extraction.Lines.markdown_heading_pattern
    proofbid.Extraction.Lines.plain_heading_pattern
    proofbid.Extraction.Lines.table_separator_pattern proofbid.Extraction.Lines.without_bullet
    proofbid.Extraction.Lines.classify proofbid.Extraction.Lines.heading_of
    proofbid.Extraction.Lines.clean_title proofbid.Extraction.Lines.is_candidate
    proofbid.Extraction.Lines.is_mandatory proofbid.Format.show_nat proofbid.Format.show_general
    proofbid.Format.show_float proofbid.Format.show_fixed proofbid.Format.scalar_text
    proofbid.Json.list_of proofbid.Json.items_of proofbid.Json.dict_of proofbid.Json.fields_of
    proofbid.Json.member proofbid.Json.is_object proofbid.Json.array_of proofbid.Json.is_string
    proofbid.Json.is_count proofbid.Loading.escaped proofbid.Loading.pointer_of
    proofbid.Loading.verified_text proofbid.Loading.object_of proofbid.Loading.evidence_of_leaf
    proofbid.Loading.evidence_of_leaves proofbid.Loading.load_bidder_profile
    proofbid.Loading.Table.first_of_row proofbid.Loading.Table.price_of_cell
    proofbid.Loading.Table.certifications_of proofbid.Loading.Table.is_attribute
    proofbid.Loading.Table.attributes_of proofbid.Loading.Table.is_blank
    proofbid.Loading.Table.item_of_row proofbid.Loading.Table.load_rows
    proofbid.Loading.Table.load_catalog proofbid.Matching.Analysis.asks_for_product
    proofbid.Matching.Analysis.is_warranty proofbid.Matching.Analysis.assess
    proofbid.Matching.Analysis.evidence_of_match proofbid.Matching.Analysis.analysis_evidence
    proofbid.Matching.Analysis.match_of proofbid.Matching.Analysis.item_of
    proofbid.Matching.Analysis.missing_of proofbid.Matching.Analysis.deviations_of
    proofbid.Matching.Analysis.lines_of proofbid.Matching.Analysis.add_assessment
    proofbid.Matching.Analysis.assess_next proofbid.Matching.Analysis.assess_all
    proofbid.Matching.Analysis.build_analysis proofbid.Matching.Candidates.product_intent
    proofbid.Matching.Candidates.item_intent proofbid.Matching.Candidates.candidate_score
    proofbid.Matching.Candidates.constraints_in proofbid.Matching.Candidates.compare_numbers
    proofbid.Matching.Catalog.checks_of proofbid.Matching.Catalog.constraint_fit
    proofbid.Matching.Catalog.choose_candidate proofbid.Matching.Catalog.judge
    proofbid.Matching.Catalog.catalog_match proofbid.Matching.Covered.unassessed
    proofbid.Matching.Facts.float_of proofbid.Matching.Facts.group_text
    proofbid.Matching.Facts.profile_support_for_terms proofbid.Matching.Policies.is_final
    proofbid.Matching.Policies.final_facts proofbid.Matching.Policies.pricing_policy_match
    proofbid.Matching.Policies.deadline_facts proofbid.Matching.Policies.acknowledged_facts
    proofbid.Matching.Policies.deadline_outcome proofbid.Matching.Policies.submission_deadline_match
    proofbid.Matching.Policies.duration_outcome proofbid.Matching.Policies.duration_of
    proofbid.Matching.Policies.duration_profile_match proofbid.Matching.Profile.terms_in
    proofbid.Matching.Profile.standards_in proofbid.Matching.Profile.group_of_term
    proofbid.Matching.Profile.actual_part proofbid.Matching.Profile.status_of_group
    proofbid.Matching.Profile.terms_outcome proofbid.Matching.Profile.profile_match
    proofbid.Matching.Returns.meets_contract proofbid.Matching.Returns.has_readable_limit
    proofbid.Matching.Totals.total_outcome proofbid.Matching.Totals.pricing_total_match
    proofbid.Matching.Totals.quantity proofbid.Matching.Totals.missing_reason_code
    proofbid.Pipeline.by_name proofbid.Pipeline.documents_by_name
    proofbid.Pipeline.blocking_failures proofbid.Pipeline.Plant.paired
    proofbid.Pipeline.Plant.document_at proofbid.Pipeline.Plant.unchanged_or_stop
    proofbid.Pipeline.Plant.intake proofbid.Pipeline.Plant.resolved_task_id
    proofbid.Pipeline.Plant.planned_intake proofbid.Pipeline.Plant.write_planning_files
    proofbid.Pipeline.Plant.taken_in proofbid.Pipeline.Plant.extraction_of
    proofbid.Pipeline.Plant.matched proofbid.Pipeline.Plant.validated
    proofbid.Pipeline.Plant.rendered_package proofbid.Pipeline.Plant.previewed
    proofbid.Pipeline.Plant.outcome_with proofbid.Pipeline.Plant.outcome_of
    proofbid.Pipeline.Recorded.is_paired proofbid.Pipeline.Recorded.is_numbered
    proofbid.Pipeline.Run.planning_events proofbid.Pipeline.Run.render_with_frozen_trace
    proofbid.Pipeline.Run.run_stages proofbid.Pipeline.Run.run_pipeline
    proofbid.Pipeline.Trace.record_event proofbid.Pipeline.Trace.settled
    proofbid.Pipeline.Trace.stage proofbid.Planning.Evidence.read_receipt
    proofbid.Planning.Evidence.provider_receipt_from_dict
    proofbid.Planning.Evidence.validate_planning_evidence proofbid.Planning.Payloads.number_json
    proofbid.Planning.Payloads.input_to_dict proofbid.Prelude.find_last proofbid.Prelude.from_keys
    proofbid.Prelude.is_space proofbid.Prelude.lstrip proofbid.Prelude.rstrip proofbid.Prelude.strip
    proofbid.Prelude.casefold proofbid.Prelude.compact proofbid.Prelude.join
    proofbid.Prelude.casefold_in proofbid.Prelude.is_sha256 proofbid.Prelude.occurs
    proofbid.Prelude.text_le proofbid.Prelude.sorted proofbid.Prelude.is_infix
    proofbid.Readiness.is_blocking proofbid.Readiness.report_passed proofbid.Readiness.failures
    proofbid.Readiness.item_code proofbid.Readiness.blocking_codes
    proofbid.Readiness.build_readiness_decision proofbid.Regex.char proofbid.Regex.word_codes
    proofbid.Regex.one_of proofbid.Regex.word_any_case proofbid.Regex.at_most
    proofbid.Regex.at_most_lazily proofbid.Regex.many proofbid.Regex.many_lazily
    proofbid.Regex.exactly proofbid.Regex.take_text proofbid.Regex.group proofbid.Regex.match_start
    proofbid.Regex.search_text proofbid.Regex.group_of proofbid.Regex.find_all
computed = ((_, refl, refl), refl)

run_pipeline-IsFinished_example : IsFinished plant computed.0.0 run.1
run_pipeline-IsFinished_example =
    run_pipeline-IsFinished plant none none none computed.0.0 run.1 computed.0.1

run_pipeline-IsRecorded_example : IsRecorded run.1
run_pipeline-IsRecorded_example = run_pipeline-IsRecorded plant none none none
