-- ===== src/Examples/Deliveries.antt =====
-- The theorems on planning evidence and on deliveries, applied to a delivery of a planned run.
use proofbid.Planning.Spec.{TaskSpec, task_input_ref, task_spec}
use proofbid.Planning.Chain.{validate_planning_evidence-to_dict}
use proofbid.Planning.Bound.{IsBound, validate_planning_evidence-IsBound}
use proofbid.Delivery.Trusted.{IsTrusted, validate_artifacts-IsTrusted}
use proofbid.Delivery.Sealed.{IsSealed, validate_manifest_and_archive-IsSealed}
use proofbid.Delivery.Modes.{is_planning_required}
use proofbid.Delivery.Archive.{validate_manifest_and_archive}
use proofbid.Bundle.Passing.{passes}
use mathlib.Core.Path.{subst}
use proofbid.Readiness.{ValidationReport, report_passed}
use proofbid.Regex.{◌then◌}
use proofbid.Prelude.{
  List, String, [], codes, contains, false, find_last, get_key, if◌then◌else◌, length, list_eq, map,
  nat_eq, none, some, text_eq, ◌++◌, ◌==◌, ◌∷◌, refl, true, ◌≡◌, All, Memᴰ, all, sym,
}
use proofbid.Planning.Receipt.{PlanningResult, ProviderReceipt, planning_result, provider_receipt}
use proofbid.Planning.Plan.{ExecutionPlan, execution_plan, plan_step, validate_execution_plan}
use proofbid.Planning.Payloads.{
  count_json, execution_plan_to_dict, list_json, number_json, provider_receipt_to_dict,
  task_spec_to_dict, text_json,
}
use proofbid.Planning.Evidence.{Digests, validate_planning_evidence}
use proofbid.Loading.{Json, object, scalar}
use proofbid.Json.{fields_of}
use proofbid.Delivery.Traced.{completed_details, started_details}
use proofbid.Delivery.Checks.{OfficeChecks, validate_artifacts}
use proofbid.Delivery.{
  ArtifactSet, Library, Storage, Supplied, ZipMember, archive_name, core_names, manifest_name,
  planning_names, trace_name,
}
use proofbid.Contracts.{null, Scalar}
use proofbid.Samples.{hash_a, hash_b, complete, spec, plan, receipt}
use proofbid.Errors.{ok, Result}

abbrev digests : Digests
digests = record { of_task = λ t. hash_a; of_plan = λ p. hash_b }

abbrev bound_plan : ExecutionPlan
bound_plan = record plan { task_spec_digest = hash_a }

abbrev bound_receipt : ProviderReceipt
bound_receipt = record receipt { plan_digest = hash_b }

abbrev planned : PlanningResult
planned = record { plan = bound_plan; receipt = bound_receipt }

abbrev payload_names : List String
payload_names = core_names ++ trace_name ∷ planning_names

-- A file holds its own name.
abbrev package_files : List String
package_files = payload_names ++ manifest_name ∷ archive_name ∷ []

abbrev pub entry_of : String → Json
entry_of name = object (
    fields_of (
      ("path", text_json name)
      ∷ ("size", count_json (length (codes name)))
      ∷ ("sha256", text_json hash_a)
      ∷ []))

abbrev event_of : String → List (String × Scalar) → Json
event_of status details = object (
    fields_of (
      ("task_id", text_json "T1")
      ∷ ("step", text_json "planning")
      ∷ ("actor", text_json receipt.provider)
      ∷ ("status", text_json status)
      ∷ ("duration_ms", number_json receipt.duration_ms)
      ∷ ("details", object (fields_of (map (λ (key, v). (key, scalar v)) details)))
      ∷ []))

-- The text of a file, and the value that each text stands for.
abbrev texts : List (String × Json)
texts =
    (
      "manifest.json",
      object (
          fields_of (
            ("execution_mode", text_json "agentic")
            ∷ ("files", list_json (map entry_of payload_names))
            ∷ [])),
    )
    ∷ (
      "result.json",
      object (
          fields_of (
            ("task_id", text_json "T1")
            ∷ ("execution_mode", text_json "agentic")
            ∷ ("analysis", scalar null)
            ∷ [])),
    )
    ∷ (
      "requirements.json",
      object (fields_of (("requirements", list_json (scalar null ∷ [])) ∷ [])),
    )
    ∷ (
      "evidence.json",
      object (fields_of (("evidence", list_json (scalar null ∷ scalar null ∷ [])) ∷ [])),
    )
    ∷ ("task_spec.json", task_spec_to_dict spec)
    ∷ ("execution_plan.json", execution_plan_to_dict bound_plan)
    ∷ ("planner_receipt.json", provider_receipt_to_dict bound_receipt)
    ∷ ("started", event_of "started" (started_details planned))
    ∷ ("completed", event_of "completed" (completed_details bound_receipt))
    ∷ []

abbrev pub member_of : String → ZipMember
member_of name = record {
  file_name = name;
  is_dir = false;
  create_system = 3;
  mode = 33188;
  content = some (codes name);
}

abbrev library : Library
library = record {
  sha256 = λ b. hash_a;
  decode = λ b.
      if b == codes trace_name
      then some "started\ncompleted"
      else find_last (λ name. codes name == b) package_files;
  loads = λ s. get_key s texts;
  open_zip = λ b.
      some
        (record { corrupt = none; members = map member_of (payload_names ++ manifest_name ∷ []) });
  normalize = λ s. s;
  is_other = λ n. false;
  repr = λ x. "";
}

abbrev pub supplied_at : String → Supplied
supplied_at name = record {
  raw_name = name;
  is_link = false;
  place = some (record { parent = "/out"; base_name = name });
}

abbrev artifacts : ArtifactSet
artifacts = record {
  output_dir = some (some "/out");
  fields = ("trace", supplied_at trace_name) ∷ [];
  supplemental_payloads = map supplied_at planning_names;
  execution_mode = some "agentic";
}

abbrev storage : Storage
storage = record {
  root = "/out";
  file = λ name. if contains package_files name then some (codes name) else none;
  link = λ name. none;
  listing = some package_files;
}

abbrev pub office : OfficeChecks
office = record { validate_workbook = λ b x. ok []; validate_docx = λ b x. ok [] }

abbrev evidence : Result (TaskSpec × PlanningResult)
evidence =
    validate_planning_evidence digests (task_spec_to_dict spec) (execution_plan_to_dict bound_plan)
      (provider_receipt_to_dict bound_receipt) (some "T1")

-- The report of the checks, and the steps of its making.
computed :
    ((report : ValidationReport) × (validate_artifacts library digests office complete artifacts
          storage
          (some true)
        ≡ ok report)
      × (report_passed report ≡ true))
    × (all passes (validate_manifest_and_archive library artifacts storage true) ≡ true)
    × (task_spec spec ≡ ok spec)
    × (execution_plan bound_plan ≡ ok bound_plan)
    × (provider_receipt bound_receipt ≡ ok bound_receipt)
    × (validate_execution_plan digests.of_task bound_plan spec ≡ ok tt)
    × (planning_result digests.of_plan planned ≡ ok planned)
    × (evidence ≡ ok (spec, planned))
    × All (λ i. task_input_ref i ≡ ok i) spec.inputs
    × All (λ s. plan_step s ≡ ok s) bound_plan.steps
unfolding proofbid.Delivery.Traced.is_started_event proofbid.Delivery.Traced.is_completed_event
    proofbid.Bundle.is_unknown_text proofbid.Bundle.is_unknown proofbid.Bundle.evidence_by_id
    proofbid.Bundle.requirement_by_id proofbid.Bundle.match_by_requirement
    proofbid.Bundle.independent_supporting_evidence proofbid.Bundle.evidence_findings
    proofbid.Bundle.lineage_ok proofbid.Bundle.mandatory_findings
    proofbid.Bundle.requirement_findings proofbid.Bundle.match_has_proof
    proofbid.Bundle.match_findings proofbid.Bundle.identifier_findings
    proofbid.Bundle.one_match_finding proofbid.Bundle.validate_bundle
    proofbid.Bundle.Passing.identifiers_ok proofbid.Bundle.Passing.deviation_ok
    proofbid.Bundle.Passing.bundle_ok proofbid.Decimal.decimal_le proofbid.Decimal.decimal_eq
    proofbid.Decimal.decimal_add proofbid.Decimal.decimal_mul proofbid.Delivery.portable_payload_key
    proofbid.Delivery.is_canonical proofbid.Delivery.is_planning_key
    proofbid.Delivery.is_safe_flat_name proofbid.Delivery.load_json proofbid.Delivery.load_object
    proofbid.Delivery.json_text proofbid.Delivery.text_or_empty proofbid.Delivery.entry_text
    proofbid.Delivery.entry_names proofbid.Delivery.manifest_entries
    proofbid.Delivery.Archive.zip_names proofbid.Delivery.Archive.read_member
    proofbid.Delivery.Archive.is_regular_member proofbid.Delivery.Archive.member_findings
    proofbid.Delivery.Archive.content_findings proofbid.Delivery.Archive.zip_findings
    proofbid.Delivery.Archive.opened_findings proofbid.Delivery.Archive.archive_findings
    proofbid.Delivery.Archive.listed_findings proofbid.Delivery.Archive.manifest_findings
    proofbid.Delivery.Archive.validate_manifest_and_archive proofbid.Delivery.Checks.bytes_of
    proofbid.Delivery.Checks.present_findings proofbid.Delivery.Checks.first_findings
    proofbid.Delivery.Checks.report_if_present proofbid.Delivery.Checks.validate_artifacts
    proofbid.Delivery.Content.content_findings_of proofbid.Delivery.Content.json_file_findings
    proofbid.Delivery.Content.validate_json_files proofbid.Delivery.Manifest.is_declared_file
    proofbid.Delivery.Manifest.file_findings proofbid.Delivery.Manifest.expected_payload_names
    proofbid.Delivery.Manifest.has_unique_names proofbid.Delivery.Manifest.entries_findings
    proofbid.Delivery.Modes.resolved proofbid.Delivery.Modes.loads_lines
    proofbid.Delivery.Modes.is_planning_event proofbid.Delivery.Modes.trace_is_consistent
    proofbid.Delivery.Modes.delivery_trace_state proofbid.Delivery.Modes.manifest_names
    proofbid.Delivery.Modes.observed_modes proofbid.Delivery.Modes.has_planning_marker
    proofbid.Delivery.Modes.is_planning_required proofbid.Delivery.Modes.is_mode_consistent
    proofbid.Delivery.Modes.mode_finding proofbid.Delivery.Paths.is_at
    proofbid.Delivery.Paths.is_fixed_path proofbid.Delivery.Paths.is_supplemental_path
    proofbid.Delivery.Paths.is_root_kept proofbid.Delivery.Paths.are_delivery_paths
    proofbid.Delivery.Paths.paths_finding proofbid.Delivery.Planned.bound_findings
    proofbid.Delivery.Planned.accepted_result proofbid.Delivery.Planned.planning_payloads
    proofbid.Delivery.Planned.evidence_findings_of proofbid.Delivery.Planned.looped_entries
    proofbid.Delivery.Planned.has_planning_trail proofbid.Delivery.Planned.files_findings
    proofbid.Delivery.Planned.planned_findings proofbid.Delivery.Planned.validate_planning_payloads
    proofbid.Delivery.Traced.scalar_same proofbid.Delivery.Traced.is_scalar
    proofbid.Delivery.Traced.is_mapping proofbid.Delivery.Traced.is_receipt_traced
    proofbid.Extraction.Documents.split_lines proofbid.Format.show_general
    proofbid.Format.show_float proofbid.Format.show_fixed proofbid.Format.scalar_text
    proofbid.Json.list_of proofbid.Json.items_of proofbid.Json.dict_of proofbid.Json.fields_of
    proofbid.Json.member proofbid.Json.is_object proofbid.Json.array_of proofbid.Json.is_string
    proofbid.Json.is_count proofbid.Planning.Evidence.read_receipt
    proofbid.Planning.Evidence.provider_receipt_from_dict
    proofbid.Planning.Evidence.validate_planning_evidence proofbid.Planning.Payloads.number_json
    proofbid.Planning.Payloads.input_to_dict proofbid.Planning.Payloads.task_spec_to_dict
    proofbid.Planning.Payloads.step_to_dict proofbid.Planning.Payloads.execution_plan_to_dict
    proofbid.Planning.Payloads.provider_receipt_to_dict proofbid.Planning.Plan.plan_step
    proofbid.Planning.Plan.execution_plan proofbid.Planning.Plan.position
    proofbid.Planning.Plan.not_before proofbid.Planning.Plan.step_errors
    proofbid.Planning.Plan.step_id_by_tool proofbid.Planning.Plan.expected_ids
    proofbid.Planning.Plan.graph_errors proofbid.Planning.Plan.plan_errors
    proofbid.Planning.Plan.validate_execution_plan proofbid.Planning.Reading.exact_mapping
    proofbid.Planning.Reading.taken proofbid.Planning.Reading.read_text
    proofbid.Planning.Reading.read_optional_text proofbid.Planning.Reading.read_flag
    proofbid.Planning.Reading.read_number proofbid.Planning.Reading.read_count
    proofbid.Planning.Reading.read_optional_count proofbid.Planning.Reading.read_each
    proofbid.Planning.Reading.read_array proofbid.Planning.Reading.read_tool
    proofbid.Planning.Reading.schema_checked proofbid.Planning.Reading.read_input
    proofbid.Planning.Reading.read_task_spec proofbid.Planning.Reading.task_spec_from_dict
    proofbid.Planning.Reading.read_step proofbid.Planning.Reading.read_execution_plan
    proofbid.Planning.Reading.execution_plan_from_dict proofbid.Planning.Receipt.provider_receipt
    proofbid.Planning.Receipt.planning_result proofbid.Planning.Spec.task_spec
    proofbid.Planning.Spec.is_digest proofbid.Planning.Spec.task_input_ref
    proofbid.Planning.Spec.build_task_spec proofbid.Planning.Spec.assert_task_inputs_unchanged
    proofbid.Planning.Tool.plan_tool_value proofbid.Planning.Tool.required_dependencies
    proofbid.Prelude.get_key proofbid.Prelude.put_key proofbid.Prelude.set_default
    proofbid.Prelude.find_last proofbid.Prelude.from_keys proofbid.Prelude.is_space
    proofbid.Prelude.lstrip proofbid.Prelude.rstrip proofbid.Prelude.strip proofbid.Prelude.casefold
    proofbid.Prelude.compact proofbid.Prelude.join proofbid.Prelude.casefold_in
    proofbid.Prelude.is_sha256 proofbid.Prelude.occurs proofbid.Prelude.text_le
    proofbid.Prelude.sorted proofbid.Prelude.is_infix proofbid.Readiness.is_blocking
    proofbid.Readiness.report_passed proofbid.Readiness.failures
computed = (
  (_, refl, refl),
  refl,
  refl,
  refl,
  refl,
  refl,
  refl,
  refl,
  (refl, (refl, (refl, tt))),
  (refl, (refl, (refl, (refl, (refl, (refl, (refl, (refl, tt)))))))),
)

-- What holds of all holds of each.
mem-All : {A : Type 0} (P : A → Type 0) (xs : List A) → All P xs → (x : A) → Memᴰ x xs → P x
mem-All P [] all x m = elim m [ ]
mem-All P (y ∷ ys) (this, rest) x (Memᴰ.head e) = subst P (sym e) this
mem-All P (y ∷ ys) (this, rest) x (Memᴰ.tail m) = mem-All P ys rest x m

validate_artifacts-IsTrusted_example :
    IsTrusted library digests complete artifacts storage
      (is_planning_required library artifacts storage (some true))
validate_artifacts-IsTrusted_example =
    validate_artifacts-IsTrusted library digests office complete artifacts storage (some true)
      computed.0.0 computed.0.1 computed.0.2

validate_manifest_and_archive-IsSealed_example : IsSealed library artifacts storage true
validate_manifest_and_archive-IsSealed_example =
    validate_manifest_and_archive-IsSealed library artifacts storage true computed.1

validate_planning_evidence-IsBound_example : IsBound digests (some "T1") spec planned
validate_planning_evidence-IsBound_example =
    validate_planning_evidence-IsBound digests (some "T1") (task_spec_to_dict spec)
      (execution_plan_to_dict bound_plan) (provider_receipt_to_dict bound_receipt) spec planned
      computed.7

validate_planning_evidence-to_dict_example : evidence ≡ ok (spec, planned)
validate_planning_evidence-to_dict_example =
    validate_planning_evidence-to_dict digests spec bound_plan bound_receipt
      (mem-All (λ i. task_input_ref i ≡ ok i) spec.inputs computed.8)
      (mem-All (λ s. plan_step s ≡ ok s) bound_plan.steps computed.9) computed.2 computed.3
      computed.4 computed.5 computed.6
