-- ===== src/Runtime/Execute.antt =====
-- agent_runtime_v2.py, `_execute`: what each tool does once its call has been admitted.
use proofbid.Prelude.{
  Bool, List, Option, String, [], false, if◌then◌else◌, is_some, is_subset, is_unique, length, map,
  none, nonempty, not, some, sorted, true, ◌&&◌, ◌+◌, ◌==◌, ◌∷◌, text_eq, nat_eq, list_eq,
}
use proofbid.Errors.{Result, and_then, ok, raised, tool_policy, recoverable_render, plain_failure}
use proofbid.Exec.{Exec, pure, throw, lift, gets, modify, require, present, ◌>>=◌, ◌>>◌}
use proofbid.Contracts.{document_type_value, SourceDocument, ReadinessDecision}
use proofbid.Readiness.{ValidationReport, report_passed, build_readiness_decision}
use proofbid.Bundle.{validate_bundle}
use proofbid.Planning.Spec.{input_eq, build_task_spec}
use proofbid.Pipeline.{by_name, documents_by_name, blocking_failures}
use proofbid.Runtime.Tool.{
  RuntimeTool, declare_plan, scan_inputs, extract_requirements, load_bidder_evidence,
  load_product_catalog, build_analysis, validate_domain, render_delivery, retry_render,
  validate_delivery, finalize_complete, finalize_blocked, tool_eq, runtime_tool, core_route,
}
use proofbid.Runtime.State.{
  Arguments, TerminalStatus, ToolResult, planned, scanned, extracted, profiled, cataloged, analysed,
  domain, rendered, delivered, finished, RenderInput, World, TaskRuntime,
}
use proofbid.Runtime.Evidence.{persist_agent_evidence}

-- `tuple(RuntimeTool(item) for item in raw_tools)`
unfoldable pub runtime_tools : List String → Result (List RuntimeTool)
runtime_tools [] = ok []
runtime_tools (name ∷ names) =
    and_then (runtime_tool name) (λ t. and_then (runtime_tools names) (λ ts. ok (t ∷ ts)))

-- `documents[name]`
unfoldable pub document_named : List SourceDocument → String → Result SourceDocument
document_named documents name = elim (by_name documents name) [
  | none ↦ raised (plain_failure "KeyError")
  | some d ↦ ok d
]

-- The codes that stop a delivery: blocking failures but the expected business blocker.
unfoldable pub fatal_codes : ValidationReport → List String
fatal_codes report = map (λ f. f.code) (blocking_failures true report)

module _ (w : World) where
  unfoldable pub declare : Arguments → Exec (TaskRuntime w) ToolResult
  declare arguments = do
    raw_tools ← present arguments.selected_tools "selected_tools must be an array"
    selected ← lift (runtime_tools raw_tools)
    require (is_unique selected) "selected_tools must be unique"
    require (is_subset core_route selected) "The declared plan omitted a core tool"
    require (is_subset (finalize_complete ∷ finalize_blocked ∷ []) selected)
        "The declared plan must preserve both deterministic terminal branches"
    require (elim arguments.parser_strategy [ none ↦ false | some p ↦ p == "typed_manifest" ])
        "Unsupported parser strategy"
    require
        (elim arguments.failure_policy [ none ↦ false | some p ↦ p == "bounded_retry_then_block" ])
        "Unsupported failure policy"
    modify (λ s. record s {
      selected_tools = selected;
      parser_strategy = arguments.parser_strategy;
      failure_policy = arguments.failure_policy;
    })
    pure (planned (length selected))

  unfoldable pub scan : Exec (TaskRuntime w) ToolResult
  scan = do
    s ← gets (λ s. s)
    documents ← lift (documents_by_name (w.scan_workspace (length s.receipts)))
    observed ← lift (build_task_spec s.task_spec.task_id documents)
    require (observed.inputs == s.task_spec.inputs) "TASK_INPUT_DRIFT"
    modify (λ s. record s { documents = some documents })
    pure (
        scanned (length documents)
          (sorted (map (λ d. document_type_value d.document_type) documents)))

  unfoldable pub extract : List SourceDocument → Exec (TaskRuntime w) ToolResult
  extract documents = do
    moment ← gets (λ s. length s.receipts)
    tender ← lift (document_named documents "tender.md")
    extraction ← lift (w.extract_requirements moment tender)
    modify (λ s. record s { extraction = some extraction })
    pure (extracted (length extraction.requirements) (length extraction.evidence))

  unfoldable pub load_bidder : List SourceDocument → Exec (TaskRuntime w) ToolResult
  load_bidder documents = do
    moment ← gets (λ s. length s.receipts)
    document ← lift (document_named documents "bidder_profile.json")
    profile ← lift (w.load_bidder_profile moment document)
    modify (λ s. record s { profile = some profile })
    pure (profiled (w.fact_count profile) (w.profile_evidence_count profile))

  unfoldable pub load_products : List SourceDocument → Exec (TaskRuntime w) ToolResult
  load_products documents = do
    moment ← gets (λ s. length s.receipts)
    document ← lift (document_named documents "catalog.csv")
    catalog ← lift (w.load_catalog moment document)
    modify (λ s. record s { catalog = some catalog })
    pure (cataloged (length catalog))

  unfoldable pub analyse : Exec (TaskRuntime w) ToolResult
  analyse = do
    s ← gets (λ s. s)
    extraction ← present s.extraction "Requirements are unavailable"
    profile ← present s.profile "Bidder evidence is unavailable"
    catalog ← present s.catalog "Catalog is unavailable"
    bundle ← lift (w.build_analysis s.task_spec.task_id extraction profile catalog)
    modify (λ s. record s { bundle = some bundle })
    pure (analysed (length bundle.matches) (length bundle.bom) (length bundle.missing_items))

  unfoldable pub validate : Exec (TaskRuntime w) ToolResult
  validate = do
    s ← gets (λ s. s)
    bundle ← present s.bundle "Analysis is unavailable"
    let report = validate_bundle bundle
    modify (λ s. record s { domain_report = some report })
    readiness ← lift (build_readiness_decision bundle report)
    pure (
        domain (report_passed report) readiness.ready_for_submission
          readiness.blocking_reason_codes)

  -- `render_bundle(…)` on the state's own fields and files.
  unfoldable pub render_input : TaskRuntime w → RenderInput
  render_input s = record {
    bundle = s.bundle;
    validations = s.domain_report;
    trace = s.trace;
    planning = s.saved_planning;
    agent_run = s.saved_run;
    tool_receipts = s.saved_receipts;
  }

  unfoldable pub render_artifacts : Exec (TaskRuntime w) w.Artifacts
  unfolding render_input
  render_artifacts = do
    s ← gets (λ s. s)
    artifacts ← lift (w.render_bundle (render_input s))
    modify (λ s. record s { artifacts = some artifacts })
    pure artifacts

  -- The rendering proper, with the evidence of the run so far.
  unfoldable pub produce : Exec (TaskRuntime w) ToolResult
  produce = do
    persist_agent_evidence w
    artifacts ← render_artifacts
    attempts ← gets (λ s. s.render_attempts)
    pure (rendered (w.payload_count artifacts) attempts)

  -- Whether the injected failure strikes: at the first attempt, and never at a retry.
  unfoldable pub strikes : RuntimeTool → TaskRuntime w → Bool
  strikes tool s =
      (tool == render_delivery) && s.inject_render_failure && s.render_attempts + 1 == 1

  unfoldable pub render : RuntimeTool → Exec (TaskRuntime w) ToolResult
  render tool = do
    s ← gets (λ s. s)
    require (is_some s.bundle && is_some s.domain_report) "Domain state is unavailable"
    modify (λ s. record s { render_attempts = s.render_attempts + 1 })
    if strikes tool s then throw recoverable_render else produce

  unfoldable pub deliver : Exec (TaskRuntime w) ToolResult
  deliver = do
    s ← gets (λ s. s)
    artifacts ← present s.artifacts "Artifacts are unavailable"
    bundle ← present s.bundle "Artifacts are unavailable"
    report ← lift (w.validate_artifacts (length s.receipts) bundle artifacts)
    modify (λ s. record s { delivery_report = some report })
    require (not (nonempty (fatal_codes report))) "Delivery integrity validation failed"
    pure (delivered (length report.findings))

  -- The two branches of `if tool is RuntimeTool.FINALIZE_COMPLETE`.
  unfoldable pub conclude : Bool → ReadinessDecision → Exec (TaskRuntime w) ToolResult
  conclude true readiness = do
    require readiness.ready_for_submission "A blocked package cannot finalize complete"
    modify (λ s. record s { terminal_status = some TerminalStatus.completed })
    pure (finished TerminalStatus.completed readiness)
  conclude false readiness = do
    require (not readiness.ready_for_submission) "A ready package cannot finalize blocked"
    modify (λ s. record s { terminal_status = some TerminalStatus.blocked })
    pure (finished TerminalStatus.blocked readiness)

  unfoldable pub finalize : RuntimeTool → Exec (TaskRuntime w) ToolResult
  finalize tool = do
    s ← gets (λ s. s)
    bundle ← present s.bundle "Readiness is unavailable"
    report ← present s.domain_report "Readiness is unavailable"
    require (is_some s.delivery_report) "Delivery was not validated"
    readiness ← lift (build_readiness_decision bundle report)
    conclude (tool == finalize_complete) readiness

  -- The tools behind the test that the inputs have been scanned.
  unfoldable pub execute_scanned :
      RuntimeTool → List SourceDocument → Exec (TaskRuntime w) ToolResult
  execute_scanned extract_requirements documents = extract documents
  execute_scanned load_bidder_evidence documents = load_bidder documents
  execute_scanned load_product_catalog documents = load_products documents
  execute_scanned build_analysis documents = analyse
  execute_scanned validate_domain documents = validate
  execute_scanned render_delivery documents = render render_delivery
  execute_scanned retry_render documents = render retry_render
  execute_scanned validate_delivery documents = deliver
  execute_scanned finalize_complete documents = finalize finalize_complete
  execute_scanned finalize_blocked documents = finalize finalize_blocked
  execute_scanned _ documents = throw (tool_policy "Unhandled runtime tool")

  unfoldable pub execute_found :
      RuntimeTool → Option (List SourceDocument) → Exec (TaskRuntime w) ToolResult
  execute_found tool none = throw (tool_policy "Inputs have not been scanned")
  execute_found tool (some documents) = execute_scanned tool documents

  unfoldable pub execute : RuntimeTool → Arguments → Exec (TaskRuntime w) ToolResult
  execute declare_plan arguments s = declare arguments s
  execute scan_inputs arguments s = scan s
  execute tool arguments s = execute_found tool s.documents s
