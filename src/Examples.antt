-- ===== src/Examples.antt =====
-- The theorems, applied to the small tender of the samples.
mod Analyses
mod Tasks
mod Extractions
mod Deliveries
mod Runs
use proofbid.Prelude.{
  not, ◌&&◌, ◌||◌, any, is_unique, contains, text_eq, ◌==◌, ◌⊎◌, List, Option, String, Memᴰ, [],
  false, map, none, refl, some, true, ◌∷◌, ◌≡◌,
}
use proofbid.Contracts.{ReadinessDecision}
use proofbid.Errors.{Exception, ok, raised}
use proofbid.Runtime.Tool.{
  runtime_tool, RuntimeTool, declare_plan, scan_inputs, extract_requirements, load_bidder_evidence,
  load_product_catalog, build_analysis, validate_domain, render_delivery, validate_delivery,
  finalize_complete, declared_tools, tool_value,
}
use proofbid.Runtime.State.{
  ToolResult, ToolCallReceipt, Arguments, no_arguments, TerminalStatus, TaskRuntime,
}
use proofbid.Runtime.Invoke.{invoke}
use proofbid.Runtime.Delivery.{freeze_delivery, start, declaration}
use proofbid.Runtime.Reach.{call, Reach, here, next, Reach-IsLogged}
use proofbid.Samples.{
  delivery, world, spec, plan, planning, complete, incomplete, licensed, decision, refusal,
}
use proofbid.Readiness.{report_passed, is_blocking, item_code, build_readiness_decision}
use proofbid.Readiness.Gate.{
  blocked_by_items, build_readiness_decision-ready, build_readiness_decision-codes,
}
use proofbid.Bundle.{validate_bundle}
use proofbid.Bundle.Passing.{bundle_ok, validate_bundle-passed}
use proofbid.Bundle.Proof.{IsProved, ready-IsProved}
use proofbid.Planning.Plan.{validate_execution_plan}
use proofbid.Planning.Plan.Accepted.{IsAccepted, validate_execution_plan-IsAccepted}
use proofbid.Runtime.Order.{IsFullRoute}
use proofbid.Runtime.Frozen.{IsFrozen, freeze_delivery-IsFrozen}
use proofbid.Runtime.Execute.{scan}
use proofbid.Runtime.Intake.{IsScanned, scan-IsScanned}
use proofbid.Runtime.Log.{IsLogged}
use proofbid.Runtime.Calls.{Leaves, invoke_cases}
use proofbid.Runtime.Verdict.{IsConcluded}
use proofbid.Runtime.Ending.{Reach-IsFullRoute, completed-IsProved, Reach-IsConcluded, ended-invoke}

abbrev begun : TaskRuntime world
begun = (start world spec planning false false).1

abbrev called : RuntimeTool → Arguments → TaskRuntime world → TaskRuntime world
called tool args s = (invoke world (tool_value tool) none args s).1

abbrev all_called : List RuntimeTool → TaskRuntime world → TaskRuntime world
all_called [] s = s
all_called (t ∷ ts) s = all_called ts (called t no_arguments s)

abbrev route : List RuntimeTool
route =
    scan_inputs ∷ extract_requirements ∷ load_bidder_evidence ∷ load_product_catalog
    ∷ build_analysis ∷ validate_domain ∷ render_delivery ∷ validate_delivery ∷ finalize_complete
    ∷ []

abbrev declared : TaskRuntime world
declared = called declare_plan (declaration world) begun

abbrev ended : TaskRuntime world
ended = all_called route declared

all_called-Reach :
    (ts : List RuntimeTool) {s : TaskRuntime world}
    → Reach world begun s
    → Reach world begun (all_called ts s)
all_called-Reach [] r = r
all_called-Reach (t ∷ ts) r =
    all_called-Reach ts (next r (call (tool_value t) none no_arguments refl))

ended-Reach : Reach world begun ended
ended-Reach =
    all_called-Reach route
      (next here (call (tool_value declare_plan) none (declaration world) refl))

-- What the definitions compute on the samples.
computed :
    (ended.terminal_status ≡ some TerminalStatus.completed)
    × (ended.bundle ≡ some complete)
    × (build_readiness_decision complete (validate_bundle complete) ≡ ok decision)
    × (build_readiness_decision incomplete (validate_bundle incomplete) ≡ ok refusal)
    × (validate_execution_plan (λ s. "spec-digest") plan spec ≡ ok tt)
    × ((freeze_delivery world ended).0 ≡ ok delivery)
    × ((scan world declared).0 ≡ ok (ToolResult.scanned 3 ("csv" ∷ "json" ∷ "markdown" ∷ [])))
unfolding proofbid.Prelude.find_last proofbid.Prelude.from_keys proofbid.Prelude.strip
    proofbid.Prelude.casefold proofbid.Prelude.casefold_in proofbid.Prelude.is_sha256
    proofbid.Prelude.occurs proofbid.Prelude.text_le proofbid.Prelude.sorted
    proofbid.Prelude.is_infix proofbid.Contracts.evidence_ref proofbid.Contracts.requirement
    proofbid.Contracts.extraction_result proofbid.Contracts.readiness_decision
    proofbid.Contracts.missing_item proofbid.Readiness.is_blocking proofbid.Readiness.report_passed
    proofbid.Readiness.failures proofbid.Readiness.item_code proofbid.Readiness.blocking_codes
    proofbid.Readiness.build_readiness_decision proofbid.Bundle.is_unknown_text
    proofbid.Bundle.is_unknown proofbid.Bundle.evidence_by_id proofbid.Bundle.requirement_by_id
    proofbid.Bundle.match_by_requirement proofbid.Bundle.is_independent
    proofbid.Bundle.independent_supporting_evidence proofbid.Bundle.evidence_findings
    proofbid.Bundle.lineage_ok proofbid.Bundle.mandatory_findings
    proofbid.Bundle.requirement_findings proofbid.Bundle.match_has_proof
    proofbid.Bundle.match_findings proofbid.Bundle.line_has_proof proofbid.Bundle.bom_findings
    proofbid.Bundle.deviation_findings proofbid.Bundle.identifier_findings
    proofbid.Bundle.one_match_finding proofbid.Bundle.validate_bundle proofbid.Pipeline.by_name
    proofbid.Pipeline.documents_by_name proofbid.Pipeline.blocking_failures
    proofbid.Planning.Tool.required_dependencies proofbid.Planning.Spec.task_spec
    proofbid.Planning.Spec.is_digest proofbid.Planning.Spec.task_input_ref
    proofbid.Planning.Spec.build_task_spec proofbid.Planning.Spec.assert_task_inputs_unchanged
    proofbid.Planning.Plan.position proofbid.Planning.Plan.not_before
    proofbid.Planning.Plan.step_errors proofbid.Planning.Plan.step_id_by_tool
    proofbid.Planning.Plan.expected_ids proofbid.Planning.Plan.graph_errors
    proofbid.Planning.Plan.plan_errors proofbid.Planning.Plan.validate_execution_plan
    proofbid.Planning.Receipt.provider_receipt proofbid.Planning.Receipt.planning_result
    proofbid.Runtime.Tool.runtime_tool proofbid.Runtime.Tool.rules proofbid.Runtime.Evidence.emit
    proofbid.Runtime.Evidence.agent_run_payload proofbid.Runtime.Evidence.persist_agent_evidence
    proofbid.Runtime.Evidence.write_planning_payloads proofbid.Runtime.Evidence.planning_trace
    proofbid.Runtime.Evidence.rebind_events proofbid.Runtime.Evidence.replace_planning_trace
    proofbid.Runtime.Execute.runtime_tools proofbid.Runtime.Execute.document_named
    proofbid.Runtime.Execute.fatal_codes proofbid.Runtime.Execute.declare
    proofbid.Runtime.Execute.scan proofbid.Runtime.Execute.extract
    proofbid.Runtime.Execute.load_bidder proofbid.Runtime.Execute.load_products
    proofbid.Runtime.Execute.analyse proofbid.Runtime.Execute.validate
    proofbid.Runtime.Execute.render_input proofbid.Runtime.Execute.render_artifacts
    proofbid.Runtime.Execute.produce proofbid.Runtime.Execute.strikes
    proofbid.Runtime.Execute.render proofbid.Runtime.Execute.deliver
    proofbid.Runtime.Execute.conclude proofbid.Runtime.Execute.finalize
    proofbid.Runtime.Execute.execute_scanned proofbid.Runtime.Execute.execute_found
    proofbid.Runtime.Execute.execute proofbid.Runtime.Policy.completes
    proofbid.Runtime.Policy.completed_tools proofbid.Runtime.Policy.required_tools
    proofbid.Runtime.Policy.has_recoverable_render proofbid.Runtime.Policy.dependencies_satisfied
    proofbid.Runtime.Policy.retry_of proofbid.Runtime.Policy.policy
    proofbid.Runtime.Invoke.tool_input proofbid.Runtime.Invoke.noted
    proofbid.Runtime.Invoke.note_call proofbid.Runtime.Invoke.settle
    proofbid.Runtime.Invoke.receipt_of proofbid.Runtime.Invoke.run_call
    proofbid.Runtime.Invoke.invoke proofbid.Runtime.Delivery.begin proofbid.Runtime.Delivery.start
    proofbid.Runtime.Delivery.rebind proofbid.Runtime.Delivery.bind_real_provider_receipt
    proofbid.Runtime.Delivery.freeze_delivery proofbid.Runtime.Delivery.run_scripted
    proofbid.Runtime.Freeze.freeze_policy proofbid.Runtime.Freeze.delivery_of
    proofbid.Runtime.Freeze.catalog_subtotal proofbid.Runtime.Freeze.marker_hits
    proofbid.Runtime.Freeze.is_real_receipt proofbid.Runtime.Freeze.all_bound
computed = (refl, refl, refl, refl, refl, refl, refl)

completed-IsProved_example : IsProved complete licensed
completed-IsProved_example =
    completed-IsProved world spec planning false false complete licensed ended-Reach computed.0
      computed.1 (Memᴰ.head refl) refl

Reach-IsConcluded_example : IsConcluded ended.bundle ended.delivery_report TerminalStatus.completed
Reach-IsConcluded_example =
    Reach-IsConcluded world spec planning false false TerminalStatus.completed ended-Reach
      computed.0

ended-invoke_example :
    (e : Exception) × (invoke world "scan_inputs" none no_arguments ended ≡ (raised e, ended))
ended-invoke_example =
    ended-invoke world ended TerminalStatus.completed "scan_inputs" none no_arguments computed.0

Reach-IsLogged_example : IsLogged ended.receipts
Reach-IsLogged_example = Reach-IsLogged world spec planning false false ended-Reach

ready-IsProved_example : IsProved complete licensed
ready-IsProved_example =
    ready-IsProved complete decision licensed computed.2 refl (Memᴰ.head refl) refl

validate_bundle-passed_example : report_passed (validate_bundle incomplete) ≡ bundle_ok incomplete
validate_bundle-passed_example = validate_bundle-passed incomplete

validate_execution_plan-IsAccepted_example : IsAccepted (λ s. "spec-digest") plan spec
validate_execution_plan-IsAccepted_example =
    validate_execution_plan-IsAccepted (λ s. "spec-digest") plan spec computed.4

build_readiness_decision-ready_example :
    (d : ReadinessDecision) × (build_readiness_decision incomplete (validate_bundle incomplete)
      ≡ ok d)
    × (d.ready_for_submission
        ≡ (report_passed (validate_bundle incomplete) && not (blocked_by_items incomplete)))
    × (d.ready_for_human_review ≡ d.ready_for_submission)
    × (d.submission_executed ≡ false)
    × (d.high_risk_actions_locked ≡ true)
build_readiness_decision-ready_example =
    build_readiness_decision-ready incomplete (validate_bundle incomplete)

build_readiness_decision-codes_example :
    (is_unique refusal.blocking_reason_codes ≡ true)
    × (contains refusal.blocking_reason_codes "MANDATORY_REQUIREMENT_RESOLVED" ≡ (
        any
          (λ f. not f.passed && is_blocking f && (f.code == "MANDATORY_REQUIREMENT_RESOLVED"))
          (validate_bundle incomplete).findings
        || any
            (λ i. i.blocks_completion && (item_code i == "MANDATORY_REQUIREMENT_RESOLVED"))
            incomplete.missing_items))
build_readiness_decision-codes_example =
    build_readiness_decision-codes incomplete (validate_bundle incomplete)
      "MANDATORY_REQUIREMENT_RESOLVED" computed.3

invoke_cases_example :
    ((e : Exception) × (invoke world "scan_inputs" none no_arguments declared
        ≡ (raised e, declared)))
    ⊎ ((tool : RuntimeTool) × (r : ToolCallReceipt) × (runtime_tool "scan_inputs" ≡ ok tool)
        × Leaves world declared
            (invoke world "scan_inputs" none no_arguments declared).1
            tool
            no_arguments
            r)
invoke_cases_example = invoke_cases world "scan_inputs" none no_arguments declared

Reach-IsFullRoute_example : IsFullRoute ended.receipts
Reach-IsFullRoute_example =
    Reach-IsFullRoute world spec planning false false TerminalStatus.completed ended-Reach
      computed.0

freeze_delivery-IsFrozen_example : IsFrozen world ended (freeze_delivery world ended).1 delivery
freeze_delivery-IsFrozen_example =
    freeze_delivery-IsFrozen world spec planning false false delivery ended-Reach computed.5

scan-IsScanned_example : IsScanned world declared (scan world declared).1
scan-IsScanned_example =
    scan-IsScanned world declared (ToolResult.scanned 3 ("csv" ∷ "json" ∷ "markdown" ∷ []))
      computed.6
