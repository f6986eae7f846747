-- ===== src/Runtime/Delivery.antt =====
-- agent_runtime_v2.py: the start of a run, the binding of a real provider's receipt, the freeze of
-- the delivery, and the run with the local route policy.
use proofbid.Prelude.{Bool, [], codes, false, if◌then◌else◌, map, none, some, true, text_eq}
use proofbid.Errors.{Result}
use proofbid.Exec.{Exec, pure, lift, gets, modify, when, ◌>>=◌, ◌>>◌}
use proofbid.Planning.Spec.{TaskSpec}
use proofbid.Planning.Receipt.{ProviderReceipt, PlanningResult}
use proofbid.Runtime.Tool.{
  scan_inputs, extract_requirements, load_bidder_evidence, load_product_catalog, build_analysis,
  validate_domain, render_delivery, retry_render, validate_delivery, finalize_complete,
  finalize_blocked, declare_plan, RuntimeTool, tool_value, declared_tools,
}
use proofbid.Runtime.State.{
  Arguments, no_arguments, recoverable_error, ToolResult, World, TaskRuntime,
}
use proofbid.Runtime.Evidence.{
  write_planning_payloads, planning_trace, replace_planning_trace, persist_agent_evidence,
}
use proofbid.Runtime.Execute.{render_artifacts}
use proofbid.Runtime.Invoke.{invoke}
use proofbid.Runtime.Freeze.{binding_policy, freeze_policy, delivery_of, Delivery}

module _ (w : World) where
  -- The fields of `__init__` before anything is written, on an output directory that is new.
  abbrev pub blank : TaskSpec → PlanningResult → Bool → Bool → TaskRuntime w
  blank task_spec planning inject real = record {
    task_spec = task_spec;
    planning_result = planning;
    inject_render_failure = inject;
    require_real_provider_evidence = real;
    trace = [];
    receipts = [];
    selected_tools = [];
    parser_strategy = none;
    failure_policy = none;
    documents = none;
    extraction = none;
    profile = none;
    catalog = none;
    bundle = none;
    domain_report = none;
    artifacts = none;
    delivery_report = none;
    terminal_status = none;
    render_attempts = 0;
    provider_evidence = planning.receipt;
    saved_planning = planning;
    saved_receipts = [];
    saved_run = none;
  }

  -- The rest of `__init__`.
  unfoldable pub begin : PlanningResult → Exec (TaskRuntime w) (Unit {0})
  begin planning = do
    write_planning_payloads w planning
    modify (λ s. record s { trace = planning_trace w s planning.receipt })
    persist_agent_evidence w

  unfoldable pub start : TaskSpec → PlanningResult → Bool → Bool → Result (Unit {0}) × TaskRuntime w
  start task_spec planning inject real = begin planning (blank task_spec planning inject real)

  unfoldable pub rebind : ProviderReceipt → PlanningResult → Exec (TaskRuntime w) (Unit {0})
  rebind receipt bound = do
    modify (λ s. record s { planning_result = bound; provider_evidence = receipt })
    write_planning_payloads w bound
    replace_planning_trace w receipt
    persist_agent_evidence w

  unfoldable pub bind_real_provider_receipt : ProviderReceipt → Exec (TaskRuntime w) (Unit {0})
  bind_real_provider_receipt receipt = do
    s ← gets (λ s. s)
    bound ← lift (binding_policy s receipt)
    rebind receipt bound

  unfoldable pub freeze_delivery : Exec (TaskRuntime w) (Delivery w)
  freeze_delivery = do
    s ← gets (λ s. s)
    terminal ← lift (freeze_policy s)
    persist_agent_evidence w
    artifacts ← render_artifacts w
    s ← gets (λ s. s)
    lift (delivery_of s terminal artifacts)

  abbrev pub declaration : Arguments
  declaration = record {
    selected_tools = some (map tool_value declared_tools);
    parser_strategy = some "typed_manifest";
    failure_policy = some "bounded_retry_then_block";
  }

  call : RuntimeTool → Exec (TaskRuntime w) ToolResult
  call tool = invoke w (tool_value tool) none no_arguments

  -- `domain["ready_for_submission"]`, and `rendered.get("status") == "recoverable_error"`.
  abbrev says_ready : ToolResult → Bool
  says_ready (ToolResult.domain passed ready codes) = ready
  says_ready _ = false

  abbrev says_recoverable : ToolResult → Bool
  says_recoverable (ToolResult.errored recoverable_error code) = true
  says_recoverable _ = false

  -- The calls of `run_scripted_agent_pipeline` on its runtime.
  unfoldable pub run_scripted : Exec (TaskRuntime w) (Delivery w)
  unfolding call
  run_scripted = do
    invoke w (tool_value declare_plan) none declaration
    call scan_inputs
    call extract_requirements
    call load_bidder_evidence
    call load_product_catalog
    call build_analysis
    domain ← call validate_domain
    rendered ← call render_delivery
    when (says_recoverable rendered) do call retry_render; pure tt
    call validate_delivery
    call (if says_ready domain then finalize_complete else finalize_blocked)
    freeze_delivery
