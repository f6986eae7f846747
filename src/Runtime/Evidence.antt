-- ===== src/Runtime/Evidence.antt =====
-- agent_runtime_v2.py: the trace and the evidence files of a run.
use proofbid.Prelude.{
  List, Option, String, [], false, length, none, not, some, strip, truthy, ◌&&◌, ◌++◌, ◌+◌, ◌==◌,
  ◌∷◌, text_eq, nat_eq, list_eq,
}
use proofbid.Errors.{Result, ok, and_then}
use proofbid.Exec.{Exec, lift, gets, modify, require, ◌>>=◌, ◌>>◌}
use proofbid.Contracts.{ReadinessDecision, AnalysisBundle}
use proofbid.Readiness.{ValidationReport, build_readiness_decision}
use proofbid.Pipeline.{stop_if}
use proofbid.Planning.Plan.{validate_execution_plan}
use proofbid.Planning.Receipt.{ProviderReceipt, PlanningResult}
use proofbid.Runtime.State.{
  TraceDetails, planning_started, planning_completed, TraceEvent, AgentRun, World, TaskRuntime,
}

-- `TraceRecorder.emit`: an event is numbered by its place in the file.
unfoldable pub emit : List TraceEvent → String → String → String → TraceDetails → List TraceEvent
emit trace step actor status details =
    trace
    ++ record {
      sequence = length trace + 1;
      step = step;
      actor = actor;
      status = status;
      details = details;
    }
      ∷ []

-- The readiness of the payload: `None` until both the bundle and its report are there.
readiness_of : Option AnalysisBundle → Option ValidationReport → Result (Option ReadinessDecision)
readiness_of none _ = ok none
readiness_of (some bundle) none = ok none
readiness_of (some bundle) (some report) =
    and_then (build_readiness_decision bundle report) (λ d. ok (some d))

abbrev locked_actions : List (String × String)
locked_actions =
    ("freeze_pricing", "locked")
    ∷ ("sign_documents", "locked")
    ∷ ("send_or_submit_bid", "locked")
    ∷ []

module _ (w : World) where
  unfoldable pub agent_run_payload : TaskRuntime w → Result AgentRun
  unfolding readiness_of
  agent_run_payload s = and_then (readiness_of s.bundle s.domain_report) (λ readiness. ok (record {
    task_id = s.task_spec.task_id;
    task_spec_digest = w.spec_digest s.task_spec;
    status = s.terminal_status;
    parser_strategy = s.parser_strategy;
    failure_policy = s.failure_policy;
    selected_tools = s.selected_tools;
    tool_call_count = length s.receipts;
    tool_receipts_digest = w.receipts_digest s.receipts;
    provider = s.provider_evidence;
    readiness = readiness;
    high_risk_actions = locked_actions;
  }))

  -- The receipts are written before the payload is computed.
  unfoldable pub persist_agent_evidence : Exec (TaskRuntime w) (Unit {0})
  persist_agent_evidence = do
    modify (λ s. record s { saved_receipts = s.receipts })
    s ← gets (λ s. s)
    run ← lift (agent_run_payload s)
    modify (λ s. record s { saved_run = some run })

  -- `_write_planning_payloads`: the plan is checked against the policy before the files are written.
  unfoldable pub write_planning_payloads : PlanningResult → Exec (TaskRuntime w) (Unit {0})
  write_planning_payloads planning = do
    s ← gets (λ s. s)
    lift (validate_execution_plan w.spec_digest planning.plan s.task_spec)
    lift (stop_if (not (truthy (strip s.task_spec.task_id))))
    modify (λ s. record s { saved_planning = planning })

  -- The two planning events of a trace, for a provider's receipt.
  unfoldable pub planning_trace : TaskRuntime w → ProviderReceipt → List TraceEvent
  unfolding emit
  planning_trace s receipt =
      emit
        (emit [] "planning" receipt.provider "started"
          (planning_started (w.spec_digest s.task_spec) receipt.started_at))
        "planning" receipt.provider "completed" (planning_completed receipt)

  -- `_replace_planning_trace`: the first two events are planning events, and are written anew.
  unfoldable pub rebind_events :
      TaskRuntime w → ProviderReceipt → List TraceEvent → Exec (TaskRuntime w) (Unit {0})
  rebind_events s receipt (first ∷ second ∷ rest) = do
    require (first.step == "planning" && second.step == "planning")
        "Planning Trace cannot be rebound"
    modify (λ t. record t {
      trace =
          record first {
            actor = receipt.provider;
            status = "started";
            details = planning_started (w.spec_digest s.task_spec) receipt.started_at;
          }
          ∷ record second {
            actor = receipt.provider;
            status = "completed";
            details = planning_completed receipt;
          }
          ∷ rest;
    })
  rebind_events s receipt _ = require false "Planning Trace cannot be rebound"

  unfoldable pub replace_planning_trace : ProviderReceipt → Exec (TaskRuntime w) (Unit {0})
  replace_planning_trace receipt = do s ← gets (λ s. s); rebind_events s receipt s.trace
