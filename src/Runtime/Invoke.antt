-- ===== src/Runtime/Invoke.antt =====
-- agent_runtime_v2.py, `invoke`: the receipt of a call, and the evidence that it leaves.
use proofbid.Prelude.{
  Bool, Option, String, [], length, map, ℕ, ◌++◌, ◌+◌, ◌==◌, ◌||◌, ◌∷◌, text_eq, nat_eq, list_eq,
}
use proofbid.Errors.{recoverable_render, reason_code, Result, ok, raised}
use proofbid.Exec.{Exec, pure, throw, lift, gets, when, ◌>>=◌, ◌>>◌}
use proofbid.Runtime.Tool.{RuntimeTool, render_delivery, retry_render, tool_eq, runtime_tool}
use proofbid.Runtime.State.{
  Arguments, CallStatus, recoverable_error, failed, ToolResult, errored, ToolCallReceipt, ToolInput,
  tool_call, World, TaskRuntime,
}
use proofbid.Runtime.Evidence.{emit, persist_agent_evidence}
use proofbid.Runtime.Policy.{policy, retry_of}
use proofbid.Runtime.Execute.{execute, render_artifacts}

-- Which tools are rendered once more behind their receipt.
abbrev pub is_render : RuntimeTool → Bool
is_render tool = (tool == render_delivery) || (tool == retry_render)

module _ (w : World) where
  unfoldable pub tool_input : TaskRuntime w → RuntimeTool → Arguments → Option String → ToolInput
  tool_input s tool arguments function_call_id = record {
    task_spec_digest = w.spec_digest s.task_spec;
    tool = tool;
    arguments = arguments;
    function_call_id = function_call_id;
    prior_receipts = map (λ r. r.result_digest) s.receipts;
  }

  abbrev pub status_value : CallStatus → String
  status_value CallStatus.completed = "completed"
  status_value recoverable_error = "recoverable_error"
  status_value failed = "failed"

  unfoldable pub noted : ToolCallReceipt → TaskRuntime w → TaskRuntime w
  unfolding emit
  noted r s = record s {
    receipts = s.receipts ++ r ∷ [];
    trace =
        emit s.trace "agent_tool" "proofbid.tool-runtime" (status_value r.status)
          (tool_call r.tool r.reason_code);
  }

  -- Append the receipt, trace it, and write the evidence files.
  unfoldable pub note_call : ToolCallReceipt → Exec (TaskRuntime w) (Unit {0})
  note_call r s = persist_agent_evidence w (noted r s)

  -- The outcome of the call: its status, its reason code, and the dictionary that is returned.
  abbrev pub outcome_status : Result ToolResult → CallStatus
  outcome_status (ok result) = CallStatus.completed
  outcome_status (raised recoverable_render) = recoverable_error
  outcome_status (raised e) = failed

  abbrev pub outcome_reason : Result ToolResult → String
  outcome_reason (ok result) = "OK"
  outcome_reason (raised e) = reason_code e "TOOL_EXECUTION_FAILED"

  abbrev pub outcome_result : Result ToolResult → ToolResult
  outcome_result (ok result) = result
  outcome_result (raised e) = errored (outcome_status (raised e)) (outcome_reason (raised e))

  -- What follows the receipt: a completed rendering is rendered again with its own receipt, a
  -- recoverable error is returned, and any other exception is raised again.
  unfoldable pub settle : RuntimeTool → Result ToolResult → Exec (TaskRuntime w) ToolResult
  settle tool (ok result) = do
    when (is_render tool) do render_artifacts w; pure tt
    pure result
  settle tool (raised recoverable_render) = pure (outcome_result (raised recoverable_render))
  settle tool (raised e) = throw e

  -- `try: … except …` around the execution: its exception is a value here.
  abbrev pub attempt : Exec (TaskRuntime w) ToolResult → Exec (TaskRuntime w) (Result ToolResult)
  attempt m s = (ok (m s).0, (m s).1)

  unfoldable pub receipt_of :
      TaskRuntime w
      → RuntimeTool
      → Option String
      → Arguments
      → Option ℕ
      → Result ToolResult
      → ToolCallReceipt
  unfolding tool_input
  receipt_of s tool function_call_id arguments earlier outcome = record {
    sequence = length s.receipts + 1;
    tool = tool;
    status = outcome_status outcome;
    reason_code = outcome_reason outcome;
    input_digest = w.input_digest (tool_input s tool arguments function_call_id);
    result_digest = w.result_digest (outcome_result outcome);
    function_call_id = function_call_id;
    retry_of = earlier;
  }

  unfoldable pub run_call :
      RuntimeTool → Option String → Arguments → Exec (TaskRuntime w) ToolResult
  run_call tool function_call_id arguments = do
    s ← gets (λ s. s)
    earlier ← lift (retry_of s.receipts tool)
    outcome ← attempt (execute w tool arguments)
    note_call (receipt_of s tool function_call_id arguments earlier outcome)
    settle tool outcome

  unfoldable pub invoke : String → Option String → Arguments → Exec (TaskRuntime w) ToolResult
  invoke name function_call_id arguments = do
    tool ← lift (runtime_tool name)
    s ← gets (λ s. s)
    lift (policy s tool function_call_id)
    run_call tool function_call_id arguments
