-- ===== src/Runtime/Policy.antt =====
-- agent_runtime_v2.py, `invoke` and `_dependencies_satisfied`: the tests in front of a call.
-- A message of the source that names the tool is cut to its fixed part.
use proofbid.Prelude.{
  Bool, List, Option, String, [], any, arith, contains, false, find_last, if◌then◌else◌, is_some,
  is_subset, length, ltb, map, none, nonempty, not, select, some, true, truthy, ℕ, ◌&&◌, ◌==◌, ◌||◌,
  ◌∷◌, ◌≡◌, text_eq, nat_eq, list_eq,
}
use proofbid.Errors.{plain_failure, Result, ok, raised, guard, ◌>>◌}
use proofbid.Runtime.Tool.{
  RuntimeTool, declare_plan, render_delivery, retry_render, validate_delivery, tool_eq, rules,
}
use proofbid.Runtime.State.{CallStatus, recoverable_error, ToolCallReceipt, World, TaskRuntime}

abbrev pub is_completed : CallStatus → Bool
is_completed CallStatus.completed = true
is_completed _ = false

abbrev pub is_recoverable : CallStatus → Bool
is_recoverable recoverable_error = true
is_recoverable _ = false

-- `receipt.tool == tool.value and receipt.status == "completed"`
unfoldable pub completes : RuntimeTool → ToolCallReceipt → Bool
completes tool r = (r.tool == tool) && is_completed r.status

-- `completed` of `_dependencies_satisfied`.
unfoldable pub completed_tools : List ToolCallReceipt → List RuntimeTool
completed_tools receipts = map (λ r. r.tool) (select (λ r. is_completed r.status) receipts)

unfoldable pub required_tools : List ToolCallReceipt → RuntimeTool → List RuntimeTool
required_tools receipts tool =
    if (tool == validate_delivery) && not (contains (completed_tools receipts) render_delivery)
    then retry_render ∷ []
    else rules tool

unfoldable pub has_recoverable_render : List ToolCallReceipt → Bool
has_recoverable_render receipts =
    any (λ r. (r.tool == render_delivery) && is_recoverable r.status) receipts

-- `_dependencies_satisfied`, as the test that it requires.
unfoldable pub dependencies_satisfied : List ToolCallReceipt → RuntimeTool → Bool
unfolding has_recoverable_render required_tools
dependencies_satisfied receipts tool =
    if tool == retry_render
    then has_recoverable_render receipts
    else is_subset (required_tools receipts tool) (completed_tools receipts)

-- `next(receipt.sequence for receipt in reversed(…) if …)`, for a retry.
unfoldable pub retry_of : List ToolCallReceipt → RuntimeTool → Result (Option ℕ)
retry_of receipts tool =
    if tool == retry_render
    then elim (find_last (λ r. r.tool == render_delivery) receipts) [
      | none ↦ raised (plain_failure "StopIteration")
      | some r ↦ ok (some r.sequence)
    ]
    else ok none

abbrev pub max_tool_calls : ℕ
max_tool_calls = 14

module _ {w : World} where
  -- The tests of `invoke` in their order; those on the plan are for every tool but the declaration.
  unfoldable pub policy : TaskRuntime w → RuntimeTool → Option String → Result (Unit {0})
  policy s tool function_call_id = do
    guard
        (not s.require_real_provider_evidence
          || elim function_call_id [ none ↦ false | some i ↦ truthy i ])
        "Real FunctionTool calls require an ADK function_call_id"
    guard (not (is_some s.terminal_status)) "The task is already terminal"
    guard (ltb (length s.receipts) max_tool_calls) "The maximum tool-call budget was exceeded"
    guard ((tool == declare_plan) || nonempty s.selected_tools)
        "declare_execution_plan must run first"
    guard ((tool == declare_plan) || contains s.selected_tools tool)
        "The tool was not selected in the declared plan"
    guard ((tool == declare_plan) || dependencies_satisfied s.receipts tool)
        "Dependencies are not satisfied"
    guard (not (any (completes tool) s.receipts)) "The tool cannot be completed twice"

  -- What these tests establish.
  pub record IsAdmitted (s : TaskRuntime w) (tool : RuntimeTool) : Type 0 where
    pub open_task : is_some s.terminal_status ≡ false
    pub in_budget : ltb (length s.receipts) max_tool_calls ≡ true
    pub declared : ((tool == declare_plan) || contains s.selected_tools tool) ≡ true
    pub in_order : ((tool == declare_plan) || dependencies_satisfied s.receipts tool) ≡ true
    pub first_time : any (completes tool) s.receipts ≡ false

  pub policy-IsAdmitted :
      (s : TaskRuntime w) (tool : RuntimeTool) (function_call_id : Option String)
      → policy s tool function_call_id ≡ ok tt
      → IsAdmitted s tool
  unfolding policy
  policy-IsAdmitted s tool function_call_id h = ground arith
