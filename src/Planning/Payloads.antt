-- ===== src/Planning/Payloads.antt =====
-- planning.py: the JSON form of a task, a plan and a receipt, and how they are read back. Whatever
-- a value of the wrong type raises is caught like a `ValueError`, so it is one here.
-- An integer is a number without decimal places; a float has at least one.
use proofbid.Contracts.{text, flag, number, null}
use proofbid.Regex.{◌then◌}
use proofbid.Prelude.{
  Bool, List, Option, String, [], if◌then◌else◌, list_eq, map, nat_eq, none, some, text_eq, ℕ, ◌<>◌,
  ◌==◌, ◌∷◌,
}
use proofbid.Planning.Tool.{plan_tool_value}
use proofbid.Planning.Spec.{TaskInputRef, TaskSpec}
use proofbid.Planning.Receipt.{ProviderReceipt}
use proofbid.Planning.Plan.{ExecutionPlan, PlanStep}
use proofbid.Loading.{Json, scalar, array, object}
use proofbid.Json.{fields_of, items_of}
use proofbid.Format.{show_float, show_nat}
use proofbid.Decimal.{Decimal, whole}

abbrev pub text_json : String → Json
text_json s = scalar (text s)

abbrev pub flag_json : Bool → Json
flag_json b = scalar (flag b)

unfoldable pub number_json : Decimal → Json
number_json d = scalar (
    number d (
      if d.places == 0
      then (if d.negative then "-" else "") <> show_nat d.digits
      else show_float d))

abbrev pub count_json : ℕ → Json
count_json n = number_json (whole n)

abbrev pub text_or_null : Option String → Json
text_or_null none = scalar null
text_or_null (some s) = text_json s

abbrev pub count_or_null : Option ℕ → Json
count_or_null none = scalar null
count_or_null (some n) = count_json n

abbrev pub list_json : List Json → Json
list_json xs = array (items_of xs)

unfoldable pub input_to_dict : TaskInputRef → Json
input_to_dict i = object (
    fields_of (
      ("relative_path", text_json i.relative_path)
      ∷ ("document_type", text_json i.document_type)
      ∷ ("source_hash", text_json i.source_hash)
      ∷ ("size_bytes", count_json i.size_bytes)
      ∷ []))

-- `TaskSpec.to_dict`
unfoldable pub task_spec_to_dict : TaskSpec → Json
task_spec_to_dict t = object (
    fields_of (
      ("schema_version", text_json t.schema_version)
      ∷ ("task_id", text_json t.task_id)
      ∷ ("goal", text_json t.goal)
      ∷ ("inputs", list_json (map input_to_dict t.inputs))
      ∷ ("allowed_tools", list_json (map (λ u. text_json (plan_tool_value u)) t.allowed_tools))
      ∷ ("required_deliverables", list_json (map text_json t.required_deliverables))
      ∷ ("prohibited_actions", list_json (map text_json t.prohibited_actions))
      ∷ ("max_plan_steps", count_json t.max_plan_steps)
      ∷ []))

-- `PlanStep.to_dict`
unfoldable pub step_to_dict : PlanStep → Json
step_to_dict s = object (
    fields_of (
      ("step_id", text_json s.step_id)
      ∷ ("tool", text_json (plan_tool_value s.tool))
      ∷ ("depends_on", list_json (map text_json s.depends_on))
      ∷ ("completion_criterion", text_json s.completion_criterion)
      ∷ []))

-- `ExecutionPlan.to_dict`
unfoldable pub execution_plan_to_dict : ExecutionPlan → Json
execution_plan_to_dict p = object (
    fields_of (
      ("schema_version", text_json p.schema_version)
      ∷ ("task_spec_digest", text_json p.task_spec_digest)
      ∷ ("steps", list_json (map step_to_dict p.steps))
      ∷ ("summary", text_json p.summary)
      ∷ []))

-- `ProviderReceipt.to_dict`
unfoldable pub provider_receipt_to_dict : ProviderReceipt → Json
provider_receipt_to_dict r = object (
    fields_of (
      ("provider", text_json r.provider)
      ∷ ("configured_model", text_json r.configured_model)
      ∷ ("model_version", text_or_null r.model_version)
      ∷ ("auth_mode", text_json r.auth_mode)
      ∷ ("adk_version", text_json r.adk_version)
      ∷ ("genai_version", text_json r.genai_version)
      ∷ ("started_at", text_json r.started_at)
      ∷ ("duration_ms", number_json r.duration_ms)
      ∷ ("event_count", count_json r.event_count)
      ∷ ("invocation_id", text_or_null r.invocation_id)
      ∷ ("interaction_id", text_or_null r.interaction_id)
      ∷ ("finish_reason", text_or_null r.finish_reason)
      ∷ ("prompt_tokens", count_or_null r.prompt_tokens)
      ∷ ("output_tokens", count_or_null r.output_tokens)
      ∷ ("total_tokens", count_or_null r.total_tokens)
      ∷ ("request_digest", text_json r.request_digest)
      ∷ ("response_digest", text_json r.response_digest)
      ∷ ("plan_digest", text_json r.plan_digest)
      ∷ ("schema_validated", flag_json r.schema_validated)
      ∷ ("policy_validated", flag_json r.policy_validated)
      ∷ ("schema_version", text_json r.schema_version)
      ∷ []))
