-- ===== src/Planning/Evidence.antt =====
-- planning.py: the receipt read back from its JSON, and the check of the whole digest chain.
use proofbid.Prelude.{
  Bool, List, Option, String, [], false, list_eq, nat_eq, none, not, some, text_eq, true, ◌==◌, ◌∷◌,
}
use proofbid.Planning.Spec.{TaskSpec}
use proofbid.Planning.Receipt.{PlanningResult, ProviderReceipt, planning_result, provider_receipt}
use proofbid.Planning.Reading.{
  exact_mapping, execution_plan_from_dict, read_count, read_flag, read_number, read_optional_count,
  read_optional_text, read_text, schema_checked, taken, task_spec_from_dict,
}
use proofbid.Planning.Plan.{ExecutionPlan, validate_execution_plan}
use proofbid.Loading.{Json}
use Prim.Native.Char.{code}
use proofbid.Errors.{◌>>=◌, ◌>>◌, Result, raised, ok, plan_validation}

abbrev receipt_fields : List String
receipt_fields =
    "schema_version" ∷ "provider" ∷ "configured_model" ∷ "model_version" ∷ "auth_mode"
    ∷ "adk_version" ∷ "genai_version" ∷ "started_at" ∷ "duration_ms" ∷ "event_count"
    ∷ "invocation_id" ∷ "interaction_id" ∷ "finish_reason" ∷ "prompt_tokens" ∷ "output_tokens"
    ∷ "total_tokens" ∷ "request_digest" ∷ "response_digest" ∷ "plan_digest" ∷ "schema_validated"
    ∷ "policy_validated" ∷ []

unfoldable pub read_receipt : Json → Result ProviderReceipt
read_receipt payload = do
  d ← exact_mapping receipt_fields payload
  provider ← taken read_text "provider" d
  configured_model ← taken read_text "configured_model" d
  model_version ← taken read_optional_text "model_version" d
  auth_mode ← taken read_text "auth_mode" d
  adk_version ← taken read_text "adk_version" d
  genai_version ← taken read_text "genai_version" d
  started_at ← taken read_text "started_at" d
  duration_ms ← taken read_number "duration_ms" d
  event_count ← taken read_count "event_count" d
  invocation_id ← taken read_optional_text "invocation_id" d
  interaction_id ← taken read_optional_text "interaction_id" d
  finish_reason ← taken read_optional_text "finish_reason" d
  prompt_tokens ← taken read_optional_count "prompt_tokens" d
  output_tokens ← taken read_optional_count "output_tokens" d
  total_tokens ← taken read_optional_count "total_tokens" d
  request_digest ← taken read_text "request_digest" d
  response_digest ← taken read_text "response_digest" d
  plan_digest ← taken read_text "plan_digest" d
  schema_validated ← taken read_flag "schema_validated" d
  policy_validated ← taken read_flag "policy_validated" d
  schema_version ← taken read_text "schema_version" d
  provider_receipt (record {
    provider = provider;
    configured_model = configured_model;
    model_version = model_version;
    auth_mode = auth_mode;
    adk_version = adk_version;
    genai_version = genai_version;
    started_at = started_at;
    duration_ms = duration_ms;
    event_count = event_count;
    invocation_id = invocation_id;
    interaction_id = interaction_id;
    finish_reason = finish_reason;
    prompt_tokens = prompt_tokens;
    output_tokens = output_tokens;
    total_tokens = total_tokens;
    request_digest = request_digest;
    response_digest = response_digest;
    plan_digest = plan_digest;
    schema_validated = schema_validated;
    policy_validated = policy_validated;
    schema_version = schema_version;
  })

unfoldable pub provider_receipt_from_dict : Json → Result ProviderReceipt
provider_receipt_from_dict payload =
    schema_checked "PROVIDER_RECEIPT_SCHEMA_INVALID" (read_receipt payload)

-- The digests of a task and of a plan.
pub record Digests : Type 0 where
  pub of_task : TaskSpec → String
  pub of_plan : ExecutionPlan → String

-- `raise PlanValidationError((code,))` under a condition.
abbrev pub reject_if : Bool → String → Result (Unit {0})
reject_if true code = raised (plan_validation (code ∷ []))
reject_if false code = ok tt

abbrev pub is_other_task : Option String → TaskSpec → Bool
is_other_task none spec = false
is_other_task (some id) spec = not (spec.task_id == id)

unfoldable pub validate_planning_evidence :
    Digests → Json → Json → Json → Option String → Result (TaskSpec × PlanningResult)
validate_planning_evidence digests task_spec_payload plan_payload receipt_payload expected_task_id =
    do
      spec ← task_spec_from_dict task_spec_payload
      plan ← execution_plan_from_dict plan_payload
      receipt ← provider_receipt_from_dict receipt_payload
      reject_if (is_other_task expected_task_id spec) "PLANNING_TASK_ID_MISMATCH"
      validate_execution_plan digests.of_task plan spec
      result ←
          schema_checked "PROVIDER_RECEIPT_BINDING_INVALID"
            (planning_result digests.of_plan (record { plan = plan; receipt = receipt }))
      ok (spec, result)
