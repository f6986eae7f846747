-- ===== src/Planning/Reading.antt =====
-- planning.py: packaged JSON read back into a task, a plan and a receipt, and their digest chain.
use proofbid.Contracts.{text, flag, number, null}
use proofbid.Errors.{◌>>=◌}
use proofbid.Regex.{◌then◌}
use proofbid.Prelude.{
  Bool, Dict, List, Option, String, [], find_last, get_key, if◌then◌else◌, list_eq, map, nat_eq,
  none, not, same_set, some, text_eq, ℕ, ◌&&◌, ◌==◌, ◌∷◌,
}
use proofbid.Planning.Tool.{PlanTool, canonical_tool_order, plan_tool_value}
use proofbid.Planning.Spec.{TaskInputRef, TaskSpec, task_input_ref, task_spec}
use proofbid.Planning.Plan.{ExecutionPlan, PlanStep, execution_plan, plan_step}
use proofbid.Loading.{Json, object, scalar, array}
use proofbid.Json.{dict_of, list_of}
use proofbid.Errors.{Result, raised, ok, value_error, plan_validation}
use proofbid.Decimal.{Decimal, is_below_zero}
use Prim.Native.Char.{code}

-- A field of a type that the contract does not allow.
unreadable : {A : Type 0} → Result A
unreadable = raised (value_error "Payload fields do not match the versioned contract")

-- `_exact_mapping`
unfoldable pub exact_mapping : List String → Json → Result (Dict String Json)
unfolding unreadable
exact_mapping expected (object fs) =
    let d = dict_of fs in if same_set (map (λ (key, _). key) d) expected then ok d else unreadable
exact_mapping expected _ = unreadable

-- The value of a key that `exact_mapping` has found.
unfoldable pub taken : {A : Type 0} → (Json → Result A) → String → Dict String Json → Result A
unfolding unreadable
taken reader key d = elim (get_key key d) [ none ↦ unreadable | some value ↦ reader value ]

unfoldable pub read_text : Json → Result String
unfolding unreadable
read_text (scalar (text s)) = ok s
read_text _ = unreadable

unfoldable pub read_optional_text : Json → Result (Option String)
unfolding unreadable
read_optional_text (scalar (text s)) = ok (some s)
read_optional_text (scalar null) = ok none
read_optional_text _ = unreadable

unfoldable pub read_flag : Json → Result Bool
unfolding unreadable
read_flag (scalar (flag b)) = ok b
read_flag _ = unreadable

unfoldable pub read_number : Json → Result Decimal
unfolding unreadable
read_number (scalar (number d shown)) = ok d
read_number _ = unreadable

-- A non-negative integer that is no Boolean.
unfoldable pub read_count : Json → Result ℕ
unfolding unreadable
read_count (scalar (number d shown)) =
    if d.places == 0 && not (is_below_zero d) then ok d.digits else unreadable
read_count _ = unreadable

unfoldable pub read_optional_count : Json → Result (Option ℕ)
unfolding read_count
read_optional_count (scalar null) = ok none
read_optional_count value = do n ← read_count value; ok (some n)

unfoldable pub read_each : {A : Type 0} → (Json → Result A) → List Json → Result (List A)
read_each reader [] = ok []
read_each reader (x ∷ xs) = do a ← reader x; as_read ← read_each reader xs; ok (a ∷ as_read)

unfoldable pub read_array : {A : Type 0} → (Json → Result A) → Json → Result (List A)
unfolding unreadable
read_array reader (array xs) = read_each reader (list_of xs)
read_array reader _ = unreadable

abbrev all_tools : List PlanTool
all_tools = canonical_tool_order

-- `PlanTool(value)`
unfoldable pub read_tool : Json → Result PlanTool
unfolding read_text unreadable
read_tool value = do
  s ← read_text value
  elim (find_last (λ u. plan_tool_value u == s) all_tools) [ none ↦ unreadable | some u ↦ ok u ]

-- `except (AttributeError, KeyError, TypeError, ValueError)`
unfoldable pub schema_checked {ℓ} : {A : Type ℓ} → String → Result A → Result A
schema_checked code (ok a) = ok a
schema_checked code (raised (value_error message)) = raised (plan_validation (code ∷ []))
schema_checked code (raised e) = raised e

unfoldable pub read_input : Json → Result TaskInputRef
read_input value = do
  d ← exact_mapping ("relative_path" ∷ "document_type" ∷ "source_hash" ∷ "size_bytes" ∷ []) value
  relative_path ← taken read_text "relative_path" d
  document_type ← taken read_text "document_type" d
  source_hash ← taken read_text "source_hash" d
  size_bytes ← taken read_count "size_bytes" d
  task_input_ref (record {
    relative_path = relative_path;
    document_type = document_type;
    source_hash = source_hash;
    size_bytes = size_bytes;
  })

abbrev pub task_spec_fields : List String
task_spec_fields =
    "schema_version" ∷ "task_id" ∷ "goal" ∷ "inputs" ∷ "allowed_tools" ∷ "required_deliverables"
    ∷ "prohibited_actions" ∷ "max_plan_steps" ∷ []

unfoldable pub read_task_spec : Json → Result TaskSpec
read_task_spec payload = do
  d ← exact_mapping task_spec_fields payload
  inputs ← taken (read_array read_input) "inputs" d
  schema_version ← taken read_text "schema_version" d
  task_id ← taken read_text "task_id" d
  goal ← taken read_text "goal" d
  allowed_tools ← taken (read_array read_tool) "allowed_tools" d
  required_deliverables ← taken (read_array read_text) "required_deliverables" d
  prohibited_actions ← taken (read_array read_text) "prohibited_actions" d
  max_plan_steps ← taken read_count "max_plan_steps" d
  task_spec (record {
    task_id = task_id;
    goal = goal;
    inputs = inputs;
    allowed_tools = allowed_tools;
    required_deliverables = required_deliverables;
    prohibited_actions = prohibited_actions;
    max_plan_steps = max_plan_steps;
    schema_version = schema_version;
  })

unfoldable pub task_spec_from_dict : Json → Result TaskSpec
task_spec_from_dict payload = schema_checked "TASK_SPEC_SCHEMA_INVALID" (read_task_spec payload)

unfoldable pub read_step : Json → Result PlanStep
read_step value = do
  d ← exact_mapping ("step_id" ∷ "tool" ∷ "depends_on" ∷ "completion_criterion" ∷ []) value
  step_id ← taken read_text "step_id" d
  tool ← taken read_tool "tool" d
  depends_on ← taken (read_array read_text) "depends_on" d
  completion_criterion ← taken read_text "completion_criterion" d
  plan_step (record {
    step_id = step_id;
    tool = tool;
    depends_on = depends_on;
    completion_criterion = completion_criterion;
  })

unfoldable pub read_execution_plan : Json → Result ExecutionPlan
read_execution_plan payload = do
  d ← exact_mapping ("schema_version" ∷ "task_spec_digest" ∷ "steps" ∷ "summary" ∷ []) payload
  steps ← taken (read_array read_step) "steps" d
  schema_version ← taken read_text "schema_version" d
  task_spec_digest ← taken read_text "task_spec_digest" d
  summary ← taken read_text "summary" d
  execution_plan (record {
    task_spec_digest = task_spec_digest;
    steps = steps;
    summary = summary;
    schema_version = schema_version;
  })

unfoldable pub execution_plan_from_dict : Json → Result ExecutionPlan
execution_plan_from_dict payload =
    schema_checked "EXECUTION_PLAN_SCHEMA_INVALID" (read_execution_plan payload)
