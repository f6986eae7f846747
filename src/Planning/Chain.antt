-- ===== src/Planning/Chain.antt =====
-- The round trip of a planning's JSON, and what the chain of digests binds.
use proofbid.Planning.Receipt.{ProviderReceipt, provider_receipt, planning_result}
use proofbid.Planning.Evidence.{
  provider_receipt_from_dict, read_receipt, Digests, validate_planning_evidence,
}
use proofbid.Planning.Plan.{
  ExecutionPlan, PlanStep, plan_step, execution_plan, validate_execution_plan,
}
use proofbid.Prelude.{
  List, Memᴰ, String, [], find_last, get_key, list_eq, map, nat_eq, put_key, refl, text_eq, ℕ, ◌∷◌,
  ◌≡◌, Option, none, some, eqb_refl,
}
use proofbid.Planning.Tool.{PlanTool, plan_tool_value}
use proofbid.Planning.Spec.{TaskInputRef, task_input_ref, TaskSpec, task_spec}
use proofbid.Planning.Reading.{
  exact_mapping, read_array, read_count, read_each, read_input, read_text, read_tool, taken,
  read_task_spec, schema_checked, task_spec_from_dict, execution_plan_from_dict,
  read_execution_plan, read_flag, read_number, read_optional_count, read_optional_text, read_step,
}
use proofbid.Planning.Payloads.{
  count_json, input_to_dict, list_json, number_json, text_json, task_spec_to_dict, count_or_null,
  execution_plan_to_dict, provider_receipt_to_dict, step_to_dict, text_or_null,
}
use proofbid.Loading.{Json}
use proofbid.Json.{dict_of, fields_of, items_of, list_of}
use proofbid.Errors.{Result, ok}

pub list_of-items_of : (xs : List Json) → list_of (items_of xs) ≡ xs
unfolding list_of items_of
list_of-items_of [] = refl
list_of-items_of (x ∷ xs) = rw (list_of-items_of xs) refl

-- A value that can be read back can be read back from a list.
pub read_each-map :
    {A : Type 0} (reader : Json → Result A) (writer : A → Json) (xs : List A)
    → ((x : A) → Memᴰ x xs → reader (writer x) ≡ ok x)
    → read_each reader (map writer xs) ≡ ok xs
unfolding read_each
read_each-map reader writer [] h = refl
read_each-map reader writer (x ∷ xs) h =
    rw (h x (Memᴰ.head refl), read_each-map reader writer xs (λ y m. h y (Memᴰ.tail m))) refl

pub read_array-map :
    {A : Type 0} (reader : Json → Result A) (writer : A → Json) (xs : List A)
    → ((x : A) → Memᴰ x xs → reader (writer x) ≡ ok x)
    → read_array reader (list_json (map writer xs)) ≡ ok xs
unfolding read_array
read_array-map reader writer xs h =
    rw (list_of-items_of (map writer xs)) (read_each-map reader writer xs h)

read_text-text : (s : String) → read_text (text_json s) ≡ ok s
unfolding read_text
read_text-text s = refl

read_tool-value : (u : PlanTool) → read_tool (text_json (plan_tool_value u)) ≡ ok u
unfolding read_tool read_text plan_tool_value find_last
read_tool-value PlanTool.scan_workspace = refl
read_tool-value PlanTool.extract_requirements = refl
read_tool-value PlanTool.load_bidder_profile = refl
read_tool-value PlanTool.load_catalog = refl
read_tool-value PlanTool.build_analysis = refl
read_tool-value PlanTool.validate_bundle = refl
read_tool-value PlanTool.render_bundle = refl
read_tool-value PlanTool.validate_artifacts = refl

read_count-count : (n : ℕ) → read_count (count_json n) ≡ ok n
unfolding read_count number_json
read_count-count n = refl

-- An input reference that keeps its contract is read back from its JSON.
read_input-input_to_dict :
    (i : TaskInputRef) → task_input_ref i ≡ ok i → read_input (input_to_dict i) ≡ ok i
unfolding read_input input_to_dict exact_mapping dict_of fields_of taken get_key put_key read_text
    read_count number_json
read_input-input_to_dict i h = h

texts_back : (ss : List String) → read_array read_text (list_json (map text_json ss)) ≡ ok ss
unfolding read_text
texts_back ss = read_array-map read_text text_json ss (λ s m. refl)

-- The inputs of a task, and the steps of a plan, were made by their constructors.
abbrev pub HasKeptInputs : TaskSpec → Type 0
HasKeptInputs t = (i : TaskInputRef) → Memᴰ i t.inputs → task_input_ref i ≡ ok i

abbrev pub HasKeptSteps : ExecutionPlan → Type 0
HasKeptSteps p = (s : PlanStep) → Memᴰ s p.steps → plan_step s ≡ ok s

-- A task that keeps its contract is read back from its JSON.
pub task_spec_from_dict-task_spec_to_dict :
    (t : TaskSpec)
    → HasKeptInputs t
    → task_spec t ≡ ok t
    → task_spec_from_dict (task_spec_to_dict t) ≡ ok t
unfolding read_task_spec task_spec_from_dict task_spec_to_dict exact_mapping dict_of fields_of taken
    get_key put_key read_text read_count number_json schema_checked
task_spec_from_dict-task_spec_to_dict t inputs h =
    let i =
      read_array-map read_input input_to_dict t.inputs
        (λ x m. read_input-input_to_dict x (inputs x m)) in
    let tools =
      read_array-map read_tool (λ u. text_json (plan_tool_value u)) t.allowed_tools
        (λ u m. read_tool-value u) in
    rw (i, tools, texts_back t.required_deliverables, texts_back t.prohibited_actions, h) refl

read_step-step_to_dict : (s : PlanStep) → plan_step s ≡ ok s → read_step (step_to_dict s) ≡ ok s
unfolding exact_mapping dict_of fields_of taken get_key put_key read_text read_count number_json
    schema_checked read_step step_to_dict
read_step-step_to_dict s h = rw (read_tool-value s.tool, texts_back s.depends_on, h) refl

-- So is a plan.
pub execution_plan_from_dict-execution_plan_to_dict :
    (p : ExecutionPlan)
    → HasKeptSteps p
    → execution_plan p ≡ ok p
    → execution_plan_from_dict (execution_plan_to_dict p) ≡ ok p
unfolding exact_mapping dict_of fields_of taken get_key put_key read_text read_count number_json
    schema_checked read_execution_plan execution_plan_from_dict execution_plan_to_dict
execution_plan_from_dict-execution_plan_to_dict p steps h =
    let s =
      read_array-map read_step step_to_dict p.steps (λ x m. read_step-step_to_dict x (steps x m)) in
    rw (s, h) refl

read_optional_text-null : (s : Option String) → read_optional_text (text_or_null s) ≡ ok s
unfolding read_optional_text
read_optional_text-null none = refl
read_optional_text-null (some s) = refl

read_optional_count-null : (n : Option ℕ) → read_optional_count (count_or_null n) ≡ ok n
unfolding read_optional_count read_count number_json
read_optional_count-null none = refl
read_optional_count-null (some n) = refl

-- And a receipt.
pub provider_receipt_from_dict-provider_receipt_to_dict :
    (r : ProviderReceipt)
    → provider_receipt r ≡ ok r
    → provider_receipt_from_dict (provider_receipt_to_dict r) ≡ ok r
unfolding exact_mapping dict_of fields_of taken get_key put_key read_text read_count number_json
    schema_checked read_receipt provider_receipt_from_dict provider_receipt_to_dict read_flag
    read_number
provider_receipt_from_dict-provider_receipt_to_dict r h =
    rw
      (
        read_optional_text-null r.model_version,
        read_optional_text-null r.invocation_id,
        read_optional_text-null r.interaction_id,
        read_optional_text-null r.finish_reason,
        read_optional_count-null r.prompt_tokens,
        read_optional_count-null r.output_tokens,
        read_optional_count-null r.total_tokens,
        h,
      )
      refl

-- The evidence that the constructors and the local policy have accepted is accepted again when its
-- JSON is read back, and gives the same task, plan and receipt.
pub validate_planning_evidence-to_dict :
    (digests : Digests) (t : TaskSpec) (p : ExecutionPlan) (r : ProviderReceipt)
    → HasKeptInputs t
    → HasKeptSteps p
    → task_spec t ≡ ok t
    → execution_plan p ≡ ok p
    → provider_receipt r ≡ ok r
    → validate_execution_plan digests.of_task p t ≡ ok tt
    → planning_result digests.of_plan (record { plan = p; receipt = r })
      ≡ ok (record { plan = p; receipt = r })
    → validate_planning_evidence digests
        (task_spec_to_dict t)
        (execution_plan_to_dict p)
        (provider_receipt_to_dict r)
        (some t.task_id)
      ≡ ok (t, record { plan = p; receipt = r })
unfolding validate_planning_evidence schema_checked
validate_planning_evidence-to_dict digests t p r inputs steps kt kp kr accepted bound =
    rw
      (
        task_spec_from_dict-task_spec_to_dict t inputs kt,
        execution_plan_from_dict-execution_plan_to_dict p steps kp,
        provider_receipt_from_dict-provider_receipt_to_dict r kr,
        eqb_refl t.task_id,
        accepted,
        bound,
      )
      refl
