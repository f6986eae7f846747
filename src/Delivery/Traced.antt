-- ===== src/Delivery/Traced.antt =====
-- validators.py: the planning events of a trace, held against the plan and its receipt.
use proofbid.Regex.{◌then◌}
use proofbid.Planning.Receipt.{PlanningResult, ProviderReceipt}
use proofbid.Loading.{Json, object}
use proofbid.Json.{dict_of, is_string, member}
use proofbid.Format.{show_nat}
use proofbid.Delivery.Modes.{is_planning_event}
use proofbid.Delivery.{scalar}
use proofbid.Decimal.{Decimal, decimal_eq, whole}
use proofbid.Contracts.{text, number, flag, null, Scalar}
use proofbid.Prelude.{
  bool_eq, text_eq, Bool, List, Option, String, [], all, false, get_key, if◌then◌else◌, length,
  list_eq, map, nat_eq, none, same_set, select, some, true, ℕ, ◌&&◌, ◌==◌, ◌∷◌,
}

-- A number, where `True` is 1 and `False` is 0.
as_number : Scalar → Option Decimal
as_number null = none
as_number (flag b) = some (whole (if b then 1 else 0))
as_number (number value shown) = some value
as_number (text s) = none

-- `==` on scalars.
unfoldable pub scalar_same : Scalar → Scalar → Bool
unfolding as_number
scalar_same null null = true
scalar_same (text s) (text t) = s == t
scalar_same v w = elim (as_number v) [
  | none ↦ false
  | some a ↦ elim (as_number w) [ none ↦ false | some b ↦ decimal_eq a b ]
]

unfoldable pub is_scalar : Scalar → Option Json → Bool
is_scalar expected (some (scalar v)) = scalar_same v expected
is_scalar expected _ = false

-- `value == {…}`, for a mapping of scalars.
unfoldable pub is_mapping : List (String × Scalar) → Option Json → Bool
is_mapping expected (some (object fs)) =
    let d = dict_of fs in
    same_set (map (λ (key, _). key) d) (map (λ (key, _). key) expected)
    && all (λ (key, v). is_scalar v (get_key key d)) expected
is_mapping expected _ = false

abbrev pub json_details : List (String × Scalar) → List (String × Json)
json_details details = map (λ (key, v). (key, scalar v)) details

abbrev scalar_or_null : Option String → Scalar
scalar_or_null none = null
scalar_or_null (some s) = text s

abbrev count_scalar : ℕ → Scalar
count_scalar n = number (whole n) (show_nat n)

abbrev count_scalar_or_null : Option ℕ → Scalar
count_scalar_or_null none = null
count_scalar_or_null (some n) = count_scalar n

abbrev pub started_details : PlanningResult → List (String × Scalar)
started_details result =
    ("task_spec_digest", text result.plan.task_spec_digest)
    ∷ ("provider_started_at", text result.receipt.started_at)
    ∷ []

abbrev pub completed_details : ProviderReceipt → List (String × Scalar)
completed_details r =
    ("configured_model", text r.configured_model)
    ∷ ("model_version", scalar_or_null r.model_version)
    ∷ ("auth_mode", text r.auth_mode)
    ∷ ("adk_version", text r.adk_version)
    ∷ ("genai_version", text r.genai_version)
    ∷ ("event_count", count_scalar r.event_count)
    ∷ ("invocation_id", scalar_or_null r.invocation_id)
    ∷ ("interaction_id", scalar_or_null r.interaction_id)
    ∷ ("finish_reason", scalar_or_null r.finish_reason)
    ∷ ("request_digest", text r.request_digest)
    ∷ ("response_digest", text r.response_digest)
    ∷ ("plan_digest", text r.plan_digest)
    ∷ ("schema_validated", flag r.schema_validated)
    ∷ ("policy_validated", flag r.policy_validated)
    ∷ ("prompt_tokens", count_scalar_or_null r.prompt_tokens)
    ∷ ("output_tokens", count_scalar_or_null r.output_tokens)
    ∷ ("total_tokens", count_scalar_or_null r.total_tokens)
    ∷ []

-- The only element of a list.
abbrev pub the_only : List Json → Option Json
the_only (x ∷ []) = some x
the_only _ = none

unfoldable pub is_started_event : PlanningResult → Json → Bool
is_started_event result event =
    is_string result.receipt.provider (member "actor" event)
    && is_mapping (started_details result) (member "details" event)

unfoldable pub is_completed_event : PlanningResult → Json → Bool
is_completed_event result event =
    is_string result.receipt.provider (member "actor" event)
    && is_mapping (completed_details result.receipt) (member "details" event)
    && is_scalar (number result.receipt.duration_ms "") (member "duration_ms" event)

abbrev pub holds : (Json → Bool) → Option Json → Bool
holds test none = false
holds test (some event) = test event

-- `receipt_bound`, once there is a result.
unfoldable pub is_receipt_traced : PlanningResult → List Json → Bool
is_receipt_traced result events =
    let planning = select is_planning_event events in
    let started = select (λ e. is_string "started" (member "status" e)) planning in
    let completed = select (λ e. is_string "completed" (member "status" e)) planning in
    length planning == 2
    && holds (is_started_event result) (the_only started)
    && holds (is_completed_event result) (the_only completed)

abbrev pub is_traced : Option PlanningResult → List Json → Bool
is_traced none events = false
is_traced (some result) events = is_receipt_traced result events
