-- ===== src/Planning/Receipt.antt =====
-- planning.py: the receipt of a model provider, and its binding to a plan.
-- Counts are natural numbers by their types.
use proofbid.Prelude.{
  Bool, Option, String, [], all, any, casefold_in, codes, contains, false, is_some, leb, length,
  none, not, some, strip, true, truthy, ℕ, ◌&&◌, ◌==◌, ◌||◌, ◌∷◌, text_eq, nat_eq, list_eq,
}
use proofbid.Errors.{Result, ok, refuse, ◌>>◌}
use proofbid.Decimal.{Decimal, is_below_zero}
use proofbid.Planning.Spec.{is_digest}
use proofbid.Planning.Plan.{ExecutionPlan}

pub record ProviderReceipt : Type 0 where
  pub provider : String
  pub configured_model : String
  pub model_version : Option String
  pub auth_mode : String
  pub adk_version : String
  pub genai_version : String
  pub started_at : String
  pub duration_ms : Decimal
  pub event_count : ℕ
  pub invocation_id : Option String
  pub interaction_id : Option String
  pub finish_reason : Option String
  pub prompt_tokens : Option ℕ
  pub output_tokens : Option ℕ
  pub total_tokens : Option ℕ
  pub request_digest : String
  pub response_digest : String
  pub plan_digest : String
  pub schema_validated : Bool
  pub policy_validated : Bool
  pub schema_version : String

abbrev pub provider_receipt_schema_version : String
provider_receipt_schema_version = "proofbid.provider-receipt/v1"

-- At most `limit` characters, on one line.
is_single_line : ℕ → String → Bool
is_single_line limit s =
    leb (length (codes s)) limit && not (contains (codes s) 10) && not (contains (codes s) 13)

is_single_line_or_none : Option String → Bool
unfolding is_single_line
is_single_line_or_none none = true
is_single_line_or_none (some s) = is_single_line 300 s

-- `ProviderReceipt(…)` runs `__post_init__`.
unfoldable pub provider_receipt : ProviderReceipt → Result ProviderReceipt
unfolding is_single_line_or_none
provider_receipt r = do
  let required =
      r.provider ∷ r.configured_model ∷ r.auth_mode ∷ r.adk_version ∷ r.genai_version ∷ r.started_at
      ∷ []
  let optional = r.model_version ∷ r.invocation_id ∷ r.interaction_id ∷ r.finish_reason ∷ []
  refuse (not (r.schema_version == provider_receipt_schema_version))
      "Unsupported ProviderReceipt schema version"
  refuse (not (all is_digest (r.request_digest ∷ r.response_digest ∷ r.plan_digest ∷ [])))
      "ProviderReceipt digests must be lowercase SHA-256 values"
  refuse (any (λ s. not (truthy (strip s) && is_single_line 200 s)) required)
      "ProviderReceipt metadata must use bounded single-line strings"
  refuse (any (λ s. not (is_single_line_or_none s)) optional)
      "ProviderReceipt optional metadata must be bounded"
  refuse (not (contains ("api_key" ∷ "vertex_ai" ∷ "test" ∷ []) r.auth_mode))
      "ProviderReceipt auth mode is not registered"
  refuse (is_below_zero r.duration_ms || not (leb 1 r.event_count))
      "ProviderReceipt duration/event count must be valid"
  ok r

pub record PlanningResult : Type 0 where
  pub plan : ExecutionPlan
  pub receipt : ProviderReceipt

-- `bool(value)` on a text or `None`.
abbrev pub has_text : Option String → Bool
has_text none = false
has_text (some s) = truthy s

-- `PlanningResult(…)` runs `__post_init__`; `digest` is the digest of a plan.
unfoldable pub planning_result : (ExecutionPlan → String) → PlanningResult → Result PlanningResult
planning_result digest p = do
  let r = p.receipt
  refuse (not (r.plan_digest == digest p.plan))
      "Provider receipt is not bound to the execution plan"
  refuse (not r.schema_validated || not r.policy_validated)
      "PlanningResult requires schema and policy validation"
  refuse
      (elim r.finish_reason [ none ↦ true | some s ↦ not (casefold_in ("stop" ∷ []) s) ]
        || not (has_text r.model_version)
        || not (has_text r.invocation_id)
        || not (is_some r.total_tokens))
      "PlanningResult requires successful provider evidence"
  ok p
