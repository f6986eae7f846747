-- ===== src/Runtime/Freeze.antt =====
-- agent_runtime_v2.py: the tests that guard the binding of a real provider's receipt and the freeze
-- of a delivery, and the summary of a frozen delivery.
-- Each run of tests on one receipt is refused with one message.
use proofbid.Prelude.{
  Bool, List, Option, String, [], all, any, codes, false, if◌then◌else◌, is_infix, is_some,
  is_unique, length, ltb, map, none, nonempty, not, select, some, ℕ, ◌&&◌, ◌==◌, ◌||◌, ◌∷◌, text_eq,
  nat_eq, list_eq,
}
use text.Mathlib.Text.{starts_with}
use proofbid.Decimal.{Decimal, whole, decimal_add, decimal_mul}
use proofbid.Errors.{Result, ok, guard, found, ◌>>=◌, ◌>>◌}
use proofbid.Contracts.{BomLine, ReadinessDecision}
use proofbid.Readiness.{build_readiness_decision}
use proofbid.Planning.Receipt.{ProviderReceipt, PlanningResult, planning_result, has_text}
use proofbid.Runtime.State.{TerminalStatus, ToolCallReceipt, World, TaskRuntime}
use proofbid.Runtime.Execute.{fatal_codes}

-- `text == expected` on a text or `None`.
abbrev pub is_text : String → Option String → Bool
is_text expected none = false
is_text expected (some s) = s == expected

abbrev is_positive : Option ℕ → Bool
is_positive none = false
is_positive (some n) = ltb 0 n

-- The tests on provider, model, finish and usage that binding and freezing share.
unfoldable pub is_real_receipt : ProviderReceipt → Bool
is_real_receipt r =
    r.provider == "google.gemini"
    && r.auth_mode == "vertex_ai"
    && r.configured_model == "gemini-3.5-flash"
    && is_text "STOP" r.finish_reason
    && has_text r.model_version
    && has_text r.invocation_id
    && is_positive r.prompt_tokens
    && is_positive r.total_tokens

-- `item.function_call_id` is a non-empty text for every receipt.
unfoldable pub all_bound : List ToolCallReceipt → Bool
all_bound receipts = all (λ r. has_text r.function_call_id) receipts

call_id_text : Option String → String
call_id_text none = ""
call_id_text (some i) = i

-- The three byte strings that betray a scripted run.
abbrev markers : List (List ℕ)
markers =
    codes "proofbid.scripted-policy"
    ∷ codes "deterministic-route-policy"
    ∷ codes "local-scripted"
    ∷ []

-- The members of the package in which a marker stands.
unfoldable pub marker_hits : List (String × List ℕ) → List String
marker_hits members =
    map (λ m. m.0) (select (λ m. any (λ marker. is_infix marker m.1) markers) members)

-- `sum((line.qty or 0.0) * (line.unit_price or 0.0) …)`
abbrev or_zero : Option Decimal → Decimal
or_zero none = whole 0
or_zero (some n) = n

unfoldable pub catalog_subtotal : List BomLine → Decimal
catalog_subtotal [] = whole 0
catalog_subtotal (line ∷ lines) =
    let rest = catalog_subtotal lines in
    if is_some line.item_id
    then decimal_add (decimal_mul (or_zero line.qty) (or_zero line.unit_price)) rest
    else rest

-- What `freeze_delivery` returns. `artifact_integrity_passed` is the constant `True`.
pub record Delivery (w : World) : Type 0 where
  pub task_id : String
  pub status : TerminalStatus
  pub readiness : ReadinessDecision
  pub requirement_count : ℕ
  pub evidence_count : ℕ
  pub bom_line_count : ℕ
  pub subtotal : Decimal
  pub missing_item_count : ℕ
  pub render_attempts : ℕ
  pub tool_call_count : ℕ
  pub artifacts : w.Artifacts
  pub provider : ProviderReceipt

module _ {w : World} where
  -- The tests of `bind_real_provider_receipt`, and the new `PlanningResult`.
  unfoldable pub binding_policy : TaskRuntime w → ProviderReceipt → Result PlanningResult
  unfolding call_id_text
  binding_policy s receipt = do
    guard s.require_real_provider_evidence "Runtime is not in real-provider mode"
    guard (is_real_receipt receipt) "Real provider evidence is required"
    guard (elim receipt.invocation_id [ none ↦ false | some i ↦ not (starts_with i "local-") ])
        "Real provider invocation ID is required"
    guard
        (nonempty s.receipts
          && all_bound s.receipts
          && is_unique (map (λ r. call_id_text r.function_call_id) s.receipts))
        "Every real FunctionTool receipt requires a unique function_call_id"
    planning_result w.plan_digest (record { plan = s.planning_result.plan; receipt = receipt })

  -- The tests of `freeze_delivery` in front of the rendering.
  unfoldable pub freeze_policy : TaskRuntime w → Result TerminalStatus
  freeze_policy s = do
    terminal ← found s.terminal_status "Task has no valid terminal state"
    guard (not s.require_real_provider_evidence || is_real_receipt s.planning_result.receipt)
        "Final provider evidence is not real"
    guard (not s.require_real_provider_evidence || all_bound s.receipts)
        "Final tool receipts are not bound to ADK FunctionTool call IDs"
    ok terminal

  -- The tests of `freeze_delivery` behind the rendering, and what it returns. A terminal task has
  -- a bundle and a report.
  unfoldable pub delivery_of : TaskRuntime w → TerminalStatus → w.Artifacts → Result (Delivery w)
  delivery_of s terminal artifacts = do
    bundle ← found s.bundle "Delivery state is unavailable"
    domain_report ← found s.domain_report "Delivery state is unavailable"
    report ← w.validate_artifacts (length s.receipts) bundle artifacts
    guard (not (nonempty (fatal_codes report))) "Final delivery validation failed"
    guard
        (not s.require_real_provider_evidence
          || not (nonempty (marker_hits (w.package_members artifacts))))
        "Scripted fallback markers remain in final package"
    readiness ← build_readiness_decision bundle domain_report
    ok (record {
      task_id = s.task_spec.task_id;
      status = terminal;
      readiness = readiness;
      requirement_count = length bundle.requirements;
      evidence_count = length bundle.evidence;
      bom_line_count = length bundle.bom;
      subtotal = catalog_subtotal bundle.bom;
      missing_item_count = length bundle.missing_items;
      render_attempts = s.render_attempts;
      tool_call_count = length s.receipts;
      artifacts = artifacts;
      provider = s.provider_evidence;
    })
