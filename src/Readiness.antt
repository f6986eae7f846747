-- ===== src/Readiness.antt =====
-- validators.py: findings, reports, and the readiness decision that is derived from them.
-- A finding's message and its mapping of details are text for people and are left out.
pub mod Gate
use proofbid.Prelude.{
  String, Bool, true, false, not, ◌&&◌, List, [], ◌∷◌, ◌++◌, map, any, select, casefold_in, strip,
  truthy, nonempty, from_keys, text_eq, if◌then◌else◌,
}
use proofbid.Errors.{Result}
use proofbid.Contracts.{MissingItem, AnalysisBundle, ReadinessDecision, readiness_decision}

pub record ValidationFinding : Type 0 where
  pub validator : String
  pub code : String
  pub severity : String
  pub passed : Bool

pub record ValidationReport : Type 0 where
  pub findings : List ValidationFinding

-- `finding.severity.casefold() in {"error", "critical", "blocker"}`
unfoldable pub is_blocking : ValidationFinding → Bool
is_blocking f = casefold_in ("error" ∷ "critical" ∷ "blocker" ∷ []) f.severity

unfoldable pub report_passed : ValidationReport → Bool
report_passed r = not (any (λ f. not f.passed && is_blocking f) r.findings)

unfoldable pub failures : ValidationReport → List ValidationFinding
failures r = select (λ f. not f.passed) r.findings

unfoldable pub item_code : MissingItem → String
item_code item =
    let reason_code = strip item.reason_code in
    if truthy reason_code then reason_code else "MISSING_ITEM_REASON_UNSPECIFIED"

unfoldable pub blocking_codes : AnalysisBundle → ValidationReport → List String
unfolding failures
blocking_codes bundle report =
    map (λ f. f.code) (select is_blocking (failures report))
    ++ map item_code (select (λ i. i.blocks_completion) bundle.missing_items)

unfoldable pub build_readiness_decision :
    AnalysisBundle → ValidationReport → Result ReadinessDecision
build_readiness_decision bundle report =
    let unique_codes = from_keys (blocking_codes bundle report) in
    let ready = not (nonempty unique_codes) in
    readiness_decision (record {
      ready_for_human_review = ready;
      ready_for_submission = ready;
      submission_executed = false;
      high_risk_actions_locked = true;
      blocking_reason_codes = unique_codes;
    })
