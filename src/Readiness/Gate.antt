-- ===== src/Readiness/Gate.antt =====
-- What a readiness decision says of the report and of the missing items.
use proofbid.Prelude.{
  ◌≡◌, refl, Bool, true, false, not, ◌&&◌, ◌||◌, String, List, [], ◌∷◌, any, select, nonempty,
  from_keys, is_unique, contains, contains-from_keys, is_unique-from_keys, text_eq, arith,
  nonempty-append, nonempty-from_keys, nonempty-map-select, any-select, not-not, ◌==◌,
  contains-append, contains-map-select,
}
use proofbid.Errors.{ok}
use proofbid.Contracts.{MissingItem, AnalysisBundle, ReadinessDecision, readiness_decision}
use proofbid.Readiness.{
  ValidationFinding, ValidationReport, is_blocking, report_passed, failures, item_code,
  blocking_codes, build_readiness_decision,
}

abbrev pub blocked_by_items : AnalysisBundle → Bool
blocked_by_items bundle = any (λ (i : MissingItem). i.blocks_completion) bundle.missing_items

pub nonempty-blocking_codes :
    (bundle : AnalysisBundle) (report : ValidationReport)
    → nonempty (blocking_codes bundle report)
      ≡ (not (report_passed report) || blocked_by_items bundle)
unfolding blocking_codes failures report_passed
nonempty-blocking_codes bundle report =
    simp (nonempty-append, nonempty-map-select, any-select, not-not)

-- A decision is always made, its submission and lock flags are fixed, and the package is ready
-- exactly when the report has passed and no missing item blocks completion.
pub build_readiness_decision-ready :
    (bundle : AnalysisBundle) (report : ValidationReport)
    → (d : ReadinessDecision) × (build_readiness_decision bundle report ≡ ok d)
      × (d.ready_for_submission ≡ (report_passed report && not (blocked_by_items bundle)))
      × (d.ready_for_human_review ≡ d.ready_for_submission)
      × (d.submission_executed ≡ false)
      × (d.high_risk_actions_locked ≡ true)
unfolding build_readiness_decision readiness_decision
build_readiness_decision-ready bundle report =
    let codes = from_keys (blocking_codes bundle report) in
    let full = nonempty-from_keys (blocking_codes bundle report) in
    let split = nonempty-blocking_codes bundle report in
    (
      record {
        ready_for_human_review = not (nonempty codes);
        ready_for_submission = not (nonempty codes);
        submission_executed = false;
        high_risk_actions_locked = true;
        blocking_reason_codes = codes;
      },
      ground arith,
      ground arith,
      refl,
      refl,
      refl,
    )

any-select_and :
    (p q r : ValidationFinding → Bool) (xs : List ValidationFinding)
    → any (λ x. p x && r x) (select q xs) ≡ any (λ x. q x && p x && r x) xs
any-select_and p q r [] = refl
any-select_and p q r (x ∷ xs) = ground (arith, any-select_and p q r xs)

codes_of_findings :
    (bundle : AnalysisBundle) (report : ValidationReport) (code : String)
    → contains (blocking_codes bundle report) code ≡ (
        any (λ f. not f.passed && is_blocking f && (f.code == code)) report.findings
        || any (λ i. i.blocks_completion && (item_code i == code)) bundle.missing_items)
unfolding blocking_codes failures
codes_of_findings bundle report code =
    simp (contains-append, contains-map-select)
      (rw (any-select_and is_blocking (λ f. not f.passed) (λ f. f.code == code) report.findings)
        refl)

codes_of_decision :
    (bundle : AnalysisBundle) (report : ValidationReport) {d : ReadinessDecision}
    → build_readiness_decision bundle report ≡ ok d
    → d.blocking_reason_codes ≡ from_keys (blocking_codes bundle report)
unfolding build_readiness_decision readiness_decision
codes_of_decision bundle report h = ground arith

-- Whenever a decision is made, its codes are distinct, and a code stands among them exactly when
-- a failed blocking finding or a blocking missing item has it.
pub build_readiness_decision-codes :
    (bundle : AnalysisBundle) (report : ValidationReport) (code : String) {d : ReadinessDecision}
    → build_readiness_decision bundle report ≡ ok d
    → (is_unique d.blocking_reason_codes ≡ true)
      × (contains d.blocking_reason_codes code ≡ (
          any (λ f. not f.passed && is_blocking f && (f.code == code)) report.findings
          || any (λ i. i.blocks_completion && (item_code i == code)) bundle.missing_items))
build_readiness_decision-codes bundle report code h =
    let same = codes_of_decision bundle report h in
    (
      rw same (is_unique-from_keys (blocking_codes bundle report)),
      rw (same, contains-from_keys) (codes_of_findings bundle report code),
    )
