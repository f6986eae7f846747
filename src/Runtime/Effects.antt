-- ===== src/Runtime/Effects.antt =====
-- What the body of each tool does to the analysis, the reports and the verdict of a run.
use proofbid.Prelude.{
  Bool, List, Option, arith, false, nonempty, none, refl, some, true, ◌&&◌, ◌==◌, ◌≡◌, text_eq, ◌+◌,
  Option-cases, Bool-cases, inl, inr, is_some, length,
}
use proofbid.Errors.{Result, ok, raised, Result-cases}
use proofbid.Contracts.{AnalysisBundle, ReadinessDecision, SourceDocument}
use proofbid.Readiness.{ValidationReport, build_readiness_decision}
use proofbid.Bundle.{validate_bundle}
use proofbid.Runtime.Tool.{
  RuntimeTool, declare_plan, scan_inputs, extract_requirements, load_bidder_evidence,
  load_product_catalog, build_analysis, validate_domain, render_delivery, retry_render,
  validate_delivery, finalize_complete, finalize_blocked, tool_eq,
}
use proofbid.Runtime.State.{Arguments, TerminalStatus, ToolResult, World, TaskRuntime}
use proofbid.Runtime.Evidence.{persist_agent_evidence}
use proofbid.Runtime.Keeps.{SameCore, persist-SameCore, render_artifacts-SameCore}
use proofbid.Runtime.Execute.{
  declare, scan, extract, load_bidder, load_products, analyse, validate, render, produce, deliver,
  conclude, finalize, execute_scanned, execute_found, execute, fatal_codes, strikes,
}

abbrev pub is_ok : Result ToolResult → Bool
is_ok (ok x) = true
is_ok (raised e) = false

-- The terminal status that the branch of a readiness gives.
abbrev pub status_of : Bool → TerminalStatus
status_of true = TerminalStatus.completed
status_of false = TerminalStatus.blocked

-- The two tools that end a run.
abbrev pub is_final : RuntimeTool → Bool
is_final finalize_complete = true
is_final finalize_blocked = true
is_final _ = false

pub final_other :
    (t : RuntimeTool) → is_final t ≡ true → (c : Bool) → ((t == validate_delivery) && c) ≡ false
final_other finalize_complete e c = refl
final_other finalize_blocked e c = refl
final_other validate_delivery e c = absurd (ground arith)
final_other _ e c = absurd (ground (arith, e))

module _ (w : World) where
  pub data Effect (s : TaskRuntime w) (tool : RuntimeTool) (x : Result ToolResult)
      (t : TaskRuntime w) : Type 0 where
    quiet : ((tool == validate_delivery) && is_ok x) ≡ false → SameCore w s t → Effect s tool x t
    analysed :
        (b : AnalysisBundle)
        → tool ≡ build_analysis
        → is_ok x ≡ true
        → t ≡ record s { bundle = some b }
        → Effect s tool x t
    validated :
        (b : AnalysisBundle)
        → tool ≡ validate_domain
        → s.bundle ≡ some b
        → t ≡ record s { domain_report = some (validate_bundle b) }
        → Effect s tool x t
    delivered :
        (r : ValidationReport)
        → tool ≡ validate_delivery
        → (is_ok x && nonempty (fatal_codes r)) ≡ false
        → t ≡ record s { delivery_report = some r }
        → Effect s tool x t
    concluded :
        (b : AnalysisBundle) (r : ValidationReport) (d : ReadinessDecision)
        → is_final tool ≡ true
        → s.bundle ≡ some b
        → s.domain_report ≡ some r
        → build_readiness_decision b r ≡ ok d
        → t ≡ record s { terminal_status = some (status_of d.ready_for_submission) }
        → Effect s tool x t

  declare-Effect : (a : Arguments) (s : TaskRuntime w) → SameCore w s (declare w a s).1
  unfolding declare
  declare-Effect a s = ground arith

  scan-Effect : (s : TaskRuntime w) → SameCore w s (scan w s).1
  unfolding scan
  scan-Effect s = ground arith

  extract-Effect : (d : List SourceDocument) (s : TaskRuntime w) → SameCore w s (extract w d s).1
  unfolding extract
  extract-Effect d s = ground arith

  load_bidder-Effect :
      (d : List SourceDocument) (s : TaskRuntime w) → SameCore w s (load_bidder w d s).1
  unfolding load_bidder
  load_bidder-Effect d s = ground arith

  load_products-Effect :
      (d : List SourceDocument) (s : TaskRuntime w) → SameCore w s (load_products w d s).1
  unfolding load_products
  load_products-Effect d s = ground arith

  produce-Effect : (s : TaskRuntime w) → SameCore w s (produce w s).1
  unfolding produce
  produce-Effect s =
      ground
        (arith, persist-SameCore w s, render_artifacts-SameCore w (persist_agent_evidence w s).1)

  -- The state in which an attempt is made.
  abbrev counted : TaskRuntime w → TaskRuntime w
  counted s = record s { render_attempts = s.render_attempts + 1 }

  SameCore-counted : (s t : TaskRuntime w) → SameCore w (counted s) t → SameCore w s t
  SameCore-counted s t h = record {
    receipts = h.receipts;
    bundle = h.bundle;
    domain_report = h.domain_report;
    delivery_report = h.delivery_report;
    terminal_status = h.terminal_status;
  }

  render-Effect : (t : RuntimeTool) (s : TaskRuntime w) → SameCore w s (render w t s).1
  unfolding render
  render-Effect t s = elim (Bool-cases (is_some s.bundle && is_some s.domain_report)) [
    | inr e ↦ simp e (ground arith)
    | inl e ↦ elim (Bool-cases (strikes w t s)) [
      | inl f ↦ simp (e, f) (ground arith)
      | inr f ↦
          simp (e, f) (SameCore-counted s (produce w (counted s)).1 (produce-Effect (counted s)))
    ]
  ]

  analyse-Effect : (s : TaskRuntime w) → Effect s build_analysis (analyse w s).0 (analyse w s).1
  unfolding analyse
  analyse-Effect s = elim (Option-cases s.extraction) [
    | inl e ↦ quiet refl (ground (arith, e))
    | inr (x, e) ↦ elim (Option-cases s.profile) [
      | inl f ↦ quiet refl (ground (arith, e, f))
      | inr (p, f) ↦ elim (Option-cases s.catalog) [
        | inl g ↦ quiet refl (ground (arith, e, f, g))
        | inr (c, g) ↦ elim (Result-cases (w.build_analysis s.task_spec.task_id x p c)) [
          | inl (b, h) ↦ analysed b refl (ground (arith, e, f, g, h)) (ground (arith, e, f, g, h))
          | inr (y, h) ↦ quiet refl (ground (arith, e, f, g, h))
        ]
      ]
    ]
  ]

  validate-Effect : (s : TaskRuntime w) → Effect s validate_domain (validate w s).0 (validate w s).1
  unfolding validate
  validate-Effect s = elim (Option-cases s.bundle) [
    | inl e ↦ quiet refl (ground (arith, e))
    | inr (b, e) ↦ elim (Result-cases (build_readiness_decision b (validate_bundle b))) [
      | inl (d, h) ↦ validated b refl e (ground (arith, e, h))
      | inr (y, h) ↦ validated b refl e (ground (arith, e, h))
    ]
  ]

  deliver-Effect : (s : TaskRuntime w) → Effect s validate_delivery (deliver w s).0 (deliver w s).1
  unfolding deliver
  deliver-Effect s = elim (Option-cases s.artifacts) [
    | inl e ↦ quiet (ground (arith, e)) (ground (arith, e))
    | inr (x, e) ↦ elim (Option-cases s.bundle) [
      | inl f ↦ quiet (ground (arith, e, f)) (ground (arith, e, f))
      | inr (b, f) ↦ elim (Result-cases (w.validate_artifacts (length s.receipts) b x)) [
        | inr (y, g) ↦ quiet (ground (arith, e, f, g)) (ground (arith, e, f, g))
        | inl (r, g) ↦ delivered r refl (ground (arith, e, f, g)) (ground (arith, e, f, g))
      ]
    ]
  ]

  conclude-Effect :
      (tool : RuntimeTool) (s : TaskRuntime w) (b : AnalysisBundle) (r : ValidationReport)
      (d : ReadinessDecision) (c : Bool)
      → is_final tool ≡ true
      → s.bundle ≡ some b
      → s.domain_report ≡ some r
      → build_readiness_decision b r ≡ ok d
      → Effect s tool (conclude w c d s).0 (conclude w c d s).1
  unfolding conclude
  conclude-Effect tool s b r d true n e f h = elim (Bool-cases d.ready_for_submission) [
    | inl y ↦ concluded b r d n e f h (ground (arith, y))
    | inr y ↦ quiet (final_other tool n _) (ground (arith, y))
  ]
  conclude-Effect tool s b r d false n e f h = elim (Bool-cases d.ready_for_submission) [
    | inl y ↦ quiet (final_other tool n _) (ground (arith, y))
    | inr y ↦ concluded b r d n e f h (ground (arith, y))
  ]

  finalize-conclude :
      (tool : RuntimeTool) (s : TaskRuntime w) (b : AnalysisBundle) (r : ValidationReport)
      (d : ReadinessDecision)
      → s.bundle ≡ some b
      → s.domain_report ≡ some r
      → is_some s.delivery_report ≡ true
      → build_readiness_decision b r ≡ ok d
      → finalize w tool s ≡ conclude w (tool == finalize_complete) d s
  unfolding finalize
  finalize-conclude tool s b r d e f g h = simp (e, f, g, h)

  finalize-Effect :
      (tool : RuntimeTool) (s : TaskRuntime w)
      → is_final tool ≡ true
      → Effect s tool (finalize w tool s).0 (finalize w tool s).1
  unfolding finalize
  finalize-Effect tool s n = elim (Option-cases s.bundle) [
    | inl e ↦ quiet (final_other tool n _) (ground (arith, e))
    | inr (b, e) ↦ elim (Option-cases s.domain_report) [
      | inl f ↦ quiet (final_other tool n _) (ground (arith, e, f))
      | inr (r, f) ↦ elim (Bool-cases (is_some s.delivery_report)) [
        | inr g ↦ quiet (final_other tool n _) (ground (arith, e, f, g))
        | inl g ↦ elim (Result-cases (build_readiness_decision b r)) [
          | inr (y, h) ↦ quiet (final_other tool n _) (ground (arith, e, f, g, h))
          | inl (d, h) ↦
              rw (finalize-conclude tool s b r d e f g h)
                (conclude-Effect tool s b r d (tool == finalize_complete) n e f h)
        ]
      ]
    ]
  ]

  execute_scanned-Effect :
      (t : RuntimeTool) (d : List SourceDocument) (s : TaskRuntime w)
      → Effect s t (execute_scanned w t d s).0 (execute_scanned w t d s).1
  unfolding execute_scanned
  execute_scanned-Effect declare_plan d s = quiet refl (ground arith)
  execute_scanned-Effect scan_inputs d s = quiet refl (ground arith)
  execute_scanned-Effect extract_requirements d s = quiet refl (extract-Effect d s)
  execute_scanned-Effect load_bidder_evidence d s = quiet refl (load_bidder-Effect d s)
  execute_scanned-Effect load_product_catalog d s = quiet refl (load_products-Effect d s)
  execute_scanned-Effect build_analysis d s = analyse-Effect s
  execute_scanned-Effect validate_domain d s = validate-Effect s
  execute_scanned-Effect render_delivery d s = quiet refl (render-Effect render_delivery s)
  execute_scanned-Effect retry_render d s = quiet refl (render-Effect retry_render s)
  execute_scanned-Effect validate_delivery d s = deliver-Effect s
  execute_scanned-Effect finalize_complete d s = finalize-Effect finalize_complete s refl
  execute_scanned-Effect finalize_blocked d s = finalize-Effect finalize_blocked s refl

  execute_found-Effect :
      (t : RuntimeTool) (o : Option (List SourceDocument)) (s : TaskRuntime w)
      → Effect s t (execute_found w t o s).0 (execute_found w t o s).1
  unfolding execute_found
  execute_found-Effect t none s = quiet (ground arith) (ground arith)
  execute_found-Effect t (some d) s = execute_scanned-Effect t d s

  pub execute-Effect :
      (t : RuntimeTool) (a : Arguments) (s : TaskRuntime w)
      → Effect s t (execute w t a s).0 (execute w t a s).1
  unfolding execute
  execute-Effect declare_plan a s = quiet refl (declare-Effect a s)
  execute-Effect scan_inputs a s = quiet refl (scan-Effect s)
  execute-Effect t a s = execute_found-Effect _ s.documents s
