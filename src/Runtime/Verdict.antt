-- ===== src/Runtime/Verdict.antt =====
-- What a run has established when it ends: the analysis, the reports and the readiness it ends with.
use proofbid.Prelude.{
  List, Option, any, arith, any-append, false, is_some, nonempty, some, true, ◌++◌, ◌||◌, ◌&&◌,
  ◌==◌, ◌∷◌, [], ◌≡◌, none, text_eq, nat_eq, list_eq, inl, inr, refl, Option-cases, ◌∙◌, ap,
}
use proofbid.Errors.{Result, ok, raised, recoverable_render}
use proofbid.Contracts.{AnalysisBundle, ReadinessDecision}
use proofbid.Readiness.{ValidationReport, build_readiness_decision}
use proofbid.Bundle.{validate_bundle}
use proofbid.Runtime.Tool.{RuntimeTool, build_analysis, validate_delivery, tool_eq}
use proofbid.Runtime.State.{TerminalStatus, ToolCallReceipt, ToolResult, World}
use proofbid.Runtime.Execute.{fatal_codes}
use proofbid.Runtime.Policy.{completes}
use proofbid.Runtime.Invoke.{outcome_status}
use proofbid.Runtime.Effects.{is_ok, status_of}

-- A validation of the delivery without a fatal finding.
pub record IsDelivered (delivery : Option ValidationReport) : Type 0 where
  pub report : ValidationReport
  pub stored : delivery ≡ some report
  pub clean : nonempty (fatal_codes report) ≡ false

-- The report is the one of the bundle.
pub record IsValidated (bundle : Option AnalysisBundle) (r : ValidationReport) : Type 0 where
  pub analysis : AnalysisBundle
  pub stored : bundle ≡ some analysis
  pub report : r ≡ validate_bundle analysis

-- The run ended as the readiness of its own analysis and report says, and its delivery was clean.
pub record IsConcluded (bundle : Option AnalysisBundle) (delivery : Option ValidationReport)
    (st : TerminalStatus) : Type 0 where
  pub analysis : AnalysisBundle
  pub stored : bundle ≡ some analysis
  pub decision : ReadinessDecision
  pub decided : build_readiness_decision analysis (validate_bundle analysis) ≡ ok decision
  pub agrees : st ≡ status_of decision.ready_for_submission
  pub checked : IsDelivered delivery

pub record IsSound (receipts : List ToolCallReceipt) (bundle : Option AnalysisBundle)
    (report delivery : Option ValidationReport) (terminal : Option TerminalStatus) : Type 0 where
  pub analysed_once : is_some bundle ≡ true → any (completes build_analysis) receipts ≡ true
  pub validation : (r : ValidationReport) → report ≡ some r → IsValidated bundle r
  pub delivery_checked : any (completes validate_delivery) receipts ≡ true → IsDelivered delivery
  pub finished : is_some terminal ≡ true → any (completes validate_delivery) receipts ≡ true
  pub conclusion : (st : TerminalStatus) → terminal ≡ some st → IsConcluded bundle delivery st

any_snoc :
    (t : RuntimeTool) (rs : List ToolCallReceipt) (r : ToolCallReceipt)
    → any (completes t) (rs ++ r ∷ []) ≡ (any (completes t) rs || completes t r)
any_snoc t rs r = ground (arith, any-append (completes t) rs (r ∷ []))

-- One more receipt, and what the body of its tool may have changed.
module _ {rs : List ToolCallReceipt} {b : Option AnalysisBundle} {rep del : Option ValidationReport}
    {term : Option TerminalStatus} (h : IsSound rs b rep del term) (r : ToolCallReceipt) where
  analysed_later : is_some b ≡ true → any (completes build_analysis) (rs ++ r ∷ []) ≡ true
  analysed_later e = rw (any_snoc build_analysis rs r) (ground (arith, h.analysed_once e))

  finished_later : is_some term ≡ true → any (completes validate_delivery) (rs ++ r ∷ []) ≡ true
  finished_later e = rw (any_snoc validate_delivery rs r) (ground (arith, h.finished e))

  IsDelivered-later :
      completes validate_delivery r ≡ false
      → any (completes validate_delivery) (rs ++ r ∷ []) ≡ true
      → IsDelivered del
  IsDelivered-later c e =
      let e' = rw (any_snoc validate_delivery rs r, c) at e in
      h.delivery_checked (ground (arith, e'))

  pub IsSound-quiet : completes validate_delivery r ≡ false → IsSound (rs ++ r ∷ []) b rep del term
  IsSound-quiet c = record {
    analysed_once = analysed_later;
    validation = h.validation;
    delivery_checked = IsDelivered-later c;
    finished = finished_later;
    conclusion = h.conclusion;
  }

  -- Nothing was analysed before, so nothing was validated.
  unvalidated :
      b ≡ none
      → (v : ValidationReport) → rep ≡ some v
      → (c : Option AnalysisBundle) → IsValidated c v
  unvalidated e v f c = let o = h.validation v f in absurd (ground (arith, e, o.stored))

  pub IsSound-analysed :
      (new : AnalysisBundle)
      → term ≡ none
      → any (completes build_analysis) rs ≡ false
      → completes validate_delivery r ≡ false
      → completes build_analysis r ≡ true
      → IsSound (rs ++ r ∷ []) (some new) rep del term
  IsSound-analysed new unended first c d =
      let none_yet : b ≡ none = elim (Option-cases b) [
        | inl e ↦ e
        | inr (x, e) ↦ absurd (ground (arith, h.analysed_once (rw e refl)))
      ] in
      record {
        analysed_once = λ _. rw (any_snoc build_analysis rs r) (ground (arith, d));
        validation = λ v f. unvalidated none_yet v f (some new);
        delivery_checked = IsDelivered-later c;
        finished = finished_later;
        conclusion = λ st e. absurd (ground (arith, unended));
      }

  pub IsSound-validated :
      (new : AnalysisBundle)
      → b ≡ some new
      → completes validate_delivery r ≡ false
      → IsSound (rs ++ r ∷ []) b (some (validate_bundle new)) del term
  IsSound-validated new e c = record {
    analysed_once = analysed_later;
    validation = λ v f. record { analysis = new; stored = e; report = ground (arith, f) };
    delivery_checked = IsDelivered-later c;
    finished = finished_later;
    conclusion = h.conclusion;
  }

  pub IsSound-delivered :
      (v : ValidationReport)
      → term ≡ none
      → any (completes validate_delivery) rs ≡ false
      → (completes validate_delivery r && nonempty (fatal_codes v)) ≡ false
      → IsSound (rs ++ r ∷ []) b rep (some v) term
  IsSound-delivered v unended first c = record {
    analysed_once = analysed_later;
    validation = h.validation;
    delivery_checked = λ e. record {
      report = v;
      stored = refl;
      clean = ground (arith, first, rw (any_snoc validate_delivery rs r) at e);
    };
    finished = finished_later;
    conclusion = λ st e. absurd (ground (arith, unended));
  }

  pub IsSound-concluded :
      (a : AnalysisBundle) (v : ValidationReport) (d : ReadinessDecision)
      → completes validate_delivery r ≡ false
      → b ≡ some a
      → rep ≡ some v
      → build_readiness_decision a v ≡ ok d
      → any (completes validate_delivery) rs ≡ true
      → IsSound (rs ++ r ∷ []) b rep del (some (status_of d.ready_for_submission))
  IsSound-concluded a v d c e f g y =
      let o = h.validation v f in
      let own : v ≡ validate_bundle a =
        o.report ∙ ap validate_bundle (ground (arith, e, o.stored)) in
      record {
        analysed_once = analysed_later;
        validation = h.validation;
        delivery_checked = IsDelivered-later c;
        finished = λ _. rw (any_snoc validate_delivery rs r) (ground (arith, y));
        conclusion = λ st k. record {
          analysis = a;
          stored = e;
          decision = d;
          decided = rw own at g;
          agrees = ground (arith, k);
          checked = h.delivery_checked y;
        };
      }

-- A receipt completes a tool when it is that tool's, and its body returned.
pub completes_of :
    (w : World) (tool t : RuntimeTool) (x : Result ToolResult) (r : ToolCallReceipt)
    → r.tool ≡ tool
    → r.status ≡ outcome_status w x
    → completes t r ≡ ((tool == t) && is_ok x)
unfolding completes
completes_of w tool t (ok x) r n o = rw (n, o) refl
completes_of w tool t (raised recoverable_render) r n o = rw (n, o) refl
completes_of w tool t (raised _) r n o = rw (n, o) refl
