-- ===== src/Runtime/Keeps.antt =====
-- The methods that leave the receipts, the analysis and the verdict of a run as they were.
use proofbid.Prelude.{List, [], arith, inl, inr, ◌∷◌, ◌≡◌, text_eq}
use proofbid.Errors.{Result-cases}
use proofbid.Planning.Receipt.{ProviderReceipt, PlanningResult}
use proofbid.Runtime.State.{TraceEvent, World, TaskRuntime}
use proofbid.Runtime.Evidence.{
  persist_agent_evidence, write_planning_payloads, rebind_events, replace_planning_trace,
  planning_trace,
}
use proofbid.Runtime.Execute.{render_artifacts}
use proofbid.Runtime.Freeze.{binding_policy}
use proofbid.Runtime.Delivery.{begin, rebind, bind_real_provider_receipt, freeze_delivery}

module _ (w : World) where
  pub record SameCore (s t : TaskRuntime w) : Type 0 where
    pub receipts : t.receipts ≡ s.receipts
    pub bundle : t.bundle ≡ s.bundle
    pub domain_report : t.domain_report ≡ s.domain_report
    pub delivery_report : t.delivery_report ≡ s.delivery_report
    pub terminal_status : t.terminal_status ≡ s.terminal_status

  pub persist-SameCore : (s : TaskRuntime w) → SameCore s (persist_agent_evidence w s).1
  unfolding persist_agent_evidence
  persist-SameCore s = ground arith

  pub render_artifacts-SameCore : (s : TaskRuntime w) → SameCore s (render_artifacts w s).1
  unfolding render_artifacts
  render_artifacts-SameCore s = ground arith

  write_planning_payloads-SameCore :
      (p : PlanningResult) (s : TaskRuntime w) → SameCore s (write_planning_payloads w p s).1
  unfolding write_planning_payloads
  write_planning_payloads-SameCore p s = ground arith

  rebind_events-SameCore :
      (s : TaskRuntime w) (r : ProviderReceipt) (l : List TraceEvent) (t : TaskRuntime w)
      → SameCore t (rebind_events w s r l t).1
  unfolding rebind_events
  rebind_events-SameCore s r [] t = ground arith
  rebind_events-SameCore s r (e ∷ []) t = ground arith
  rebind_events-SameCore s r (e ∷ f ∷ l) t = ground arith

  replace_planning_trace-SameCore :
      (r : ProviderReceipt) (s : TaskRuntime w) → SameCore s (replace_planning_trace w r s).1
  unfolding replace_planning_trace
  replace_planning_trace-SameCore r s = rebind_events-SameCore s r s.trace s

  pub begin-SameCore : (p : PlanningResult) (s : TaskRuntime w) → SameCore s (begin w p s).1
  unfolding begin
  begin-SameCore p s =
      let written = (write_planning_payloads w p s).1 in
      let traced = record written { trace = planning_trace w written p.receipt } in
      ground (arith, write_planning_payloads-SameCore p s, persist-SameCore traced)

  rebind-SameCore :
      (r : ProviderReceipt) (p : PlanningResult) (s : TaskRuntime w) → SameCore s (rebind w r p s).1
  unfolding rebind
  rebind-SameCore r p s =
      let bound = record s { planning_result = p; provider_evidence = r } in
      let written = (write_planning_payloads w p bound).1 in
      let traced = (replace_planning_trace w r written).1 in
      ground (
        arith,
        write_planning_payloads-SameCore p bound,
        replace_planning_trace-SameCore r written,
        persist-SameCore traced,
      )

  pub bind-SameCore :
      (r : ProviderReceipt) (s : TaskRuntime w) → SameCore s (bind_real_provider_receipt w r s).1
  unfolding bind_real_provider_receipt
  bind-SameCore r s = elim (Result-cases (binding_policy s r)) [
    | inl (p, e) ↦ ground (arith, e, rebind-SameCore r p s)
    | inr (x, e) ↦ ground (arith, e)
  ]

  pub freeze-SameCore : (s : TaskRuntime w) → SameCore s (freeze_delivery w s).1
  unfolding freeze_delivery
  freeze-SameCore s =
      ground (arith, persist-SameCore s, render_artifacts-SameCore (persist_agent_evidence w s).1)
