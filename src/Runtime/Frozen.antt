-- ===== src/Runtime/Frozen.antt =====
-- What a frozen delivery has.
use proofbid.Prelude.{
  sym, not, ◌||◌, Bool, Bool-cases, Option-cases, ap, arith, false, inl, inr, length, nonempty,
  refl, some, true, ◌≡◌, ◌∙◌, text_eq, nat_eq, list_eq,
}
use proofbid.Errors.{ok, Result-cases}
use proofbid.Contracts.{AnalysisBundle, ReadinessDecision}
use proofbid.Readiness.{ValidationReport, build_readiness_decision}
use proofbid.Bundle.{validate_bundle}
use proofbid.Planning.Spec.{TaskSpec}
use proofbid.Planning.Receipt.{PlanningResult}
use proofbid.Runtime.State.{TerminalStatus, World, TaskRuntime}
use proofbid.Runtime.Evidence.{persist_agent_evidence}
use proofbid.Runtime.Execute.{fatal_codes, render_artifacts}
use proofbid.Runtime.Freeze.{
  catalog_subtotal, Delivery, is_real_receipt, all_bound, marker_hits, freeze_policy, delivery_of,
}
use proofbid.Runtime.Delivery.{start, freeze_delivery}
use proofbid.Runtime.Effects.{status_of}
use proofbid.Runtime.Keeps.{freeze-SameCore}
use proofbid.Runtime.Reach.{Reach, next, freeze}
use proofbid.Runtime.Verdict.{IsConcluded}
use proofbid.Runtime.Ending.{Reach-Sound, Reach-IsConcluded}

ok-injective {ℓ} : {A : Type ℓ} {a b : A} → ok a ≡ ok b → a ≡ b
ok-injective h = cc h

module _ (w : World) where
  -- The tests behind the final rendering, on the delivery that is returned.
  pub record IsFinal (s : TaskRuntime w) (st : TerminalStatus) (d : Delivery w) : Type 0 where
    pub analysis : AnalysisBundle
    pub domain : ValidationReport
    pub report : ValidationReport
    pub stored : s.bundle ≡ some analysis
    pub validated : s.domain_report ≡ some domain
    pub checked : w.validate_artifacts (length s.receipts) analysis d.artifacts ≡ ok report
    pub clean : nonempty (fatal_codes report) ≡ false
    pub unmarked :
        s.require_real_provider_evidence ≡ true
        → nonempty (marker_hits (w.package_members d.artifacts)) ≡ false
    pub decided : build_readiness_decision analysis domain ≡ ok d.readiness
    pub status : d.status ≡ st
    pub calls : d.tool_call_count ≡ length s.receipts

  abbrev delivery_record :
      TaskRuntime w → TerminalStatus → AnalysisBundle → ReadinessDecision → w.Artifacts → Delivery w
  delivery_record s st b c artifacts = record {
    task_id = s.task_spec.task_id;
    status = st;
    readiness = c;
    requirement_count = length b.requirements;
    evidence_count = length b.evidence;
    bom_line_count = length b.bom;
    subtotal = catalog_subtotal b.bom;
    missing_item_count = length b.missing_items;
    render_attempts = s.render_attempts;
    tool_call_count = length s.receipts;
    artifacts = artifacts;
    provider = s.provider_evidence;
  }

  delivery_of-IsFinal :
      (s : TaskRuntime w) (st : TerminalStatus) (artifacts : w.Artifacts) (d : Delivery w)
      → delivery_of s st artifacts ≡ ok d
      → IsFinal s st d
  unfolding delivery_of
  delivery_of-IsFinal s st artifacts d h = elim (Option-cases s.bundle) [
    | inl e ↦ absurd (ground arith)
    | inr (b, e) ↦ elim (Option-cases s.domain_report) [
      | inl f ↦ absurd (ground arith)
      | inr (q, f) ↦ elim (Result-cases (w.validate_artifacts (length s.receipts) b artifacts)) [
        | inr (x, g) ↦ absurd (ground arith)
        | inl (v, g) ↦ elim (Result-cases (build_readiness_decision b q)) [
          | inr (x, k) ↦ absurd (ground arith)
          | inl (c, k) ↦ elim (Bool-cases (nonempty (fatal_codes v))) [
            | inl y ↦ absurd (ground arith)
            | inr y ↦
                elim (Bool-cases (
                  not s.require_real_provider_evidence
                  || not (nonempty (marker_hits (w.package_members artifacts))))) [
                    | inr z ↦ absurd (ground arith)
                    | inl z ↦
                        let computed : delivery_of s st artifacts
                            ≡ ok (delivery_record s st b c artifacts) =
                          simp (e, f, g, k, y, z) in
                        let made = ok-injective (sym h ∙ computed) in
                        rw made (record {
                          analysis = b;
                          domain = q;
                          report = v;
                          stored = e;
                          validated = f;
                          checked = g;
                          clean = y;
                          unmarked = λ real. ground (arith, z);
                          decided = k;
                          status = refl;
                          calls = refl;
                        })
                  ]
          ]
        ]
      ]
    ]
  ]

  -- What stands in front of the final rendering.
  pub record IsReal (s : TaskRuntime w) (st : TerminalStatus) : Type 0 where
    pub ended : s.terminal_status ≡ some st
    pub provider :
        s.require_real_provider_evidence ≡ true → is_real_receipt s.planning_result.receipt ≡ true
    pub bound : s.require_real_provider_evidence ≡ true → all_bound s.receipts ≡ true

  freeze_policy-IsReal :
      (s : TaskRuntime w) (st : TerminalStatus) → freeze_policy s ≡ ok st → IsReal s st
  unfolding freeze_policy
  freeze_policy-IsReal s st h = elim (Option-cases s.terminal_status) [
    | inl e ↦ absurd (ground arith)
    | inr (v, e) ↦ record {
      ended = ground arith;
      provider = λ real. ground arith;
      bound = λ real. ground arith;
    }
  ]

  freeze_delivery_cases :
      (s : TaskRuntime w) (d : Delivery w)
      → (freeze_delivery w s).0 ≡ ok d
      → (st : TerminalStatus) × IsReal s st × IsFinal (freeze_delivery w s).1 st d
  unfolding freeze_delivery
  freeze_delivery_cases s d h = elim (Result-cases (freeze_policy s)) [
    | inr (x, e) ↦ absurd (ground arith)
    | inl (st, e) ↦
        let written = (persist_agent_evidence w s).1 in
        elim (Result-cases (persist_agent_evidence w s).0) [
          | inr (x, f) ↦ absurd (ground arith)
          | inl (u, f) ↦ elim (Result-cases (render_artifacts w written).0) [
            | inr (x, g) ↦ absurd (ground arith)
            | inl (a, g) ↦
                let made = simp (e, f, g) at h in
                (
                  st,
                  freeze_policy-IsReal s st e,
                  rw (e, f, g) (delivery_of-IsFinal (render_artifacts w written).1 st a d made),
                )
          ]
        ]
  ]

  -- A delivery `d` that freezing `s` returned, which left `u`.
  pub record IsFrozen (s u : TaskRuntime w) (d : Delivery w) : Type 0 where
    pub real : IsReal s d.status
    pub final : IsFinal u d.status d
    pub conclusion : IsConcluded u.bundle u.delivery_report d.status
    pub agrees : d.status ≡ status_of d.readiness.ready_for_submission

  -- When the freeze of a run returns a delivery, in whatever way the run was driven, then the run had
  -- ended and, where real evidence is required, has a real provider's receipt and a call id for every
  -- receipt; the delivery's status is "completed" exactly as its readiness, which is decided on the
  -- analysis and its own validation report, is ready for submission; and the final validation of its
  -- artifacts has no fatal finding.
  pub freeze_delivery-IsFrozen :
      (spec : TaskSpec) (planning : PlanningResult) (inject real : Bool) {s : TaskRuntime w}
      (d : Delivery w)
      → Reach w (start w spec planning inject real).1 s
      → (freeze_delivery w s).0 ≡ ok d
      → IsFrozen s (freeze_delivery w s).1 d
  freeze_delivery-IsFrozen spec planning inject real {s} d r h =
      let (st, tests, final) = freeze_delivery_cases s d h in
      let u = (freeze_delivery w s).1 in
      let same = freeze-SameCore w s in
      let ended = same.terminal_status ∙ tests.ended in
      let c = Reach-IsConcluded w spec planning inject real st (next r (freeze refl)) ended in
      let told =
        (Reach-Sound w spec planning inject real (next r (freeze refl))).validation final.domain
          final.validated in
      let one : c.analysis ≡ final.analysis = ground (arith, c.stored, final.stored) in
      let two : told.analysis ≡ final.analysis = ground (arith, told.stored, final.stored) in
      let own : final.domain ≡ validate_bundle final.analysis =
        told.report ∙ ap validate_bundle two in
      let decided = rw one at c.decided in
      let same_ok : build_readiness_decision final.analysis (validate_bundle final.analysis)
          ≡ ok d.readiness =
        rw own at final.decided in
      let agreed : c.decision ≡ d.readiness = ok-injective (sym decided ∙ same_ok) in
      record {
        real = rw final.status tests;
        final = simp final.status final;
        conclusion = rw final.status c;
        agrees = final.status ∙ c.agrees ∙ ap (λ x. status_of x.ready_for_submission) agreed;
      }
