-- ===== src/Pipeline/Finished.antt =====
-- What a run of the pipeline has delivered when it returns.
use proofbid.Delivery.Sealed.{IsSealed}
use proofbid.Delivery.Modes.{is_planning_required}
use proofbid.Delivery.Allowed.{validate_artifacts-IsSealed}
use proofbid.Planning.Spec.{TaskSpec}
use proofbid.Planning.Receipt.{PlanningResult}
use proofbid.Readiness.Gate.{blocked_by_items, build_readiness_decision-ready}
use proofbid.Pipeline.{blocking_failures, stop_if}
use proofbid.Bundle.Proof.{IsProved, ready-IsProved}
use proofbid.Bundle.Expected.{is_allowed, is_expected, validate_bundle-IsStrict}
use proofbid.Bundle.{validate_bundle}
use mathlib.Core.Path.{subst}
use proofbid.Readiness.{
  ValidationReport, ValidationFinding, build_readiness_decision, failures, is_blocking,
  report_passed,
}
use proofbid.Prelude.{
  List, String, ap, arith, refl, ◌≡◌, Memᴰ, [], all, false, list_eq, nat_eq, nonempty, text_eq,
  true, ◌==◌, ◌∷◌, Bool-cases, inl, inr, not, select, ◌&&◌, Bool, any, sym, ◌∙◌, Option, some,
}
use proofbid.Pipeline.Trace.{Trace, stage, settled}
use proofbid.Pipeline.Run.{
  render_with_frozen_trace, domain_details, extraction_details, intake_details, matching_details,
  planning_events, run_stages, run_pipeline,
}
use proofbid.Pipeline.Plant.{
  Plant, rendered_package, validated, Approved, outcome_of, PipelineOutcome, outcome_with,
  extraction_of, matched, taken_in, is_other_id, paired, planned_intake, resolved_task_id,
  write_planning_files,
}
use proofbid.Errors.{ok, and_then-ok}
use proofbid.Delivery.{ArtifactSet, Storage}
use proofbid.Contracts.{AnalysisBundle, Requirement, MissingItem, ReadinessDecision, SourceDocument}
use proofbid.Exec.{lift, ◌>>=◌, ◌>>◌, modify}
use proofbid.Pipeline.Packaged.{Leads, bind-Leads, IsPackaged, render_with_frozen_trace-IsPackaged}

module _ (plant : Plant) where
  -- A run that has returned. Its package lies on the whole trace, has passed its checks but for
  -- unresolved mandatory requirements, and is sealed; the readiness is that of its analysis, and the run is
  -- "completed" exactly where it is ready.
  pub record IsFinished (outcome : PipelineOutcome) (trace : Trace) : Type 0 where
    pub bundle : AnalysisBundle
    pub supplemental : List String
    pub storage : Storage
    pub report : ValidationReport
    pub rendered_last :
        rendered_package plant bundle supplemental trace ≡ ok (outcome.artifacts, storage)
    pub checked : validated plant bundle supplemental (outcome.artifacts, storage) ≡ ok report
    pub integrity : nonempty (blocking_failures true report) ≡ false
    pub sealed : IsSealed plant.library outcome.artifacts storage (nonempty supplemental)
    pub decided : build_readiness_decision bundle (validate_bundle bundle) ≡ ok outcome.readiness
    pub ready : outcome.readiness.ready_for_submission ≡ (outcome.status == "completed")
    pub unsent : outcome.readiness.submission_executed ≡ false
    pub locked : outcome.readiness.high_risk_actions_locked ≡ true
    pub proved :
        (r : Requirement)
        → outcome.status ≡ "completed"
        → Memᴰ r bundle.requirements
        → r.mandatory ≡ true
        → IsProved bundle r

  -- Nothing but an unresolved mandatory requirement fails.
  blocking_failures-allowed :
      (fs : List ValidationFinding)
      → nonempty (blocking_failures true (record { findings = fs })) ≡ false
      → all is_allowed fs ≡ true
  unfolding blocking_failures failures is_blocking
  blocking_failures-allowed [] h = refl
  blocking_failures-allowed (f ∷ fs) h = elim (Bool-cases f.passed) [
    | inl p ↦ ground (arith, p, blocking_failures-allowed fs (rw p at h))
    | inr p ↦ elim (Bool-cases (is_blocking f && not (is_expected f))) [
      | inl e ↦ absurd (ground (arith, rw (p, e) at h))
      | inr e ↦ ground (arith, p, e, blocking_failures-allowed fs (rw (p, e) at h))
    ]
  ]

  nonempty-select : {A : Type 0} (p : A → Bool) (xs : List A) → nonempty (select p xs) ≡ any p xs
  nonempty-select p [] = refl
  nonempty-select p (x ∷ xs) = ground (arith, nonempty-select p xs)

  -- The status says "completed" exactly where the decision is ready.
  ready-outcome_with :
      (task_id : String) (approved : Approved) (bundle : AnalysisBundle) (artifacts : ArtifactSet)
      (d : ReadinessDecision)
      → nonempty (blocking_failures true (validate_bundle bundle)) ≡ false
      → d.ready_for_submission
        ≡ (report_passed (validate_bundle bundle) && not (blocked_by_items bundle))
      → d.ready_for_submission
        ≡ ((outcome_with plant task_id approved bundle artifacts d).status == "completed")
  unfolding outcome_with
  ready-outcome_with task_id approved bundle artifacts d domain ready =
      let some_block =
        nonempty-select (λ (i : MissingItem). i.blocks_completion) bundle.missing_items in
      elim (Bool-cases (blocked_by_items bundle)) [
        | inl e ↦ ready ∙ (rw (some_block, e) (ground arith))
        | inr e ↦
            let allowed = blocking_failures-allowed (validate_bundle bundle).findings domain in
            let passed = validate_bundle-IsStrict bundle e allowed in
            ready ∙ (rw (some_block, e, passed) refl)
      ]

  IsPackaged-IsSealed :
      (bundle : AnalysisBundle) (supplemental : List String)
      (final : ArtifactSet × ValidationReport) (trace : Trace)
      (packaged : IsPackaged plant bundle supplemental final trace)
      → nonempty (blocking_failures true final.1) ≡ false
      → IsSealed plant.library final.0 packaged.storage (nonempty supplemental)
  unfolding validated is_planning_required
  IsPackaged-IsSealed bundle supplemental final trace packaged integrity =
      validate_artifacts-IsSealed plant.library plant.digests plant.office bundle final.0
        packaged.storage (some (nonempty supplemental)) final.1 packaged.checked
        (blocking_failures-allowed final.1.findings integrity)

  outcome_with-IsFinished :
      (task_id : String) (approved : Approved) (bundle : AnalysisBundle)
      (supplemental : List String) (final : ArtifactSet × ValidationReport) (trace : Trace)
      → nonempty (blocking_failures true (validate_bundle bundle)) ≡ false
      → IsPackaged plant bundle supplemental final trace
      → nonempty (blocking_failures true final.1) ≡ false
      → (d : ReadinessDecision) → build_readiness_decision bundle (validate_bundle bundle) ≡ ok d
      → IsFinished (outcome_with plant task_id approved bundle final.0 d) trace
  unfolding outcome_with
  outcome_with-IsFinished task_id approved bundle supplemental final trace domain packaged integrity
        d made =
      let (d', made', gate, _, unsent, locked) =
        build_readiness_decision-ready bundle (validate_bundle bundle) in
      let same : d' ≡ d = ground arith in
      let ready =
        ready-outcome_with task_id approved bundle final.0 d domain
          (ap (λ x. x.ready_for_submission) (sym same) ∙ gate) in
      record {
        bundle = bundle;
        supplemental = supplemental;
        storage = packaged.storage;
        report = final.1;
        rendered_last = packaged.rendered_last;
        checked = packaged.checked;
        integrity = integrity;
        sealed = IsPackaged-IsSealed bundle supplemental final trace packaged integrity;
        decided = made;
        ready = ready;
        unsent = ap (λ x. x.submission_executed) (sym same) ∙ unsent;
        locked = ap (λ x. x.high_risk_actions_locked) (sym same) ∙ locked;
        proved = λ r done m mandatory.
            ready-IsProved bundle d r made (ready ∙ ap (λ status. status == "completed") done) m
              mandatory;
      }

  -- The last step of a run.
  outcome_of-IsFinished :
      (task_id : String) (approved : Approved) (bundle : AnalysisBundle)
      (supplemental : List String) (final : ArtifactSet × ValidationReport) (trace : Trace)
      → nonempty (blocking_failures true (validate_bundle bundle)) ≡ false
      → IsPackaged plant bundle supplemental final trace
      → nonempty (blocking_failures true final.1) ≡ false
      → (outcome : PipelineOutcome) (after : Trace)
      → lift (outcome_of plant task_id approved bundle final.0) trace ≡ (ok outcome, after)
      → IsFinished outcome after
  unfolding outcome_of
  outcome_of-IsFinished task_id approved bundle supplemental final trace domain packaged integrity
        outcome after h =
      let made = outcome_with plant task_id approved bundle final.0 in
      let decision = build_readiness_decision bundle (validate_bundle bundle) in
      let trace_same : trace ≡ after = ap (λ x. x.1) h in
      let returned : outcome_of plant task_id approved bundle final.0 ≡ ok outcome =
        ap (λ x. x.0) h in
      let (d, e, last) = and_then-ok decision (λ d. ok (made d)) returned in
      let same : made d ≡ outcome = ground arith in
      subst (λ t. IsFinished outcome t) trace_same
        (subst (λ x. IsFinished x trace) same
          (outcome_with-IsFinished task_id approved bundle supplemental final trace domain packaged
            integrity d e))

  stop_if-ok : (b : Bool) (x : Unit {0}) → stop_if b ≡ ok x → b ≡ false
  stop_if-ok b x h = ground arith

  stages_from :
      (task_id : String) (approved : Approved) (bundle : AnalysisBundle)
      (supplemental : List String) (final : ArtifactSet × ValidationReport) (trace : Trace)
      (domain : nonempty (blocking_failures true (validate_bundle bundle)) ≡ false)
      (packaged : IsPackaged plant bundle supplemental final trace)
      → Leads IsFinished
          (do
            lift (stop_if (nonempty (blocking_failures true final.1)))
            lift (outcome_of plant task_id approved bundle final.0))
          trace
  stages_from task_id approved bundle supplemental final trace domain packaged =
      let fatal = nonempty (blocking_failures true final.1) in
      bind-Leads IsFinished (lift (stop_if fatal)) _ trace (λ z integrity. record {
        leads =
            outcome_of-IsFinished task_id approved bundle supplemental final trace domain packaged
              (stop_if-ok fatal z integrity);
      })

  -- The stages behind the analysis.
  bundle-IsFinished :
      (task_id : String) (approved : Approved) (bundle : AnalysisBundle)
      (supplemental : List String) (report : ValidationReport) (trace : Trace)
      → validate_bundle bundle ≡ report
      → Leads IsFinished
          (do
            lift (stop_if (nonempty (blocking_failures true report)))
            final ← render_with_frozen_trace plant bundle supplemental
            lift (stop_if (nonempty (blocking_failures true final.1)))
            lift (outcome_of plant task_id approved bundle final.0))
          trace
  bundle-IsFinished task_id approved bundle supplemental report trace same =
      let fatal = nonempty (blocking_failures true report) in
      let render = render_with_frozen_trace plant bundle supplemental in
      bind-Leads IsFinished (lift (stop_if fatal)) _ trace (λ y domain.
        bind-Leads IsFinished render _ trace (λ final made.
          stages_from task_id approved bundle supplemental final (render trace).1
            (ap (λ r. nonempty (blocking_failures true r)) same ∙ stop_if-ok fatal y domain)
            ((render_with_frozen_trace-IsPackaged plant bundle supplemental trace).leads final
              (render trace).1 (ap (λ r. (r, (render trace).1)) made))))

  run_stages-IsFinished :
      (task_id : String) (approved : Approved) (planned : Option (List SourceDocument))
      (supplemental : List String) (trace : Trace)
      → Leads IsFinished (run_stages plant task_id approved planned supplemental) trace
  unfolding run_stages stage settled
  run_stages-IsFinished task_id approved planned supplemental trace =
      let first = stage "intake" (λ t. taken_in plant planned) intake_details in
      bind-Leads IsFinished (modify (planning_events approved)) _ trace (λ x _.
        bind-Leads IsFinished first _ _ (λ documents _.
          let second = stage "extraction" (λ t. extraction_of plant documents) extraction_details in
          bind-Leads IsFinished second _ _ (λ extraction _.
            let third =
              stage "matching" (λ t. matched plant task_id documents extraction) matching_details in
            bind-Leads IsFinished third _ _ (λ bundle _.
              let fourth =
                stage "domain_validation" (λ t. ok (validate_bundle bundle)) domain_details in
              bind-Leads IsFinished fourth _ _ (λ report made.
                bundle-IsFinished task_id approved bundle supplemental report _ (ground arith))))))

  -- When a run returns, its package was rendered over the whole trace, and its checks have failed in
  -- nothing but unresolved mandatory requirements, so its manifest, files and archive are sealed. The
  -- readiness is that of its analysis, nothing was submitted or unlocked, the status is "completed"
  -- exactly where the readiness allows submission, and then every mandatory requirement is proved.
  pub run_pipeline-IsFinished :
      (task_id : Option String) (spec : Option TaskSpec) (planning : Option PlanningResult)
      (outcome : PipelineOutcome) (trace : Trace)
      → run_pipeline plant task_id spec planning [] ≡ (ok outcome, trace)
      → IsFinished outcome trace
  unfolding run_pipeline
  run_pipeline-IsFinished task_id spec planning outcome trace h =
      let run : Leads IsFinished (run_pipeline plant task_id spec planning) [] =
        bind-Leads IsFinished (lift (paired spec planning)) _ [] (λ approved _.
          let id = resolved_task_id plant task_id in
          bind-Leads IsFinished (lift (stop_if (is_other_id approved id))) _ [] (λ x _.
            bind-Leads IsFinished (lift (planned_intake plant approved)) _ [] (λ planned _.
              bind-Leads IsFinished (lift plant.prepare_output) _ [] (λ y _.
                bind-Leads IsFinished (lift (write_planning_files plant approved)) _ []
                  (λ supplemental _.
                    run_stages-IsFinished id approved planned supplemental []))))) in
      run.leads outcome trace h
