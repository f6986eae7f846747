-- ===== src/Pipeline/Recorded.antt =====
-- How the trace of a run of the pipeline records its stages.
use proofbid.Planning.Spec.{TaskSpec}
use proofbid.Planning.Receipt.{PlanningResult}
use proofbid.Pipeline.{blocking_failures, stop_if}
use proofbid.Contracts.{AnalysisBundle, SourceDocument}
use proofbid.Bundle.{validate_bundle}
use proofbid.Prelude.{
  Bool, List, String, [], arith, eqb_refl, false, length, list_eq, nat_eq, none, refl, some,
  text_eq, true, ℕ, ◌&&◌, ◌++◌, ◌+◌, ◌==◌, ◌||◌, ◌∷◌, ◌≡◌, Option, nonempty,
}
use proofbid.Pipeline.Trace.{Event, Trace, local_actor, record_event, settled, stage, started}
use proofbid.Pipeline.Run.{
  planning_events, reading, domain_details, extraction_details, intake_details, matching_details,
  preview_details, render_with_frozen_trace, run_stages, run_pipeline,
}
use proofbid.Pipeline.Plant.{
  Approved, Plant, extraction_of, matched, outcome_of, previewed, rendered_package, taken_in,
  validated, is_other_id, planned_intake, resolved_task_id, write_planning_files, paired,
}
use proofbid.Loading.{Json}
use proofbid.Errors.{Result, ok, raised}
use proofbid.Exec.{Exec, lift, ◌>>=◌, resume, modify}

-- An event that ends the stage which another one has started.
abbrev pub is_ending : Event → Event → Bool
is_ending a b =
    a.status == "started" && b.step == a.step && (b.status == "completed" || b.status == "failed")

-- Each event that starts a stage stands directly before the one that ends it.
unfoldable pub is_paired : Trace → Bool
is_paired [] = true
is_paired (a ∷ []) = false
is_paired (a ∷ b ∷ events) = is_ending a b && is_paired events

unfoldable pub is_numbered : ℕ → Trace → Bool
is_numbered n [] = true
is_numbered n (e ∷ events) = e.sequence == n && is_numbered (n + 1) events

pub record IsRecorded (trace : Trace) : Type 0 where
  pub paired : is_paired trace ≡ true
  pub numbered : is_numbered 1 trace ≡ true

is_numbered-append :
    (n : ℕ) (trace : Trace) (e : Event)
    → is_numbered n trace ≡ true
    → e.sequence ≡ length trace + n
    → is_numbered n (trace ++ e ∷ []) ≡ true
unfolding is_numbered
is_numbered-append n [] e h k = ground arith
is_numbered-append n (x ∷ trace) e h k =
    ground (arith, is_numbered-append (n + 1) trace e (ground arith) (ground arith))

is_paired-append :
    (trace : Trace) (a b : Event)
    → is_paired trace ≡ true
    → is_ending a b ≡ true
    → is_paired ((trace ++ a ∷ []) ++ b ∷ []) ≡ true
unfolding is_paired
is_paired-append [] a b h k = ground arith
is_paired-append (x ∷ []) a b h k = absurd (ground arith)
is_paired-append (x ∷ y ∷ trace) a b h k =
    ground (arith, is_paired-append trace a b (ground arith) k)

-- Two events that are written one after the other.
IsRecorded-two :
    (trace : Trace) (step actor status : String) (first second : List (String × Json))
    → (status == "completed" || status == "failed") ≡ true
    → IsRecorded trace
    → IsRecorded
        (record_event step actor status second (record_event step actor "started" first trace))
unfolding record_event
IsRecorded-two trace step actor status first second s h =
    let a : Event = record {
      sequence = length trace + 1;
      step = step;
      actor = actor;
      status = "started";
      details = first;
    } in
    let one = is_numbered-append 1 trace a h.numbered refl in
    let b : Event = record {
      sequence = length (trace ++ a ∷ []) + 1;
      step = step;
      actor = actor;
      status = status;
      details = second;
    } in
    record {
      paired = is_paired-append trace a b h.paired (rw (eqb_refl step) s);
      numbered = is_numbered-append 1 (trace ++ a ∷ []) b one refl;
    }

-- A step of a run that keeps the trace recorded, whatever comes of it.
record Keeps {A : Type 0} (m : Exec Trace A) : Type 0 where
  keeps : (trace : Trace) → IsRecorded trace → IsRecorded (m trace).1

settled-IsRecorded :
    {A : Type 0} (step : String) (details : A → List (String × Json)) (trace : Trace)
    (made : Result A)
    → IsRecorded trace
    → IsRecorded (settled step details (started step trace) made).1
unfolding settled
settled-IsRecorded step details trace (ok a) h =
    IsRecorded-two trace step local_actor "completed" [] (details a) refl h
settled-IsRecorded step details trace (raised e) h =
    IsRecorded-two trace step local_actor "failed" [] [] refl h

stage-Keeps :
    {A : Type 0} (step : String) (work : Trace → Result A) (details : A → List (String × Json))
    → Keeps (stage step work details)
unfolding stage
stage-Keeps step work details = record {
  keeps = λ trace h. settled-IsRecorded step details trace (work (started step trace)) h;
}

resume-IsRecorded :
    {A B : Type 0} (made : Result A) (f : A → Exec Trace B) (trace : Trace)
    → ((a : A) → Keeps (f a))
    → IsRecorded trace
    → IsRecorded (resume made f trace).1
resume-IsRecorded (ok a) f trace k h = (k a).keeps trace h
resume-IsRecorded (raised e) f trace k h = h

bind-Keeps :
    {A B : Type 0} (m : Exec Trace A) (f : A → Exec Trace B)
    → Keeps m
    → ((a : A) → Keeps (f a))
    → Keeps (m >>= f)
bind-Keeps m f h k = record {
  keeps = λ trace r. resume-IsRecorded (m trace).0 f (m trace).1 k (h.keeps trace r);
}

lift-Keeps : {A : Type 0} (r : Result A) → Keeps (lift r)
lift-Keeps r = record { keeps = λ trace h. h }

reading-Keeps : {A : Type 0} (work : Trace → Result A) → Keeps (reading work)
reading-Keeps work = record { keeps = λ trace h. h }

module _ (plant : Plant) where
  planning_events-IsRecorded :
      (approved : Approved) (trace : Trace)
      → IsRecorded trace
      → IsRecorded (planning_events approved trace)
  unfolding planning_events
  planning_events-IsRecorded none trace h = h
  planning_events-IsRecorded (some (spec, planning)) trace h =
      IsRecorded-two trace "planning" planning.receipt.provider "completed" _ _ refl h

  render_with_frozen_trace-Keeps :
      (bundle : AnalysisBundle) (supplemental : List String)
      → Keeps (render_with_frozen_trace plant bundle supplemental)
  unfolding render_with_frozen_trace
  render_with_frozen_trace-Keeps bundle supplemental =
      let again = reading (rendered_package plant bundle supplemental) in
      bind-Keeps (stage "render" (rendered_package plant bundle supplemental) _) _
        (stage-Keeps "render" (rendered_package plant bundle supplemental) _)
        (λ first.
          bind-Keeps again _ (reading-Keeps (rendered_package plant bundle supplemental)) (λ second.
            bind-Keeps
              (stage "artifact_validation" (previewed plant bundle supplemental) preview_details) _
              (stage-Keeps "artifact_validation" (previewed plant bundle supplemental)
                preview_details)
              (λ preview.
                bind-Keeps again _ (reading-Keeps (rendered_package plant bundle supplemental))
                  (λ made.
                    bind-Keeps (lift (validated plant bundle supplemental made)) _
                      (lift-Keeps (validated plant bundle supplemental made))
                      (λ report. record { keeps = λ trace h. h })))))

  run_stages-Keeps :
      (task_id : String) (approved : Approved) (planned : Option (List SourceDocument))
      (supplemental : List String)
      → Keeps (run_stages plant task_id approved planned supplemental)
  unfolding run_stages
  run_stages-Keeps task_id approved planned supplemental =
      bind-Keeps (modify (planning_events approved)) _
        (record { keeps = planning_events-IsRecorded approved })
        (λ x.
          bind-Keeps (stage "intake" (λ t. taken_in plant planned) intake_details) _
            (stage-Keeps "intake" (λ t. taken_in plant planned) intake_details)
            (λ documents.
              bind-Keeps
                (stage "extraction" (λ t. extraction_of plant documents) extraction_details) _
                (stage-Keeps "extraction" (λ t. extraction_of plant documents) extraction_details)
                (λ extraction.
                  bind-Keeps
                    (stage "matching" (λ t. matched plant task_id documents extraction)
                      matching_details)
                    _
                    (stage-Keeps "matching" (λ t. matched plant task_id documents extraction)
                      matching_details)
                    (λ bundle.
                      bind-Keeps
                        (stage "domain_validation" (λ t. ok (validate_bundle bundle))
                          domain_details)
                        _
                        (stage-Keeps "domain_validation" (λ t. ok (validate_bundle bundle))
                          domain_details)
                        (λ report.
                          bind-Keeps (lift (stop_if (nonempty (blocking_failures true report)))) _
                            (lift-Keeps (stop_if (nonempty (blocking_failures true report))))
                            (λ y.
                              bind-Keeps (render_with_frozen_trace plant bundle supplemental) _
                                (render_with_frozen_trace-Keeps bundle supplemental)
                                (λ final.
                                  bind-Keeps
                                    (lift (stop_if (nonempty (blocking_failures true final.1)))) _
                                    (lift-Keeps
                                      (stop_if (nonempty (blocking_failures true final.1))))
                                    (λ z.
                                      lift-Keeps
                                        (outcome_of plant task_id approved bundle final.0)))))))))

  -- However a run ends, whether it returns or raises, and wherever: the events of its trace are
  -- numbered from 1 on, and each event that starts a stage, or the planning, stands directly before one
  -- of the same step that records it as completed or failed.
  pub run_pipeline-IsRecorded :
      (task_id : Option String) (spec : Option TaskSpec) (planning : Option PlanningResult)
      → IsRecorded (run_pipeline plant task_id spec planning []).1
  unfolding run_pipeline is_paired is_numbered
  run_pipeline-IsRecorded task_id spec planning =
      let kept : Keeps (run_pipeline plant task_id spec planning) =
        bind-Keeps (lift (paired spec planning)) _ (lift-Keeps (paired spec planning)) (λ approved.
          let id = resolved_task_id plant task_id in
          bind-Keeps (lift (stop_if (is_other_id approved id))) _
            (lift-Keeps (stop_if (is_other_id approved id)))
            (λ x.
              bind-Keeps (lift (planned_intake plant approved)) _
                (lift-Keeps (planned_intake plant approved))
                (λ planned.
                  bind-Keeps (lift plant.prepare_output) _ (lift-Keeps plant.prepare_output) (λ y.
                    bind-Keeps (lift (write_planning_files plant approved)) _
                      (lift-Keeps (write_planning_files plant approved))
                      (run_stages-Keeps id approved planned))))) in
      kept.keeps [] (record { paired = refl; numbered = refl })
