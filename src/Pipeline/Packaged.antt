-- ===== src/Pipeline/Packaged.antt =====
-- What follows a step of a run that returns, and the package that a run has checked.
use mathlib.Core.Path.{subst}
use proofbid.Readiness.{ValidationReport}
use proofbid.Prelude.{List, String, ap, arith, refl, ◌≡◌, list_eq, nat_eq, text_eq}
use proofbid.Pipeline.Trace.{Trace, stage}
use proofbid.Pipeline.Run.{preview_details, reading, render_with_frozen_trace}
use proofbid.Pipeline.Plant.{Plant, previewed, rendered_package, validated}
use proofbid.Errors.{Result, ok, raised}
use proofbid.Delivery.{ArtifactSet, Storage}
use proofbid.Contracts.{AnalysisBundle}
use proofbid.Exec.{Exec, lift, ◌>>=◌, resume}

resume-ok :
    {A B : Type 0} (made : Result A) (f : A → Exec Trace B) (trace : Trace) (b : B) (after : Trace)
    → resume made f trace ≡ (ok b, after)
    → (a : A) × (made ≡ ok a) × (f a trace ≡ (ok b, after))
resume-ok (ok a) f trace b after h = (a, refl, h)
resume-ok (raised e) f trace b after h = absurd (ground arith)

-- A step that gives what is said of its result and of the trace behind it, where it returns.
pub record Leads {B : Type 0} (P : B → Trace → Type 0) (m : Exec Trace B) (trace : Trace)
    : Type 0 where
  pub leads : (b : B) (after : Trace) → m trace ≡ (ok b, after) → P b after

pub bind-Leads :
    {A B : Type 0} (P : B → Trace → Type 0) (m : Exec Trace A) (f : A → Exec Trace B)
    (trace : Trace)
    → ((a : A) → (m trace).0 ≡ ok a → Leads P (f a) (m trace).1)
    → Leads P (m >>= f) trace
bind-Leads P m f trace next = record {
  leads = λ b after h.
      let (a, made, rest) = resume-ok (m trace).0 f (m trace).1 b after h in
      (next a made).leads b after rest;
}

module _ (plant : Plant) where
  -- The package lies on the whole trace, and the report is on that package.
  pub record IsPackaged (bundle : AnalysisBundle) (supplemental : List String)
      (final : ArtifactSet × ValidationReport) (trace : Trace) : Type 0 where
    pub storage : Storage
    pub rendered_last : rendered_package plant bundle supplemental trace ≡ ok (final.0, storage)
    pub checked : validated plant bundle supplemental (final.0, storage) ≡ ok final.1

  IsPackaged-made :
      (bundle : AnalysisBundle) (supplemental : List String) (made : ArtifactSet × Storage)
      (report : ValidationReport) (trace : Trace)
      → rendered_package plant bundle supplemental trace ≡ ok made
      → validated plant bundle supplemental made ≡ ok report
      → (final : ArtifactSet × ValidationReport) (after : Trace)
      → ◌≡◌ {A = Result (ArtifactSet × ValidationReport) × Trace}
          (ok (made.0, report), trace)
          (ok final, after)
      → IsPackaged bundle supplemental final after
  IsPackaged-made bundle supplemental made report trace made_last checked final after same =
      let trace_same : trace ≡ after = ap (λ x. x.1) same in
      let made_same : ok (made.0, report) ≡ ok final = ap (λ x. x.0) same in
      let final_same : ◌≡◌ {A = ArtifactSet × ValidationReport} (made.0, report) final =
        ground arith in
      subst (λ t. IsPackaged bundle supplemental final t) trace_same
        (subst (λ x. IsPackaged bundle supplemental x trace) final_same
          (record { storage = made.1; rendered_last = made_last; checked = checked }))

  pub render_with_frozen_trace-IsPackaged :
      (bundle : AnalysisBundle) (supplemental : List String) (trace : Trace)
      → Leads
          (IsPackaged bundle supplemental)
          (render_with_frozen_trace plant bundle supplemental)
          trace
  unfolding render_with_frozen_trace
  render_with_frozen_trace-IsPackaged bundle supplemental trace =
      let P = IsPackaged bundle supplemental in
      let again = reading (rendered_package plant bundle supplemental) in
      let preview =
        stage "artifact_validation" (previewed plant bundle supplemental) preview_details in
      bind-Leads P (stage "render" (rendered_package plant bundle supplemental) _) _ trace
        (λ first _. bind-Leads P again _ _ (λ second _. bind-Leads P preview _ _ (λ previewed _.
          bind-Leads P again _ _ (λ made made_last.
            bind-Leads P (lift (validated plant bundle supplemental made)) _ _ (λ report checked.
              record {
                leads = IsPackaged-made bundle supplemental made report _ made_last checked;
              })))))
