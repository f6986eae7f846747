-- ===== src/Delivery/Allowed.antt =====
-- The seal of a delivery whose report has no fatal finding, though requirements may be unresolved.
use proofbid.Delivery.Tested.{passes-delivery}
use proofbid.Readiness.{ValidationFinding, ValidationReport}
use proofbid.Prelude.{
  Bool, List, Option, all, all-append, and_true, ap, arith, false, list_eq, nat_eq, refl, text_eq,
  true, ◌++◌, ◌∙◌, ◌≡◌,
}
use proofbid.Planning.Evidence.{Digests}
use proofbid.Exec.{present}
use proofbid.Delivery.Trusted.{present_findings-HasParts}
use proofbid.Delivery.Strict.{validate_manifest_and_archive-IsStrict}
use proofbid.Delivery.Sealed.{IsSealed, validate_manifest_and_archive-IsSealed}
use proofbid.Delivery.Modes.{is_planning_required}
use proofbid.Delivery.Checks.{
  OfficeChecks, first_findings, present_findings, report_if_present, required_files,
  validate_artifacts,
}
use proofbid.Delivery.Archive.{validate_manifest_and_archive}
use proofbid.Delivery.{ArtifactSet, Library, Storage, is_file}
use proofbid.Contracts.{AnalysisBundle}
use proofbid.Bundle.Expected.{is_allowed}
use proofbid.Errors.{ok, raised, Result, found}

module _ (library : Library) (digests : Digests) (office : OfficeChecks) (bundle : AnalysisBundle)
    (artifacts : ArtifactSet) (storage : Storage) where
  made-IsSealed :
      (required : Bool) (made : List ValidationFinding)
      → present_findings library digests office bundle artifacts storage required ≡ ok made
      → all is_allowed made ≡ true
      → IsSealed library artifacts storage required
  made-IsSealed required made h k =
      let parts =
        present_findings-HasParts library digests office bundle artifacts storage required made h in
      let e = simp all-append at (rw (← parts.split) at k) in
      let delivery = validate_manifest_and_archive library artifacts storage required in
      let allowed : all is_allowed delivery ≡ true = ground (arith, e) in
      validate_manifest_and_archive-IsSealed library artifacts storage required
        ((validate_manifest_and_archive-IsStrict library artifacts storage required).strict allowed)

  -- An absent file is fatal.
  first_present :
      (present : Bool)
      → all is_allowed (first_findings library bundle artifacts storage present) ≡ true
      → present ≡ true
  unfolding first_findings
  first_present present h = let e = simp (passes-delivery, all-append) at h in ground (arith, e)

  report_if_present-IsSealed :
      (required present : Bool) (found : Result (List ValidationFinding))
      (report : ValidationReport)
      → present_findings library digests office bundle artifacts storage required ≡ found
      → report_if_present present (first_findings library bundle artifacts storage present) found
        ≡ ok report
      → all is_allowed report.findings ≡ true
      → IsSealed library artifacts storage required
  unfolding report_if_present
  report_if_present-IsSealed required false found report made h k =
      let first = first_findings library bundle artifacts storage false in
      let same : record { findings = first } ≡ report = ground arith in
      let e = ap (λ (r : ValidationReport). all is_allowed r.findings) same ∙ k in
      let absent = first_present false e in absurd (ground arith)
  report_if_present-IsSealed required true (raised x) report made h k = absurd (ground arith)
  report_if_present-IsSealed required true (ok found) report made h k =
      let first = first_findings library bundle artifacts storage true in
      let same : record { findings = first ++ found } ≡ report = ground arith in
      let e = ap (λ (r : ValidationReport). all is_allowed r.findings) same ∙ k in
      let (_, rest) =
        and_true (all is_allowed first) (all is_allowed found)
          (rw (all-append is_allowed first found) at e) in
      made-IsSealed required found made rest

  -- A delivery whose report fails in nothing but unresolved mandatory requirements is sealed.
  pub validate_artifacts-IsSealed :
      (require_planning : Option Bool) (report : ValidationReport)
      → validate_artifacts library digests office bundle artifacts storage require_planning
        ≡ ok report
      → all is_allowed report.findings ≡ true
      → IsSealed library artifacts storage
          (is_planning_required library artifacts storage require_planning)
  unfolding validate_artifacts
  validate_artifacts-IsSealed require_planning report h k =
      let required = is_planning_required library artifacts storage require_planning in
      report_if_present-IsSealed required (all (is_file storage) required_files)
        (present_findings library digests office bundle artifacts storage required) report refl h k
