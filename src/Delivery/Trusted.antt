-- ===== src/Delivery/Trusted.antt =====
-- What a delivery is that `validate_artifacts` has passed.
use proofbid.Delivery.Tested.{passes-delivery}
use proofbid.Runtime.Delivery.{start}
use proofbid.Exec.{present}
use proofbid.Bundle.Passing.{all-passes, passes}
use proofbid.Readiness.{ValidationFinding, report_passed, ValidationReport}
use proofbid.Regex.{◌then◌}
use proofbid.Prelude.{
  if◌then◌else◌, list_eq, nat_eq, text_eq, Bool, List, arith, true, ◌++◌, ◌∷◌, ◌≡◌, all, all-append,
  Option, and_true, ap, false, refl, sym, ◌∙◌,
}
use proofbid.Planning.Evidence.{Digests}
use proofbid.Delivery.Sealed.{IsSealed, validate_manifest_and_archive-IsSealed}
use proofbid.Delivery.Planned.{validate_planning_payloads}
use proofbid.Delivery.Paths.{are_delivery_paths, paths_finding}
use proofbid.Delivery.Located.{IsLocated, are_delivery_paths-IsLocated}
use proofbid.Delivery.Declared.{IsOneMode, is_mode_consistent-IsOneMode}
use proofbid.Delivery.Modes.{is_mode_consistent, mode_finding, is_planning_required}
use proofbid.Delivery.Evidenced.{IsEvidenced, traced_events, validate_planning_payloads-IsEvidenced}
use proofbid.Delivery.Content.{validate_json_files}
use proofbid.Delivery.Checks.{
  OfficeChecks, bytes_of, present_findings, required_files, validate_artifacts, first_findings,
  report_if_present,
}
use proofbid.Delivery.Archive.{validate_manifest_and_archive}
use proofbid.Delivery.{ArtifactSet, Library, Storage, is_file}
use proofbid.Contracts.{AnalysisBundle}
use proofbid.Bundle.{validate_bundle}
use proofbid.Errors.{each_ok, ok, Result, found, raised}

pub record IsTrusted (library : Library) (digests : Digests) (bundle : AnalysisBundle)
    (artifacts : ArtifactSet) (storage : Storage) (planning_required : Bool) : Type 0 where
  pub domain : report_passed (validate_bundle bundle) ≡ true
  pub paths : IsLocated library artifacts storage
  pub mode :
      IsOneMode library artifacts storage (if planning_required then "agentic" else "deterministic")
  pub sealed : IsSealed library artifacts storage planning_required
  pub planned :
      planning_required ≡ true
      → IsEvidenced library digests storage bundle (traced_events library artifacts storage)

module _ (library : Library) (digests : Digests) (office : OfficeChecks) (bundle : AnalysisBundle)
    (artifacts : ArtifactSet) (storage : Storage) where
  -- What the checks of the files have found, in parts.
  pub record HasParts (required : Bool) (made : List ValidationFinding) : Type 0 where
    pub workbook : List ValidationFinding
    pub report : List ValidationFinding
    pub planning : List ValidationFinding
    pub planning_made :
        validate_planning_payloads library digests artifacts storage bundle required ≡ ok planning
    pub split :
        mode_finding library artifacts storage required ∷ workbook
          ++ (report
              ++ (validate_json_files library storage bundle
                  ++ (planning
                      ++ validate_manifest_and_archive library artifacts storage required)))
        ≡ made

  pub present_findings-HasParts :
      (required : Bool) (made : List ValidationFinding)
      → present_findings library digests office bundle artifacts storage required ≡ ok made
      → HasParts required made
  unfolding present_findings
  present_findings-HasParts required made h =
      each_ok (HasParts required)
        (office.validate_workbook bundle (bytes_of storage "proofbid.xlsx")) _
        (λ w _.
          each_ok (HasParts required)
            (office.validate_docx bundle (bytes_of storage "proofbid_report.docx")) _
            (λ r _.
              each_ok (HasParts required)
                (validate_planning_payloads library digests artifacts storage bundle required) _
                (λ p e all_made last. record {
                  workbook = w;
                  report = r;
                  planning = p;
                  planning_made = e;
                  split = ground arith;
                })))
        made h

  -- The checks of the files have passed in each of their parts.
  HasParts-passed :
      (required : Bool) (made : List ValidationFinding) (p : HasParts required made)
      → all passes made ≡ true
      → (is_mode_consistent library artifacts storage required ≡ true)
        × (all passes p.planning ≡ true)
        × (all passes (validate_manifest_and_archive library artifacts storage required) ≡ true)
  unfolding mode_finding
  HasParts-passed required made p k =
      let e = simp (passes-delivery, all-append) at (rw (← p.split) at k) in ground (arith, e)

  -- The first findings, and those that follow.
  first_parts :
      (present : Bool)
      → all passes (first_findings library bundle artifacts storage present) ≡ true
      → (report_passed (validate_bundle bundle) ≡ true)
        × (are_delivery_paths library artifacts storage ≡ true)
        × (present ≡ true)
  unfolding paths_finding first_findings
  first_parts present h =
      let e = simp (passes-delivery, all-append) at h in
      let same = all-passes (validate_bundle bundle).findings in ground (arith, e, same)

  IsTrusted-parts :
      (required present : Bool) (made : List ValidationFinding)
      → present_findings library digests office bundle artifacts storage required ≡ ok made
      → all passes (first_findings library bundle artifacts storage present ++ made) ≡ true
      → IsTrusted library digests bundle artifacts storage required
  IsTrusted-parts required present made h passed =
      let first = first_findings library bundle artifacts storage present in
      let whole = rw (all-append passes first made) at passed in
      let (start, rest) = and_true (all passes first) (all passes made) whole in
      let (domain, paths, there) = first_parts present start in
      let parts = present_findings-HasParts required made h in
      let (mode, planning, delivery) = HasParts-passed required made parts rest in
      record {
        domain = domain;
        paths = are_delivery_paths-IsLocated library artifacts storage paths;
        mode = is_mode_consistent-IsOneMode library artifacts storage required mode;
        sealed = validate_manifest_and_archive-IsSealed library artifacts storage required delivery;
        planned = λ needed.
            let p = validate_planning_payloads library digests artifacts storage bundle in
            validate_planning_payloads-IsEvidenced library digests storage bundle artifacts
              parts.planning (ap p (sym needed) ∙ parts.planning_made) planning;
      }

  report_if_present-IsTrusted :
      (required present : Bool) (found : Result (List ValidationFinding))
      (report : ValidationReport)
      → present_findings library digests office bundle artifacts storage required ≡ found
      → report_if_present present (first_findings library bundle artifacts storage present) found
        ≡ ok report
      → report_passed report ≡ true
      → IsTrusted library digests bundle artifacts storage required
  unfolding report_if_present
  report_if_present-IsTrusted required false found report made h passed =
      let first = first_findings library bundle artifacts storage false in
      let same : record { findings = first } ≡ report = ground arith in
      let start = all-passes first in
      let none_missing = first_parts false (sym start ∙ ap report_passed same ∙ passed) in
      absurd (ground arith)
  report_if_present-IsTrusted required true (raised e) report made h passed = absurd (ground arith)
  report_if_present-IsTrusted required true (ok found) report made h passed =
      let all_found = first_findings library bundle artifacts storage true ++ found in
      let same : record { findings = all_found } ≡ report = ground arith in
      IsTrusted-parts required true found made
        (sym (all-passes all_found) ∙ ap report_passed same ∙ passed)

  -- A delivery whose report has passed holds a bundle that has passed its own checks. Its fixed files
  -- and its planning files are no links, nor are those that the manifest lists; the paths that the
  -- caller supplies lead to the fixed names in the root, and further ones to safe names in it. The
  -- caller, the manifest and the result all declare the mode, "agentic" where planning is required
  -- and "deterministic" otherwise, and a trace that is there can be read. The delivery is sealed, and
  -- where planning is required, the planning files that it packages are accepted as evidence that is
  -- bound to the bundle's task, and the trace has exactly two planning events, which start and
  -- complete the planning as the receipt says.
  pub validate_artifacts-IsTrusted :
      (require_planning : Option Bool) (report : ValidationReport)
      → validate_artifacts library digests office bundle artifacts storage require_planning
        ≡ ok report
      → report_passed report ≡ true
      → IsTrusted library digests bundle artifacts storage
          (is_planning_required library artifacts storage require_planning)
  unfolding validate_artifacts
  validate_artifacts-IsTrusted require_planning report h passed =
      let required = is_planning_required library artifacts storage require_planning in
      report_if_present-IsTrusted required (all (is_file storage) required_files)
        (present_findings library digests office bundle artifacts storage required) report refl h
        passed
