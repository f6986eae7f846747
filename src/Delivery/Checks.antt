-- ===== src/Delivery/Checks.antt =====
-- validators.py: `validate_artifacts`. The checks of the workbook and of the report stand for what
-- `_validate_workbook` and `_validate_docx` find, and are parameters.
use proofbid.Readiness.{ValidationFinding, ValidationReport}
use proofbid.Prelude.{Bool, List, Option, String, [], all, none, some, ◌++◌, ◌∷◌, false, true}
use proofbid.Planning.Evidence.{Digests}
use proofbid.Exec.{present}
use proofbid.Delivery.Planned.{validate_planning_payloads}
use proofbid.Delivery.Paths.{paths_finding}
use proofbid.Delivery.Modes.{is_planning_required, mode_finding}
use proofbid.Delivery.Content.{validate_json_files}
use proofbid.Delivery.Archive.{validate_manifest_and_archive}
use proofbid.Delivery.{
  ArtifactSet, Library, Storage, archive_name, core_names, delivery_finding, is_file, manifest_name,
  Bytes,
}
use proofbid.Contracts.{AnalysisBundle}
use proofbid.Bundle.{validate_bundle}
use proofbid.Errors.{◌>>=◌, Result, found, ok}

pub record OfficeChecks : Type 0 where
  pub validate_workbook : AnalysisBundle → Bytes → Result (List ValidationFinding)
  pub validate_docx : AnalysisBundle → Bytes → Result (List ValidationFinding)

-- A file that `ARTIFACT_FILES_PRESENT` has found.
unfoldable pub bytes_of : Storage → String → Bytes
bytes_of storage name = elim (storage.file name) [ none ↦ [] | some bytes ↦ bytes ]

abbrev pub required_files : List String
required_files = core_names ++ manifest_name ∷ archive_name ∷ []

-- What is found once all files are there.
unfoldable pub present_findings :
    Library
    → Digests
    → OfficeChecks
    → AnalysisBundle
    → ArtifactSet
    → Storage
    → Bool
    → Result (List ValidationFinding)
present_findings library digests office bundle artifacts storage planning_required = do
  workbook ← office.validate_workbook bundle (bytes_of storage "proofbid.xlsx")
  report ← office.validate_docx bundle (bytes_of storage "proofbid_report.docx")
  planning ← validate_planning_payloads library digests artifacts storage bundle planning_required
  ok (
      mode_finding library artifacts storage planning_required ∷ workbook
      ++ (report
          ++ (validate_json_files library storage bundle
              ++ (planning
                  ++ validate_manifest_and_archive library artifacts storage planning_required))))

-- What is found before the files are opened.
unfoldable pub first_findings :
    Library → AnalysisBundle → ArtifactSet → Storage → Bool → List ValidationFinding
first_findings library bundle artifacts storage present =
    (validate_bundle bundle).findings
    ++ paths_finding library artifacts storage
      ∷ delivery_finding "artifacts" "blocker" "ARTIFACT_FILES_PRESENT" present
      ∷ []

-- `if missing: return`
unfoldable pub report_if_present :
    Bool → List ValidationFinding → Result (List ValidationFinding) → Result ValidationReport
report_if_present false first rest = ok (record { findings = first })
report_if_present true first rest = do found ← rest; ok (record { findings = first ++ found })

unfoldable pub validate_artifacts :
    Library
    → Digests
    → OfficeChecks
    → AnalysisBundle
    → ArtifactSet
    → Storage
    → Option Bool
    → Result ValidationReport
validate_artifacts library digests office bundle artifacts storage require_planning =
    let present = all (is_file storage) required_files in
    let required = is_planning_required library artifacts storage require_planning in
    report_if_present present (first_findings library bundle artifacts storage present)
      (present_findings library digests office bundle artifacts storage required)
