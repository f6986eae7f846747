-- ===== src/Delivery/Planned.antt =====
-- validators.py: the planning evidence of a delivery, and its bond with the trace.
use proofbid.Delivery.Traced.{is_traced}
use proofbid.Regex.{◌then◌}
use proofbid.Readiness.{ValidationFinding}
use proofbid.Planning.Spec.{TaskSpec}
use proofbid.Planning.Receipt.{PlanningResult}
use proofbid.Planning.Evidence.{Digests, validate_planning_evidence}
use proofbid.Loading.{Json, array}
use proofbid.Json.{is_string, list_of, member}
use proofbid.Delivery.Modes.{delivery_trace_state, manifest_names, names_or_empty}
use proofbid.Delivery.{
  ArtifactSet, Library, Storage, Supplied, and_then_option, delivery_finding, entries_or_empty,
  entry_names, is_file, is_planning_key, load_json, load_object, manifest_name, planning_names,
  result_name, scalar,
}
use Prim.Native.Char.{code}
use proofbid.Contracts.{number, flag, AnalysisBundle}
use proofbid.Prelude.{
  bool_eq, text_eq, Bool, List, Option, String, [], all, any, codes, false, if◌then◌else◌, is_some,
  is_subset, list_eq, map, nat_eq, none, nonempty, not, some, true, ◌&&◌, ◌++◌, ◌==◌, ◌||◌, ◌∷◌,
}
use proofbid.Errors.{◌>>=◌, Result, found, ok, raised, plan_validation, plain_failure}

abbrev pub planning_finding : String → Bool → ValidationFinding
planning_finding code passed = delivery_finding "planning" "blocker" code passed

-- The findings that follow the check of the evidence.
unfoldable pub bound_findings :
    Library → Storage → AnalysisBundle → List Json → Option PlanningResult → List ValidationFinding
bound_findings library storage bundle events result =
    planning_finding "PLANNING_EVIDENCE_BINDING" (is_some result)
    ∷ planning_finding "PLANNING_RESULT_TASK_BINDING" (
        is_string bundle.task_id
          (and_then_option (load_object library storage result_name) (member "task_id")))
    ∷ planning_finding "PLANNING_TRACE_TASK_BINDING"
        (nonempty events && all (λ e. is_string bundle.task_id (member "task_id" e)) events)
    ∷ planning_finding "PLANNING_TRACE_RECEIPT_BINDING" (is_traced result events)
    ∷ []

-- `except PlanValidationError`
unfoldable pub accepted_result : Result (TaskSpec × PlanningResult) → Result (Option PlanningResult)
accepted_result (ok (spec, result)) = ok (some result)
accepted_result (raised (plan_validation codes)) = ok none
accepted_result (raised e) = raised e

-- The three payloads, where each of them can be parsed.
unfoldable pub planning_payloads : Library → Storage → Option (Json × Json × Json)
planning_payloads library storage =
    and_then_option (load_json library storage "task_spec.json") (λ t.
      and_then_option (load_json library storage "execution_plan.json") (λ p.
        and_then_option (load_json library storage "planner_receipt.json") (λ r. some (t, p, r))))

unfoldable pub evidence_findings_of :
    Library
    → Digests
    → Storage
    → AnalysisBundle
    → List Json
    → Option (Json × Json × Json)
    → Result (List ValidationFinding)
evidence_findings_of library digests storage bundle events none =
    ok (planning_finding "PLANNING_EVIDENCE_BINDING" false ∷ [])
evidence_findings_of library digests storage bundle events (some (t, p, r)) = do
  result ← accepted_result (validate_planning_evidence digests t p r (some bundle.task_id))
  ok (bound_findings library storage bundle events result)

-- What a loop over `manifest.get("files") or ()` runs through; only objects are looked at. A loop
-- over a number is a `TypeError`.
unfoldable pub looped_entries : Option Json → Result (List Json)
looped_entries (some (array xs)) = ok (list_of xs)
looped_entries (some (scalar (number value shown))) =
    if value.digits == 0 then ok [] else raised (plain_failure "TypeError")
looped_entries (some (scalar (flag true))) = raised (plain_failure "TypeError")
looped_entries _ = ok []

unfoldable pub has_planning_trail : Library → ArtifactSet → Storage → List String → Bool
has_planning_trail library artifacts storage manifest_names =
    let supplemental = map (λ (s : Supplied). s.raw_name) artifacts.supplemental_payloads in
    any (is_file storage) planning_names
    || any (is_planning_key library)
        (supplemental ++ manifest_names ++ names_or_empty storage.listing)
    || (delivery_trace_state library artifacts storage manifest_names).has_planning

-- The evidence is looked at where all its files are there.
unfoldable pub files_findings :
    Bool → ValidationFinding → Result (List ValidationFinding) → Result (List ValidationFinding)
files_findings false declared rest =
    ok (declared ∷ planning_finding "PLANNING_EVIDENCE_FILES" false ∷ [])
files_findings true declared rest = do
  found ← rest
  ok (declared ∷ planning_finding "PLANNING_EVIDENCE_FILES" true ∷ found)

unfoldable pub planned_findings :
    Library
    → Digests
    → ArtifactSet
    → Storage
    → AnalysisBundle
    → Bool
    → List String
    → Result (List ValidationFinding)
planned_findings library digests artifacts storage bundle require_planning manifest_names =
    let trace = delivery_trace_state library artifacts storage manifest_names in
    let declared =
      planning_finding "PLANNING_EVIDENCE_DECLARED" (is_subset planning_names manifest_names) in
    let complete = all (is_file storage) planning_names in
    let rest =
      evidence_findings_of library digests storage bundle (entries_or_empty trace.events)
        (planning_payloads library storage) in
    if not require_planning && not (has_planning_trail library artifacts storage manifest_names)
    then ok []
    else files_findings complete declared rest

-- `_validate_planning_payloads`
unfoldable pub validate_planning_payloads :
    Library
    → Digests
    → ArtifactSet
    → Storage
    → AnalysisBundle
    → Bool
    → Result (List ValidationFinding)
validate_planning_payloads library digests artifacts storage bundle require_planning = do
  let manifest = load_object library storage manifest_name
  entries ← looped_entries (and_then_option manifest (member "files"))
  planned_findings library digests artifacts storage bundle require_planning
      (entry_names library entries)
