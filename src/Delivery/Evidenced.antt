-- ===== src/Delivery/Evidenced.antt =====
-- What planning evidence is that the checks of a delivery have passed.
use proofbid.Delivery.Tested.{passes-delivery}
use mathlib.Core.Path.{subst}
use proofbid.Contracts.{text, number, flag, null}
use proofbid.Readiness.{ValidationFinding}
use proofbid.Prelude.{
  List, Option, [], all, arith, false, is_some, none, refl, some, true, ◌∷◌, ◌≡◌, String, is_subset,
  list_eq, nat_eq, text_eq, Bool,
}
use proofbid.Planning.Spec.{TaskSpec}
use proofbid.Planning.Receipt.{PlanningResult}
use proofbid.Planning.Evidence.{Digests, validate_planning_evidence}
use proofbid.Loading.{Json, array, object}
use proofbid.Json.{is_string, member, array_of}
use proofbid.Delivery.Planned.{
  accepted_result, bound_findings, evidence_findings_of, planning_payloads, planned_findings,
  planning_finding, files_findings, looped_entries, validate_planning_payloads,
}
use proofbid.Delivery.Traced.{is_traced}
use proofbid.Delivery.Tracked.{IsTraced, is_receipt_traced-IsTraced}
use proofbid.Delivery.Modes.{delivery_trace_state, manifest_names}
use proofbid.Delivery.{
  ArtifactSet, Library, Storage, entries_or_empty, is_file, planning_names, and_then_option,
  entry_names, load_json, load_object, manifest_entries, manifest_name, scalar,
}
use proofbid.Contracts.{AnalysisBundle}
use proofbid.Bundle.Passing.{passes}
use proofbid.Errors.{
  ok, raised, value_error, tool_policy, recoverable_render, failure, plain_failure, http_error,
  plan_validation, Result, and_then-ok, found,
}
use proofbid.Planning.Bound.{IsBound, validate_planning_evidence-IsBound}

-- The trace of a delivery, where it can be parsed.
abbrev pub traced_events : Library → ArtifactSet → Storage → List Json
traced_events library artifacts storage =
    entries_or_empty
      (delivery_trace_state library artifacts storage (manifest_names library storage)).events

-- Accepted planning evidence: what `validate_planning_evidence` makes of the packaged payloads.
pub record IsEvidenced (library : Library) (digests : Digests) (storage : Storage)
    (bundle : AnalysisBundle) (events : List Json) : Type 0 where
  pub spec : TaskSpec
  pub result : PlanningResult
  pub task_payload : Json
  pub plan_payload : Json
  pub receipt_payload : Json
  pub at_task : load_json library storage "task_spec.json" ≡ some task_payload
  pub at_plan : load_json library storage "execution_plan.json" ≡ some plan_payload
  pub at_receipt : load_json library storage "planner_receipt.json" ≡ some receipt_payload
  pub accepted :
      validate_planning_evidence digests task_payload plan_payload receipt_payload
        (some bundle.task_id)
      ≡ ok (spec, result)
  pub bound : IsBound digests (some bundle.task_id) spec result
  pub traced : IsTraced result events
  pub one_task : all (λ e. is_string bundle.task_id (member "task_id" e)) events ≡ true

accepted_result-some :
    (m : Result (TaskSpec × PlanningResult)) (o : Option PlanningResult)
    → accepted_result m ≡ ok o
    → is_some o ≡ true
    → (spec : TaskSpec) × (q : PlanningResult) × (m ≡ ok (spec, q)) × (o ≡ some q)
unfolding accepted_result
accepted_result-some (ok (spec, q)) o h s = (spec, q, refl, ground arith)
accepted_result-some (raised (plan_validation cs)) o h s = absurd (ground arith)
accepted_result-some (raised (value_error m)) o h s = absurd (ground arith)
accepted_result-some (raised (tool_policy m)) o h s = absurd (ground arith)
accepted_result-some (raised recoverable_render) o h s = absurd (ground arith)
accepted_result-some (raised (failure c)) o h s = absurd (ground arith)
accepted_result-some (raised (plain_failure t)) o h s = absurd (ground arith)
accepted_result-some (raised (http_error n d)) o h s = absurd (ground arith)

-- A value that is there, and what follows it.
and_then_option-some {ℓ κ} :
    {A : Type ℓ} {B : Type κ} (o : Option A) (f : A → Option B) {b : B}
    → and_then_option o f ≡ some b
    → (a : A) × (o ≡ some a) × (f a ≡ some b)
and_then_option-some none f h = absurd (ground arith)
and_then_option-some (some a) f h = (a, refl, h)

planning_payloads-parts :
    (library : Library) (storage : Storage) (t p r : Json)
    → planning_payloads library storage ≡ some (t, p, r)
    → (load_json library storage "task_spec.json" ≡ some t)
      × (load_json library storage "execution_plan.json" ≡ some p)
      × (load_json library storage "planner_receipt.json" ≡ some r)
unfolding planning_payloads
planning_payloads-parts library storage t p r h =
    let (a, ea, ha) = and_then_option-some (load_json library storage "task_spec.json") _ h in
    let (b, eb, hb) = and_then_option-some (load_json library storage "execution_plan.json") _ ha in
    let (c, ec, hc) =
      and_then_option-some (load_json library storage "planner_receipt.json") _ hb in
    (ground (arith, ea, hc), ground (arith, eb, hc), ground (arith, ec, hc))

module _ (library : Library) (digests : Digests) (storage : Storage) (bundle : AnalysisBundle)
    (events : List Json) where
  bound_parts :
      (o : Option PlanningResult)
      → all passes (bound_findings library storage bundle events o) ≡ true
      → (is_some o ≡ true)
        × (is_traced o events ≡ true)
        × (all (λ e. is_string bundle.task_id (member "task_id" e)) events ≡ true)
  unfolding bound_findings
  bound_parts o h = let e = simp passes-delivery at h in ground (arith, e)

  evidence_findings_of-IsEvidenced :
      (payloads : Option (Json × Json × Json)) (found : List ValidationFinding)
      → planning_payloads library storage ≡ payloads
      → evidence_findings_of library digests storage bundle events payloads ≡ ok found
      → all passes found ≡ true
      → IsEvidenced library digests storage bundle events
  unfolding evidence_findings_of
  evidence_findings_of-IsEvidenced none found at h k =
      let same : planning_finding "PLANNING_EVIDENCE_BINDING" false ∷ [] ≡ found = ground arith in
      absurd (
        ground
          (arith, passes-delivery "planning" "PLANNING_EVIDENCE_BINDING" false, rw (← same) at k))
  evidence_findings_of-IsEvidenced (some (t, p, r)) found at h k =
      let checked = validate_planning_evidence digests t p r (some bundle.task_id) in
      let (o, e, last) =
        and_then-ok (accepted_result checked)
          (λ o. ok (bound_findings library storage bundle events o)) h in
      let same : bound_findings library storage bundle events o ≡ found = ground arith in
      let (s, traced, one) = bound_parts o (rw (← same) at k) in
      let (spec, q, made, is) = accepted_result-some checked o e s in
      let (at_task, at_plan, at_receipt) = planning_payloads-parts library storage t p r at in
      record {
        spec = spec;
        result = q;
        task_payload = t;
        plan_payload = p;
        receipt_payload = r;
        at_task = at_task;
        at_plan = at_plan;
        at_receipt = at_receipt;
        accepted = made;
        bound = validate_planning_evidence-IsBound digests (some bundle.task_id) t p r spec q made;
        traced = is_receipt_traced-IsTraced q events (rw is at traced);
        one_task = one;
      }

module _ (library : Library) (digests : Digests) (storage : Storage) (bundle : AnalysisBundle)
    (artifacts : ArtifactSet) where
  files_findings-rest :
      (complete : Bool) (declared : ValidationFinding) (rest : Result (List ValidationFinding))
      (made : List ValidationFinding)
      → files_findings complete declared rest ≡ ok made
      → all passes made ≡ true
      → (found : List ValidationFinding) × (rest ≡ ok found) × (all passes found ≡ true)
  unfolding files_findings
  files_findings-rest false declared rest made h k =
      let same : declared ∷ planning_finding "PLANNING_EVIDENCE_FILES" false ∷ [] ≡ made =
        ground arith in
      absurd (
        ground
          (arith, passes-delivery "planning" "PLANNING_EVIDENCE_FILES" false, rw (← same) at k))
  files_findings-rest true declared (ok found) made h k =
      let same : declared ∷ planning_finding "PLANNING_EVIDENCE_FILES" true ∷ found ≡ made =
        ground arith in
      (found, refl, ground (arith, rw (← same) at k))
  files_findings-rest true declared (raised e) made h k = absurd (ground arith)

  planned_findings-IsEvidenced :
      (names : List String) (made : List ValidationFinding)
      → planned_findings library digests artifacts storage bundle true names ≡ ok made
      → all passes made ≡ true
      → IsEvidenced library digests storage bundle
          (entries_or_empty (delivery_trace_state library artifacts storage names).events)
  unfolding planned_findings
  planned_findings-IsEvidenced names made h k =
      let events = entries_or_empty (delivery_trace_state library artifacts storage names).events in
      let payloads = planning_payloads library storage in
      let declared =
        planning_finding "PLANNING_EVIDENCE_DECLARED" (is_subset planning_names names) in
      let rest = evidence_findings_of library digests storage bundle events payloads in
      let (found, e, p) =
        files_findings-rest (all (is_file storage) planning_names) declared rest made h k in
      evidence_findings_of-IsEvidenced library digests storage bundle events payloads found refl e p

  -- The names that the loop of `_validate_planning_payloads` collects are those of the manifest.
  looped_entries-names :
      (files : Option Json) (entries : List Json)
      → looped_entries files ≡ ok entries
      → entries ≡ entries_or_empty (array_of files)
  unfolding looped_entries array_of
  looped_entries-names none entries h = ground arith
  looped_entries-names (some (array xs)) entries h = ground arith
  looped_entries-names (some (object fs)) entries h = ground arith
  looped_entries-names (some (scalar null)) entries h = ground arith
  looped_entries-names (some (scalar (text s))) entries h = ground arith
  looped_entries-names (some (scalar (flag true))) entries h = absurd (ground arith)
  looped_entries-names (some (scalar (flag false))) entries h = ground arith
  looped_entries-names (some (scalar (number v s))) entries h = ground arith

  pub validate_planning_payloads-IsEvidenced :
      (made : List ValidationFinding)
      → validate_planning_payloads library digests artifacts storage bundle true ≡ ok made
      → all passes made ≡ true
      → IsEvidenced library digests storage bundle (traced_events library artifacts storage)
  unfolding validate_planning_payloads manifest_names manifest_entries
  validate_planning_payloads-IsEvidenced made h k =
      let files = and_then_option (load_object library storage manifest_name) (member "files") in
      let (entries, e, rest) =
        and_then-ok (looped_entries files)
          (λ entries.
            planned_findings library digests artifacts storage bundle true
              (entry_names library entries))
          h in
      let same = looped_entries-names files entries e in
      subst
        (λ names. IsEvidenced library digests storage bundle (
          entries_or_empty
            (delivery_trace_state library artifacts storage (entry_names library names)).events))
        same (planned_findings-IsEvidenced (entry_names library entries) made rest k)
