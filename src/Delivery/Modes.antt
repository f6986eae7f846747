-- ===== src/Delivery/Modes.antt =====
-- validators.py: the trace of a delivery, and the mode of execution that a delivery declares.
use proofbid.Contracts.{text}
use proofbid.Prelude.{bool_eq}
use proofbid.Regex.{◌then◌}
use proofbid.Readiness.{ValidationFinding}
use proofbid.Prelude.{
  Bool, List, Option, String, [], all, any, contains, false, get_key, if◌then◌else◌, is_some,
  list_eq, map, nat_eq, none, not, select, some, strip, text_eq, true, truthy, ◌&&◌, ◌++◌, ◌==◌,
  ◌||◌, ◌∷◌,
}
use proofbid.Loading.{Json}
use proofbid.Json.{is_string, member}
use proofbid.Extraction.Documents.{split_lines}
use proofbid.Delivery.{
  ArtifactSet, Library, Place, Storage, Supplied, and_then_option, delivery_finding,
  entries_or_empty, entry_names, is_file, is_planning_key, load_object, manifest_entries,
  manifest_name, planning_names, result_name, trace_name, scalar,
}

-- What `_delivery_trace_state` returns.
pub record TraceState : Type 0 where
  pub events : Option (List Json)
  pub has_planning : Bool
  pub is_consistent : Bool
  pub parse_valid : Bool

abbrev pub same_place : Place → Place → Bool
same_place a b = a.parent == b.parent && a.base_name == b.base_name

-- `(root / name).resolve()`
unfoldable pub resolved : Storage → String → Place
resolved storage name = elim (storage.link name) [
  | none ↦ record { parent = storage.root; base_name = name }
  | some target ↦ target
]

-- `[json.loads(line) for line in lines if line.strip()]`
unfoldable pub loads_lines : Library → List String → Option (List Json)
loads_lines library [] = some []
loads_lines library (line ∷ lines) =
    let rest = loads_lines library lines in
    if truthy (strip line)
    then and_then_option (library.loads line)
        (λ event. and_then_option rest (λ events. some (event ∷ events)))
    else rest

unfoldable pub is_planning_event : Json → Bool
is_planning_event event = is_string "planning" (member "step" event)

-- The supplied path of the trace, where it can be resolved.
abbrev supplied_place : Option Supplied → Option Place
supplied_place none = none
supplied_place (some s) = s.place

unfoldable pub trace_is_consistent : ArtifactSet → Storage → List String → Bool
trace_is_consistent artifacts storage manifest_names =
    let declared = contains manifest_names trace_name in
    let supplied = get_key "trace" artifacts.fields in
    let same : Bool = elim (supplied_place supplied) [
      | none ↦ false
      | some place ↦ same_place place (resolved storage trace_name)
    ] in
    declared == is_file storage trace_name && (not declared && not (is_some supplied) || same)

-- `_delivery_trace_state`. The bytes of the trace are those that the link leads to, if it is one.
unfoldable pub delivery_trace_state : Library → ArtifactSet → Storage → List String → TraceState
delivery_trace_state library artifacts storage manifest_names =
    let is_consistent = trace_is_consistent artifacts storage manifest_names in
    elim (storage.file trace_name) [
      | none ↦ record {
        events = none;
        has_planning = false;
        is_consistent = is_consistent;
        parse_valid = true;
      }
      | some bytes ↦
          elim (and_then_option (library.decode bytes)
            (λ text. loads_lines library (split_lines text))) [
              | none ↦ record {
                events = none;
                has_planning = false;
                is_consistent = is_consistent;
                parse_valid = false;
              }
              | some events ↦ record {
                events = some events;
                has_planning = any is_planning_event events;
                is_consistent = is_consistent;
                parse_valid = true;
              }
            ]
    ]

abbrev pub names_or_empty : Option (List String) → List String
names_or_empty none = []
names_or_empty (some names) = names

-- The names in the manifest, where it lists files.
unfoldable pub manifest_names : Library → Storage → List String
manifest_names library storage =
    entry_names library (entries_or_empty (manifest_entries library storage))

-- The three places that declare the mode.
unfoldable pub observed_modes : Library → ArtifactSet → Storage → List (Option Json)
observed_modes library artifacts storage =
    and_then_option artifacts.execution_mode (λ mode. some (scalar (text mode)))
    ∷ and_then_option (load_object library storage manifest_name) (member "execution_mode")
    ∷ and_then_option (load_object library storage result_name) (member "execution_mode")
    ∷ []

unfoldable pub has_planning_marker : Library → ArtifactSet → Storage → Bool
has_planning_marker library artifacts storage =
    let in_manifest = manifest_names library storage in
    let names =
      map (λ (s : Supplied). s.raw_name) artifacts.supplemental_payloads
      ++ in_manifest
      ++ select (is_file storage) planning_names
      ++ names_or_empty storage.listing in
    any (is_planning_key library) names
    || (delivery_trace_state library artifacts storage in_manifest).has_planning

-- `planning_required`
unfoldable pub is_planning_required : Library → ArtifactSet → Storage → Option Bool → Bool
is_planning_required library artifacts storage (some required) = required
is_planning_required library artifacts storage none =
    any (is_string "agentic") (observed_modes library artifacts storage)
    || has_planning_marker library artifacts storage

-- The test of `_validate_execution_mode`.
unfoldable pub is_mode_consistent : Library → ArtifactSet → Storage → Bool → Bool
is_mode_consistent library artifacts storage planning_required =
    let expected_mode = if planning_required then "agentic" else "deterministic" in
    let trace = delivery_trace_state library artifacts storage (manifest_names library storage) in
    all (is_string expected_mode) (observed_modes library artifacts storage)
    && has_planning_marker library artifacts storage == planning_required
    && trace.is_consistent
    && trace.parse_valid

unfoldable pub mode_finding : Library → ArtifactSet → Storage → Bool → ValidationFinding
mode_finding library artifacts storage planning_required =
    delivery_finding "artifacts" "blocker" "DELIVERY_EXECUTION_MODE"
      (is_mode_consistent library artifacts storage planning_required)
