-- ===== src/Delivery/Manifest.antt =====
-- validators.py: the manifest of a delivery, its names, and the files that it declares.
use proofbid.Regex.{◌then◌}
use proofbid.Readiness.{ValidationFinding}
use proofbid.Prelude.{
  Bool, List, String, [], all, any, contains, false, flat_map, get_key, if◌then◌else◌, is_sha256,
  is_some, is_unique, length, list_eq, map, nat_eq, none, not, same_set, some, text_eq, ◌&&◌, ◌++◌,
  ◌==◌, ◌||◌, ◌∷◌,
}
use proofbid.Loading.{Json}
use proofbid.Json.{is_count, is_object, member}
use proofbid.Delivery.{
  ArtifactSet, Library, Storage, Supplied, archive_name, core_names, delivery_finding, entry_names,
  entry_text, is_canonical, is_file, is_planning_key, is_safe_flat_name, manifest_name,
  planning_names, portable_payload_key, trace_name,
}

-- The test on a file that the manifest declares under `name`.
unfoldable pub is_declared_file : Library → Storage → String → Json → Bool
is_declared_file library storage name entry = elim (storage.file name) [
  | none ↦ false
  | some bytes ↦
      let expected_hash = entry_text library "sha256" entry in
      is_sha256 expected_hash
      && library.sha256 bytes == expected_hash
      && is_count (length bytes) (member "size" entry)
]

-- One `MANIFEST_FILE_HASH` for each entry with a safe name.
unfoldable pub file_findings : Library → Storage → Json → List ValidationFinding
file_findings library storage entry =
    let name = entry_text library "path" entry in
    if is_object entry && is_safe_flat_name library name
    then delivery_finding "manifest" "blocker" "MANIFEST_FILE_HASH"
        (is_declared_file library storage name entry)
      ∷ []
    else []

-- The names that the manifest has to declare.
unfoldable pub expected_payload_names :
    Library → ArtifactSet → Storage → Bool → List String → List String
expected_payload_names library artifacts storage planning_required names =
    let with_trace =
      planning_required
      || is_some (get_key "trace" artifacts.fields)
      || is_file storage trace_name in
    let with_planning =
      planning_required
      || any (is_file storage) planning_names
      || any (is_planning_key library) names in
    core_names
    ++ (if with_trace then trace_name ∷ [] else [])
    ++ map (λ (s : Supplied). s.raw_name) artifacts.supplemental_payloads
    ++ (if with_planning then planning_names else [])

unfoldable pub has_unique_names : Library → List String → Bool
has_unique_names library names =
    is_unique names
    && is_unique (map (portable_payload_key library) names)
    && all (is_canonical library) names

-- The findings on the list of names, and on each entry's file.
unfoldable pub entries_findings :
    Library → ArtifactSet → Storage → Bool → List Json → List ValidationFinding
entries_findings library artifacts storage planning_required entries =
    let names = entry_names library entries in
    let safe = all is_object entries && all (is_safe_flat_name library) names in
    let unique = has_unique_names library names in
    let reserved =
      portable_payload_key library manifest_name ∷ portable_payload_key library archive_name ∷ [] in
    let expected = expected_payload_names library artifacts storage planning_required names in
    delivery_finding "manifest" "blocker" "MANIFEST_SAFE_PATHS" (safe && unique)
    ∷ delivery_finding "manifest" "blocker" "ARCHIVE_NOT_SELF_CONTAINED"
        (not (any (λ name. contains reserved (portable_payload_key library name)) names))
    ∷ delivery_finding "manifest" "blocker" "MANIFEST_PAYLOAD_SET"
        (same_set names expected && unique)
    ∷ flat_map (file_findings library storage) entries
