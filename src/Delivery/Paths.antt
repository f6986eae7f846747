-- ===== src/Delivery/Paths.antt =====
-- validators.py: the paths of a delivery's files.
use proofbid.Tasks.Store.{base_name}
use proofbid.Readiness.{ValidationFinding}
use proofbid.Prelude.{
  Bool, List, String, [], all, false, get_key, is_some, list_eq, nat_eq, none, not, some, text_eq,
  true, ◌&&◌, ◌==◌, ◌∷◌,
}
use proofbid.Delivery.Modes.{manifest_names, same_place}
use proofbid.Delivery.{
  ArtifactSet, Library, Storage, Supplied, archive_name, delivery_finding, is_canonical,
  is_safe_flat_name, manifest_name, planning_names, result_name, trace_name,
}

-- The names of `ARTIFACT_FIXED_NAMES`, with the fields that hold their paths.
abbrev pub artifact_fixed_names : List (String × String)
artifact_fixed_names =
    ("workbook", "proofbid.xlsx")
    ∷ ("report", "proofbid_report.docx")
    ∷ ("requirements_json", "requirements.json")
    ∷ ("evidence_json", "evidence.json")
    ∷ ("result_json", result_name)
    ∷ ("manifest", manifest_name)
    ∷ ("archive", archive_name)
    ∷ ("trace", trace_name)
    ∷ []

abbrev pub is_symlink : Storage → String → Bool
is_symlink storage name = is_some (storage.link name)

-- The path is given, and resolves to the file of that name in the root.
unfoldable pub is_at : Storage → String → Supplied → Bool
is_at storage base_name supplied = not supplied.is_link && elim supplied.place [
  | none ↦ false
  | some place ↦ same_place place (record { parent = storage.root; base_name = base_name })
]

unfoldable pub is_fixed_path : ArtifactSet → Storage → String × String → Bool
is_fixed_path artifacts storage (field_name, base_name) =
    not (is_symlink storage base_name) && elim (get_key field_name artifacts.fields) [
      | none ↦ true
      | some supplied ↦ is_at storage base_name supplied
    ]

unfoldable pub is_supplemental_path : Library → Storage → Supplied → Bool
is_supplemental_path library storage supplied = not supplied.is_link && elim supplied.place [
  | none ↦ false
  | some place ↦
      place.parent == storage.root
      && is_safe_flat_name library place.base_name
      && is_canonical library place.base_name
]

unfoldable pub is_root_kept : ArtifactSet → Storage → Bool
is_root_kept artifacts storage = elim artifacts.output_dir [
  | none ↦ true
  | some directory ↦ elim directory [ none ↦ false | some path ↦ path == storage.root ]
]

-- No mismatch is found by `_validate_delivery_paths`.
unfoldable pub are_delivery_paths : Library → ArtifactSet → Storage → Bool
are_delivery_paths library artifacts storage =
    is_root_kept artifacts storage
    && all (is_fixed_path artifacts storage) artifact_fixed_names
    && all (λ name. not (is_safe_flat_name library name && is_symlink storage name))
        (manifest_names library storage)
    && all (λ name. not (is_symlink storage name)) planning_names
    && all (is_supplemental_path library storage) artifacts.supplemental_payloads

unfoldable pub paths_finding : Library → ArtifactSet → Storage → ValidationFinding
paths_finding library artifacts storage =
    delivery_finding "artifacts" "blocker" "DELIVERY_ARTIFACT_PATHS"
      (are_delivery_paths library artifacts storage)
