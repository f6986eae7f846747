-- ===== src/Delivery/Archive.antt =====
-- validators.py: the ZIP file of a delivery, held against the manifest and the files beside it.
use proofbid.Regex.{◌then◌}
use proofbid.Readiness.{ValidationFinding}
use proofbid.Prelude.{
  Bool, List, Option, String, [], all, contains, false, find_last, if◌then◌else◌, is_some, length,
  list_eq, map, nat_eq, none, not, some, sorted, text_eq, true, ◌%◌, ◌&&◌, ◌++◌, ◌/◌, ◌==◌, ◌∷◌,
}
use proofbid.Loading.{Json}
use proofbid.Json.{array_of, is_count, is_object, is_string, member}
use proofbid.Delivery.Manifest.{entries_findings, has_unique_names}
use proofbid.Delivery.{
  ArtifactSet, Library, Storage, ZipArchive, ZipMember, archive_name, delivery_finding, entry_names,
  entry_text, is_safe_flat_name, load_object, manifest_name, Bytes, and_then_option,
}
use Prim.Native.Char.{code}

-- `archive.namelist()`
unfoldable pub zip_names : ZipArchive → List String
zip_names zip = map (λ (m : ZipMember). m.file_name) zip.members

-- `archive.read(name)`: the last member of that name.
unfoldable pub read_member : ZipArchive → String → Option Bytes
read_member zip name = elim (find_last (λ (m : ZipMember). m.file_name == name) zip.members) [
  | none ↦ none
  | some m ↦ m.content
]

-- A regular file of a Unix system, with mode 0644: `S_IFMT` is the four bits above the lowest twelve.
unfoldable pub is_regular_member : ZipMember → Bool
is_regular_member m =
    not m.is_dir && m.create_system == 3 && m.mode / 4096 % 16 == 8 && m.mode % 4096 == 420

abbrev pub zip_finding : String → Bool → ValidationFinding
zip_finding code passed = delivery_finding "zip" "blocker" code passed

abbrev pub zip_reopenable : List ValidationFinding
zip_reopenable = zip_finding "ZIP_REOPENABLE" false ∷ []

-- The loop over the entries. A member that cannot be read ends the checks of the archive.
unfoldable pub member_findings : Library → ZipArchive → List Json → List ValidationFinding
member_findings library zip [] = []
member_findings library zip (entry ∷ entries) =
    let rest = member_findings library zip entries in
    let name = entry_text library "path" entry in
    if is_object entry && contains (zip_names zip) name
    then elim (read_member zip name) [
      | none ↦ zip_reopenable
      | some content ↦
          zip_finding "ZIP_MEMBER_HASH" (
            is_string (library.sha256 content) (member "sha256" entry)
            && is_count (length content) (member "size" entry))
          ∷ rest
    ]
    else rest

-- The manifest inside the archive, and then the members that the manifest declares.
unfoldable pub content_findings :
    Library → Storage → ZipArchive → List Json → List ValidationFinding
content_findings library storage zip entries =
    let rest = member_findings library zip entries in
    if contains (zip_names zip) manifest_name
    then elim (read_member zip manifest_name) [
      | none ↦ zip_reopenable
      | some inside ↦ elim (storage.file manifest_name) [
        | none ↦ zip_reopenable
        | some beside ↦ zip_finding "ZIP_MANIFEST_MATCH" (inside == beside) ∷ rest
      ]
    ]
    else zip_finding "ZIP_MANIFEST_MATCH" false ∷ rest

unfoldable pub zip_findings : Library → Storage → ZipArchive → List Json → List ValidationFinding
zip_findings library storage zip entries =
    let members = zip_names zip in
    let expected = sorted (entry_names library entries ++ manifest_name ∷ []) in
    let safe = all (is_safe_flat_name library) members && has_unique_names library members in
    zip_finding "ZIP_TESTZIP" (not (is_some zip.corrupt))
    ∷ zip_finding "ZIP_MEMBER_TYPES" (all is_regular_member zip.members)
    ∷ zip_finding "ZIP_MEMBER_NAMES" safe
    ∷ zip_finding "ZIP_CONTENT_SET"
        (sorted members == expected && safe && not (contains members archive_name))
    ∷ content_findings library storage zip entries

-- The outcome of opening the archive.
unfoldable pub opened_findings :
    Library → Storage → List Json → Option ZipArchive → List ValidationFinding
opened_findings library storage entries none = zip_reopenable
opened_findings library storage entries (some zip) = zip_findings library storage zip entries

unfoldable pub archive_findings : Library → Storage → List Json → List ValidationFinding
archive_findings library storage entries =
    opened_findings library storage entries
      (and_then_option (storage.file archive_name) library.open_zip)

unfoldable pub listed_findings :
    Library → ArtifactSet → Storage → Bool → Option (List Json) → List ValidationFinding
listed_findings library artifacts storage planning_required none =
    delivery_finding "manifest" "blocker" "MANIFEST_FILES" false ∷ []
listed_findings library artifacts storage planning_required (some entries) =
    entries_findings library artifacts storage planning_required entries
    ++ archive_findings library storage entries

unfoldable pub manifest_findings :
    Library → ArtifactSet → Storage → Bool → Option Json → List ValidationFinding
manifest_findings library artifacts storage planning_required none =
    delivery_finding "manifest" "blocker" "MANIFEST_PARSEABLE" false ∷ []
manifest_findings library artifacts storage planning_required (some manifest) =
    delivery_finding "manifest" "error" "MANIFEST_PARSEABLE" true
    ∷ listed_findings library artifacts storage planning_required
        (array_of (member "files" manifest))

-- `_validate_manifest_and_archive`
unfoldable pub validate_manifest_and_archive :
    Library → ArtifactSet → Storage → Bool → List ValidationFinding
validate_manifest_and_archive library artifacts storage planning_required =
    manifest_findings library artifacts storage planning_required
      (load_object library storage manifest_name)
