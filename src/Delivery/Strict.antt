-- ===== src/Delivery/Strict.antt =====
-- A delivery whose checks have failed in nothing but unresolved mandatory requirements.
use proofbid.Readiness.{ValidationFinding}
use proofbid.Prelude.{
  Bool, Bool-cases, List, Option, Option-cases, [], arith, contains, false, inl, inr, list_eq,
  nat_eq, none, refl, some, text_eq, ◌&&◌, ◌∷◌, ◌≡◌,
}
use proofbid.Loading.{Json}
use proofbid.Json.{array_of, is_object, member}
use proofbid.Delivery.Manifest.{entries_findings, file_findings}
use proofbid.Delivery.Archive.{
  archive_findings, content_findings, listed_findings, manifest_findings, member_findings,
  opened_findings, read_member, validate_manifest_and_archive, zip_findings, zip_names,
  zip_reopenable,
}
use proofbid.Delivery.{
  ArtifactSet, Library, Storage, ZipArchive, and_then_option, archive_name, entry_text,
  is_safe_flat_name, load_object, manifest_name,
}
use proofbid.Bundle.Expected.{
  IsStrict, append-IsStrict, cons-IsStrict, flat_map-IsStrict, is_expected, when-IsStrict,
}

-- No check of a delivery has the code of an unresolved requirement.
delivery-IsStrict : (f : ValidationFinding) → is_expected f ≡ false → IsStrict (f ∷ [])
delivery-IsStrict f h = record { strict = λ all_allowed. ground (arith, h) }

module _ (library : Library) (artifacts : ArtifactSet) (storage : Storage)
    (planning_required : Bool) where
  file_findings-IsStrict : (entry : Json) → IsStrict (file_findings library storage entry)
  unfolding file_findings
  file_findings-IsStrict entry =
      when-IsStrict (is_object entry && is_safe_flat_name library (entry_text library "path" entry))
        _ (delivery-IsStrict _ refl)

  entries_findings-IsStrict :
      (entries : List Json)
      → IsStrict (entries_findings library artifacts storage planning_required entries)
  unfolding entries_findings
  entries_findings-IsStrict entries = cons-IsStrict _ _ (delivery-IsStrict _ refl) (
      cons-IsStrict _ _ (delivery-IsStrict _ refl) (
        cons-IsStrict _ _ (delivery-IsStrict _ refl)
          (flat_map-IsStrict (file_findings library storage) entries file_findings-IsStrict)))

  zip_reopenable-IsStrict : IsStrict zip_reopenable
  zip_reopenable-IsStrict = delivery-IsStrict _ refl

  member_findings-IsStrict :
      (zip : ZipArchive) (entries : List Json) → IsStrict (member_findings library zip entries)
  unfolding member_findings
  member_findings-IsStrict zip [] = record { strict = λ all_allowed. refl }
  member_findings-IsStrict zip (e ∷ es) =
      let name = entry_text library "path" e in
      let rest = member_findings-IsStrict zip es in
      elim (Bool-cases (is_object e && contains (zip_names zip) name)) [
        | inr c ↦ rw c rest
        | inl c ↦ elim (Option-cases (read_member zip name)) [
          | inl r ↦ rw (c, r) zip_reopenable-IsStrict
          | inr (b, r) ↦ rw (c, r) (cons-IsStrict _ _ (delivery-IsStrict _ refl) rest)
        ]
      ]

  content_findings-IsStrict :
      (zip : ZipArchive) (entries : List Json)
      → IsStrict (content_findings library storage zip entries)
  unfolding content_findings
  content_findings-IsStrict zip entries =
      let rest = member_findings-IsStrict zip entries in
      elim (Bool-cases (contains (zip_names zip) manifest_name)) [
        | inr c ↦ rw c (cons-IsStrict _ _ (delivery-IsStrict _ refl) rest)
        | inl c ↦ elim (Option-cases (read_member zip manifest_name)) [
          | inl r ↦ rw (c, r) zip_reopenable-IsStrict
          | inr (inside, r) ↦ elim (Option-cases (storage.file manifest_name)) [
            | inl f ↦ rw (c, r, f) zip_reopenable-IsStrict
            | inr (beside, f) ↦ rw (c, r, f) (cons-IsStrict _ _ (delivery-IsStrict _ refl) rest)
          ]
        ]
      ]

  opened_findings-IsStrict :
      (entries : List Json) (zip : Option ZipArchive)
      → IsStrict (opened_findings library storage entries zip)
  unfolding opened_findings zip_findings
  opened_findings-IsStrict entries none = zip_reopenable-IsStrict
  opened_findings-IsStrict entries (some zip) = cons-IsStrict _ _ (delivery-IsStrict _ refl) (
      cons-IsStrict _ _ (delivery-IsStrict _ refl) (
        cons-IsStrict _ _ (delivery-IsStrict _ refl)
          (cons-IsStrict _ _ (delivery-IsStrict _ refl) (content_findings-IsStrict zip entries))))

  listed_findings-IsStrict :
      (found : Option (List Json))
      → IsStrict (listed_findings library artifacts storage planning_required found)
  unfolding listed_findings archive_findings
  listed_findings-IsStrict none = delivery-IsStrict _ refl
  listed_findings-IsStrict (some entries) =
      append-IsStrict (entries_findings library artifacts storage planning_required entries) _
        (entries_findings-IsStrict entries)
        (opened_findings-IsStrict entries
          (and_then_option (storage.file archive_name) library.open_zip))

  manifest_findings-IsStrict :
      (manifest : Option Json)
      → IsStrict (manifest_findings library artifacts storage planning_required manifest)
  unfolding manifest_findings
  manifest_findings-IsStrict none = delivery-IsStrict _ refl
  manifest_findings-IsStrict (some manifest) =
      cons-IsStrict _ _ (delivery-IsStrict _ refl)
        (listed_findings-IsStrict (array_of (member "files" manifest)))

  pub validate_manifest_and_archive-IsStrict :
      IsStrict (validate_manifest_and_archive library artifacts storage planning_required)
  unfolding validate_manifest_and_archive
  validate_manifest_and_archive-IsStrict =
      manifest_findings-IsStrict (load_object library storage manifest_name)
