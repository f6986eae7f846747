-- ===== src/Delivery/Opened.antt =====
-- The manifest and the archive that the checks of a delivery have opened.
use proofbid.Delivery.Tested.{passes-delivery}
use proofbid.Prelude.{
  Bool, List, all, arith, false, list_eq, nat_eq, refl, some, text_eq, true, ◌≡◌, Option, none,
  Option-cases, inl, inr, all-append,
}
use proofbid.Loading.{Json}
use proofbid.Json.{member, array_of}
use proofbid.Delivery.Manifest.{entries_findings}
use proofbid.Delivery.Archive.{
  archive_findings, validate_manifest_and_archive, zip_findings, listed_findings, manifest_findings,
  opened_findings,
}
use proofbid.Delivery.{
  ArtifactSet, Library, Storage, ZipArchive, manifest_entries, manifest_name, load_object, Bytes,
}
use proofbid.Bundle.Passing.{passes}

module _ (library : Library) (artifacts : ArtifactSet) (storage : Storage)
    (planning_required : Bool) where
  -- What the checks of a delivery look at.
  pub record HasPassed : Type 0 where
    pub entries : List Json
    pub archive : Bytes
    pub zip : ZipArchive
    pub at_archive : storage.file "proofbid_bundle.zip" ≡ some archive
    pub opened : library.open_zip archive ≡ some zip
    pub listed : manifest_entries library storage ≡ some entries
    pub names_passed :
        all passes (entries_findings library artifacts storage planning_required entries) ≡ true
    pub zip_passed : all passes (zip_findings library storage zip entries) ≡ true

  not_opened :
      (entries : List Json) → all passes (opened_findings library storage entries none) ≡ true → ⊥
  unfolding opened_findings
  not_opened entries h = ground (arith, passes-delivery "zip" "ZIP_REOPENABLE" false)

  -- The archive whose checks have passed is what the file of that name opens to.
  archive_findings-zip :
      (entries : List Json)
      → all passes (archive_findings library storage entries) ≡ true
      → (bytes : Bytes) × (z : ZipArchive) × (storage.file "proofbid_bundle.zip" ≡ some bytes)
        × (library.open_zip bytes ≡ some z)
        × (all passes (zip_findings library storage z entries) ≡ true)
  unfolding archive_findings opened_findings
  archive_findings-zip entries h = elim (Option-cases (storage.file "proofbid_bundle.zip")) [
    | inl e ↦ absurd (not_opened entries (rw e at h))
    | inr (bytes, e) ↦
        let k = rw e at h in
        elim (Option-cases (library.open_zip bytes)) [
          | inl o ↦ absurd (not_opened entries (rw o at k))
          | inr (zip, o) ↦ (bytes, zip, e, o, rw o at k)
        ]
  ]

  listed_findings-HasPassed :
      (found : Option (List Json))
      → manifest_entries library storage ≡ found
      → all passes (listed_findings library artifacts storage planning_required found) ≡ true
      → HasPassed
  unfolding listed_findings archive_findings
  listed_findings-HasPassed none at h =
      absurd (ground (arith, passes-delivery "manifest" "MANIFEST_FILES" false))
  listed_findings-HasPassed (some entries) at h =
      let checked = entries_findings library artifacts storage planning_required entries in
      let split = rw (all-append passes checked (archive_findings library storage entries)) at h in
      let (bytes, zip, there, made, k) = archive_findings-zip entries (ground arith) in
      record {
        entries = entries;
        archive = bytes;
        zip = zip;
        at_archive = there;
        opened = made;
        listed = at;
        names_passed = ground arith;
        zip_passed = k;
      }

  manifest_findings-HasPassed :
      (manifest : Option Json)
      → load_object library storage manifest_name ≡ manifest
      → all passes (manifest_findings library artifacts storage planning_required manifest) ≡ true
      → HasPassed
  unfolding manifest_findings manifest_entries
  manifest_findings-HasPassed none at h =
      absurd (ground (arith, passes-delivery "manifest" "MANIFEST_PARSEABLE" false))
  manifest_findings-HasPassed (some manifest) at h =
      listed_findings-HasPassed (array_of (member "files" manifest)) (rw at refl) (ground arith)

  pub validate_manifest_and_archive-HasPassed :
      all passes (validate_manifest_and_archive library artifacts storage planning_required) ≡ true
      → HasPassed
  unfolding validate_manifest_and_archive
  validate_manifest_and_archive-HasPassed h =
      manifest_findings-HasPassed (load_object library storage manifest_name) refl h
