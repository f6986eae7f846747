-- ===== src/Delivery/Sealed.antt =====
-- What a delivery is whose manifest and archive have passed their checks.
use proofbid.Delivery.Tested.{
  IsMatching, IsMatching-mem, is_declared_file-bytes, is_string-entry, passes-delivery, select-all,
  all-mem,
}
use proofbid.Regex.{size}
use proofbid.Prelude.{
  is_unique, map, ◌/◌, ◌%◌, Bool, List, Memᴰ, Option-cases, String, [], all, arith, contains,
  eqb→eq, false, inl, inr, length, list_eq, nat_eq, refl, same_set, some, sorted, text_eq, true,
  ◌++◌, ◌∷◌, ◌≡◌, sym, all-flat_map, ◌==◌, Bool-cases, ap, contains-append, contains-map_of_mem,
  contains-sorted, ◌∙◌, mem-map,
}
use proofbid.Delivery.Shaped.{core_listed, has_unique_names-parts, is_regular_member-parts}
use proofbid.Loading.{Json}
use proofbid.Json.{is_count, member, is_object}
use proofbid.Delivery.Manifest.{
  expected_payload_names, has_unique_names, is_declared_file, entries_findings, file_findings,
}
use proofbid.Delivery.Archive.{
  is_regular_member, read_member, zip_names, member_findings, validate_manifest_and_archive,
  zip_findings, content_findings,
}
use proofbid.Delivery.{
  ArtifactSet, Library, Storage, ZipArchive, ZipMember, core_names, portable_payload_key,
  entry_names, entry_text, is_safe_flat_name, manifest_entries, manifest_name, Bytes,
}
use proofbid.Bundle.Passing.{passes}
use proofbid.Delivery.Opened.{validate_manifest_and_archive-HasPassed}

-- A file that lies beside the manifest and, with the digest and the size that the manifest declares,
-- in the archive.
pub record IsDelivered (library : Library) (storage : Storage) (zip : ZipArchive) (entry : Json)
    : Type 0 where
  pub beside : Bytes
  pub inside : Bytes
  pub at_beside : storage.file (entry_text library "path" entry) ≡ some beside
  pub at_inside : read_member zip (entry_text library "path" entry) ≡ some inside
  pub same_digest : library.sha256 beside ≡ library.sha256 inside
  pub size_beside : is_count (length beside) (member "size" entry) ≡ true
  pub size_inside : is_count (length inside) (member "size" entry) ≡ true

pub record IsSealed (library : Library) (artifacts : ArtifactSet) (storage : Storage)
    (planning_required : Bool) : Type 0 where
  pub entries : List Json
  pub archive : Bytes
  pub zip : ZipArchive
  pub at_archive : storage.file "proofbid_bundle.zip" ≡ some archive
  pub opened : library.open_zip archive ≡ some zip
  pub listed : manifest_entries library storage ≡ some entries
  pub safe : all (is_safe_flat_name library) (entry_names library entries) ≡ true
  pub unique : is_unique (entry_names library entries) ≡ true
  pub unique_keys :
      is_unique (map (portable_payload_key library) (entry_names library entries)) ≡ true
  pub core :
      (name : String) → Memᴰ name core_names → contains (entry_names library entries) name ≡ true
  pub exact :
      same_set (entry_names library entries) (
        expected_payload_names library artifacts storage planning_required
          (entry_names library entries))
      ≡ true
  pub delivered : (entry : Json) → Memᴰ entry entries → IsDelivered library storage zip entry
  pub regular :
      (m : ZipMember)
      → Memᴰ m zip.members
      → (m.is_dir ≡ false)
        × (m.create_system ≡ 3)
        × (m.mode / 4096 % 16 ≡ 8)
        × (m.mode % 4096 ≡ 420)
  pub members :
      (name : String)
      → contains (zip_names zip) name
        ≡ contains (entry_names library entries ++ manifest_name ∷ []) name
  pub manifest_inside : read_member zip manifest_name ≡ storage.file manifest_name

module _ (library : Library) (artifacts : ArtifactSet) (storage : Storage)
    (planning_required : Bool) where
  -- The tests on the list of names.
  names_parts :
      (entries : List Json)
      → all passes (entries_findings library artifacts storage planning_required entries) ≡ true
      → (all is_object entries ≡ true)
        × (all (is_safe_flat_name library) (entry_names library entries) ≡ true)
        × (has_unique_names library (entry_names library entries) ≡ true)
        × (same_set (entry_names library entries) (
              expected_payload_names library artifacts storage planning_required
                (entry_names library entries))
            ≡ true)
        × (all (λ e. all passes (file_findings library storage e)) entries ≡ true)
  unfolding entries_findings
  names_parts entries h = let e = simp (passes-delivery, all-flat_map) at h in ground (arith, e)

  zip_parts :
      (entries : List Json) (zip : ZipArchive)
      → all passes (zip_findings library storage zip entries) ≡ true
      → (all is_regular_member zip.members ≡ true)
        × ((sorted (zip_names zip) == sorted (entry_names library entries ++ manifest_name ∷ []))
            ≡ true)
        × (all passes (content_findings library storage zip entries) ≡ true)
  unfolding zip_findings
  zip_parts entries zip h = let e = simp passes-delivery at h in ground (arith, e)

  content_parts :
      (entries : List Json) (zip : ZipArchive)
      → all passes (content_findings library storage zip entries) ≡ true
      → (read_member zip manifest_name ≡ storage.file manifest_name)
        × (all passes (member_findings library zip entries) ≡ true)
  unfolding content_findings
  content_parts entries zip h = elim (Bool-cases (contains (zip_names zip) manifest_name)) [
    | inr c ↦ absurd (ground (arith, passes-delivery "zip" "ZIP_MANIFEST_MATCH" false, rw c at h))
    | inl c ↦
        let k = rw c at h in
        elim (Option-cases (read_member zip manifest_name)) [
          | inl e ↦ absurd (ground (arith, passes-delivery "zip" "ZIP_REOPENABLE" false, rw e at k))
          | inr (inside, e) ↦ elim (Option-cases (storage.file manifest_name)) [
            | inl f ↦
                absurd
                  (ground (arith, passes-delivery "zip" "ZIP_REOPENABLE" false, rw (e, f) at k))
            | inr (beside, f) ↦
                let l =
                  rw (e, f, passes-delivery "zip" "ZIP_MANIFEST_MATCH" (inside == beside)) at k in
                let same : inside ≡ beside = eqb→eq inside beside (ground arith) in
                (rw (e, f, same) refl, ground arith)
          ]
        ]
  ]

  -- An entry whose file and whose member have passed their tests.
  file_findings-declared :
      (entry : Json)
      → is_object entry ≡ true
      → is_safe_flat_name library (entry_text library "path" entry) ≡ true
      → all passes (file_findings library storage entry) ≡ true
      → is_declared_file library storage (entry_text library "path" entry) entry ≡ true
  unfolding file_findings
  file_findings-declared entry o s h =
      let name = entry_text library "path" entry in
      let same =
        passes-delivery "manifest" "MANIFEST_FILE_HASH"
          (is_declared_file library storage name entry) in
      ground (arith, same, rw (o, s) at h)

  IsDelivered-both :
      (zip : ZipArchive) (entry : Json)
      → is_declared_file library storage (entry_text library "path" entry) entry ≡ true
      → IsMatching library zip entry
      → IsDelivered library storage zip entry
  unfolding entry_text
  IsDelivered-both zip entry d m =
      let name = entry_text library "path" entry in
      let (beside, f, hash, size) = is_declared_file-bytes library storage name entry d in
      let same =
        is_string-entry library (library.sha256 m.content) (member "sha256" entry) m.hashed in
      record {
        beside = beside;
        inside = m.content;
        at_beside = f;
        at_inside = m.at_content;
        same_digest = hash ∙ sym same;
        size_beside = size;
        size_inside = m.sized;
      }

  -- The members of the archive are those that the manifest names, and the manifest.
  members_of :
      (entries : List Json) (zip : ZipArchive)
      → (sorted (zip_names zip) == sorted (entry_names library entries ++ manifest_name ∷ []))
        ≡ true
      → (name : String)
      → contains (zip_names zip) name
        ≡ contains (entry_names library entries ++ manifest_name ∷ []) name
  members_of entries zip h name =
      let members = zip_names zip in
      let expected = entry_names library entries ++ manifest_name ∷ [] in
      let same = eqb→eq (sorted members) (sorted expected) h in
      sym (contains-sorted members name)
      ∙ ap (λ ss. contains ss name) same
      ∙ contains-sorted expected name

  all-named :
      (entries : List Json) (zip : ZipArchive)
      → all is_object entries ≡ true
      → ((name : String)
          → contains (zip_names zip) name
            ≡ contains (entry_names library entries ++ manifest_name ∷ []) name)
      → (entry : Json) → Memᴰ entry entries
      → contains (zip_names zip) (entry_text library "path" entry) ≡ true
  unfolding entry_names
  all-named entries zip o same entry m =
      let name = entry_text library "path" entry in
      let inside = contains-map_of_mem (entry_text library "path") m in
      let whole = select-all is_object entries o in
      rw (same name, contains-append, whole, inside) refl

  safe-mem :
      (entries : List Json)
      → all is_object entries ≡ true
      → all (is_safe_flat_name library) (entry_names library entries) ≡ true
      → (entry : Json) → Memᴰ entry entries
      → is_safe_flat_name library (entry_text library "path" entry) ≡ true
  unfolding entry_names
  safe-mem entries o s entry m =
      all-mem (is_safe_flat_name library) s
        (rw (select-all is_object entries o) (mem-map (entry_text library "path") m))

  -- A delivery whose manifest and archive pass their checks lists flat, safe names in its manifest,
  -- no two of them equal or equal up to case and Unicode form, and exactly the expected ones, the core
  -- files among them. Every file that it lists lies beside it, and in the archive with the same
  -- digest, each of the declared size. The archive is what the file proofbid_bundle.zip opens to; it
  -- has regular members of mode 0644 only, no other names than these and the manifest's, and holds
  -- the very bytes of the manifest.
  pub validate_manifest_and_archive-IsSealed :
      all passes (validate_manifest_and_archive library artifacts storage planning_required) ≡ true
      → IsSealed library artifacts storage planning_required
  validate_manifest_and_archive-IsSealed h =
      let p =
        validate_manifest_and_archive-HasPassed library artifacts storage planning_required h in
      let (o, safe, unique, exact, files) = names_parts p.entries p.names_passed in
      let (regular, same, inside) = zip_parts p.entries p.zip p.zip_passed in
      let (manifest_inside, checked) = content_parts p.entries p.zip inside in
      let members = members_of p.entries p.zip same in
      let named = all-named p.entries p.zip o members in
      record {
        entries = p.entries;
        archive = p.archive;
        zip = p.zip;
        at_archive = p.at_archive;
        opened = p.opened;
        listed = p.listed;
        safe = safe;
        unique = (has_unique_names-parts library (entry_names library p.entries) unique).0;
        unique_keys = (has_unique_names-parts library (entry_names library p.entries) unique).1;
        core = core_listed library artifacts storage planning_required p.entries exact;
        exact = exact;
        delivered = λ entry m.
            IsDelivered-both p.zip entry
              (file_findings-declared entry (all-mem is_object o m)
                (safe-mem p.entries o safe entry m)
                (all-mem (λ e. all passes (file_findings library storage e)) files m))
              (IsMatching-mem library p.zip p.entries checked o named m);
        regular = λ m there. is_regular_member-parts m (all-mem is_regular_member regular there);
        members = members;
        manifest_inside = manifest_inside;
      }
