-- ===== src/Delivery/Shaped.antt =====
-- What the tests on names and on members of the archive say.
use proofbid.Prelude.{
  Bool, List, Memᴰ, String, all, all-append, arith, contains, eqb→eq, false, is_unique, list_eq,
  map, nat_eq, same_set, text_eq, true, ◌%◌, ◌/◌, ◌≡◌,
}
use proofbid.Loading.{Json}
use proofbid.Delivery.Tested.{all-mem}
use proofbid.Delivery.Manifest.{expected_payload_names, has_unique_names}
use proofbid.Delivery.Archive.{is_regular_member}
use proofbid.Delivery.{
  ArtifactSet, Library, Storage, ZipMember, core_names, entry_names, portable_payload_key,
}

pub is_regular_member-parts :
    (m : ZipMember)
    → is_regular_member m ≡ true
    → (m.is_dir ≡ false) × (m.create_system ≡ 3) × (m.mode / 4096 % 16 ≡ 8) × (m.mode % 4096 ≡ 420)
unfolding is_regular_member
is_regular_member-parts m h = (
  ground arith,
  eqb→eq m.create_system 3 (ground arith),
  eqb→eq (m.mode / 4096 % 16) 8 (ground arith),
  eqb→eq (m.mode % 4096) 420 (ground arith),
)

pub has_unique_names-parts :
    (library : Library) (names : List String)
    → has_unique_names library names ≡ true
    → (is_unique names ≡ true) × (is_unique (map (portable_payload_key library) names) ≡ true)
unfolding has_unique_names
has_unique_names-parts library names h = (ground arith, ground arith)

module _ (library : Library) (artifacts : ArtifactSet) (storage : Storage)
    (planning_required : Bool) where
  -- The core files are among the expected ones.
  pub core_listed :
      (entries : List Json)
      → same_set (entry_names library entries) (
          expected_payload_names library artifacts storage planning_required
            (entry_names library entries))
        ≡ true
      → (name : String) → Memᴰ name core_names
      → contains (entry_names library entries) name ≡ true
  unfolding expected_payload_names
  core_listed entries h name m =
      let names = entry_names library entries in
      let split = simp all-append at h in
      let core : all (contains names) core_names ≡ true = ground (arith, split) in
      all-mem (contains names) core m
