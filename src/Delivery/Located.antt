-- ===== src/Delivery/Located.antt =====
-- Where the files of a delivery lie.
use proofbid.Prelude.{
  Memᴰ, Option, Option-cases, String, all, arith, eqb→eq, false, get_key, inl, inr, is_some,
  list_eq, nat_eq, none, not, refl, some, text_eq, true, ◌&&◌, ◌==◌, ◌≡◌, ◌⊎◌, bool_eq,
}
use proofbid.Delivery.Tested.{all-mem}
use proofbid.Delivery.Paths.{
  are_delivery_paths, artifact_fixed_names, is_at, is_fixed_path, is_root_kept,
  is_supplemental_path, is_symlink,
}
use proofbid.Delivery.Modes.{manifest_names}
use proofbid.Delivery.{
  ArtifactSet, Library, Place, Storage, Supplied, is_safe_flat_name, planning_names,
}

-- A path that is no link, and leads to a place directly in the root.
pub record IsInRoot (storage : Storage) (supplied : Supplied) : Type 0 where
  pub place : Place
  pub no_link : supplied.is_link ≡ false
  pub at_place : supplied.place ≡ some place
  pub in_root : place.parent ≡ storage.root

-- The paths of a delivery: its root, its fixed files, and the files that it adds.
pub record IsLocated (library : Library) (artifacts : ArtifactSet) (storage : Storage)
    : Type 0 where
  pub root : (artifacts.output_dir ≡ none) ⊎ (artifacts.output_dir ≡ some (some storage.root))
  pub fixed :
      (field_name base_name : String)
      → Memᴰ (field_name, base_name) artifact_fixed_names
      → storage.link base_name ≡ none
  pub supplied :
      (field_name base_name : String) (s : Supplied)
      → Memᴰ (field_name, base_name) artifact_fixed_names
      → get_key field_name artifacts.fields ≡ some s
      → (i : IsInRoot storage s) × (i.place.base_name ≡ base_name)
  pub listed :
      (name : String)
      → Memᴰ name (manifest_names library storage)
      → is_safe_flat_name library name ≡ true
      → storage.link name ≡ none
  pub planning : (name : String) → Memᴰ name planning_names → storage.link name ≡ none
  pub supplemental :
      (s : Supplied)
      → Memᴰ s artifacts.supplemental_payloads
      → (i : IsInRoot storage s) × (is_safe_flat_name library i.place.base_name ≡ true)

not_link : (o : Option Place) → not (is_some o) ≡ true → o ≡ none
not_link none h = refl
not_link (some p) h = absurd (ground arith)

root_kept :
    (o : Option (Option String)) (root : String)
    → elim o [
      | none ↦ true
      | some directory ↦ elim directory [ none ↦ false | some path ↦ path == root ]
    ]
      ≡ true
    → (o ≡ none) ⊎ (o ≡ some (some root))
root_kept none root h = inl refl
root_kept (some none) root h = absurd (ground arith)
root_kept (some (some path)) root h = inr (rw (eqb→eq path root h) refl)

module _ (library : Library) (storage : Storage) where
  is_at-IsInRoot :
      (base_name : String) (s : Supplied)
      → is_at storage base_name s ≡ true
      → (i : IsInRoot storage s) × (i.place.base_name ≡ base_name)
  unfolding is_at
  is_at-IsInRoot base_name s h = elim (Option-cases s.place) [
    | inl e ↦ absurd (ground (arith, rw e at h))
    | inr (p, e) ↦
        let k = rw e at h in
        (
          record {
            place = p;
            no_link = ground arith;
            at_place = e;
            in_root = eqb→eq p.parent storage.root (ground arith);
          },
          eqb→eq p.base_name base_name (ground arith),
        )
  ]

  is_supplemental_path-IsInRoot :
      (s : Supplied)
      → is_supplemental_path library storage s ≡ true
      → (i : IsInRoot storage s) × (is_safe_flat_name library i.place.base_name ≡ true)
  unfolding is_supplemental_path
  is_supplemental_path-IsInRoot s h = elim (Option-cases s.place) [
    | inl e ↦ absurd (ground (arith, rw e at h))
    | inr (p, e) ↦
        let k = rw e at h in
        (
          record {
            place = p;
            no_link = ground arith;
            at_place = e;
            in_root = eqb→eq p.parent storage.root (ground arith);
          },
          ground arith,
        )
  ]

module _ (library : Library) (artifacts : ArtifactSet) (storage : Storage) where
  fixed_parts :
      (field_name base_name : String)
      → is_fixed_path artifacts storage (field_name, base_name) ≡ true
      → (storage.link base_name ≡ none)
        × ((s : Supplied)
            → get_key field_name artifacts.fields ≡ some s
            → is_at storage base_name s ≡ true)
  unfolding is_fixed_path
  fixed_parts field_name base_name h =
      (not_link (storage.link base_name) (ground arith), λ s e. ground (arith, rw e at h))

  pub are_delivery_paths-IsLocated :
      are_delivery_paths library artifacts storage ≡ true → IsLocated library artifacts storage
  unfolding are_delivery_paths is_root_kept
  are_delivery_paths-IsLocated h =
      let fixed : all (is_fixed_path artifacts storage) artifact_fixed_names ≡ true =
        ground arith in
      let listed : all (λ name. not (is_safe_flat_name library name && is_symlink storage name))
            (manifest_names library storage)
          ≡ true =
        ground arith in
      let planning : all (λ name. not (is_symlink storage name)) planning_names ≡ true =
        ground arith in
      let added : all (is_supplemental_path library storage) artifacts.supplemental_payloads
          ≡ true =
        ground arith in
      record {
        root = root_kept artifacts.output_dir storage.root (ground arith);
        fixed = λ f b m. (fixed_parts f b (all-mem (is_fixed_path artifacts storage) fixed m)).0;
        supplied = λ f b s m e.
            is_at-IsInRoot library storage b s
              ((fixed_parts f b (all-mem (is_fixed_path artifacts storage) fixed m)).1 s e);
        listed = λ name m safe.
            let t =
              all-mem (λ name. not (is_safe_flat_name library name && is_symlink storage name))
                listed m in
            not_link (storage.link name) (ground arith);
        planning = λ name m.
            not_link (storage.link name)
              (all-mem (λ name. not (is_symlink storage name)) planning m);
        supplemental = λ s m.
            is_supplemental_path-IsInRoot library storage s
              (all-mem (is_supplemental_path library storage) added m);
      }
