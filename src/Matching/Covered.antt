-- ===== src/Matching/Covered.antt =====
-- What an analysis says of each requirement, over all rounds of `build_analysis`.
use mathlib.Core.List.{map-append}
use proofbid.Errors.{ok, Result-cases}
use proofbid.Prelude.{
  Bool, List, String, arith, map, not, select, ◌++◌, ◌≡◌, Bool-cases, [], inl, inr, refl, ◌∷◌,
  values, append-nil, append_assoc,
}
use proofbid.Matching.Totals.{missing_reason_code}
use proofbid.Matching.Analysis.{
  Progress, asks_for_product, is_deviation, with_status, Assessment, add_assessment, deviations_of,
  item_of, lines_of, match_of, missing_of, assess, assess_all, assess_next, build_analysis, fresh,
}
use proofbid.Contracts.{
  BomLine, ComplianceMatch, Deviation, MatchStatus, MissingItem, Requirement, is_compliant,
  missing_item, requirement, BidderProfile, CatalogItem, AnalysisBundle, ExtractionResult,
}

-- The requirement without its status, which is all that an analysis changes.
unfoldable pub unassessed : Requirement → Requirement
unassessed r = with_status MatchStatus.unknown r

abbrev pub wants_attention : Requirement → Bool
wants_attention r = not (is_compliant r.status)

abbrev pub deviates : Requirement → Bool
deviates r = is_deviation r.status

-- What the lists of an analysis say, by requirement.
abbrev pub match_view : ComplianceMatch → String × MatchStatus
match_view m = (m.requirement_id, m.status)

abbrev pub item_view : MissingItem → String × (String × Bool)
item_view i = (i.requirement_id, (i.reason_code, i.blocks_completion))

abbrev pub deviation_view : Deviation → String × MatchStatus
deviation_view d = (d.requirement_id, d.status)

abbrev pub line_view : BomLine → String × MatchStatus
line_view l = (l.requirement_id, l.status)

abbrev pub status_view : Requirement → String × MatchStatus
status_view r = (r.req_id, r.status)

abbrev pub gap_view : Requirement → String × (String × Bool)
gap_view r = (r.req_id, (missing_reason_code r, r.mandatory))

-- The lists that the requirements `rs` and their statuses call for.
pub record IsCovered (done rs : List Requirement) (matches : List ComplianceMatch)
    (missing_items : List MissingItem) (deviations : List Deviation) (bom : List BomLine)
    : Type 0 where
  pub kept : map unassessed rs ≡ map unassessed done
  pub one_match : map match_view matches ≡ map status_view rs
  pub gaps : map item_view missing_items ≡ map gap_view (select wants_attention rs)
  pub deviating : map deviation_view deviations ≡ map status_view (select deviates rs)
  pub products : map line_view bom ≡ map status_view (select asks_for_product rs)

abbrev CoversProgress : List Requirement → Progress → Type 0
CoversProgress done p = IsCovered done p.assessed p.matches p.missing_items p.deviations p.bom

requirement-ok : (r q : Requirement) → requirement r ≡ ok q → q ≡ r
unfolding requirement
requirement-ok r q h = ground arith

missing_item-ok : (i j : MissingItem) → missing_item i ≡ ok j → j ≡ i
unfolding missing_item
missing_item-ok i j h = ground arith

map-extend :
    {A B C : Type 0} (f : A → C) (g : B → C) (xs zs : List A) (ys ws : List B)
    → map f xs ≡ map g ys
    → map f zs ≡ map g ws
    → map f (xs ++ zs) ≡ map g (ys ++ ws)
map-extend f g xs zs ys ws e h = rw (map-append f xs zs) (rw (map-append g ys ws) (rw (e, h) refl))

select-append :
    {A : Type 0} (p : A → Bool) (xs ys : List A) → select p (xs ++ ys) ≡ select p xs ++ select p ys
select-append p [] ys = refl
select-append p (x ∷ xs) ys = ground (arith, select-append p xs ys)

-- The same for a list that the selected elements call for.
select-extend :
    {A B C : Type 0} (f : A → C) (g : B → C) (p : B → Bool) (xs zs : List A) (ys ws : List B)
    → map f xs ≡ map g (select p ys)
    → map f zs ≡ map g (select p ws)
    → map f (xs ++ zs) ≡ map g (select p (ys ++ ws))
select-extend f g p xs zs ys ws e h =
    rw (select-append p ys ws) (map-extend f g xs zs (select p ys) (select p ws) e h)

nothing_yet : CoversProgress [] fresh
nothing_yet = record {
  kept = refl;
  one_match = refl;
  gaps = refl;
  deviating = refl;
  products = refl;
}

module _ (stable_id : String → List String → String) (task_id : String) where
  reason_of_status :
      (r : Requirement) (status : MatchStatus)
      → missing_reason_code (with_status status r) ≡ missing_reason_code r
  unfolding missing_reason_code
  reason_of_status r status = refl

  missing_of-view :
      (r : Requirement) (status : MatchStatus) (missing : List MissingItem)
      → missing_of stable_id task_id r status ≡ ok missing
      → map item_view missing ≡ map gap_view (select wants_attention (with_status status r ∷ []))
  unfolding missing_of item_of
  missing_of-view r status missing h = elim (Bool-cases (is_compliant status)) [
    | inl e ↦ let empty : missing ≡ [] = ground arith in rw empty (simp e refl)
    | inr e ↦ elim (Result-cases (missing_item (item_of stable_id task_id r))) [
      | inl (i, g) ↦
          let same = missing_item-ok (item_of stable_id task_id r) i g in
          let one : missing ≡ i ∷ [] = ground arith in
          rw one (rw same (simp (e, reason_of_status) refl))
      | inr (x, g) ↦ absurd (ground arith)
    ]
  ]

  deviations_of-view :
      (r : Requirement) (a : Assessment)
      → map deviation_view (deviations_of stable_id task_id r a)
        ≡ map status_view (select deviates (with_status a.status r ∷ []))
  unfolding deviations_of
  deviations_of-view r a = elim (Bool-cases (is_deviation a.status)) [
    | inl e ↦ simp e refl
    | inr e ↦ simp e refl
  ]

  lines_of-view :
      (r : Requirement) (a : Assessment)
      → map line_view (lines_of stable_id task_id r a)
        ≡ map status_view (select asks_for_product (with_status a.status r ∷ []))
  unfolding lines_of asks_for_product
  lines_of-view r a = elim (Bool-cases (asks_for_product r)) [
    | inl e ↦ simp e refl
    | inr e ↦ simp e refl
  ]

  add_assessment-IsCovered :
      {done : List Requirement} (p : Progress) (r : Requirement) (a : Assessment)
      (missing : List MissingItem)
      → missing_of stable_id task_id r a.status ≡ ok missing
      → CoversProgress done p
      → CoversProgress
          (done ++ r ∷ [])
          (add_assessment stable_id task_id p r a (with_status a.status r) missing)
  unfolding add_assessment match_of unassessed
  add_assessment-IsCovered {done} p r a missing e c = record {
    kept = map-extend unassessed unassessed p.assessed _ done (r ∷ []) c.kept refl;
    one_match = map-extend match_view status_view p.matches _ p.assessed _ c.one_match refl;
    gaps =
        select-extend item_view gap_view wants_attention p.missing_items missing p.assessed _ c.gaps
          (missing_of-view r a.status missing e);
    deviating =
        select-extend deviation_view status_view deviates p.deviations _ p.assessed _ c.deviating
          (deviations_of-view r a);
    products =
        select-extend line_view status_view asks_for_product p.bom _ p.assessed _ c.products
          (lines_of-view r a);
  }

  -- A round that returns adds what one assessment calls for.
  assess_next-IsCovered :
      (profile : BidderProfile) (catalog : List CatalogItem) (done : List Requirement)
      (p : Progress) (r : Requirement) (q : Progress)
      → assess_next stable_id task_id profile catalog p r ≡ ok q
      → CoversProgress done p
      → CoversProgress (done ++ r ∷ []) q
  unfolding assess_next
  assess_next-IsCovered profile catalog done p r q h c =
      elim (Result-cases (assess profile catalog p.bom (values p.selected) r)) [
        | inr (x, e) ↦ absurd (ground arith)
        | inl (a, e) ↦ elim (Result-cases (requirement (with_status a.status r))) [
          | inr (x, g) ↦ absurd (ground arith)
          | inl (checked, g) ↦ elim (Result-cases (missing_of stable_id task_id r a.status)) [
            | inr (x, k) ↦ absurd (ground arith)
            | inl (missing, k) ↦
                let same = requirement-ok (with_status a.status r) checked g in
                let added : q ≡ add_assessment stable_id task_id p r a checked missing =
                  ground arith in
                rw added (rw same (add_assessment-IsCovered p r a missing k c))
          ]
        ]
      ]

  assess_all-IsCovered :
      (profile : BidderProfile) (catalog : List CatalogItem) (done : List Requirement)
      (p : Progress) (rs : List Requirement) (q : Progress)
      → assess_all stable_id task_id profile catalog p rs ≡ ok q
      → CoversProgress done p
      → CoversProgress (done ++ rs) q
  unfolding assess_all
  assess_all-IsCovered profile catalog done p [] q h c =
      let same : q ≡ p = ground arith in rw (append-nil done) (rw same c)
  assess_all-IsCovered profile catalog done p (r ∷ rs) q h c =
      elim (Result-cases (assess_next stable_id task_id profile catalog p r)) [
        | inr (x, e) ↦ absurd (ground arith)
        | inl (p', e) ↦
            let rest : assess_all stable_id task_id profile catalog p' rs ≡ ok q = ground arith in
            rw (← append_assoc done (r ∷ []) rs) (
              assess_all-IsCovered profile catalog (done ++ r ∷ []) p' rs q rest
                (assess_next-IsCovered profile catalog done p r p' e c))
      ]

  -- An analysis that returns keeps the requirements of the extraction but for their status, has one
  -- match for each of them, in their order and with their status, a missing item with the reason
  -- code and the mandatory flag for exactly those that are not compliant, a deviation for exactly
  -- those that are partial or non-compliant, and a line of the bill of materials for exactly the
  -- technical ones that ask for a product.
  pub build_analysis-IsCovered :
      (extraction : ExtractionResult) (profile : BidderProfile) (catalog : List CatalogItem)
      (b : AnalysisBundle)
      → build_analysis stable_id task_id extraction profile catalog ≡ ok b
      → IsCovered extraction.requirements b.requirements b.matches b.missing_items b.deviations
          b.bom
  unfolding build_analysis
  build_analysis-IsCovered extraction profile catalog b h =
      elim (Result-cases
        (assess_all stable_id task_id profile catalog fresh extraction.requirements)) [
          | inr (x, e) ↦ absurd (ground arith)
          | inl (q, e) ↦
              let r : b.requirements ≡ q.assessed = ground arith in
              let m : b.matches ≡ q.matches = ground arith in
              let i : b.missing_items ≡ q.missing_items = ground arith in
              let d : b.deviations ≡ q.deviations = ground arith in
              let l : b.bom ≡ q.bom = ground arith in
              rw (r, m, i, d, l)
                (assess_all-IsCovered profile catalog [] fresh extraction.requirements q e
                  nothing_yet)
        ]
