-- ===== src/Matching/Blocking.antt =====
-- How an analysis decides the readiness of its package.
use proofbid.Readiness.Gate.{
  blocked_by_items, build_readiness_decision-codes, build_readiness_decision-ready,
}
use proofbid.Readiness.{ValidationReport, build_readiness_decision, item_code}
use proofbid.Prelude.{
  Bool, Bool-cases, List, Memᴰ, String, [], any-mem, ap, arith, contains, eqb_refl, eqb→eq, false,
  inl, inr, list_eq, map, mem-map, nat_eq, refl, select, strip, sym, text_eq, true, truthy, ◌&&◌,
  ◌==◌, ◌∙◌, ◌∷◌, ◌≡◌,
}
use proofbid.Matching.Totals.{missing_reason_code}
use proofbid.Matching.Returns.{is_code, missing_reason_code-is_code}
use proofbid.Matching.Covered.{build_analysis-IsCovered, gap_view, item_view, wants_attention}
use proofbid.Matching.Analysis.{build_analysis}
use proofbid.Contracts.{
  AnalysisBundle, BidderProfile, CatalogItem, ExtractionResult, MissingItem, ReadinessDecision,
  Requirement, is_compliant,
}
use proofbid.Errors.{ok}

mem-select :
    {A : Type 0} (p : A → Bool) {x : A} {xs : List A}
    → Memᴰ x xs
    → p x ≡ true
    → Memᴰ x (select p xs)
mem-select p {x} (Memᴰ.head {x = y} {xs = xs} e) h =
    let hit : p y ≡ true = rw (← e) h in rw hit (Memᴰ.head e)
mem-select p {x} (Memᴰ.tail {x = y} {xs = xs} m) h = elim (Bool-cases (p y)) [
  | inl e ↦ rw e (Memᴰ.tail (mem-select p m h))
  | inr e ↦ rw e (mem-select p m h)
]

mem_of_map :
    {A B : Type 0} (f : A → B) (xs : List A) {y : B}
    → Memᴰ y (map f xs)
    → (x : A) × Memᴰ x xs × (f x ≡ y)
mem_of_map f [] m = elim m [ ]
mem_of_map f (x ∷ xs) (Memᴰ.head e) = (x, Memᴰ.head refl, sym e)
mem_of_map f (x ∷ xs) (Memᴰ.tail m) = let (z, k, e) = mem_of_map f xs m in (z, Memᴰ.tail k, e)

item_code-keeps : (i : MissingItem) → is_code i.reason_code ≡ true → item_code i ≡ i.reason_code
unfolding item_code is_code
item_code-keeps i h =
    let named : truthy i.reason_code ≡ true = ground arith in
    let same : strip i.reason_code ≡ i.reason_code = eqb→eq _ _ (ground arith) in
    rw same (rw named refl)

module _ (stable_id : String → List String → String) (task_id : String) where
  -- The missing item of a requirement that is not compliant.
  item_of_requirement :
      (extraction : ExtractionResult) (profile : BidderProfile) (catalog : List CatalogItem)
      (b : AnalysisBundle) (r : Requirement)
      → build_analysis stable_id task_id extraction profile catalog ≡ ok b
      → Memᴰ r b.requirements
      → is_compliant r.status ≡ false
      → (i : MissingItem) × Memᴰ i b.missing_items × (item_view i ≡ gap_view r)
  item_of_requirement extraction profile catalog b r h m s =
      let c = build_analysis-IsCovered stable_id task_id extraction profile catalog b h in
      mem_of_map item_view b.missing_items
        (rw c.gaps (mem-map gap_view (mem-select wants_attention m (rw s refl))))

  -- Where an analysis leaves a mandatory requirement without a compliant match, no decision on it
  -- is ready for submission, whatever the validation report says, and the requirement's reason
  -- code stands among the blocking codes.
  pub build_analysis-blocks :
      (extraction : ExtractionResult) (profile : BidderProfile) (catalog : List CatalogItem)
      (b : AnalysisBundle) (r : Requirement) (report : ValidationReport) (d : ReadinessDecision)
      → build_analysis stable_id task_id extraction profile catalog ≡ ok b
      → Memᴰ r b.requirements
      → r.mandatory ≡ true
      → is_compliant r.status ≡ false
      → build_readiness_decision b report ≡ ok d
      → (d.ready_for_submission ≡ false)
        × (contains d.blocking_reason_codes (missing_reason_code r) ≡ true)
  build_analysis-blocks extraction profile catalog b r report d h m t s e =
      let (i, k, v) = item_of_requirement extraction profile catalog b r h m s in
      let code : i.reason_code ≡ missing_reason_code r = ap (λ x. x.1.0) v in
      let blocks : i.blocks_completion ≡ true = ap (λ x. x.1.1) v ∙ t in
      let kept : item_code i ≡ missing_reason_code r =
        item_code-keeps i (rw code (missing_reason_code-is_code r)) ∙ code in
      let blocked : blocked_by_items b ≡ true = any-mem (λ j. j.blocks_completion) k blocks in
      let (d', made, ready, _, _, _) = build_readiness_decision-ready b report in
      let same : d ≡ d' = ground arith in
      let named =
        any-mem (λ j. j.blocks_completion && (item_code j == missing_reason_code r)) k
          (rw (blocks, kept) (eqb_refl (missing_reason_code r))) in
      (
        rw same (ground arith),
        rw (build_readiness_decision-codes b report (missing_reason_code r) e).1 (ground arith),
      )
