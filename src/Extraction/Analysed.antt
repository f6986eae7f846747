-- ===== src/Extraction/Analysed.antt =====
-- extraction.py and matching.py: the analysis of what was extracted.
use proofbid.Prelude.{
  List, String, [], ap, is_unique, list_eq, map, nat_eq, refl, sym, text_eq, true, ◌∙◌, ◌∷◌, ◌≡◌,
}
use proofbid.Matching.Covered.{build_analysis-IsCovered, match_view, status_view, unassessed}
use proofbid.Matching.Analysis.{build_analysis}
use proofbid.Extraction.Kept.{extract_requirements-IsExtraction}
use proofbid.Extraction.Documents.{Reader, extract_requirements}
use proofbid.Contracts.{
  AnalysisBundle, BidderProfile, CatalogItem, ComplianceMatch, ExtractionResult, Requirement,
  SourceDocument,
}
use proofbid.Errors.{ok}

map-fused :
    {A B C : Type 0} (f : A → B) (g : B → C) (xs : List A)
    → map g (map f xs) ≡ map (λ x. g (f x)) xs
map-fused f g [] = refl
map-fused f g (x ∷ xs) = ap (λ ys. g (f x) ∷ ys) (map-fused f g xs)

-- Two lists that agree under a view agree under what the view shows.
map-shown :
    {A B C D : Type 0} (f : A → C) (g : B → C) (show : C → D) (xs : List A) (ys : List B)
    → map f xs ≡ map g ys
    → map (λ x. show (f x)) xs ≡ map (λ y. show (g y)) ys
map-shown f g show xs ys e = sym (map-fused f show xs) ∙ (ap (map show) e ∙ map-fused g show ys)

abbrev pub matched_ids : AnalysisBundle → List String
matched_ids b = map (λ (m : ComplianceMatch). m.requirement_id) b.matches

abbrev pub extracted_ids : ExtractionResult → List String
extracted_ids x = map (λ (r : Requirement). r.req_id) x.requirements

module _ (stable_id : String → List String → String) (task_id : String) where
  -- The analysis of what was extracted, where it returns, has exactly one match for each extracted
  -- requirement, in their order, and no requirement has two.
  pub extracted-matched :
      (reader : Reader) (documents : List SourceDocument) (x : ExtractionResult)
      (profile : BidderProfile) (catalog : List CatalogItem) (b : AnalysisBundle)
      → extract_requirements stable_id reader documents ≡ ok x
      → build_analysis stable_id task_id x profile catalog ≡ ok b
      → (matched_ids b ≡ extracted_ids x) × (is_unique (matched_ids b) ≡ true)
  unfolding unassessed
  extracted-matched reader documents x profile catalog b h g =
      let kept = extract_requirements-IsExtraction stable_id reader documents x h in
      let c = build_analysis-IsCovered stable_id task_id x profile catalog b g in
      let ids : matched_ids b ≡ extracted_ids x =
        map-shown match_view status_view (λ p. p.0) b.matches b.requirements c.one_match
        ∙ map-shown unassessed unassessed (λ r. r.req_id) b.requirements x.requirements c.kept in
      (ids, rw ids kept.requirements_distinct)
