-- ===== src/Loading/Linked.antt =====
-- What a loaded profile says of its document.
use proofbid.Prelude.{List, String, [], all, arith, map, refl, true, ◌∷◌, ◌≡◌}
use proofbid.Loading.{
  Codec, Leaf, evidence_of_leaf, evidence_of_leaves, fact_of_leaf, fact_view, load_bidder_profile,
  record_view, field_leaves, is_json_document, object_of, verified_text,
}
use proofbid.Extraction.Kept.{is_evidence}
use proofbid.Extraction.Documents.{Reader}
use proofbid.Contracts.{BidderProfile, EvidenceRef, SourceDocument, evidence_ref}
use proofbid.Errors.{ok, and_then-ok, each_ok}

abbrev pub IsLinked : BidderProfile → Type 0
IsLinked p =
    (map record_view p.evidence ≡ map fact_view p.facts) × (all is_evidence p.evidence ≡ true)

module _ (stable_id : String → List String → String) (reader : Reader) (codec : Codec) where
  evidence_of_leaf-view :
      (document : SourceDocument) (l : Leaf) (e : EvidenceRef)
      → evidence_of_leaf stable_id reader codec document l ≡ ok e
      → (record_view e ≡ fact_view (fact_of_leaf stable_id reader codec document l))
        × (is_evidence e ≡ true)
  unfolding evidence_of_leaf evidence_ref is_evidence
  evidence_of_leaf-view document l e h = (ground arith, ground arith)

  evidence_of_leaves-view :
      (document : SourceDocument) (ls : List Leaf) (es : List EvidenceRef)
      → evidence_of_leaves stable_id reader codec document ls ≡ ok es
      → (map record_view es ≡ map fact_view (map (fact_of_leaf stable_id reader codec document) ls))
        × (all is_evidence es ≡ true)
  unfolding evidence_of_leaves
  evidence_of_leaves-view document [] es h =
      let none_read : es ≡ [] = ground arith in rw none_read (refl, refl)
  evidence_of_leaves-view document (l ∷ ls) es h =
      let (e, made, rest) = and_then-ok (evidence_of_leaf stable_id reader codec document l) _ h in
      let (more, read, last) =
        and_then-ok (evidence_of_leaves stable_id reader codec document ls) _ rest in
      let all_read : es ≡ e ∷ more = ground arith in
      let (view, kept) = evidence_of_leaf-view document l e made in
      let (views, all_kept) = evidence_of_leaves-view document ls more read in
      rw all_read (cc, ground arith)

  -- A profile that is loaded has one record of evidence for each of its facts, in the same order and
  -- under the same id, with the text of the fact's value; and every record has a hash of 64
  -- characters, a locator and an excerpt.
  pub load_bidder_profile-IsLinked :
      (document : SourceDocument) (p : BidderProfile)
      → load_bidder_profile stable_id reader codec document ≡ ok p
      → IsLinked p
  unfolding load_bidder_profile
  load_bidder_profile-IsLinked document p h =
      each_ok IsLinked (verified_text reader (is_json_document document.document_type) document) _
        (λ text r0. each_ok IsLinked (codec.loads text) _ (λ parsed r1.
          each_ok IsLinked (object_of parsed) _ (λ fields r2.
            each_ok IsLinked
              (evidence_of_leaves stable_id reader codec document (field_leaves [] fields)) _
              (λ evidence read q made.
                let (view, kept) =
                  evidence_of_leaves-view document (field_leaves [] fields) evidence read in
                let e : q.evidence ≡ evidence = ground arith in
                let f : q.facts
                    ≡ map (fact_of_leaf stable_id reader codec document) (field_leaves [] fields) =
                  ground arith in
                rw (e, f) (view, kept)))))
        p h
