-- ===== src/Extraction/Kept.antt =====
-- What an extraction keeps: its ids are distinct, and its requirements meet their contract.
use proofbid.Extraction.Lines.{heading_of, is_candidate}
use proofbid.Prelude.{
  Bool, Bool-cases, List, String, [], all, all-append, arith, contains, contains-append, false, inl,
  inr, is_unique, list_eq, map, nat_eq, refl, text_eq, true, ◌++◌, ◌∷◌, ◌≡◌, Option-cases, any,
  codes, leb, length, not, strip, suc, truthy, ℕ, ◌&&◌, ◌==◌,
}
use proofbid.Matching.Returns.{meets_contract}
use proofbid.Extraction.Documents.{
  add_all_new, add_new, Cursor, Reader, extract_document, read_candidate, read_line, read_lines,
  blank_cursor, extract_all, extract_requirements, extract_text, is_text_document, split_lines,
}
use proofbid.Contracts.{
  Requirement, requirement, EvidenceRef, ExtractionResult, SourceDocument, evidence_ref,
  extraction_result,
}
use proofbid.Errors.{ok, and_then-ok, refuse, each_ok}
use mathlib.Core.List.{map-append}

is_unique-snoc :
    (xs : List String) (x : String)
    → is_unique xs ≡ true
    → contains xs x ≡ false
    → is_unique (xs ++ x ∷ []) ≡ true
is_unique-snoc [] x u n = refl
is_unique-snoc (y ∷ xs) x u n = ground (
  arith,
  is_unique-snoc xs x,
  contains-append xs (x ∷ []) y,
  text_eq.eqb_iff x y,
  text_eq.eqb_iff y x,
)

module _ {A : Type 0} (id_of : A → String) where
  add_new_unique :
      (xs : List A) (x : A)
      → is_unique (map id_of xs) ≡ true
      → is_unique (map id_of (add_new id_of xs x)) ≡ true
  add_new_unique xs x u = elim (Bool-cases (contains (map id_of xs) (id_of x))) [
    | inl old ↦ simp old u
    | inr new ↦
        simp (new, map-append id_of xs (x ∷ [])) (is_unique-snoc (map id_of xs) (id_of x) u new)
  ]

  pub add_all_new_unique :
      (ys xs : List A)
      → is_unique (map id_of xs) ≡ true
      → is_unique (map id_of (add_all_new id_of xs ys)) ≡ true
  unfolding add_all_new
  add_all_new_unique [] xs u = u
  add_all_new_unique (y ∷ ys) xs u =
      add_all_new_unique ys (add_new id_of xs y) (add_new_unique xs y u)

  pub all-add_all_new :
      (p : A → Bool) (ys xs : List A)
      → all p xs ≡ true
      → all p ys ≡ true
      → all p (add_all_new id_of xs ys) ≡ true
  unfolding add_all_new
  all-add_all_new p [] xs h k = h
  all-add_all_new p (y ∷ ys) xs h k =
      let grown : all p (add_new id_of xs y) ≡ true = ground (arith, all-append p xs (y ∷ [])) in
      all-add_all_new p ys (add_new id_of xs y) grown (ground arith)

requirement-meets : (r q : Requirement) → requirement r ≡ ok q → meets_contract q ≡ true
unfolding requirement meets_contract
requirement-meets r q h = ground arith

-- The contract of an evidence record.
unfoldable pub is_evidence : EvidenceRef → Bool
is_evidence e =
    length (codes e.source_hash) == 64
    && (truthy (strip e.locator) && (truthy (strip e.excerpt) && leb e.confidence 100))

evidence_ref-is : (e f : EvidenceRef) → evidence_ref e ≡ ok f → is_evidence f ≡ true
unfolding evidence_ref is_evidence
evidence_ref-is e f h = ground arith

-- A requirement names evidence that the result does not have.
abbrev pub has_gap : ExtractionResult → Bool
has_gap x =
    any
      (λ (r : Requirement).
        any (λ i. not (contains (map (λ (e : EvidenceRef). e.evidence_id) x.evidence) i))
          r.evidence_ids)
      x.requirements

extraction_result-ok :
    (x y : ExtractionResult) → extraction_result x ≡ ok y → (y ≡ x) × (has_gap x ≡ false)
unfolding extraction_result
extraction_result-ok x y h = elim (Bool-cases (has_gap x)) [
  | inl gap ↦ absurd (ground arith)
  | inr closed ↦ (ground arith, closed)
]

abbrev IsSound : List Requirement → List EvidenceRef → Type 0
IsSound requirements evidence =
    (all meets_contract requirements ≡ true) × (all is_evidence evidence ≡ true)

-- Ids are distinct, every record keeps its contract, and every id of evidence has its record.
pub record IsExtraction (x : ExtractionResult) : Type 0 where
  pub requirements_distinct : is_unique (map (λ (r : Requirement). r.req_id) x.requirements) ≡ true
  pub evidence_distinct : is_unique (map (λ (e : EvidenceRef). e.evidence_id) x.evidence) ≡ true
  pub requirements_kept : all meets_contract x.requirements ≡ true
  pub evidence_kept : all is_evidence x.evidence ≡ true
  pub closed : has_gap x ≡ false

module _ (stable_id : String → List String → String) where
  read_candidate-IsSound :
      (document : SourceDocument) (n : ℕ) (line : String) (c d : Cursor)
      → read_candidate stable_id document n line c ≡ ok d
      → IsSound c.requirements c.evidence
      → IsSound d.requirements d.evidence
  unfolding read_candidate
  read_candidate-IsSound document n line c d h (rs, es) =
      let (ref, made, h1) = and_then-ok (evidence_ref _) _ h in
      let (r, kept, h2) = and_then-ok (requirement _) _ h1 in
      let a : d.requirements ≡ c.requirements ++ r ∷ [] = ground arith in
      let b : d.evidence ≡ c.evidence ++ ref ∷ [] = ground arith in
      let p = requirement-meets _ r kept in
      let q = evidence_ref-is _ ref made in
      (
        rw a (ground (arith, all-append meets_contract c.requirements (r ∷ []))),
        rw b (ground (arith, all-append is_evidence c.evidence (ref ∷ []))),
      )

  read_line-IsSound :
      (document : SourceDocument) (n : ℕ) (line : String) (c d : Cursor)
      → read_line stable_id document n line c ≡ ok d
      → IsSound c.requirements c.evidence
      → IsSound d.requirements d.evidence
  unfolding read_line
  read_line-IsSound document n line c d h s = elim (Option-cases (heading_of line)) [
    | inr (heading, e) ↦
        let a : d.requirements ≡ c.requirements = ground arith in
        let b : d.evidence ≡ c.evidence = ground arith in rw (a, b) s
    | inl e ↦ elim (Bool-cases (is_candidate line c.category)) [
      | inl taken ↦ read_candidate-IsSound document n line c d (ground arith) s
      | inr passed_over ↦ let same : d ≡ c = ground arith in rw same s
    ]
  ]

  read_lines-IsSound :
      (document : SourceDocument) (n : ℕ) (lines : List String) (c d : Cursor)
      → read_lines stable_id document n lines c ≡ ok d
      → IsSound c.requirements c.evidence
      → IsSound d.requirements d.evidence
  unfolding read_lines
  read_lines-IsSound document n [] c d h s = let same : d ≡ c = ground arith in rw same s
  read_lines-IsSound document n (line ∷ lines) c d h s =
      let (m, first, rest) = and_then-ok (read_line stable_id document n line c) _ h in
      read_lines-IsSound document (suc n) lines m d rest
        (read_line-IsSound document n line c m first s)

  extract_text-IsSound :
      (reader : Reader) (document : SourceDocument) (x : ExtractionResult)
      → extract_text stable_id reader document ≡ ok x
      → IsSound x.requirements x.evidence
  unfolding extract_text
  extract_text-IsSound reader document x h =
      let P = λ (y : ExtractionResult). IsSound y.requirements y.evidence in
      each_ok P (reader.read_bytes document) _
        (λ payload r0.
          each_ok P
            (refuse (not (reader.sha256 payload == document.source_hash))
              "Source changed after intake")
            _
            (λ u r1. each_ok P (reader.decode payload) _ (λ text r2.
              each_ok P (read_lines stable_id document 1 (split_lines text) blank_cursor) _
                (λ c read y made.
                  let (same, closed) = extraction_result-ok _ y made in
                  rw same (
                    read_lines-IsSound document 1 (split_lines text) blank_cursor c read
                      (refl, refl))))))
        x h

  extract_document-IsSound :
      (reader : Reader) (document : SourceDocument) (x : ExtractionResult)
      → extract_document stable_id reader document ≡ ok x
      → IsSound x.requirements x.evidence
  unfolding extract_document
  extract_document-IsSound reader document x h =
      elim (Bool-cases (is_text_document document.document_type)) [
        | inr other ↦
            let made : extraction_result (record { requirements = []; evidence = [] }) ≡ ok x =
              ground arith in
            let (same, closed) = extraction_result-ok _ x made in rw same (refl, refl)
        | inl readable ↦ extract_text-IsSound reader document x (ground arith)
      ]

  extract_all-IsExtraction :
      (reader : Reader) (documents : List SourceDocument) (requirements : List Requirement)
      (evidence : List EvidenceRef) (x : ExtractionResult)
      → extract_all stable_id reader documents requirements evidence ≡ ok x
      → is_unique (map (λ (r : Requirement). r.req_id) requirements) ≡ true
      → is_unique (map (λ (e : EvidenceRef). e.evidence_id) evidence) ≡ true
      → IsSound requirements evidence
      → IsExtraction x
  unfolding extract_all
  extract_all-IsExtraction reader [] requirements evidence x h u v (rs, es) =
      let (same, closed) = extraction_result-ok _ x h in
      rw same (record {
        requirements_distinct = u;
        evidence_distinct = v;
        requirements_kept = rs;
        evidence_kept = es;
        closed = closed;
      })
  extract_all-IsExtraction reader (document ∷ documents) requirements evidence x h u v (rs, es) =
      let (result, read, rest) = and_then-ok (extract_document stable_id reader document) _ h in
      let (new_rs, new_es) = extract_document-IsSound reader document result read in
      let req_id = λ (r : Requirement). r.req_id in
      let evidence_id = λ (e : EvidenceRef). e.evidence_id in
      extract_all-IsExtraction reader documents
        (add_all_new req_id requirements result.requirements)
        (add_all_new evidence_id evidence result.evidence) x rest
        (add_all_new_unique req_id result.requirements requirements u)
        (add_all_new_unique evidence_id result.evidence evidence v)
        (
          all-add_all_new req_id meets_contract result.requirements requirements rs new_rs,
          all-add_all_new evidence_id is_evidence result.evidence evidence es new_es,
        )

  -- The requirements of an extraction that returns have distinct ids, and so has its evidence; every
  -- requirement has evidence, a source locator and a hash of 64 characters; every evidence record has
  -- a hash of 64 characters, a locator and an excerpt; and every id of evidence has its record.
  pub extract_requirements-IsExtraction :
      (reader : Reader) (documents : List SourceDocument) (x : ExtractionResult)
      → extract_requirements stable_id reader documents ≡ ok x
      → IsExtraction x
  unfolding extract_requirements
  extract_requirements-IsExtraction reader documents x h =
      extract_all-IsExtraction reader documents [] [] x h refl refl (refl, refl)
