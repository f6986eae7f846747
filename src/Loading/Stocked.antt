-- ===== src/Loading/Stocked.antt =====
-- What a loaded catalog says of its document.
use proofbid.Loading.{verified_text}
use proofbid.Runtime.Delivery.{blank}
use proofbid.Prelude.{
  List, String, [], all, ap, arith, map, sym, true, ℕ, ◌∙◌, ◌≡◌, All, Bool-cases, inl, inr, refl,
  suc, ◌||◌, ◌∷◌, nonempty, not,
}
use proofbid.Loading.Table.{
  Csv, Row, attributes_of, attributes_of-returns, has_cell, item_of_row, is_blank, load_rows, Table,
  is_csv_document, load_catalog,
}
use proofbid.Extraction.Kept.{is_evidence}
use proofbid.Extraction.Documents.{Reader}
use proofbid.Contracts.{CatalogItem, EvidenceRef, SourceDocument, evidence_ref}
use proofbid.Matching.Overflow.{is_ok}
use proofbid.Errors.{◌>>=◌, ok, and_then-ok, each_ok, refuse}

-- An item and its records of evidence name the same ids, and the records keep their contract.
abbrev pub IsLinkedItem : CatalogItem → Type 0
IsLinkedItem i =
    (i.evidence_ids ≡ map (λ (e : EvidenceRef). e.evidence_id) i.evidence)
    × (all is_evidence i.evidence ≡ true)

evidence_ref-ok : (e f : EvidenceRef) → evidence_ref e ≡ ok f → (f ≡ e) × (is_evidence e ≡ true)
unfolding evidence_ref is_evidence
evidence_ref-ok e f h = (ground arith, ground arith)

module _ (stable_id : String → List String → String) (reader : Reader) (csv : Csv) where
  item_of_row-IsLinkedItem :
      (document : SourceDocument) (n : ℕ) (row : Row) (i : CatalogItem)
      → item_of_row stable_id reader csv document n row ≡ ok i
      → IsLinkedItem i × (all has_cell row ≡ true)
  unfolding item_of_row
  item_of_row-IsLinkedItem document n row i h =
      let (e, made, rest) = and_then-ok (evidence_ref _) _ h in
      let (attributes, read, last) = and_then-ok (attributes_of row []) _ rest in
      let (same, kept) = evidence_ref-ok _ e made in
      let complete : all has_cell row ≡ true = sym (attributes_of-returns row []) ∙ ap is_ok read in
      let ids : i.evidence_ids ≡ e.evidence_id ∷ [] = rw same (ground arith) in
      let refs : i.evidence ≡ e ∷ [] = ground arith in
      (rw (ids, refs) (refl, rw same (ground arith)), complete)

  load_rows-IsLinkedItem :
      (document : SourceDocument) (n : ℕ) (rows : List Row) (items : List CatalogItem)
      → load_rows stable_id reader csv document n rows ≡ ok items
      → All IsLinkedItem items × (all (λ row. is_blank row || all has_cell row) rows ≡ true)
  unfolding load_rows
  load_rows-IsLinkedItem document n [] items h =
      let none_read : items ≡ [] = ground arith in rw none_read (tt, refl)
  load_rows-IsLinkedItem document n (row ∷ rows) items h = elim (Bool-cases (is_blank row)) [
    | inl blank ↦
        let (linked, complete) =
          load_rows-IsLinkedItem document (suc n) rows items (ground arith) in
        (linked, ground arith)
    | inr filled ↦
        let h0 : (item_of_row stable_id reader csv document n row >>= λ i.
        load_rows stable_id reader csv document (suc n) rows >>= λ more. ok (i ∷ more))
            ≡ ok items =
          ground arith in
        let (i, read, rest) = and_then-ok (item_of_row stable_id reader csv document n row) _ h0 in
        let (more, read_more, last) =
          and_then-ok (load_rows stable_id reader csv document (suc n) rows) _ rest in
        let all_read : items ≡ i ∷ more = ground arith in
        let (link, cells) = item_of_row-IsLinkedItem document n row i read in
        let (links, complete) = load_rows-IsLinkedItem document (suc n) rows more read_more in
        (rw all_read (link, links), ground arith)
  ]

  -- The catalog was read off a table of the document.
  pub record IsStocked (document : SourceDocument) (items : List CatalogItem) : Type 0 where
    pub text : String
    pub read : verified_text reader (is_csv_document document.document_type) document ≡ ok text
    pub table : Table
    pub parsed : csv.read_table text ≡ ok table
    pub linked : All IsLinkedItem items
    pub complete : all (λ row. is_blank row || all has_cell row) table.rows ≡ true

  -- Where a catalog is loaded, the evidence ids of each item are those of its records, each record
  -- has a hash of 64 characters, a locator and an excerpt, and no row of the table that is not blank
  -- lacks a cell of a column that becomes an attribute.
  pub load_catalog-IsStocked :
      (document : SourceDocument) (items : List CatalogItem)
      → load_catalog stable_id reader csv document ≡ ok items
      → IsStocked document items
  unfolding load_catalog
  load_catalog-IsStocked document items h =
      each_ok (IsStocked document)
        (verified_text reader (is_csv_document document.document_type) document) _
        (λ text r0. each_ok (IsStocked document) (csv.read_table text) _ (λ table parsed.
          each_ok (IsStocked document)
            (refuse (not (nonempty table.fieldnames)) "catalog.csv must contain a header row") _
            (λ u r2 found made.
              let (linked, complete) = load_rows-IsLinkedItem document 2 table.rows found made in
              record {
                text = text;
                read = r0;
                table = table;
                parsed = parsed;
                linked = linked;
                complete = complete;
              })))
        items h
