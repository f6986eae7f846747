-- ===== src/Extraction/Documents.antt =====
-- extraction.py: the requirements of a document, line by line, and of several documents.
use proofbid.Regex.{◌then◌}
use proofbid.Prelude.{
  Bool, List, Option, String, [], between, casefold, false, if◌then◌else◌, list_eq, nat_eq, none,
  not, some, strip, suc, text_eq, true, truthy, ℕ, ◌&&◌, ◌++◌, ◌<>◌, ◌==◌, ◌||◌, ◌∷◌, contains, map,
}
use proofbid.Format.{show_nat}
use proofbid.Extraction.Lines.{
  classify, clean_title, cut, heading_of, is_candidate, is_known, is_mandatory, without_bullet,
}
use Prim.Native.Char.{code}
use proofbid.Contracts.{
  DocumentType, RequirementCategory, MatchStatus, EvidenceRef, Requirement, SourceDocument,
  evidence_ref, requirement, ExtractionResult, extraction_result,
}
use proofbid.Errors.{Result, ok, refuse, ◌>>=◌, ◌>>◌}

-- What reads a document's bytes, their digest, and their text.
pub record Reader : Type 0 where
  pub read_bytes : SourceDocument → Result (List ℕ)
  pub sha256 : List ℕ → String
  pub decode : List ℕ → Result String

-- What the loop over the lines keeps.
pub record Cursor : Type 0 where
  pub category : RequirementCategory
  pub heading : String
  pub requirements : List Requirement
  pub evidence : List EvidenceRef

abbrev is_line_end : ℕ → Bool
is_line_end c =
    between 0x0a 0x0d c || (between 0x1c 0x1e c || (c == 0x85 || between 0x2028 0x2029 c))

starts_with_feed : String → Bool
starts_with_feed String.[] = false
starts_with_feed (String.◌∷◌ c s) = code c == 10

-- Puts a character in front of the first line.
onto_first : String → List String → List String
onto_first c [] = c ∷ []
onto_first c (line ∷ lines) = (c <> line) ∷ lines

-- `text.splitlines()`: a carriage return and a line feed end one line.
unfoldable pub split_lines : String → List String
unfolding starts_with_feed onto_first
split_lines String.[] = []
split_lines (String.◌∷◌ c s) =
    let rest = split_lines s in
    if code c == 13 && starts_with_feed s
    then rest
    else if is_line_end (code c)
    then "" ∷ rest
    else onto_first (String.◌∷◌ c String.[]) rest

abbrev pub is_text_document : DocumentType → Bool
is_text_document DocumentType.markdown = true
is_text_document DocumentType.text = true
is_text_document _ = false

-- `current_heading or None`
none_if_empty : String → Option String
none_if_empty s = if truthy s then some s else none

unfoldable pub title_of : String → String → String
title_of heading excerpt =
    let title = clean_title excerpt in
    if truthy heading && not (casefold title == casefold heading)
    then cut 96 (heading <> "：" <> title)
    else title

-- The first of each id: `seen` holds the ids of the list itself.
abbrev pub add_new : {A : Type 0} → (A → String) → List A → A → List A
add_new id_of xs x = if contains (map id_of xs) (id_of x) then xs else xs ++ x ∷ []

unfoldable pub add_all_new : {A : Type 0} → (A → String) → List A → List A → List A
add_all_new id_of xs [] = xs
add_all_new id_of xs (y ∷ ys) = add_all_new id_of (add_new id_of xs y) ys

abbrev pub blank_cursor : Cursor
blank_cursor = record {
  category = RequirementCategory.unknown;
  heading = "";
  requirements = [];
  evidence = [];
}

module _ (stable_id : String → List String → String) where
  unfoldable pub evidence_of_line :
      SourceDocument → RequirementCategory → String → String → EvidenceRef
  evidence_of_line document category locator excerpt = record {
    evidence_id = stable_id "ev" (document.source_hash ∷ locator ∷ excerpt ∷ []);
    source_document_id = document.document_id;
    source_path = document.relative_path;
    source_hash = document.source_hash;
    locator = locator;
    excerpt = excerpt;
    extracted_value = some (strip (without_bullet excerpt));
    confidence = if is_known category then 98 else 70;
  }

  unfoldable pub requirement_of_line :
      SourceDocument → RequirementCategory → String → String → String → Requirement
  unfolding none_if_empty
  requirement_of_line document category heading locator excerpt = record {
    req_id = stable_id "req" (document.source_hash ∷ locator ∷ excerpt ∷ []);
    title = title_of heading excerpt;
    category = category;
    mandatory = is_mandatory excerpt;
    text = strip (without_bullet excerpt);
    evidence_ids = stable_id "ev" (document.source_hash ∷ locator ∷ excerpt ∷ []) ∷ [];
    source_locator = locator;
    source_hash = document.source_hash;
    status = MatchStatus.unknown;
    attributes = ("section", none_if_empty heading) ∷ [];
  }

  -- A candidate line.
  unfoldable pub read_candidate : SourceDocument → ℕ → String → Cursor → Result Cursor
  read_candidate document line_number raw_line c = do
    let excerpt = strip raw_line
    let category = if is_known c.category then c.category else classify excerpt
    let locator = "line:" <> show_nat line_number
    ref ← evidence_ref (evidence_of_line document category locator excerpt)
    r ← requirement (requirement_of_line document category c.heading locator excerpt)
    ok (record c { requirements = c.requirements ++ r ∷ []; evidence = c.evidence ++ ref ∷ [] })

  unfoldable pub read_line : SourceDocument → ℕ → String → Cursor → Result Cursor
  read_line document line_number raw_line c = elim (heading_of raw_line) [
    | some heading ↦ ok (record c { heading = heading; category = classify heading })
    | none ↦
        if is_candidate raw_line c.category
        then read_candidate document line_number raw_line c
        else ok c
  ]

  unfoldable pub read_lines : SourceDocument → ℕ → List String → Cursor → Result Cursor
  read_lines document n [] c = ok c
  read_lines document n (line ∷ lines) c =
      read_line document n line c >>= λ d. read_lines document (suc n) lines d

  -- The part of `_extract_document` that reads the text.
  unfoldable pub extract_text : Reader → SourceDocument → Result ExtractionResult
  extract_text reader document = do
    payload ← reader.read_bytes document
    refuse (not (reader.sha256 payload == document.source_hash)) "Source changed after intake"
    text ← reader.decode payload
    c ← read_lines document 1 (split_lines text) blank_cursor
    extraction_result (record { requirements = c.requirements; evidence = c.evidence })

  -- `_extract_document`
  unfoldable pub extract_document : Reader → SourceDocument → Result ExtractionResult
  extract_document reader document =
      if is_text_document document.document_type
      then extract_text reader document
      else extraction_result (record { requirements = []; evidence = [] })

  unfoldable pub extract_all :
      Reader → List SourceDocument → List Requirement → List EvidenceRef → Result ExtractionResult
  extract_all reader [] requirements evidence =
      extraction_result (record { requirements = requirements; evidence = evidence })
  extract_all reader (document ∷ documents) requirements evidence = do
    result ← extract_document reader document
    extract_all reader documents
        (add_all_new (λ (r : Requirement). r.req_id) requirements result.requirements)
        (add_all_new (λ (e : EvidenceRef). e.evidence_id) evidence result.evidence)

  -- `extract_requirements`
  unfoldable pub extract_requirements : Reader → List SourceDocument → Result ExtractionResult
  extract_requirements reader documents = extract_all reader documents [] []
