-- ===== src/Loading.antt =====
-- matching.py: the loading of a bidder's profile from a JSON document. What reads the document, and
-- what parses its text, are parameters, and so is the stable id's digest.
pub mod Linked
pub mod Table
pub mod Stocked
use proofbid.Regex.{◌then◌}
use proofbid.Prelude.{
  Bool, List, Option, String, [], false, if◌then◌else◌, join, list_eq, map, nat_eq, none, not, some,
  strip, suc, text_eq, true, truthy, ℕ, ◌++◌, ◌<>◌, ◌==◌, ◌∷◌,
}
use proofbid.Format.{scalar_text, show_nat}
use proofbid.Extraction.Documents.{Reader}
use Prim.Native.Char.{code}
use proofbid.Contracts.{
  DocumentType, Scalar, BidderFact, BidderProfile, EvidenceRef, SourceDocument, evidence_ref,
}
use proofbid.Errors.{Result, ok, raised, value_error, refuse, ◌>>=◌, ◌>>◌, found}

mutual
  pub data Json : Type 0 where
    scalar : Scalar → Json
    array : Items → Json
    object : Fields → Json

  pub data Items : Type 0 where
    no_items : Items
    item : Json → Items → Items

  pub data Fields : Type 0 where
    no_fields : Fields
    field : String → Json → Fields → Fields

-- A scalar of a document, with the keys that lead to it.
pub record Leaf : Type 0 where
  pub path : List String
  pub value : Scalar

unfoldable mutual
  pub leaves : List String → Json → List Leaf
  leaves path (scalar v) = record { path = path; value = v } ∷ []
  leaves path (array xs) = item_leaves path 0 xs
  leaves path (object fs) = field_leaves path fs

  pub item_leaves : List String → ℕ → Items → List Leaf
  item_leaves path n no_items = []
  item_leaves path n (item x xs) = leaves (path ++ show_nat n ∷ []) x ++ item_leaves path (suc n) xs

  pub field_leaves : List String → Fields → List Leaf
  field_leaves path no_fields = []
  field_leaves path (field key x fs) = leaves (path ++ key ∷ []) x ++ field_leaves path fs

-- `part.replace("~", "~0").replace("/", "~1")`
unfoldable pub escaped : String → String
escaped String.[] = String.[]
escaped (String.◌∷◌ c s) =
    let rest = escaped s in
    if code c == b'~'
    then "~0" <> rest
    else if code c == b'/'
    then "~1" <> rest
    else String.◌∷◌ c rest

-- `pointer or "/"`: a pointer starts with a slash, so it is never empty.
unfoldable pub pointer_of : Leaf → String
pointer_of l = "/" <> join "/" (map escaped l.path)

-- `json.loads` of a text, and `json.dumps` of a scalar.
pub record Codec : Type 0 where
  pub loads : String → Result Json
  pub dumps : Scalar → String

abbrev pub is_json_document : DocumentType → Bool
is_json_document DocumentType.json = true
is_json_document _ = false

-- `_verified_text`, after the test of the document's type.
unfoldable pub verified_text : Reader → Bool → SourceDocument → Result String
verified_text reader expected document = do
  refuse (not expected) "Expected another document type"
  payload ← reader.read_bytes document
  refuse (not (reader.sha256 payload == document.source_hash)) "Source changed after intake"
  reader.decode payload

-- The last value of a key of the object.
value_at : String → Fields → Option Json
value_at key no_fields = none
value_at key (field k x fs) = elim (value_at key fs) [
  | some y ↦ some y
  | none ↦ if k == key then some x else none
]

-- A text that is not blank, stripped.
name_of : Option Json → Option String
name_of (some (scalar (Scalar.text s))) = let t = strip s in if truthy t then some t else none
name_of _ = none

first_name : List String → Fields → Option String
unfolding value_at name_of
first_name [] data_fields = none
first_name (alias ∷ aliases) data_fields = elim (name_of (value_at alias data_fields)) [
  | some s ↦ some s
  | none ↦ first_name aliases data_fields
]

abbrev name_aliases : List String
name_aliases = "legal_name" ∷ "company_name" ∷ "bidder_name" ∷ "企业名称" ∷ "公司名称" ∷ "name" ∷ "名称" ∷ []

-- `None if value is None else str(value)`
abbrev pub extracted_text : Scalar → Option String
extracted_text Scalar.null = none
extracted_text (Scalar.flag b) = some (scalar_text (Scalar.flag b))
extracted_text (Scalar.number v s) = some s
extracted_text (Scalar.text s) = some s

unfoldable pub object_of : Json → Result Fields
object_of (object fs) = ok fs
object_of _ = raised (value_error "bidder_profile.json must contain a JSON object")

-- What a fact says, and what its record of evidence says.
abbrev pub fact_view : BidderFact → String × Option String
fact_view f = (f.evidence_id, extracted_text f.value)

abbrev pub record_view : EvidenceRef → String × Option String
record_view e = (e.evidence_id, e.extracted_value)

module _ (stable_id : String → List String → String) (reader : Reader) (codec : Codec) where
  abbrev pub leaf_id : SourceDocument → Leaf → String
  leaf_id document l =
      stable_id "ev" (document.source_hash ∷ pointer_of l ∷ codec.dumps l.value ∷ [])

  unfoldable pub evidence_of_leaf : SourceDocument → Leaf → Result EvidenceRef
  evidence_of_leaf document l = evidence_ref (record {
    evidence_id = leaf_id document l;
    source_document_id = document.document_id;
    source_path = document.relative_path;
    source_hash = document.source_hash;
    locator = "json:" <> pointer_of l;
    excerpt = codec.dumps l.value;
    extracted_value = extracted_text l.value;
    confidence = 100;
  })

  abbrev pub fact_of_leaf : SourceDocument → Leaf → BidderFact
  fact_of_leaf document l = record {
    key = join "." l.path;
    value = l.value;
    evidence_id = leaf_id document l;
  }

  -- The loop over the scalars.
  unfoldable pub evidence_of_leaves : SourceDocument → List Leaf → Result (List EvidenceRef)
  evidence_of_leaves document [] = ok []
  evidence_of_leaves document (l ∷ ls) = do
    ref ← evidence_of_leaf document l
    refs ← evidence_of_leaves document ls
    ok (ref ∷ refs)

  -- `load_bidder_profile`
  unfoldable pub load_bidder_profile : SourceDocument → Result BidderProfile
  unfolding object_of first_name
  load_bidder_profile document = do
    text ← verified_text reader (is_json_document document.document_type) document
    parsed ← codec.loads text
    fields ← object_of parsed
    let found = field_leaves [] fields
    evidence ← evidence_of_leaves document found
    ok (record {
      source_document_id = document.document_id;
      source_hash = document.source_hash;
      legal_name = first_name name_aliases fields;
      facts = map (fact_of_leaf document) found;
      evidence = evidence;
    })
