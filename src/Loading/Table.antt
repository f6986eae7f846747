-- ===== src/Loading/Table.antt =====
-- matching.py: the loading of the catalog from a CSV document. The CSV library is a parameter: a row
-- has the cells of the header's columns, and a cell that its line lacks is absent.
use proofbid.Loading.{verified_text}
use proofbid.Format.{show_nat}
use proofbid.Extraction.Documents.{Reader}
use proofbid.Regex.{Pattern, digit, many, match_start, maybe, one_of, some_more, word, ◌or◌, ◌then◌}
use proofbid.Matching.Overflow.{is_ok}
use proofbid.Prelude.{
  Bool, Dict, List, Option, String, [], all, arith, between, casefold, codes, contains, get_key,
  if◌then◌else◌, is_some, list_eq, map, nat_eq, none, not, put_key, refl, select, some, strip,
  text_eq, truthy, ℕ, ◌&&◌, ◌++◌, ◌||◌, ◌∷◌, ◌≡◌, any, false, nonempty, suc, true, ◌<>◌, ◌∙◌,
}
use proofbid.Matching.Facts.{float_of}
use proofbid.Decimal.{Decimal}
use Prim.Native.Char.{code}
use proofbid.Contracts.{DocumentType, Scalar, CatalogItem, SourceDocument, evidence_ref}
use proofbid.Errors.{Result, ok, raised, plain_failure, refuse, ◌>>=◌, ◌>>◌}

abbrev pub Row : Type 0
Row = Dict String (Option String)

pub record Table : Type 0 where
  pub fieldnames : List String
  pub rows : List Row

-- `csv.DictReader` of a text, and `json.dumps` of a row.
pub record Csv : Type 0 where
  pub read_table : String → Result Table
  pub dumps_row : Row → String

-- `(value or "").strip()`
abbrev cell_text : Option String → String
cell_text none = ""
cell_text (some s) = strip s

normalized_row : Row → Dict (List ℕ) String → Dict (List ℕ) String
normalized_row [] d = d
normalized_row ((key, value) ∷ row) d =
    normalized_row row (put_key (casefold (strip key)) (cell_text value) d)

first_filled : List String → Dict (List ℕ) String → Option String
first_filled [] d = none
first_filled (alias ∷ aliases) d = elim (get_key (casefold alias) d) [
  | none ↦ first_filled aliases d
  | some s ↦ if truthy s then some s else first_filled aliases d
]

-- `_first`
unfoldable pub first_of_row : Row → List String → Option String
unfolding normalized_row first_filled
first_of_row row aliases = first_filled aliases (normalized_row row [])

abbrev id_aliases : List String
id_aliases = "item_id" ∷ "sku" ∷ "product_id" ∷ "产品编号" ∷ "物料编码" ∷ "编号" ∷ []

abbrev item_name_aliases : List String
item_name_aliases = "name" ∷ "product_name" ∷ "产品名称" ∷ "商品名称" ∷ "名称" ∷ []

abbrev model_aliases : List String
model_aliases = "model" ∷ "型号" ∷ "规格型号" ∷ []

abbrev category_aliases : List String
category_aliases = "category" ∷ "product_category" ∷ "品类" ∷ "类别" ∷ []

abbrev unit_aliases : List String
unit_aliases = "unit" ∷ "单位" ∷ []

abbrev price_aliases : List String
price_aliases = "unit_price" ∷ "price" ∷ "单价" ∷ "含税单价" ∷ []

abbrev currency_aliases : List String
currency_aliases = "currency" ∷ "币种" ∷ []

abbrev cert_aliases : List String
cert_aliases = "certifications" ∷ "certificates" ∷ "认证" ∷ "资质" ∷ "证书" ∷ []

-- The number that a text of digits, points and signs writes, where `float` takes it.
float_pattern : Pattern
float_pattern =
    maybe (one_of ("+" ∷ "-" ∷ []))
    then ((some_more digit then maybe (word "." then many digit))
        or (word "." then some_more digit))

float_or_none : String → Option Decimal
unfolding float_pattern
float_or_none s = elim (match_start float_pattern s) [
  | none ↦ none
  | some f ↦ if truthy f.rest then none else some (float_of s)
]

is_price_char : ℕ → Bool
is_price_char c = between 48 57 c || contains (codes ".+-") c

price_chars : String → String
unfolding is_price_char
price_chars String.[] = String.[]
price_chars (String.◌∷◌ c s) =
    let rest = price_chars s in if is_price_char (code c) then String.◌∷◌ c rest else rest

-- `_price`
unfoldable pub price_of_cell : Option String → Option Decimal
unfolding price_chars float_or_none
price_of_cell none = none
price_of_cell (some raw) = float_or_none (price_chars raw)

-- `re.split(r"[,，;；|]", text)`
split_marks : String → List String
split_marks String.[] = "" ∷ []
split_marks (String.◌∷◌ c s) = elim (split_marks s) [
  | [] ↦ []
  | part ∷ parts ↦
      if contains (codes ",，;；|") (code c) then "" ∷ part ∷ parts else String.◌∷◌ c part ∷ parts
]

unfoldable pub certifications_of : Row → List String
unfolding split_marks
certifications_of row =
    select truthy (map strip (split_marks (cell_text (first_of_row row cert_aliases))))

abbrev reserved : List (List ℕ)
reserved = map casefold (
    id_aliases
    ++ (item_name_aliases
        ++ (model_aliases
            ++ (category_aliases
                ++ (unit_aliases ++ (price_aliases ++ (currency_aliases ++ cert_aliases)))))))

-- A column that becomes an attribute.
unfoldable pub is_attribute : String → Bool
is_attribute key = truthy key && not (contains reserved (casefold (strip key)))

-- `value.strip() or None`
scalar_of_cell : String → Scalar
scalar_of_cell s = let t = strip s in if truthy t then Scalar.text t else Scalar.null

-- `attributes`: an absent cell has no `strip`.
unfoldable pub attributes_of : Row → Dict String Scalar → Result (Dict String Scalar)
unfolding scalar_of_cell
attributes_of [] d = ok d
attributes_of ((key, none) ∷ row) d =
    if is_attribute key then raised (plain_failure "AttributeError") else attributes_of row d
attributes_of ((key, some value) ∷ row) d =
    attributes_of row (if is_attribute key then put_key (strip key) (scalar_of_cell value) d else d)

-- A column that becomes an attribute has its cell.
abbrev pub has_cell : String × Option String → Bool
has_cell (key, value) = not (is_attribute key) || is_some value

kept_cell : (a b : Bool) → b ≡ ((not a || true) && b)
kept_cell true b = refl
kept_cell false b = refl

-- The attributes of a row are read exactly when no column that becomes an attribute lacks its cell.
pub attributes_of-returns :
    (row : Row) (d : Dict String Scalar) → is_ok (attributes_of row d) ≡ all has_cell row
unfolding attributes_of
attributes_of-returns [] d = refl
attributes_of-returns ((key, none) ∷ row) d = ground (arith, attributes_of-returns row d)
attributes_of-returns ((key, some value) ∷ row) d =
    attributes_of-returns row _ ∙ kept_cell (is_attribute key) (all has_cell row)

abbrev pub is_csv_document : DocumentType → Bool
is_csv_document DocumentType.csv = true
is_csv_document _ = false

unfoldable pub is_blank : Row → Bool
is_blank row = not (any (λ e. truthy (cell_text e.1)) row)

or_else : Option String → String → String
or_else none s = s
or_else (some t) s = t

module _ (stable_id : String → List String → String) (reader : Reader) (csv : Csv) where
  unfoldable pub item_of_row : SourceDocument → ℕ → Row → Result CatalogItem
  unfolding or_else
  item_of_row document row_number row = do
    let shown_row = "row:" <> show_nat row_number
    let item_id =
        or_else (first_of_row row id_aliases)
          (stable_id "item" (document.source_hash ∷ show_nat row_number ∷ []))
    let evidence_id = stable_id "ev" (document.source_hash ∷ shown_row ∷ csv.dumps_row row ∷ [])
    ref ← evidence_ref (record {
      evidence_id = evidence_id;
      source_document_id = document.document_id;
      source_path = document.relative_path;
      source_hash = document.source_hash;
      locator = shown_row;
      excerpt = csv.dumps_row row;
      extracted_value = some item_id;
      confidence = 100;
    })
    attributes ← attributes_of row []
    ok (record {
      item_id = item_id;
      name = first_of_row row item_name_aliases;
      model = first_of_row row model_aliases;
      category = first_of_row row category_aliases;
      unit = first_of_row row unit_aliases;
      unit_price = price_of_cell (first_of_row row price_aliases);
      currency = first_of_row row currency_aliases;
      attributes = attributes;
      certifications = certifications_of row;
      evidence_ids = evidence_id ∷ [];
      evidence = ref ∷ [];
    })

  -- The loop over the rows; a blank one is passed over.
  unfoldable pub load_rows : SourceDocument → ℕ → List Row → Result (List CatalogItem)
  unfolding is_blank
  load_rows document n [] = ok []
  load_rows document n (row ∷ rows) =
      if is_blank row
      then load_rows document (suc n) rows
      else (item_of_row document n row >>= λ i.
          load_rows document (suc n) rows >>= λ items. ok (i ∷ items))

  -- `load_catalog`; the rows are numbered from the second line on.
  unfoldable pub load_catalog : SourceDocument → Result (List CatalogItem)
  load_catalog document = do
    text ← verified_text reader (is_csv_document document.document_type) document
    table ← csv.read_table text
    refuse (not (nonempty table.fieldnames)) "catalog.csv must contain a header row"
    load_rows document 2 table.rows
