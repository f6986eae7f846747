-- ===== src/Matching/Candidates.antt =====
-- matching.py: how catalog items are scored for a requirement, and which is chosen.
use proofbid.Regex.{
  Found, Pattern, at_most_lazily, char, find_all, group, many, maybe, one_of, size, spaces, ◌then◌,
}
use proofbid.Prelude.{
  Bool, Dict, List, Option, String, [], any, between, casefold, codes, compact, contains, false,
  get_key, if◌then◌else◌, leb, length, list_eq, ltb, map, nat_eq, none, nonempty, not, put_key,
  select, some, strip, text_eq, text_le, true, truthy, ℕ, ◌&&◌, ◌+◌, ◌<>◌, ◌==◌, ◌||◌, ◌∷◌,
}
use proofbid.Matching.Facts.{decimal_pattern, group_text, mentions_any, number_of, within}
use proofbid.Errors.{Result, ok, ◌>>=◌}
use proofbid.Format.{scalar_text, show_float}
use proofbid.Decimal.{Decimal, decimal_eq, decimal_le}
use proofbid.Contracts.{Scalar, null, number, text, CatalogItem, Requirement}

pub data Intent : Type 0 where
  controller display : Intent

abbrev pub same_intent : Intent → Option Intent → Bool
same_intent controller (some controller) = true
same_intent display (some display) = true
same_intent _ _ = false

-- `_product_intent`
unfoldable pub product_intent : String → Option Intent
product_intent s =
    if mentions_any ("控制终端" ∷ "控制主机" ∷ []) s
    then some controller
    else if mentions_any ("显示设备" ∷ "显示终端" ∷ "屏幕尺寸" ∷ []) s
    then some display
    else none

-- `(value or "").casefold()`
abbrev folded : Option String → List ℕ
folded none = []
folded (some s) = casefold s

-- `_item_intent`
unfoldable pub item_intent : CatalogItem → Option Intent
item_intent item =
    if contains (codes "display" ∷ codes "screen" ∷ codes "显示" ∷ []) (folded item.category)
      || within (codes "显示") (folded item.name)
    then some display
    else if contains (codes "controller" ∷ codes "control" ∷ codes "terminal" ∷ codes "控制终端" ∷ [])
          (folded item.category)
        || within (codes "控制终端") (folded item.name)
    then some controller
    else none

-- A score: points for and points against.
pub record Score : Type 0 where
  pub gained : ℕ
  pub lost : ℕ

abbrev pub points : ℕ → Score
points n = record { gained = n; lost = 0 }

abbrev pub penalty : ℕ → Score
penalty n = record { gained = 0; lost = n }

abbrev pub add_score : Score → Score → Score
add_score a b = record { gained = a.gained + b.gained; lost = a.lost + b.lost }

abbrev pub total_score : List Score → Score
total_score [] = points 0
total_score (s ∷ ss) = add_score s (total_score ss)

-- `score > 0`, and `a > b`.
abbrev pub is_positive_score : Score → Bool
is_positive_score s = ltb s.lost s.gained

abbrev pub exceeds : Score → Score → Bool
exceeds a b = ltb (b.gained + a.lost) (a.gained + b.lost)

-- A value of the item that the text mentions.
field_score : List ℕ → ℕ → Option String → Score
field_score folded_text weight none = points 0
field_score folded_text weight (some s) =
    if truthy s && leb 2 (size (strip s)) && within (casefold s) folded_text
    then points weight
    else points 0

attribute_score : List ℕ → String → Score
attribute_score folded_text key =
    if leb 2 (size (strip key)) && within (casefold key) folded_text then points 2 else points 0

certificate_score : List ℕ → String → Score
certificate_score folded_text certificate =
    if leb 3 (size certificate) && within (casefold certificate) folded_text
    then points 4
    else points 0

intent_score : Requirement → CatalogItem → Score
intent_score r item = elim (product_intent r.text) [
  | none ↦ points 0
  | some i ↦ if same_intent i (item_intent item) then points 12 else points 0
]

-- `_candidate_score`
unfoldable pub candidate_score : Requirement → CatalogItem → Score
unfolding field_score attribute_score certificate_score intent_score
candidate_score r item =
    let folded_text = casefold r.text in
    total_score (
      field_score folded_text 8 item.model
      ∷ field_score folded_text 6 item.name
      ∷ field_score folded_text 3 item.category
      ∷ total_score (map (λ a. attribute_score folded_text a.0) item.attributes)
      ∷ total_score (map (certificate_score folded_text) item.certifications)
      ∷ intent_score r item
      ∷ [])

-- A Chinese character, and the classes of labels and units.
abbrev pub is_han : ℕ → Bool
is_han c = between 0x4e00 0x9fff c

abbrev pub is_letter : ℕ → Bool
is_letter c = between 65 90 c || between 97 122 c

-- `_NUMBER_CONSTRAINT_RE`
abbrev pub constraint_pattern : Pattern
constraint_pattern =
    group "label" (
      char (λ c. is_han c || is_letter c || c == b'_')
      then at_most_lazily 18
          (char (λ c. is_han c || is_letter c || between 48 57 c || contains (codes "_ /-") c)))
    then spaces
    then maybe (one_of ("应" ∷ "须" ∷ "需" ∷ "必须" ∷ []))
    then spaces
    then group "op" (
        one_of (
          "不得低于" ∷ "不得少于" ∷ "不得高于" ∷ "不得超过" ∷ "不低于" ∷ "不少于" ∷ "大于等于" ∷ "≥" ∷ ">=" ∷ "不高于" ∷ "不超过"
          ∷ "小于等于" ∷ "≤" ∷ "<=" ∷ "等于" ∷ "为" ∷ "=" ∷ []))
    then spaces
    then group "value" decimal_pattern
    then spaces
    then group "unit" (many (char (λ c. is_han c || is_letter c || contains (codes "%％") c)))

unfoldable pub constraints_in : String → List Found
constraints_in s = find_all constraint_pattern s

-- The labels that no parameter of an item answers.
abbrev pub is_skipped : Found → Bool
is_skipped f = mentions_any ("数量" ∷ "采购" ∷ "分辨率" ∷ []) (group_text "label" f)

-- `_compare`
unfoldable pub compare_numbers : Decimal → String → Decimal → Bool
compare_numbers actual operator expected =
    if contains ("不得低于" ∷ "不得少于" ∷ "不低于" ∷ "不少于" ∷ "大于等于" ∷ "≥" ∷ ">=" ∷ []) operator
    then decimal_le expected actual
    else if contains ("不得高于" ∷ "不得超过" ∷ "不高于" ∷ "不超过" ∷ "小于等于" ∷ "≤" ∷ "<=" ∷ []) operator
    then decimal_le actual expected
    else decimal_eq actual expected

price_scalar : Option Decimal → Scalar
price_scalar none = null
price_scalar (some d) = number d (show_float d)

text_scalar : Option String → Scalar
text_scalar none = null
text_scalar (some s) = text s

-- `aliases` of `_candidate_value`.
unfoldable pub aliases_of : CatalogItem → Dict String Scalar
unfolding price_scalar text_scalar
aliases_of item = put_key "型号" (text_scalar item.model) (
    put_key "价格" (price_scalar item.unit_price)
      (put_key "单价" (price_scalar item.unit_price) item.attributes))

-- `semantic_aliases`
abbrev semantic_aliases : Dict (List ℕ) (List String)
semantic_aliases =
    (codes "screen_inches", "屏幕尺寸" ∷ "屏幕" ∷ "尺寸" ∷ "英寸" ∷ [])
    ∷ (codes "resolution", "分辨率" ∷ [])
    ∷ (codes "memory_gb", "内存" ∷ "运行内存" ∷ [])
    ∷ (codes "storage_gb", "存储容量" ∷ "存储" ∷ "硬盘" ∷ [])
    ∷ (codes "warranty_years", "质保" ∷ "质保期" ∷ "原厂质保" ∷ [])
    ∷ []

-- `re.sub(r"[\s_/-]", "", label).casefold()`
abbrev bare_label : String → List ℕ
bare_label s = select (λ c. not (contains (codes "_/-") c)) (compact s)

translated : String → List String
translated key = elim (get_key (casefold key) semantic_aliases) [ none ↦ [] | some ws ↦ ws ]

-- Whether a key answers a label; the test by `endswith` is a case of `in`.
answers : List ℕ → String × Scalar → Bool
unfolding translated
answers label (key, value) =
    let bare = bare_label key in
    nonempty bare && (within bare label || any (λ w. within (compact w) label) (translated key))

-- `max` on pairs of a key's bare length and the key. Keys are distinct, so values do not decide.
longer_key : String × Scalar → String × Scalar → Bool
longer_key (a, v) (b, u) =
    let m = length (bare_label a) in
    let n = length (bare_label b) in ltb m n || m == n && text_le a b

best_key : String × Scalar → List (String × Scalar) → String × Scalar
unfolding longer_key
best_key e [] = e
best_key e (f ∷ fs) = best_key (if longer_key e f then f else e) fs

-- `_candidate_value`
unfoldable pub candidate_value : CatalogItem → String → Result (Option String × Option Decimal)
unfolding answers best_key
candidate_value item label = elim (select (answers (bare_label label)) (aliases_of item)) [
  | [] ↦ ok (none, none)
  | e ∷ es ↦
      let (key, value) = best_key e es in
      number_of value >>= λ n. ok (some (key <> "=" <> scalar_text value), n)
]
