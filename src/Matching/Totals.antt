-- ===== src/Matching/Totals.antt =====
-- matching.py: warranties and price limits, which are tested on everything selected so far.
use proofbid.Matching.Policies.{is_final}
use proofbid.Regex.{
  Pattern, anything, char, digit, group, group_of, maybe, one_of, search_text, some_more, spaces,
  word, word_any_case, ◌or◌, ◌then◌,
}
use proofbid.Prelude.{
  Bool, List, Option, String, [], all, any, between, casefold, codes, false, flat_map, from_keys,
  if◌then◌else◌, is_some, join, length, list_eq, map, nat_eq, none, nonempty, not, select, some,
  text_eq, true, truthy, ◌&&◌, ◌++◌, ◌<>◌, ◌==◌, ◌||◌, ◌∷◌,
}
use proofbid.Matching.Facts.{
  Outcome, decimal_pattern, evidence_of, float_of, group_text, key_ends, mentions_any, number_of,
  profile_support_for_terms, within, without_char,
}
use proofbid.Matching.Candidates.{is_han, is_letter}
use proofbid.Format.{show_fixed, show_general}
use proofbid.Exec.{present}
use proofbid.Decimal.{Decimal, decimal_add, decimal_le, decimal_mul, whole}
use proofbid.Contracts.{
  MatchStatus, Scalar, null, RequirementCategory, BidderFact, BidderProfile, BomLine, CatalogItem,
  Requirement,
}
use proofbid.Errors.{Result, map_each, ok, raised, value_error, ◌>>=◌}

outcome : MatchStatus → String → Option String → List String → Outcome
outcome status rationale actual supporting = record {
  status = status;
  rationale = rationale;
  actual = actual;
  supporting = supporting;
}

abbrev at_least : Pattern
at_least = one_of ("不少于" ∷ "不低于" ∷ "不得少于" ∷ "不得低于" ∷ [])

abbrev years_pattern : Pattern
years_pattern = at_least then spaces then group "1" decimal_pattern then spaces then word "年"

abbrev guarantee : Pattern
guarantee = one_of ("质保" ∷ "保修" ∷ [])

-- The years that a text demands, in the first of the two orders of words that it has.
unfoldable pub demanded_years : String → Option Decimal
demanded_years s = elim (search_text (years_pattern then anything then guarantee) s) [
  | some f ↦ some (float_of (group_text "1" f))
  | none ↦ elim (search_text (guarantee then anything then years_pattern) s) [
    | some f ↦ some (float_of (group_text "1" f))
    | none ↦ none
  ]
]

-- The first attribute under the key.
first_attribute : List (String × Scalar) → Scalar
first_attribute [] = null
first_attribute ((key, value) ∷ rest) =
    let later = first_attribute rest in
    if casefold key == codes "warranty_years" then value else later

unfoldable pub warranty_years : CatalogItem → Result (Option Decimal)
unfolding first_attribute
warranty_years item = number_of (first_attribute item.attributes)

-- An item with its years, one of `actuals`.
unfoldable pub with_years : CatalogItem → Result (CatalogItem × Option Decimal)
with_years item = warranty_years item >>= λ years. ok (item, years)

warranty_text : CatalogItem × Option Decimal → String
warranty_text (item, years) =
    item.item_id <> elim years [ none ↦ "=unknown" | some d ↦ "=" <> show_general d <> "年" ]

falls_short : Decimal → CatalogItem × Option Decimal → Bool
falls_short expected (item, years) = elim years [
  | none ↦ false
  | some d ↦ not (decimal_le expected d)
]

warranty_of : Decimal → List (CatalogItem × Option Decimal) → Outcome
unfolding outcome warranty_text falls_short
warranty_of expected actuals =
    let evidence_ids =
      from_keys (flat_map (λ (a : CatalogItem × Option Decimal). a.0.evidence_ids) actuals) in
    let actual = some (join "；" (map warranty_text actuals)) in
    if any (λ (a : CatalogItem × Option Decimal). not (is_some a.1)) actuals
    then outcome MatchStatus.partial "部分已选设备缺少质保年限" actual evidence_ids
    else if any (falls_short expected) actuals
    then outcome MatchStatus.non_compliant "已选设备中存在质保不足的项目" actual evidence_ids
    else outcome MatchStatus.compliant "全部已选核心设备质保均不低于要求" actual evidence_ids

-- `_warranty_match`
unfoldable pub warranty_match : Requirement → List CatalogItem → Result Outcome
unfolding outcome warranty_of
warranty_match r selected = elim (demanded_years r.text) [
  | none ↦ ok (outcome MatchStatus.unknown "质保要求无法解析为确定性年限" none [])
  | some expected ↦
      if nonempty selected
      then (map_each with_years selected >>= λ actuals. ok (warranty_of expected actuals))
      else ok (outcome MatchStatus.unknown "尚无已选核心设备，无法聚合检查质保" none [])
]

limit_pattern : Pattern
limit_pattern =
    one_of ("总报价" ∷ "最高限价" ∷ "预算" ∷ [])
    then anything
    then one_of ("不得超过" ∷ "不超过" ∷ "不高于" ∷ "为" ∷ [])
    then spaces
    then maybe (word "人民币" or word_any_case (codes "CNY") or one_of ("￥" ∷ "¥" ∷ []))
    then spaces
    then group "1" (
        some_more (char (λ c. between 48 57 c || c == b','))
        then maybe (word "." then some_more digit))

-- The text of the price limit, with its commas dropped.
unfoldable pub limit_text : String → Option String
unfolding limit_pattern
limit_text s = elim (search_text limit_pattern s) [
  | none ↦ none
  | some f ↦ some (without_char b',' (group_text "1" f))
]

-- `float(text)`, which raises on the empty text.
unfoldable pub price_of : String → Result Decimal
price_of s =
    if truthy s
    then ok (float_of s)
    else raised (value_error "could not convert string to float: ''")

is_priced : BomLine → Bool
is_priced l = is_some l.qty && is_some l.unit_price

line_total : BomLine → Decimal
line_total l = elim l.qty [
  | none ↦ whole 0
  | some q ↦ elim l.unit_price [ none ↦ whole 0 | some p ↦ decimal_mul q p ]
]

unfoldable pub subtotal_of : List BomLine → Decimal
unfolding line_total
subtotal_of [] = whole 0
subtotal_of (l ∷ ls) = decimal_add (line_total l) (subtotal_of ls)

abbrev included_terms : List String
included_terms = "运输" ∷ "安装" ∷ "培训" ∷ "税费" ∷ []

quote_facts : BidderProfile → List BidderFact
quote_facts profile = select (λ f. key_ends "quote_basis" f && is_final f.value) profile.facts

-- A quotation that has to include services as well.
inclusive_total : BidderProfile → List String → String → Outcome
unfolding outcome quote_facts
inclusive_total profile evidence_ids actual =
    let (present, profile_evidence_ids) = profile_support_for_terms profile included_terms in
    let quotes = quote_facts profile in
    if length present == length included_terms && nonempty quotes
    then outcome MatchStatus.compliant "目录硬件小计未超过上限，且主体资料逐项证明运输、安装、培训和税费已纳入正式报价"
        (some (actual <> "；运输/安装/培训/税费已包含；quote_basis=final"))
        (from_keys (evidence_ids ++ (profile_evidence_ids ++ evidence_of quotes)))
    else outcome MatchStatus.partial "目录硬件小计未超过上限，但未证明已包含运输、安装、培训或税费" (some actual)
        (from_keys (evidence_ids ++ profile_evidence_ids))

unfoldable pub total_outcome : Requirement → List BomLine → BidderProfile → Decimal → Outcome
unfolding outcome is_priced inclusive_total
total_outcome r bom profile limit =
    let evidence_ids = from_keys (flat_map (λ (l : BomLine). l.evidence_ids) bom) in
    let actual = "目录硬件小计=" <> show_fixed (subtotal_of bom) in
    if not (nonempty bom && all is_priced bom)
    then outcome MatchStatus.unknown "BOM 数量或目录单价不完整，无法核对报价上限" none []
    else if not (decimal_le (subtotal_of bom) limit)
    then outcome MatchStatus.non_compliant "目录硬件小计超过总报价上限" (some actual) evidence_ids
    else if mentions_any ("包含" ∷ "含运输" ∷ "含安装" ∷ "含税" ∷ []) r.text
    then inclusive_total profile evidence_ids actual
    else outcome MatchStatus.compliant "目录硬件小计未超过报价上限" (some actual) evidence_ids

-- `_pricing_total_match`
unfoldable pub pricing_total_match :
    Requirement → List BomLine → BidderProfile → Result (Option Outcome)
pricing_total_match r bom profile = elim (limit_text r.text) [
  | none ↦ ok none
  | some s ↦ price_of s >>= λ limit. ok (some (total_outcome r bom profile limit))
]

-- `_QUANTITY_RE`
quantity_pattern : Pattern
quantity_pattern =
    one_of ("数量" ∷ "共" ∷ "采购" ∷ [])
    then spaces
    then maybe (one_of (":" ∷ "：" ∷ "为" ∷ []))
    then spaces
    then group "1" decimal_pattern
    then spaces
    then maybe (group "2" (some_more (char (λ c. is_han c || is_letter c))))

-- `_quantity`
unfoldable pub quantity : String → Option Decimal × Option String
unfolding quantity_pattern
quantity s = elim (search_text quantity_pattern s) [
  | none ↦ (none, none)
  | some f ↦ (some (float_of (group_text "1" f)), group_of "2" f)
]

abbrev pub is_pricing : RequirementCategory → Bool
is_pricing RequirementCategory.pricing = true
is_pricing _ = false

-- `_missing_reason_code`
unfoldable pub missing_reason_code : Requirement → String
missing_reason_code r =
    let text = casefold r.text in
    if within (codes "授权书") text && (within (codes "本项目") text || within (codes "制造商") text)
    then "PROJECT_AUTHORIZATION_MISSING"
    else if is_pricing r.category
    then "PRICING_EVIDENCE_MISSING"
    else if r.mandatory
    then "MANDATORY_EVIDENCE_MISSING"
    else "EVIDENCE_REVIEW_REQUIRED"
