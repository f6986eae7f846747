-- ===== src/Extraction/Lines.antt =====
-- extraction.py: what a line is (a heading, a candidate, its title) and what it demands.
use proofbid.Regex.{
  Pattern, any_char, anything, at_most, char, digit, exactly, group, many, match_start, maybe,
  one_of, search_text, size, some_more, spaces, take_text, word, ◌or◌, ◌then◌,
}
use proofbid.Prelude.{
  Bool, List, Option, String, [], between, codes, contains, false, if◌then◌else◌, is_some, is_space,
  leb, list_eq, nat_eq, none, not, some, strip, text_eq, true, truthy, ℕ, ◌&&◌, ◌++◌, ◌-◌, ◌<>◌,
  ◌||◌, ◌∷◌,
}
use proofbid.Matching.Facts.{decimal_pattern, group_text, mentions_any}
use text.Mathlib.Text.{starts_with}
use Prim.Native.Char.{code}
use proofbid.Contracts.{RequirementCategory}

-- `$`, on a text without line ends.
at_end : Pattern
at_end String.[] g k = k String.[] g
at_end (String.◌∷◌ c s) g k = none

abbrev han_digits : List ℕ
han_digits = codes "一二三四五六七八九十"

abbrev han_digit : Pattern
han_digit = char (contains han_digits)

abbrev any_digit : Pattern
any_digit = char (λ c. contains han_digits c || between 48 57 c)

abbrev one_char : String → Pattern
one_char s = char (contains (codes s))

abbrev some_spaces : Pattern
some_spaces = some_more (char is_space)

-- `_BULLET_RE`
unfoldable pub bullet_pattern : Pattern
bullet_pattern =
    spaces
    then ((one_char "-*+" then some_spaces)
        or (some_more digit
            then many (word "." then some_more digit)
            then one_char ".、)"
            then spaces)
        or (one_char "（(" then some_more any_digit then one_char ")）" then spaces)
        or (some_more han_digit then word "、" then spaces))

-- `_MARKDOWN_HEADING_RE`
unfoldable pub markdown_heading_pattern : Pattern
unfolding at_end
markdown_heading_pattern =
    spaces
    then word "#"
    then at_most 5 (word "#")
    then some_spaces
    then group "1" (any_char then anything)
    then spaces
    then at_end

-- `_PLAIN_HEADING_RE`
unfoldable pub plain_heading_pattern : Pattern
unfolding at_end
plain_heading_pattern =
    spaces
    then maybe
        (maybe (word "第") then some_more any_digit then maybe (one_char "章节部分、.") then spaces)
    then at_most 30 (char (λ c. not (contains (codes "。；") c)))
    then one_of ("要求" ∷ "须知" ∷ "条款" ∷ "标准" ∷ "说明" ∷ "清单" ∷ "参数" ∷ "报价" ∷ "合同" ∷ "递交" ∷ "提交" ∷ [])
    then spaces
    then maybe (one_char ":：")
    then spaces
    then at_end

-- `_TABLE_SEPARATOR_RE`
unfoldable pub table_separator_pattern : Pattern
unfolding at_end
table_separator_pattern =
    spaces
    then maybe (word "|")
    then some_more (
        spaces
        then maybe (word ":")
        then exactly 3 (word "-")
        then many (word "-")
        then maybe (word ":")
        then spaces
        then word "|")
    then spaces
    then at_end

-- `_BULLET_RE.sub("", text)`: the pattern only matches at the start.
unfoldable pub without_bullet : String → String
without_bullet s = elim (match_start bullet_pattern s) [ none ↦ s | some f ↦ f.rest ]

first_category :
    RequirementCategory → List (RequirementCategory × List String) → String → RequirementCategory
first_category fallback [] s = fallback
first_category fallback ((category, terms) ∷ rest) s =
    let later = first_category fallback rest s in if mentions_any terms s then category else later

-- `_CATEGORY_TERMS`
abbrev category_terms : List (RequirementCategory × List String)
category_terms =
    (RequirementCategory.qualification, "资格" ∷ "资质" ∷ "证照" ∷ "投标人要求" ∷ "供应商要求" ∷ [])
    ∷ (RequirementCategory.technical, "技术" ∷ "参数" ∷ "性能" ∷ "规格" ∷ "功能" ∷ "服务要求" ∷ [])
    ∷ (RequirementCategory.commercial, "商务" ∷ "付款" ∷ "交付" ∷ "售后" ∷ "质保" ∷ "业绩" ∷ [])
    ∷ (RequirementCategory.pricing, "报价" ∷ "价格" ∷ "预算" ∷ "限价" ∷ "费用" ∷ "税率" ∷ [])
    ∷ (RequirementCategory.contract, "合同" ∷ "违约" ∷ "验收" ∷ "履约" ∷ "保密" ∷ "争议" ∷ [])
    ∷ (RequirementCategory.submission, "递交" ∷ "提交" ∷ "投标文件" ∷ "截止" ∷ "开标" ∷ "封装" ∷ "签章" ∷ [])
    ∷ []

-- `_classify`
unfoldable pub classify : String → RequirementCategory
unfolding first_category
classify s = first_category RequirementCategory.unknown category_terms s

-- `s.rstrip(chars)` and `s.lstrip(chars)`
trim_right : List ℕ → String → String
trim_right chars String.[] = String.[]
trim_right chars (String.◌∷◌ c s) =
    let rest = trim_right chars s in
    if contains chars (code c) && not (truthy rest) then String.[] else String.◌∷◌ c rest

trim_left : List ℕ → String → String
trim_left chars String.[] = String.[]
trim_left chars (String.◌∷◌ c s) =
    let rest = trim_left chars s in if contains chars (code c) then rest else String.◌∷◌ c s

-- `_heading`
unfoldable pub heading_of : String → Option String
unfolding trim_right
heading_of line = elim (match_start markdown_heading_pattern line) [
  | some f ↦ some (strip (group_text "1" f))
  | none ↦
      let stripped = strip line in
      if leb (size stripped) 48 && is_some (match_start plain_heading_pattern stripped)
      then some (strip (trim_right (codes ":：") stripped))
      else none
]

-- `re.sub(r"\s+", " ", s)`; the flag says that a space was just written.
one_space : Bool → String → String
one_space after String.[] = String.[]
one_space after (String.◌∷◌ c s) =
    let more = one_space true s in
    let rest = one_space false s in
    if not (is_space (code c)) then String.◌∷◌ c rest else if after then more else " " <> more

-- `s if len(s) <= n else f"{s[:n - 3]}..."`
abbrev pub cut : ℕ → String → String
cut n s = if leb (size s) n then s else take_text (n - 3) s <> "..."

-- `_clean_title`
unfoldable pub clean_title : String → String
unfolding trim_right trim_left one_space
clean_title s =
    let cleaned = trim_right (codes "| ") (trim_left (codes "| ") (strip (without_bullet s))) in
    cut 64 (one_space false cleaned)

abbrev mandatory_terms : List String
mandatory_terms = "必须" ∷ "应当" ∷ "应" ∷ "须" ∷ "不得" ∷ "不允许" ∷ "不低于" ∷ "不少于" ∷ "不超过" ∷ []

abbrev requirement_terms : List String
requirement_terms = mandatory_terms ++ "要求" ∷ "提供" ∷ "具备" ∷ "具有" ∷ "提交" ∷ "递交" ∷ "报价" ∷ []

abbrev pub is_known : RequirementCategory → Bool
is_known RequirementCategory.unknown = false
is_known _ = true

-- `_is_candidate`
unfoldable pub is_candidate : String → RequirementCategory → Bool
is_candidate line category =
    let stripped = strip line in
    not (
      not (truthy stripped)
      || (starts_with stripped ">" || is_some (match_start table_separator_pattern stripped)))
    && (is_some (match_start bullet_pattern line)
        || (mentions_any requirement_terms stripped
            || is_known category && starts_with stripped "|"))

-- The words of a time limit.
time_limit_pattern : Pattern
time_limit_pattern =
    one_of ("截止" ∷ "限期" ∷ [])
    or (decimal_pattern
        then spaces
        then maybe (word "个" then spaces)
        then one_of ("自然日" ∷ "工作日" ∷ "日" ∷ "天" ∷ "小时" ∷ [])
        then word "内")

unfoldable pub is_mandatory : String → Bool
unfolding time_limit_pattern
is_mandatory excerpt =
    mentions_any mandatory_terms excerpt || is_some (search_text time_limit_pattern excerpt)
