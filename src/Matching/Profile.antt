-- ===== src/Matching/Profile.antt =====
-- matching.py: the match of a requirement against the bidder's profile.
use proofbid.Regex.{
  Pattern, at_most, digit, exactly, find_all, maybe, one_of, search_text, some_more, spaces, word,
  word_any_case, ◌then◌,
}
use proofbid.Prelude.{
  Bool, List, Option, String, [], any, casefold, codes, compact, contains, false, filter_map,
  flat_map, from_keys, if◌then◌else◌, is_some, join, length, list_eq, map, nat_eq, none, nonempty,
  not, occurs, select, some, text_eq, true, values, ℕ, ◌&&◌, ◌++◌, ◌<>◌, ◌==◌, ◌∷◌,
}
use proofbid.Matching.Policies.{
  duration_profile_match, pricing_policy_match, submission_deadline_match,
}
use proofbid.Matching.Facts.{
  FactGroup, Outcome, evidence_of, fact_groups, fact_text, field_of, group_text, has_value,
  normalized, within, without_char,
}
use proofbid.Errors.{Result, ok, ◌>>=◌}
use proofbid.Format.{scalar_text}
use proofbid.Contracts.{MatchStatus, RequirementCategory, BidderFact, BidderProfile, Requirement}

abbrev profile_terms : List String
profile_terms =
    "营业执照" ∷ "法定代表人" ∷ "授权书" ∷ "信用" ∷ "财务" ∷ "税务" ∷ "社保" ∷ "业绩" ∷ "售后" ∷ "质保" ∷ "付款" ∷ "交付周期"
    ∷ "安装计划" ∷ "测试记录" ∷ "商务文件" ∷ "技术文件" ∷ "报价文件" ∷ "偏离表" ∷ "资格证明材料" ∷ []

-- `_ISO_RE`
abbrev iso_pattern : Pattern
iso_pattern =
    word_any_case (codes "iso")
    then spaces
    then exactly 4 digit
    then at_most 2 digit
    then maybe (word ":" then exactly 4 digit)

-- The terms of a text, and the standards that it names.
unfoldable pub terms_in : String → List String
terms_in s = select (λ t. occurs t s) profile_terms

unfoldable pub standards_in : String → List String
standards_in s = map (λ f. without_char b' ' (group_text "0" f)) (find_all iso_pattern s)

-- The first group whose name has the term.
unfoldable pub group_of_term : List FactGroup → String → Option FactGroup
group_of_term [] term = none
group_of_term (g ∷ gs) term =
    let rest = group_of_term gs term in
    elim (field_of "name" g) [
      | none ↦ rest
      | some name ↦ if within (compact term) (normalized name.value) then some g else rest
    ]

abbrev group_evidence : List FactGroup → List String
group_evidence groups = flat_map (λ g. evidence_of (values g)) groups

status_text : Option BidderFact → String
status_text none = "unknown"
status_text (some f) = scalar_text f.value

name_text : Option BidderFact → String
name_text none = ""
name_text (some f) = scalar_text f.value

unfoldable pub actual_part : FactGroup → String
unfolding status_text name_text
actual_part g = name_text (field_of "name" g) <> " status=" <> status_text (field_of "status" g)

-- `_normalized(status)`, empty where there is none.
unfoldable pub status_of_group : FactGroup → List ℕ
status_of_group g = elim (field_of "status" g) [ none ↦ [] | some f ↦ normalized f.value ]

abbrev valid_words : List (List ℕ)
valid_words = codes "valid" ∷ codes "有效" ∷ []

abbrev invalid_words : List (List ℕ)
invalid_words = codes "invalid" ∷ codes "expired" ∷ codes "无效" ∷ codes "过期" ∷ []

-- The loop over the groups that were found; `parts` are the actual values so far.
unfoldable pub check_groups : Bool → List String → List String → List FactGroup → Outcome
unfolding status_of_group actual_part
check_groups wants_valid supporting parts [] = record {
  status = MatchStatus.compliant;
  rationale = "主体资料中找到要求的文件且状态为 valid/有效";
  actual = some (join "；" parts);
  supporting = supporting;
}
check_groups wants_valid supporting parts (g ∷ gs) =
    let parts' = parts ++ actual_part g ∷ [] in
    let status = status_of_group g in
    let rest = check_groups wants_valid supporting parts' gs in
    if wants_valid && not (contains valid_words status)
    then record {
      status =
          if contains invalid_words status then MatchStatus.non_compliant else MatchStatus.unknown;
      rationale =
          if contains invalid_words status then "主体资料明确标记为无效" else "主体资料存在文件，但未提供 valid/有效状态";
      actual = some (join "；" parts');
      supporting = supporting;
    }
    else rest

-- `_qualification_document_match`, on the terms of the requirement.
unfoldable pub documents_outcome : Requirement → List FactGroup → List String → Outcome
documents_outcome r groups terms =
    let matched = filter_map (group_of_term groups) terms in
    if any (λ t. not (is_some (group_of_term groups t))) terms
    then record {
      status = MatchStatus.unknown;
      rationale = "主体资料未找到文件；缺失不等于不合规";
      actual = none;
      supporting = group_evidence matched;
    }
    else check_groups (occurs "有效" r.text) (from_keys (group_evidence matched)) [] matched

unfoldable pub qualification_document_match : Requirement → BidderProfile → Option Outcome
qualification_document_match r profile =
    let terms = terms_in r.text ++ standards_in r.text in
    if nonempty terms then some (documents_outcome r (fact_groups profile) terms) else none

-- `re.search(r"\d+\s*(?:个\s*)?(?:自然日|工作日|日|天)", …)`
abbrev days_pattern : Pattern
days_pattern =
    some_more digit
    then spaces
    then maybe (word "个" then spaces)
    then one_of ("自然日" ∷ "工作日" ∷ "日" ∷ "天" ∷ [])

abbrev delivery_terms : String → List String
delivery_terms s = if occurs "交付" s && is_some (search_text days_pattern s) then "交付周期" ∷ [] else []

-- `s.replace(" ", "").casefold()`
abbrev unspaced : String → List ℕ
unspaced s = casefold (without_char b' ' s)

-- `blob.replace(" ", "")`
unfoldable pub profile_blob : BidderProfile → List ℕ
profile_blob profile = unspaced (join " " (map fact_text (select has_value profile.facts)))

-- The end of `_profile_match`, on the key terms of the requirement.
unfoldable pub terms_outcome : BidderProfile → List String → Outcome
unfolding profile_blob
terms_outcome profile terms =
    let present = select (λ t. within (casefold t) (profile_blob profile)) terms in
    let supporting = evidence_of (
      select (λ f. any (λ t. within (casefold t) (unspaced (fact_text f))) present)
        profile.facts) in
    if not (nonempty profile.facts)
    then record {
      status = MatchStatus.unknown;
      rationale = "投标主体资料为空，不能推断满足要求";
      actual = none;
      supporting = [];
    }
    else if not (nonempty terms)
    then record {
      status = MatchStatus.unknown;
      rationale = "未找到可由主体资料确定性核对的关键字段";
      actual = none;
      supporting = [];
    }
    else if length present == length terms
    then record {
      status = MatchStatus.compliant;
      rationale = "主体资料中找到明确字段";
      actual = some (join ", " present);
      supporting = supporting;
    }
    else if nonempty present
    then record {
      status = MatchStatus.partial;
      rationale = "仅找到部分字段";
      actual = some (join ", " present);
      supporting = supporting;
    }
    else record {
      status = MatchStatus.unknown;
      rationale = "资料中未找到字段；缺失不等于不合规";
      actual = none;
      supporting = [];
    }

is_qualification : RequirementCategory → Bool
is_qualification RequirementCategory.qualification = true
is_qualification _ = false

-- The first outcome there is.
abbrev otherwise : Option Outcome → Outcome → Outcome
otherwise o rest = elim o [ none ↦ rest | some x ↦ x ]

-- `_profile_match`
unfoldable pub profile_match : Requirement → BidderProfile → Result Outcome
unfolding is_qualification
profile_match r profile = duration_profile_match r profile >>= λ duration. ok (
    otherwise duration (
      otherwise (pricing_policy_match r profile) (
        otherwise (submission_deadline_match r profile) (
          otherwise
            (if is_qualification r.category then qualification_document_match r profile else none)
            (terms_outcome profile
              (terms_in r.text ++ delivery_terms r.text ++ standards_in r.text))))))
