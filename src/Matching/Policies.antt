-- ===== src/Matching/Policies.antt =====
-- matching.py: the matchers that read the bidder's profile for one kind of requirement.
use proofbid.Regex.{
  Found, Pattern, digit, exactly, group, group_of, maybe, one_of, search_text, size, spaces, word,
  ◌then◌,
}
use proofbid.Prelude.{
  Bool, List, Option, String, [], codes, compact, contains, false, from_keys, if◌then◌else◌, leb,
  length, list_eq, nat_eq, none, nonempty, not, occurs, select, some, text_eq, true, ◌&&◌, ◌++◌,
  ◌<>◌, ◌==◌, ◌||◌, ◌∷◌,
}
use proofbid.Matching.Facts.{
  FactGroup, Outcome, decimal_pattern, evidence_of, fact_groups, field_of, float_of, group_text,
  has_value, key_ends, normalized, number_of,
}
use proofbid.Errors.{Result, ok, ◌>>=◌}
use proofbid.Format.{scalar_text}
use proofbid.Decimal.{Decimal, decimal_le}
use proofbid.Contracts.{
  MatchStatus, Scalar, null, flag, number, text, BidderFact, BidderProfile, Requirement,
}

abbrev outcome : MatchStatus → String → Option String → List String → Outcome
outcome status rationale actual supporting = record {
  status = status;
  rationale = rationale;
  actual = actual;
  supporting = supporting;
}

abbrev is_flag : Bool → Scalar → Bool
is_flag b v = elim v [
  | null ↦ false
  | flag c ↦ if b then c else not c
  | number n s ↦ false
  | text s ↦ false
]

-- The value is the final quotation basis.
unfoldable pub is_final : Scalar → Bool
is_final v = contains (codes "final" ∷ codes "正式报价" ∷ []) (normalized v)

unfoldable pub final_facts : BidderProfile → List BidderFact
final_facts profile =
    select
      (λ f.
        has_value f
        && (key_ends "quote_basis" f && is_final f.value
            || key_ends "is_provisional" f && is_flag false f.value))
      profile.facts

-- `_pricing_policy_match`
unfoldable pub pricing_policy_match : Requirement → BidderProfile → Option Outcome
unfolding final_facts
pricing_policy_match r profile =
    let facts = final_facts profile in
    let evidence_ids = from_keys (evidence_of facts) in
    if not (occurs "暂估价格" r.text)
    then none
    else if leb 2 (length facts)
    then some (
        outcome MatchStatus.compliant "主体报价依据明确为正式报价且未使用暂估价格"
          (some "quote_basis=final；is_provisional=false") evidence_ids)
    else some (outcome MatchStatus.unknown "主体资料未同时证明报价为正式报价且未使用暂估价格" none evidence_ids)

-- The date and time of a deadline, each part a group.
abbrev deadline_pattern : Pattern
deadline_pattern =
    group "1" (word "20" then exactly 2 digit)
    then spaces
    then word "年"
    then spaces
    then group "2" (digit then maybe digit)
    then spaces
    then word "月"
    then spaces
    then group "3" (digit then maybe digit)
    then spaces
    then word "日"
    then spaces
    then group "4" (digit then maybe digit)
    then maybe (word ":")
    then maybe (group "5" (exactly 2 digit))

-- `f"{int(match.group(name) or 0):02d}"`, on at most two digits.
two_digits : String → Found → String
two_digits name f = elim (group_of name f) [
  | none ↦ "00"
  | some s ↦ if size s == 1 then "0" <> s else s
]

deadline_text : Found → String
unfolding two_digits
deadline_text f =
    group_text "1" f
    <> "-"
    <> two_digits "2" f
    <> "-"
    <> two_digits "3" f
    <> " "
    <> two_digits "4" f
    <> ":"
    <> two_digits "5" f

unfoldable pub deadline_facts : BidderProfile → String → List BidderFact
deadline_facts profile deadline =
    select (λ f. has_value f && key_ends "deadline" f && normalized f.value == compact deadline)
      profile.facts

unfoldable pub acknowledged_facts : BidderProfile → List BidderFact
acknowledged_facts profile =
    select (λ f. key_ends "deadline_acknowledged" f && is_flag true f.value) profile.facts

-- `_submission_deadline_match`, on the deadline that was found.
unfoldable pub deadline_outcome : BidderProfile → String → Outcome
unfolding deadline_facts acknowledged_facts
deadline_outcome profile deadline =
    let matching = deadline_facts profile deadline in
    let acknowledged = acknowledged_facts profile in
    let evidence_ids = from_keys (evidence_of (matching ++ acknowledged)) in
    if nonempty matching && nonempty acknowledged
    then outcome MatchStatus.compliant "递交截止时间已被确定性提取并登记为受控人工提交约束"
        (some ("deadline=" <> deadline <> "；acknowledged=true")) evidence_ids
    else outcome MatchStatus.unknown "递交截止时间尚未在主体提交控制中完整登记" none evidence_ids

-- `_submission_deadline_match`
unfoldable pub submission_deadline_match : Requirement → BidderProfile → Option Outcome
unfolding deadline_outcome deadline_text
submission_deadline_match r profile =
    if not (occurs "截止" r.text) && not (occurs "递交" r.text)
    then none
    else elim (search_text deadline_pattern r.text) [
      | none ↦ none
      | some f ↦ some (deadline_outcome profile (deadline_text f))
    ]

abbrev duration_pattern : Pattern
duration_pattern =
    group "1" decimal_pattern
    then spaces
    then maybe (word "个" then spaces)
    then one_of ("自然日" ∷ "工作日" ∷ "日" ∷ "天" ∷ [])
    then word "内"

-- The outcome on the group that states a delivery period.
unfoldable pub duration_outcome : Decimal → BidderFact → Option BidderFact → Result Outcome
duration_outcome expected name none =
    ok (outcome MatchStatus.unknown "主体资料声明了交付周期，但没有可解析的周期值" none (name.evidence_id ∷ []))
duration_outcome expected name (some value) =
    let supporting = name.evidence_id ∷ value.evidence_id ∷ [] in
    let actual = some ("交付周期=" <> scalar_text value.value) in
    number_of value.value >>= λ found. ok (elim found [
      | none ↦ outcome MatchStatus.unknown "主体资料声明了交付周期，但没有可解析的周期值" none supporting
      | some days ↦
          if decimal_le days expected
          then outcome MatchStatus.compliant "主体资料交付周期不超过要求" actual supporting
          else outcome MatchStatus.non_compliant "主体资料交付周期超过要求" actual supporting
    ])

-- The loop over the groups: the first whose name speaks of a delivery period decides.
unfoldable pub duration_of : Decimal → List FactGroup → Result Outcome
duration_of expected [] = ok (outcome MatchStatus.unknown "主体资料未提供可核验的交付周期" none [])
duration_of expected (g ∷ gs) =
    let rest = duration_of expected gs in
    elim (field_of "name" g) [
      | none ↦ rest
      | some name ↦
          if occurs "交付周期" (scalar_text name.value)
          then duration_outcome expected name (field_of "value" g)
          else rest
    ]

-- `_duration_profile_match`
unfoldable pub duration_profile_match : Requirement → BidderProfile → Result (Option Outcome)
unfolding duration_of
duration_profile_match r profile =
    if not (occurs "交付" r.text) then ok none else elim (search_text duration_pattern r.text) [
      | none ↦ ok none
      | some f ↦
          duration_of (float_of (group_text "1" f)) (fact_groups profile) >>= λ o. ok (some o)
    ]
