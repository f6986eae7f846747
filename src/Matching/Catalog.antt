-- ===== src/Matching/Catalog.antt =====
-- matching.py: the match of a requirement against the catalog.
use proofbid.Regex.{
  Found, Pattern, anything, char, digit, group, one_of, search_text, some_more, spaces, word,
  ◌then◌,
}
use proofbid.Prelude.{
  Bool, List, Option, String, [], casefold, codes, contains, false, if◌then◌else◌, is_some, join,
  list_eq, map, nat_eq, none, nonempty, not, select, some, strip, text_eq, text_le, true, truthy,
  ◌&&◌, ◌++◌, ◌<>◌, ◌==◌, ◌||◌, ◌∷◌,
}
use proofbid.Matching.Facts.{float_of, group_text}
use proofbid.Matching.Candidates.{
  Intent, Score, add_score, candidate_score, candidate_value, compare_numbers, constraints_in,
  exceeds, is_positive_score, is_skipped, item_intent, penalty, points, product_intent, same_intent,
  total_score,
}
use proofbid.Errors.{Result, map_each, ok, ◌>>=◌}
use proofbid.Decimal.{Decimal}
use proofbid.Contracts.{MatchStatus, Scalar, null, flag, number, text, CatalogItem, Requirement}

abbrev times : Pattern
times = char (λ c. contains (codes "xX×") c)

-- `_RESOLUTION_RE`
abbrev resolution_pattern : Pattern
resolution_pattern =
    word "分辨率"
    then anything
    then group "1" (one_of ("不得低于" ∷ "不低于" ∷ "不少于" ∷ "大于等于" ∷ "≥" ∷ ">=" ∷ "等于" ∷ "为" ∷ "=" ∷ []))
    then spaces
    then group "2" (some_more digit)
    then spaces
    then times
    then spaces
    then group "3" (some_more digit)

abbrev size_pattern : Pattern
size_pattern =
    group "1" (some_more digit) then spaces then times then spaces then group "2" (some_more digit)

-- `str(value or "")`
or_blank : Scalar → String
or_blank null = ""
or_blank (flag b) = if b then "True" else ""
or_blank (number value shown) = if value.digits == 0 then "" else shown
or_blank (text s) = s

raw_resolution : List (String × Scalar) → String
unfolding or_blank
raw_resolution [] = ""
raw_resolution ((key, value) ∷ rest) =
    let later = raw_resolution rest in
    if contains (codes "resolution" ∷ codes "分辨率" ∷ []) (casefold key)
    then or_blank value
    else later

-- A test that was made: whether it passed, where it could be made, and its texts.
pub record Check : Type 0 where
  pub passed : Option Bool
  pub expected : String
  pub actual : Option String

number_group : String → Found → Decimal
number_group name f = float_of (group_text name f)

compare_sizes : Found → Found → Bool
unfolding number_group
compare_sizes expected actual =
    let operator = group_text "1" expected in
    compare_numbers (number_group "1" actual) operator (number_group "2" expected)
    && compare_numbers (number_group "2" actual) operator (number_group "3" expected)

resolution_of : Found → Option Found → Check
unfolding compare_sizes
resolution_of expected actual =
    let expected_text =
      "分辨率"
      <> group_text "1" expected
      <> group_text "2" expected
      <> "×"
      <> group_text "3" expected in
    elim actual [
      | none ↦ record { passed = none; expected = expected_text; actual = none }
      | some a ↦ record {
        passed = some (compare_sizes expected a);
        expected = expected_text;
        actual = some ("分辨率=" <> group_text "1" a <> "×" <> group_text "2" a);
      }
    ]

-- `_resolution_check`
unfoldable pub resolution_check : Requirement → CatalogItem → Option Check
unfolding resolution_of raw_resolution
resolution_check r item = elim (search_text resolution_pattern r.text) [
  | none ↦ none
  | some f ↦ some (resolution_of f (search_text size_pattern (raw_resolution item.attributes)))
]

-- One numeric constraint against the item; `_candidate_value` drops the spaces of the label itself.
unfoldable pub constraint_check : CatalogItem → Found → Result Check
unfolding number_group
constraint_check item f =
    let label = strip (group_text "label" f) in
    let operator = group_text "op" f in
    candidate_value item label >>= λ found. ok (record {
      passed = elim found.1 [
        | none ↦ none
        | some n ↦ some (compare_numbers n operator (number_group "value" f))
      ];
      expected = label <> operator <> group_text "value" f <> group_text "unit" f;
      actual = found.0;
    })

-- The tests of a requirement on an item: its numeric constraints, then its resolution.
unfoldable pub checks_of : Requirement → CatalogItem → Result (List Check)
checks_of r item =
    map_each (constraint_check item) (select (λ f. not (is_skipped f)) (constraints_in r.text))
    >>= λ checks. ok (checks ++ elim (resolution_check r item) [ none ↦ [] | some c ↦ c ∷ [] ])

unfoldable pub constraint_points : CatalogItem → Found → Result Score
constraint_points item f = constraint_check item f >>= λ check.
    ok (elim check.passed [ none ↦ points 0 | some b ↦ if b then points 8 else penalty 40 ])

resolution_points : Option Check → Score
resolution_points none = points 0
resolution_points (some c) = elim c.passed [
  | none ↦ points 0
  | some b ↦ if b then points 12 else penalty 60
]

-- `_constraint_fit`
unfoldable pub constraint_fit : Requirement → CatalogItem → Result Score
unfolding resolution_points
constraint_fit r item =
    map_each (constraint_points item) (select (λ f. not (is_skipped f)) (constraints_in r.text))
    >>= λ scores. ok (add_score (total_score scores) (resolution_points (resolution_check r item)))

pub record Ranked : Type 0 where
  pub item : CatalogItem
  pub score : Score

-- The order of the ranking: by falling score, then by id.
ranks_before : Ranked → Ranked → Bool
ranks_before a b =
    exceeds a.score b.score
    || not (exceeds b.score a.score) && text_le a.item.item_id b.item.item_id

-- The first of the sorted ranking.
best_ranked : Ranked → List Ranked → Ranked
unfolding ranks_before
best_ranked a [] = a
best_ranked a (b ∷ bs) = best_ranked (if ranks_before a b then a else b) bs

abbrev fits_intent : Option Intent → CatalogItem → Bool
fits_intent none item = true
fits_intent (some i) item = same_intent i (item_intent item)

unfoldable pub rank : Requirement → CatalogItem → Result Ranked
rank r item = constraint_fit r item >>= λ fit.
    ok (record { item = item; score = add_score (candidate_score r item) fit })

-- `_choose_candidate`, whose score is 0 for a lone candidate without points.
unfoldable pub choose_candidate : Requirement → List CatalogItem → Result (Option Ranked)
unfolding best_ranked
choose_candidate r catalog =
    map_each (rank r) (select (fits_intent (product_intent r.text)) catalog) >>= λ ranking.
    ok (elim ranking [
      | [] ↦ none
      | a ∷ as' ↦
          let best = best_ranked a as' in
          if is_positive_score best.score
          then some best
          else if nonempty as'
          then none
          else some (record { item = a.item; score = points 0 })
    ])

-- What `_catalog_match` returns.
pub record CatalogOutcome : Type 0 where
  pub status : MatchStatus
  pub rationale : String
  pub candidate : Option CatalogItem
  pub expected : Option String
  pub actual : Option String

has_passed : Bool → Check → Bool
has_passed b c = elim c.passed [ none ↦ false | some p ↦ if b then p else not p ]

is_open : Check → Bool
is_open c = not (is_some c.passed)

-- `f"{expected_text}，实际 {actual_text}"`
with_actual : Check → String
with_actual c = c.expected <> "，实际 " <> elim c.actual [ none ↦ "None" | some s ↦ s ]

-- `"；".join(texts) or None`
join_or_none : List String → Option String
join_or_none texts = let s = join "；" texts in if truthy s then some s else none

-- `text or fallback`
first_text : Option String → String → String
first_text none fallback = fallback
first_text (some s) fallback = if truthy s then s else fallback

-- `candidate.name or candidate.model or candidate.item_id`
candidate_name : CatalogItem → String
unfolding first_text
candidate_name item =
    let model : String = first_text item.model item.item_id in first_text item.name model

-- The status and texts that the tests on the chosen item give.
unfoldable pub judge : Requirement → CatalogItem → Score → List Check → CatalogOutcome
unfolding has_passed is_open with_actual join_or_none candidate_name
judge r item score checks =
    let failed = map with_actual (select (has_passed false) checks) in
    let evaluated = map with_actual (select (has_passed true) checks) in
    let open_checks = map (λ (c : Check). c.expected) (select is_open checks) in
    let result = λ (status : MatchStatus) (rationale : String) (expected actual : Option String).
      let o : CatalogOutcome = record {
        status = status;
        rationale = rationale;
        candidate = some item;
        expected = expected;
        actual = actual;
      } in
      o in
    if nonempty failed
    then result MatchStatus.non_compliant "候选存在明确参数偏离" (some (join "；" failed))
        (some (join "；" failed))
    else if nonempty open_checks
    then result
        (if nonempty evaluated || is_positive_score score
          then MatchStatus.partial
          else MatchStatus.unknown)
        "候选仍有无法核验的参数" (some (join "；" open_checks)) (join_or_none evaluated)
    else if nonempty (constraints_in r.text) && nonempty evaluated
    then result MatchStatus.compliant "候选的确定性参数检查通过"
        (some (join "；" (map (group_text "0") (constraints_in r.text)))) (some (join "；" evaluated))
    else if is_positive_score score
    then result MatchStatus.partial "候选名称/字段相关，但要求缺少可完全核验的结构化条件" (some r.text)
        (some (candidate_name item))
    else result MatchStatus.unknown "仅有一个目录候选，不足以证明满足要求" (some r.text) (some (candidate_name item))

-- `_catalog_match`
unfoldable pub catalog_match : Requirement → List CatalogItem → Result CatalogOutcome
catalog_match r catalog = choose_candidate r catalog >>= λ choice. elim choice [
  | none ↦ ok (record {
    status = MatchStatus.unknown;
    rationale = "目录中没有可解释匹配的候选产品";
    candidate = none;
    expected = some r.text;
    actual = none;
  })
  | some c ↦ checks_of r c.item >>= λ checks. ok (judge r c.item c.score checks)
]
