-- ===== src/Matching/Facts.antt =====
-- matching.py: what the matchers read off a text and off a bidder's facts.
use proofbid.Regex.{
  Found, Pattern, char, digit, group, group_of, maybe, search_text, some_more, word, ◌then◌,
}
use proofbid.Prelude.{
  all, between, leb, ◌-◌, Bool, Dict, List, Option, String, [], any, casefold, codes, compact,
  false, flat_map, from_keys, get_key, if◌then◌else◌, is_infix, list_eq, map, nat_eq, none,
  nonempty, occurs, put_key, select, some, text_eq, true, truthy, values, ℕ, ◌&&◌, ◌<>◌, ◌==◌, ◌||◌,
  ◌∷◌,
}
use Prim.Native.Char.{code}
use Prim.Native.Nat.{◌^◌}
use proofbid.Errors.{Result, ok, overflow_error, raised}
use proofbid.Decimal.{Decimal, decimal_of, whole}
use proofbid.Contracts.{MatchStatus, Scalar, null, flag, number, text, BidderFact, BidderProfile}
use proofbid.Format.{scalar_text}

-- What a matcher returns: status, rationale, actual value and supporting evidence.
pub record Outcome : Type 0 where
  pub status : MatchStatus
  pub rationale : String
  pub actual : Option String
  pub supporting : List String

-- `re.compile(r"\d+(?:\.\d+)?")`
abbrev pub decimal_pattern : Pattern
decimal_pattern = some_more digit then maybe (word "." then some_more digit)

-- The point splits the digits of a number.
before_point : List ℕ → List ℕ
before_point [] = []
before_point (c ∷ cs) = let rest = before_point cs in if c == b'.' then [] else c ∷ rest

behind_point : List ℕ → List ℕ
behind_point [] = []
behind_point (c ∷ cs) = let rest = behind_point cs in if c == b'.' then cs else rest

unsigned : Bool → List ℕ → Decimal
unfolding before_point behind_point
unsigned negative cs = decimal_of negative (before_point cs) (behind_point cs)

signed : List ℕ → Decimal
unfolding unsigned
signed [] = decimal_of false [] []
signed (c ∷ cs) =
    if c == b'-'
    then unsigned true cs
    else if c == b'+'
    then unsigned false cs
    else unsigned false (c ∷ cs)

-- `float(s)` on a text that a number's pattern has matched.
unfoldable pub float_of : String → Decimal
unfolding signed
float_of s = signed (codes s)

-- `match.group(name)` where it is known to be set.
unfoldable pub group_text : String → Found → String
group_text name f = elim (group_of name f) [ none ↦ "" | some s ↦ s ]

-- `text.replace(",", "")`
unfoldable pub without_char : ℕ → String → String
without_char n String.[] = String.[]
without_char n (String.◌∷◌ c s) =
    let rest = without_char n s in if code c == n then rest else String.◌∷◌ c rest

-- The least natural number that `float` cannot round to a finite one.
unfoldable float_limit : ℕ
float_limit = 2 ^ 1024 - 2 ^ 970

-- `str` of an `int` has digits only, and a sign; that of a `float` has a point, an exponent or a word.
unfoldable is_integer_text : String → Bool
is_integer_text shown = all (λ c. between 48 57 c || c == b'-') (codes shown)

-- `_number`. `float` raises on an integer beyond its range; digits of a text give infinity there.
unfoldable pub number_of : Scalar → Result (Option Decimal)
unfolding float_limit is_integer_text
number_of null = ok none
number_of (flag b) = ok none
number_of (number value shown) =
    if is_integer_text shown && leb float_limit value.digits
    then raised overflow_error
    else ok (some value)
number_of (text s) =
    ok
      (elim (search_text (maybe (char (λ c. c == b'-' || c == b'+')) then decimal_pattern)
        (without_char b',' s)) [ none ↦ none | some f ↦ some (float_of (group_text "0" f)) ])

-- `part in whole` on case-folded texts.
abbrev pub within : List ℕ → List ℕ → Bool
within part whole = is_infix part whole

abbrev pub mentions_any : List String → String → Bool
mentions_any terms s = any (λ t. occurs t s) terms

-- `f"{fact.key}={fact.value}"`
unfoldable pub fact_text : BidderFact → String
fact_text f = f.key <> "=" <> scalar_text f.value

abbrev pub has_value : BidderFact → Bool
has_value f = elim f.value [ null ↦ false | flag b ↦ true | number v s ↦ true | text s ↦ true ]

-- `_normalized(value)`
unfoldable pub normalized : Scalar → List ℕ
normalized v = compact (scalar_text v)

-- `key.casefold().endswith(suffix)`, for a suffix in lower case.
ends_with : List ℕ → List ℕ → Bool
ends_with s suffix = s == suffix || elim s [ [] ↦ false | c ∷ (cs → ih) ↦ ih ]

unfoldable pub key_ends : String → BidderFact → Bool
unfolding ends_with
key_ends suffix f = ends_with (casefold f.key) (codes suffix)

abbrev pub evidence_of : List BidderFact → List String
evidence_of facts = map (λ f. f.evidence_id) facts

-- `key.rpartition(".")`, `none` where there is no point.
unfoldable pub last_point : String → Option (String × String)
last_point String.[] = none
last_point (String.◌∷◌ c s) = elim (last_point s) [
  | some (before, behind) ↦ some (String.◌∷◌ c before, behind)
  | none ↦ if code c == b'.' then some (String.[], s) else none
]

-- The facts of one prefix, by their case-folded leaf.
abbrev pub FactGroup : Type 0
FactGroup = Dict (List ℕ) BidderFact

abbrev pub field_of : String → FactGroup → Option BidderFact
field_of leaf group = get_key (codes leaf) group

split_key : String → String × String
split_key key = elim (last_point key) [ none ↦ ("", key) | some p ↦ p ]

group_at : String → Dict String FactGroup → FactGroup
group_at prefix groups = elim (get_key prefix groups) [ none ↦ [] | some g ↦ g ]

add_fact : Dict String FactGroup → BidderFact → Dict String FactGroup
unfolding split_key group_at
add_fact groups f =
    let (prefix, leaf) = split_key f.key in
    put_key prefix (put_key (casefold leaf) f (group_at prefix groups)) groups

add_facts : Dict String FactGroup → List BidderFact → Dict String FactGroup
unfolding add_fact
add_facts groups [] = groups
add_facts groups (f ∷ fs) = add_facts (add_fact groups f) fs

-- `_fact_groups(profile).values()`
unfoldable pub fact_groups : BidderProfile → List FactGroup
unfolding add_facts
fact_groups profile = values (add_facts [] profile.facts)

-- The facts of a term of `_profile_support_for_terms`.
unfoldable pub facts_with_term : BidderProfile → List ℕ → List BidderFact
facts_with_term profile term =
    select (λ f. has_value f && within term (compact (fact_text f))) profile.facts

-- `_profile_support_for_terms`
unfoldable pub profile_support_for_terms : BidderProfile → List String → List (List ℕ) × List String
unfolding facts_with_term
profile_support_for_terms profile terms =
    let normalized_terms = from_keys (map compact (select truthy terms)) in
    (
      select (λ t. nonempty (facts_with_term profile t)) normalized_terms,
      from_keys (flat_map (λ t. evidence_of (facts_with_term profile t)) normalized_terms),
    )
