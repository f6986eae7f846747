-- ===== src/Matching/Returns.antt =====
-- When `build_analysis` returns: which requirements it can assess.
use proofbid.Decimal.{Decimal}
use proofbid.Regex.{◌then◌}
use proofbid.Prelude.{
  Bool, String, codes, false, is_space, length, list_eq, lstrip, nat_eq, none, nonempty, not, refl,
  rstrip, some, strip, text_eq, true, truthy, ◌&&◌, ◌==◌, ◌||◌, ◌≡◌, if◌then◌else◌,
}
use proofbid.Matching.Totals.{is_pricing, limit_text, missing_reason_code}
use proofbid.Contracts.{Requirement, is_business_code}

-- The contract of a requirement, which does not read its status.
unfoldable pub meets_contract : Requirement → Bool
meets_contract r =
    nonempty r.evidence_ids && (truthy r.source_locator && length (codes r.source_hash) == 64)

-- A price limit that is written is a number.
unfoldable pub has_readable_limit : Requirement → Bool
has_readable_limit r =
    not (is_pricing r.category) || elim (limit_text r.text) [ none ↦ true | some s ↦ truthy s ]

unfoldable pub is_assessable : Requirement → Bool
is_assessable r = has_readable_limit r && meets_contract r

-- The codes that a missing item takes and keeps as they stand.
unfoldable pub is_code : String → Bool
is_code s = truthy s && (truthy (strip s) && (is_business_code (codes s) && strip s == s))

choice-is_code :
    (a b c : Bool)
    → is_code (
        if a
        then "PROJECT_AUTHORIZATION_MISSING"
        else if b
        then "PRICING_EVIDENCE_MISSING"
        else if c
        then "MANDATORY_EVIDENCE_MISSING"
        else "EVIDENCE_REVIEW_REQUIRED")
      ≡ true
unfolding is_code is_business_code strip lstrip rstrip is_space
choice-is_code true b c = refl
choice-is_code false true c = refl
choice-is_code false false true = refl
choice-is_code false false false = refl

pub missing_reason_code-is_code : (r : Requirement) → is_code (missing_reason_code r) ≡ true
unfolding missing_reason_code
missing_reason_code-is_code r = choice-is_code _ _ _
