-- ===== src/Matching/Overflow.antt =====
-- matching.py: the matchers raise nothing but the `OverflowError` of `_number`.
use proofbid.Regex.{◌then◌, search_text, Found}
use proofbid.Prelude.{
  Bool, List, Option, String, [], arith, false, if◌then◌else◌, list_eq, nat_eq, none, nonempty, not,
  occurs, refl, some, strip, text_eq, true, ◌&&◌, ◌==◌, ◌||◌, ◌∷◌, ◌≡◌,
}
use proofbid.Matching.Totals.{demanded_years, warranty_match, warranty_years, with_years}
use proofbid.Matching.Profile.{profile_match}
use proofbid.Matching.Policies.{duration_of, duration_outcome, duration_profile_match}
use proofbid.Matching.Facts.{FactGroup, field_of, group_text, number_of, fact_groups, float_of}
use proofbid.Matching.Catalog.{
  catalog_match, checks_of, choose_candidate, constraint_check, constraint_fit, constraint_points,
  rank,
}
use proofbid.Matching.Candidates.{candidate_value}
use proofbid.Decimal.{Decimal}
use proofbid.Contracts.{
  BidderFact, BidderProfile, CatalogItem, Requirement, Scalar, flag, null, number, text,
}
use proofbid.Errors.{
  Exception, Result, and_then, map_each, ok, overflow_error, plain_failure, raised,
}

abbrev pub is_ok {ℓ} : {A : Type ℓ} → Result A → Bool
is_ok (ok _) = true
is_ok (raised _) = false

is_overflow : Exception → Bool
is_overflow (plain_failure type_name) = type_name == "OverflowError"
is_overflow _ = false

-- A computation that has raised an `OverflowError`.
unfoldable pub overflows {ℓ} : {A : Type ℓ} → Result A → Bool
unfolding is_overflow
overflows (ok _) = false
overflows (raised e) = is_overflow e

-- A computation that returns only under the condition, and under the condition returns or raises an
-- `OverflowError`.
pub record Returns {ℓ} {A : Type ℓ} (condition : Bool) (m : Result A) : Type 0 where
  pub only_then : is_ok m ≡ true → condition ≡ true
  pub or_overflows : condition ≡ true → (is_ok m || overflows m) ≡ true

pub Returns-ok {ℓ} : {A : Type ℓ} (a : A) → Returns true (ok a)
Returns-ok a = record { only_then = λ h. refl; or_overflows = λ h. refl }

pub Returns-is_ok {ℓ} : {A : Type ℓ} (m : Result A) (p : Bool) → is_ok m ≡ p → Returns p m
Returns-is_ok m p h = record {
  only_then = λ e. ground (arith, h, e);
  or_overflows = λ e. ground (arith, h, e);
}

module _ {ℓ κ} {A : Type ℓ} {B : Type κ} where
  pub Returns-and_then :
      (m : Result A) (f : A → Result B) (p q : Bool)
      → Returns p m
      → ((a : A) → Returns q (f a))
      → Returns (p && q) (and_then m f)
  unfolding overflows
  Returns-and_then (ok a) f p q r g =
      let first = r.only_then refl in
      let next = g a in
      record {
        only_then = λ e. let l = next.only_then e in ground arith;
        or_overflows = λ e. next.or_overflows (ground arith);
      }
  Returns-and_then (raised x) f p q r g = record {
    only_then = λ e. absurd (ground arith);
    or_overflows = λ e. r.or_overflows (ground arith);
  }

  -- What follows returns or overflows.
  pub Returns-then :
      (m : Result A) (f : A → Result B) (p : Bool)
      → Returns p m
      → ((a : A) → Returns true (f a))
      → Returns p (and_then m f)
  Returns-then m f p r g =
      let both = Returns-and_then m f p true r g in
      record {
        only_then = λ e. let l = both.only_then e in ground arith;
        or_overflows = λ e. both.or_overflows (ground arith);
      }

-- It returns exactly when the condition holds and it does not overflow.
pub Returns-equation {ℓ} :
    {A : Type ℓ} (p : Bool) (m : Result A) → Returns p m → is_ok m ≡ (p && not (overflows m))
unfolding overflows
Returns-equation p (ok a) r = let holds = r.only_then refl in ground arith
Returns-equation false (raised x) r = refl
Returns-equation true (raised x) r = let over = r.or_overflows refl in ground arith

pub Returns-choice {ℓ} :
    {A : Type ℓ} (b : Bool) (x y : Result A)
    → Returns true x
    → Returns true y
    → Returns true (if b then x else y)
Returns-choice true x y r s = r
Returns-choice false x y r s = s

Returns-map_each :
    {A B : Type 0} (f : A → Result B) (xs : List A)
    → ((x : A) → Returns true (f x))
    → Returns true (map_each f xs)
unfolding map_each
Returns-map_each f [] r = Returns-ok []
Returns-map_each f (x ∷ xs) r =
    Returns-then (f x) _ true (r x) (λ y.
      Returns-then (map_each f xs) _ true (Returns-map_each f xs r) (λ ys. Returns-ok (y ∷ ys)))

pub Returns-option :
    {A B : Type 0} (o : Option A) (x : Result B) (f : A → Result B)
    → Returns true x
    → ((a : A) → Returns true (f a))
    → Returns true (elim o as (λ _. Result B) [ none ↦ x | some a ↦ f a ])
Returns-option none x f r s = r
Returns-option (some a) x f r s = s a

Returns-list :
    {A B : Type 0} (xs : List A) (x : Result B) (f : A → List A → Result B)
    → Returns true x
    → ((a : A) (as' : List A) → Returns true (f a as'))
    → Returns true (elim xs as (λ _. Result B) [ [] ↦ x | a ∷ as' ↦ f a as' ])
Returns-list [] x f r s = r
Returns-list (a ∷ as') x f r s = s a as'

Returns-overflow : {A : Type 0} → Returns {A = A} true (raised overflow_error)
unfolding overflows
Returns-overflow = record { only_then = λ e. refl; or_overflows = λ e. refl }

number_of-Returns : (s : Scalar) → Returns true (number_of s)
unfolding number_of
number_of-Returns null = Returns-ok none
number_of-Returns (flag b) = Returns-ok none
number_of-Returns (text s) = Returns-ok _
number_of-Returns (number value shown) =
    Returns-choice _ _ _ Returns-overflow (Returns-ok (some value))

duration_outcome-Returns :
    (expected : Decimal) (name : BidderFact) (value : Option BidderFact)
    → Returns true (duration_outcome expected name value)
unfolding duration_outcome
duration_outcome-Returns expected name none = Returns-ok _
duration_outcome-Returns expected name (some value) =
    Returns-then (number_of value.value) _ true (number_of-Returns value.value) (λ n. Returns-ok _)

duration_of-Returns :
    (expected : Decimal) (groups : List FactGroup) → Returns true (duration_of expected groups)
unfolding duration_of
duration_of-Returns expected [] = Returns-ok _
duration_of-Returns expected (g ∷ gs) =
    Returns-option (field_of "name" g) _ _ (duration_of-Returns expected gs) (λ name.
      Returns-choice _ _ _ (duration_outcome-Returns expected name (field_of "value" g))
        (duration_of-Returns expected gs))

duration_profile_match-Returns :
    (r : Requirement) (profile : BidderProfile) → Returns true (duration_profile_match r profile)
unfolding duration_profile_match
duration_profile_match-Returns r profile =
    Returns-choice (not (occurs "交付" r.text)) (ok none) _ (Returns-ok none) (
      Returns-option (search_text _ r.text) _ _ (Returns-ok none) (λ f.
        Returns-then (duration_of (float_of (group_text "1" f)) (fact_groups profile)) _ true
          (duration_of-Returns (float_of (group_text "1" f)) (fact_groups profile))
          (λ o. Returns-ok (some o))))

pub profile_match-Returns :
    (r : Requirement) (profile : BidderProfile) → Returns true (profile_match r profile)
unfolding profile_match
profile_match-Returns r profile =
    Returns-then (duration_profile_match r profile) _ true
      (duration_profile_match-Returns r profile) (λ o. Returns-ok _)

candidate_value-Returns :
    (item : CatalogItem) (label : String) → Returns true (candidate_value item label)
unfolding candidate_value
candidate_value-Returns item label =
    Returns-list _ _ _ (Returns-ok _)
      (λ e es. Returns-then (number_of _) _ true (number_of-Returns _) (λ n. Returns-ok _))

constraint_check-Returns : (item : CatalogItem) (f : Found) → Returns true (constraint_check item f)
unfolding constraint_check
constraint_check-Returns item f =
    Returns-then (candidate_value item (strip (group_text "label" f))) _ true
      (candidate_value-Returns item (strip (group_text "label" f))) (λ n. Returns-ok _)

constraint_fit-Returns :
    (r : Requirement) (item : CatalogItem) → Returns true (constraint_fit r item)
unfolding constraint_fit constraint_points
constraint_fit-Returns r item =
    Returns-then (map_each (constraint_points item) _) _ true
      (Returns-map_each (constraint_points item) _ (λ f.
        Returns-then (constraint_check item f) _ true (constraint_check-Returns item f)
          (λ c. Returns-ok _)))
      (λ scores. Returns-ok _)

rank-Returns : (r : Requirement) (item : CatalogItem) → Returns true (rank r item)
unfolding rank
rank-Returns r item =
    Returns-then (constraint_fit r item) _ true (constraint_fit-Returns r item) (λ s. Returns-ok _)

checks_of-Returns : (r : Requirement) (item : CatalogItem) → Returns true (checks_of r item)
unfolding checks_of
checks_of-Returns r item =
    Returns-then (map_each (constraint_check item) _) _ true
      (Returns-map_each (constraint_check item) _ (constraint_check-Returns item))
      (λ checks. Returns-ok _)

choose_candidate-Returns :
    (r : Requirement) (catalog : List CatalogItem) → Returns true (choose_candidate r catalog)
unfolding choose_candidate
choose_candidate-Returns r catalog =
    Returns-then (map_each (rank r) _) _ true (Returns-map_each (rank r) _ (rank-Returns r))
      (λ ranking. Returns-ok _)

pub catalog_match-Returns :
    (r : Requirement) (catalog : List CatalogItem) → Returns true (catalog_match r catalog)
unfolding catalog_match
catalog_match-Returns r catalog =
    Returns-then (choose_candidate r catalog) _ true (choose_candidate-Returns r catalog) (λ choice.
      Returns-option choice _ _ (Returns-ok _) (λ c.
        Returns-then (checks_of r c.item) _ true (checks_of-Returns r c.item)
          (λ checks. Returns-ok _)))

with_years-Returns : (item : CatalogItem) → Returns true (with_years item)
unfolding with_years warranty_years
with_years-Returns item =
    Returns-then (warranty_years item) _ true (number_of-Returns _) (λ years. Returns-ok _)

pub warranty_match-Returns :
    (r : Requirement) (selected : List CatalogItem) → Returns true (warranty_match r selected)
unfolding warranty_match
warranty_match-Returns r selected =
    Returns-option (demanded_years r.text) _ _ (Returns-ok _) (λ expected.
      Returns-choice (nonempty selected) _ _
        (Returns-then (map_each with_years selected) _ true
          (Returns-map_each with_years selected with_years-Returns) (λ actuals. Returns-ok _))
        (Returns-ok _))
