-- ===== src/Decimal.antt =====
-- Numbers of the program: Python floats are exact decimals here, ± digits / 10 ^ places.
use proofbid.Regex.{◌then◌}
use Prim.Native.Nat.{◌^◌}
use proofbid.Prelude.{
  Bool, List, [], false, if◌then◌else◌, leb, length, not, true, ℕ, ◌&&◌, ◌*◌, ◌+◌, ◌-◌, ◌++◌, ◌==◌,
  ◌∷◌, nat_eq, bool_eq, list_eq, text_eq,
}

pub record Decimal : Type 0 where
  pub negative : Bool
  pub digits : ℕ
  pub places : ℕ

abbrev pub whole : ℕ → Decimal
whole n = record { negative = false; digits = n; places = 0 }

-- `a < 0`; a zero may carry a sign.
abbrev pub is_below_zero : Decimal → Bool
is_below_zero a = a.negative && not (a.digits == 0)

-- The digits of `a` at the places of both.
abbrev scaled : Decimal → Decimal → ℕ
scaled a b = a.digits * 10 ^ b.places

-- `a <= b`; a zero may carry a sign.
unfoldable pub decimal_le : Decimal → Decimal → Bool
decimal_le a b =
    if a.negative
    then if b.negative then leb (scaled b a) (scaled a b) else true
    else if b.negative
    then a.digits == 0 && b.digits == 0
    else leb (scaled a b) (scaled b a)

-- `a == b`
unfoldable pub decimal_eq : Decimal → Decimal → Bool
decimal_eq a b = decimal_le a b && decimal_le b a

unfoldable pub decimal_add : Decimal → Decimal → Decimal
decimal_add a b =
    let x = scaled a b in
    let y = scaled b a in
    let places = a.places + b.places in
    if a.negative == b.negative
    then record { negative = a.negative; digits = x + y; places = places }
    else if leb y x
    then record { negative = a.negative; digits = x - y; places = places }
    else record { negative = b.negative; digits = y - x; places = places }

unfoldable pub decimal_mul : Decimal → Decimal → Decimal
decimal_mul a b = record {
  negative = not (a.negative == b.negative);
  digits = a.digits * b.digits;
  places = a.places + b.places;
}

-- The number that ASCII digits write, in the base ten.
abbrev digits_from : ℕ → List ℕ → ℕ
digits_from n [] = n
digits_from n (c ∷ cs) = digits_from (n * 10 + (c - 48)) cs

abbrev pub digits_value : List ℕ → ℕ
digits_value cs = digits_from 0 cs

-- `float(…)` of a sign, of the digits before the point and of those behind it.
abbrev pub decimal_of : Bool → List ℕ → List ℕ → Decimal
decimal_of negative before behind = record {
  negative = negative;
  digits = digits_value (before ++ behind);
  places = length behind;
}
