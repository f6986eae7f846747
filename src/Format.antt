-- ===== src/Format.antt =====
-- Numbers as the program writes them into texts: `str`, `:g` and `:.2f` of a float.
use proofbid.Prelude.{
  List, String, [], false, if◌then◌else◌, leb, ltb, true, zero, suc, ℕ, ◌%◌, ◌&&◌, ◌*◌, ◌+◌, ◌-◌,
  ◌/◌, ◌<>◌, ◌==◌, ◌^◌, ◌||◌, ◌∷◌, nat_eq,
}
use proofbid.Decimal.{Decimal}
use proofbid.Contracts.{Scalar, null, flag, number, text}

nth_text : List String → ℕ → String
nth_text [] n = ""
nth_text (t ∷ ts) zero = t
nth_text (t ∷ ts) (suc n) = nth_text ts n

digit_text : ℕ → String
unfolding nth_text
digit_text n = nth_text ("0" ∷ "1" ∷ "2" ∷ "3" ∷ "4" ∷ "5" ∷ "6" ∷ "7" ∷ "8" ∷ "9" ∷ []) n

-- A number below `10 ^ width` with `width` digits.
padded : ℕ → ℕ → String
unfolding digit_text
padded zero n = ""
padded (suc width) n = padded width (n / 10) <> digit_text (n % 10)

-- The digits of `n` that stand in front of `shown`; a number has at most as many digits as itself.
digits_before : ℕ → ℕ → String → String
unfolding digit_text
digits_before zero n shown = shown
digits_before (suc fuel) n shown =
    let more = digits_before fuel (n / 10) (digit_text (n % 10) <> shown) in
    if n == 0 then shown else more

-- `str` of a natural number.
unfoldable pub show_nat : ℕ → String
unfolding digits_before
show_nat n = if n == 0 then "0" else digits_before n n ""

-- Trailing zeros behind the point are dropped.
reduced : ℕ → ℕ → ℕ × ℕ
reduced zero digits = (digits, zero)
reduced (suc places) digits =
    let shorter = reduced places (digits / 10) in
    if digits % 10 == 0 then shorter else (digits, suc places)

sign_text : Decimal → String
sign_text d = if d.negative then "-" else ""

point_text : ℕ × ℕ → String → String
unfolding show_nat padded
point_text (digits, zero) none_text = show_nat digits <> none_text
point_text (digits, suc places) none_text =
    show_nat (digits / 10 ^ suc places) <> "." <> padded (suc places) (digits % 10 ^ suc places)

-- `:g`, on numbers of at most six significant digits, which keep all of them.
unfoldable pub show_general : Decimal → String
unfolding sign_text point_text reduced
show_general d = sign_text d <> point_text (reduced d.places d.digits) ""

-- `str` of a float below 10 ^ 16.
unfoldable pub show_float : Decimal → String
unfolding sign_text point_text reduced
show_float d = sign_text d <> point_text (reduced d.places d.digits) ".0"

-- Hundredths, to the nearest; a tie goes to the even one.
hundredths : Decimal → ℕ
hundredths d =
    if leb d.places 2
    then d.digits * 10 ^ (2 - d.places)
    else let unit = 10 ^ (d.places - 2) in
      let down = d.digits / unit in
      let left = 2 * (d.digits % unit) in
      if ltb unit left || left == unit && down % 2 == 1 then down + 1 else down

-- `:.2f`
unfoldable pub show_fixed : Decimal → String
unfolding sign_text hundredths show_nat padded
show_fixed d =
    let n = hundredths d in sign_text d <> show_nat (n / 100) <> "." <> padded 2 (n % 100)

-- `str(value)`
unfoldable pub scalar_text : Scalar → String
scalar_text null = "None"
scalar_text (flag true) = "True"
scalar_text (flag false) = "False"
scalar_text (number value shown) = shown
scalar_text (text s) = s
