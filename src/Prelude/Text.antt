-- ===== src/Prelude/Text.antt =====
-- Python's `str`: native text, and the methods that the program calls on it.
use Prim.Native.Nat.{ℕ, ◌+◌}
use Prim.Native.Char.{code}
use Prim.Native.String.{String, ◌++◌ as ◌<>◌}
use mathlib.Core.Bool.{Bool, true, false, not, ◌&&◌, ◌||◌}
use mathlib.Core.List.{List, [], ◌∷◌, map}
use text.Mathlib.Text.{starts_with}
use mathlib.Core.Path.{◌≡◌, refl}
use native.Mathlib.Omega.{arith}
use proofbid.Prelude.Tests.{leb, ltb, ◌==◌, nat_eq, text_eq, if◌then◌else◌}
use proofbid.Prelude.Lists.{length, all, any, contains, select, list_eq}

-- The code points of a text. `String` has its own `[]` and `∷`.
abbrev pub codes : String → List ℕ
codes String.[] = []
codes (String.◌∷◌ c s) = code c ∷ codes s

-- `bool(s)`
abbrev pub truthy : String → Bool
truthy String.[] = false
truthy (String.◌∷◌ c s) = true

abbrev pub between : ℕ → ℕ → ℕ → Bool
between low high n = leb low n && leb n high

abbrev lone_spaces : List ℕ
lone_spaces = 0x20 ∷ 0x85 ∷ 0xa0 ∷ 0x1680 ∷ 0x2028 ∷ 0x2029 ∷ 0x202f ∷ 0x205f ∷ 0x3000 ∷ []

-- The white space that `str.strip` removes.
unfoldable pub is_space : ℕ → Bool
is_space n =
    between 0x09 0x0d n || between 0x1c 0x1f n || between 0x2000 0x200a n || contains lone_spaces n

unfoldable pub lstrip : String → String
unfolding is_space
lstrip String.[] = String.[]
lstrip (String.◌∷◌ c s) = let rest = lstrip s in if is_space (code c) then rest else String.◌∷◌ c s

unfoldable pub rstrip : String → String
unfolding is_space
rstrip String.[] = String.[]
rstrip (String.◌∷◌ c s) =
    let rest = rstrip s in
    if is_space (code c) && not (truthy rest) then String.[] else String.◌∷◌ c rest

unfoldable pub strip : String → String
unfolding lstrip rstrip
strip s = rstrip (lstrip s)

-- `str.casefold` as code points, on the letters of ASCII; texts without case, as the Chinese
-- terms are, stay as they stand.
unfoldable pub casefold : String → List ℕ
casefold s = map (λ n. if between 65 90 n then n + 32 else n) (codes s)

-- `re.sub(r"\s+", "", s).casefold()`
unfoldable pub compact : String → List ℕ
unfolding casefold
compact s = select (λ n. not (is_space n)) (casefold s)

-- `sep.join(texts)`
unfoldable pub join : String → List String → String
join separator [] = ""
join separator (t ∷ []) = t
join separator (t ∷ u ∷ ts) = t <> separator <> join separator (u ∷ ts)

-- `s.casefold() in {…}`
unfoldable pub casefold_in : List String → String → Bool
unfolding casefold
casefold_in words s = any (λ w. codes w == casefold s) words

-- `re.compile(r"^[0-9a-fA-F]{64}$").fullmatch(s)`
unfoldable pub is_sha256 : String → Bool
is_sha256 s =
    length (codes s) == 64
    && all (λ n. between 48 57 n || between 97 102 n || between 65 70 n) (codes s)

-- `part in s`
unfoldable pub occurs : String → String → Bool
occurs part String.[] = starts_with String.[] part
occurs part (String.◌∷◌ c s) = starts_with (String.◌∷◌ c s) part || occurs part s

-- `<=` on texts: by code points.
pub codes_le : List ℕ → List ℕ → Bool
codes_le [] ys = true
codes_le (x ∷ xs) [] = false
codes_le (x ∷ xs) (y ∷ ys) = ltb x y || x == y && codes_le xs ys

unfoldable pub text_le : String → String → Bool
unfolding codes_le
text_le s t = codes_le (codes s) (codes t)

insert_text : String → List String → List String
insert_text s [] = s ∷ []
insert_text s (t ∷ ts) = let rest = insert_text s ts in if text_le s t then s ∷ t ∷ ts else t ∷ rest

-- `sorted(texts)`
unfoldable pub sorted : List String → List String
unfolding insert_text text_le
sorted [] = []
sorted (s ∷ ss) = insert_text s (sorted ss)

contains-insert_text :
    (s : String) (ss : List String) (a : String)
    → contains (insert_text s ss) a ≡ contains (s ∷ ss) a
unfolding insert_text
contains-insert_text s [] a = refl
contains-insert_text s (t ∷ ts) a = ground (arith, contains-insert_text s ts a)

pub contains-sorted : (ss : List String) (a : String) → contains (sorted ss) a ≡ contains ss a
unfolding sorted insert_text
contains-sorted [] a = refl
contains-sorted (s ∷ ss) a =
    ground (arith, contains-insert_text s (sorted ss) a, contains-sorted ss a)

-- `part in whole` on bytes.
is_prefix : List ℕ → List ℕ → Bool
is_prefix [] ys = true
is_prefix (x ∷ xs) [] = false
is_prefix (x ∷ xs) (y ∷ ys) = x == y && is_prefix xs ys

unfoldable pub is_infix : List ℕ → List ℕ → Bool
unfolding is_prefix
is_infix part [] = is_prefix part []
is_infix part (y ∷ ys) = is_prefix part (y ∷ ys) || is_infix part ys
