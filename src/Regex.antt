-- ===== src/Regex.antt =====
-- Python's `re`, as far as the program uses it: backtracking search from the left, greedy and lazy
-- repetition, and named groups. `\d` and the letters of IGNORECASE are those of ASCII.
-- A pattern is given what to match next, which decides how far it gives way.
use Prim.Native.Char.{code}
use proofbid.Prelude.{
  Bool, List, Option, String, [], between, codes, is_space, length, none, not, some, ℕ, ◌-◌, ◌==◌,
  ◌∷◌, if◌then◌else◌, nat_eq, text_eq, zero, suc, ◌+◌,
}

-- `len(s)` on a text
abbrev pub size : String → ℕ
size s = length (codes s)

abbrev pub Groups : Type 0
Groups = List (String × String)

-- The text behind a match, and the groups that the match has set, the last first.
pub record Found : Type 0 where
  pub rest : String
  pub groups : Groups

abbrev pub Next : Type 0
Next = String → Groups → Option Found

abbrev pub Pattern : Type 0
Pattern = String → Groups → Next → Option Found

-- The first that matches; the second waits for the first to fail.
abbrev first_of : Option Found → Option Found → Option Found
first_of a b = elim a [ some f ↦ some f | none ↦ b ]

abbrev pub nothing : Pattern
nothing s g k = k s g

-- A character class.
unfoldable pub char : (ℕ → Bool) → Pattern
char p String.[] g k = none
char p (String.◌∷◌ c s) g k = if p (code c) then k s g else none

abbrev lower : ℕ → ℕ
lower c = if between 65 90 c then c + 32 else c

infixr 45 ◌then◌
infixr 40 ◌or◌
abbrev pub ◌then◌ : Pattern → Pattern → Pattern
◌then◌ p q s g k = p s g (λ s' g'. q s' g' k)

abbrev pub ◌or◌ : Pattern → Pattern → Pattern
◌or◌ p q s g k = first_of (p s g k) (q s g k)

unfoldable pub word_codes : List ℕ → Pattern
word_codes [] = nothing
word_codes (c ∷ cs) = char (λ n. n == c) then word_codes cs

abbrev pub word : String → Pattern
word w = word_codes (codes w)

-- Alternatives in their order.
unfoldable pub one_of : List String → Pattern
one_of [] s g k = none
one_of (w ∷ ws) s g k = first_of (word w s g k) (one_of ws s g k)

-- A word under IGNORECASE.
unfoldable pub word_any_case : List ℕ → Pattern
word_any_case [] = nothing
word_any_case (c ∷ cs) = char (λ n. lower n == lower c) then word_any_case cs

-- At most `n` times, as often as possible and as seldom as possible.
unfoldable pub at_most : ℕ → Pattern → Pattern
at_most zero p s g k = k s g
at_most (suc n) p s g k = first_of (p s g (λ s' g'. at_most n p s' g' k)) (k s g)

unfoldable pub at_most_lazily : ℕ → Pattern → Pattern
at_most_lazily zero p s g k = k s g
at_most_lazily (suc n) p s g k = first_of (k s g) (p s g (λ s' g'. at_most_lazily n p s' g' k))

-- `p*`, `p*?`, `p+` and `p?`. Each round takes a character, so the text's length bounds the rounds.
unfoldable pub many : Pattern → Pattern
many p s g k = at_most (size s) p s g k

unfoldable pub many_lazily : Pattern → Pattern
many_lazily p s g k = at_most_lazily (size s) p s g k

abbrev pub some_more : Pattern → Pattern
some_more p = p then many p

abbrev pub maybe : Pattern → Pattern
maybe p = p or nothing

unfoldable pub exactly : ℕ → Pattern → Pattern
exactly zero p = nothing
exactly (suc n) p = p then exactly n p

-- `s[:n]`
unfoldable pub take_text : ℕ → String → String
take_text zero s = String.[]
take_text (suc n) String.[] = String.[]
take_text (suc n) (String.◌∷◌ c s) = String.◌∷◌ c (take_text n s)

-- `(?P<name>…)`
unfoldable pub group : String → Pattern → Pattern
unfolding take_text
group name p s g k = p s g (λ s' g'. k s' ((name, take_text (size s - size s') s) ∷ g'))

abbrev pub digit : Pattern
digit = char (between 48 57)

abbrev pub spaces : Pattern
spaces = many (char is_space)

-- `.`, and `.*?`
abbrev pub any_char : Pattern
any_char = char (λ c. not (c == 10))

abbrev pub anything : Pattern
anything = many_lazily any_char

abbrev done : Next
done s g = some (record { rest = s; groups = g })

-- `re.match(p, text)`; the whole match is the group "0".
unfoldable pub match_start : Pattern → String → Option Found
match_start p s = group "0" p s [] done

-- `re.search(p, text)`
unfoldable pub search_text : Pattern → String → Option Found
search_text p String.[] = match_start p String.[]
search_text p (String.◌∷◌ c s) = first_of (match_start p (String.◌∷◌ c s)) (search_text p s)

first_named : String → Groups → Option String
first_named name [] = none
first_named name ((n, v) ∷ gs) = if n == name then some v else first_named name gs

-- `match.group(name)`: `none` where the match has not set the group.
unfoldable pub group_of : String → Found → Option String
unfolding first_named
group_of name f = first_named name f.groups

-- `re.finditer(p, text)`, for a pattern that never matches the empty text.
find_from : ℕ → Pattern → String → List Found
find_from zero p s = []
find_from (suc n) p s = elim (search_text p s) [ none ↦ [] | some f ↦ f ∷ find_from n p f.rest ]

unfoldable pub find_all : Pattern → String → List Found
unfolding find_from
find_all p s = find_from (size s) p s
