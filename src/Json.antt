-- ===== src/Json.antt =====
-- The access to JSON values that artifacts.py, validators.py and planning.py make.
use proofbid.Decimal.{decimal_eq, whole}
use proofbid.Prelude.{
  Bool, Dict, List, Option, String, [], false, get_key, list_eq, nat_eq, none, put_key, some,
  text_eq, true, ℕ, ◌==◌, ◌∷◌,
}
use proofbid.Loading.{Json, Items, Fields, scalar, array, object, no_items, item, no_fields, field}
use proofbid.Contracts.{flag, number, text}

unfoldable pub list_of : Items → List Json
list_of no_items = []
list_of (item x xs) = x ∷ list_of xs

unfoldable pub items_of : List Json → Items
items_of [] = no_items
items_of (x ∷ xs) = item x (items_of xs)

gather : Fields → Dict String Json → Dict String Json
unfolding put_key
gather no_fields d = d
gather (field key x fs) d = gather fs (put_key key x d)

-- The keys of an object, as `json.loads` keeps them: the last value of a key counts.
unfoldable pub dict_of : Fields → Dict String Json
unfolding gather
dict_of fs = gather fs []

unfoldable pub fields_of : List (String × Json) → Fields
fields_of [] = no_fields
fields_of ((key, x) ∷ rest) = field key x (fields_of rest)

-- `value.get(key)`; nothing for a value that is no object.
unfoldable pub member : String → Json → Option Json
unfolding get_key dict_of
member key (object fs) = get_key key (dict_of fs)
member key _ = none

unfoldable pub is_object : Json → Bool
is_object (object fs) = true
is_object _ = false

-- `isinstance(value, list)`
unfoldable pub array_of : Option Json → Option (List Json)
unfolding list_of
array_of (some (array xs)) = some (list_of xs)
array_of _ = none

-- `value == s`
unfoldable pub is_string : String → Option Json → Bool
is_string s (some (scalar (text t))) = t == s
is_string s _ = false

-- `value == n`, where `True` is 1 and `False` is 0.
unfoldable pub is_count : ℕ → Option Json → Bool
unfolding decimal_eq
is_count n (some (scalar (number value shown))) = decimal_eq value (whole n)
is_count n (some (scalar (flag true))) = n == 1
is_count n (some (scalar (flag false))) = n == 0
is_count n _ = false
