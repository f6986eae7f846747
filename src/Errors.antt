-- ===== src/Errors.antt =====
-- The exceptions that the program raises, and computations that may raise one.
-- `reason_code` is `getattr(exc, "reason_code", default)`.
use Prim.Native.Char.{code}
use proofbid.Prelude.{
  Bool, List, Option, String, [], ◌∷◌, false, inl, inr, none, refl, some, true, ◌≡◌, ◌⊎◌, text_eq,
  ℕ, arith,
}

-- A policy refusal carries its message; `failure` is any other exception, with its class
-- attribute `reason_code` where it has one. An `HTTPException` carries its status code.
pub data Exception : Type 0 where
  value_error : (message : String) → Exception
  tool_policy : (message : String) → Exception
  recoverable_render : Exception
  plan_validation : (reason_codes : List String) → Exception
  failure : (code : String) → Exception
  plain_failure : (type_name : String) → Exception
  http_error : (status_code : ℕ) (detail : String) → Exception

abbrev pub reason_code : Exception → String → String
reason_code (value_error _) default = default
reason_code (tool_policy _) default = "AGENT_TOOL_POLICY_REJECTED"
reason_code recoverable_render default = "RENDER_TRANSIENT"
reason_code (plan_validation _) default = "PLAN_POLICY_REJECTED"
reason_code (failure code) default = code
reason_code (plain_failure _) default = default
reason_code (http_error _ _) default = default

pub data Result {ℓ} (A : Type ℓ) : Type ℓ where
  ok : A → Result A
  raised : Exception → Result A

abbrev pub and_then {ℓ κ} : {A : Type ℓ} {B : Type κ} → Result A → (A → Result B) → Result B
and_then (ok a) f = f a
and_then (raised e) f = raised e

pub and_then-ok {ℓ κ} :
    {A : Type ℓ} {B : Type κ} (m : Result A) (f : A → Result B) {b : B}
    → and_then m f ≡ ok b
    → (a : A) × (m ≡ ok a) × (f a ≡ ok b)
and_then-ok (ok a) f h = (a, refl, h)
and_then-ok (raised e) f h = absurd (ground arith)

-- What follows a step, on each of its results.
pub each_ok :
    {A B : Type 0} (P : B → Type 0) (m : Result A) (f : A → Result B)
    → ((a : A) → m ≡ ok a → (b : B) → f a ≡ ok b → P b)
    → (b : B) → and_then m f ≡ ok b
    → P b
each_ok P m f next b h = let (a, made, rest) = and_then-ok m f h in next a made b rest

infixl 5 ◌>>=◌ ◌>>◌
abbrev pub ◌>>=◌ {ℓ κ} : {A : Type ℓ} {B : Type κ} → Result A → (A → Result B) → Result B
◌>>=◌ = and_then

abbrev pub ◌>>◌ {ℓ} : {B : Type ℓ} → Result (Unit {0}) → Result B → Result B
m >> k = m >>= λ _. k

-- `if bad: raise ValueError(message)`
abbrev pub refuse : Bool → String → Result (Unit {0})
refuse true message = raised (value_error message)
refuse false message = ok tt

-- `self._require(condition, message)`
abbrev pub guard : Bool → String → Result (Unit {0})
guard true message = ok tt
guard false message = raised (tool_policy message)

pub Result-cases {ℓ} :
    {A : Type ℓ} (r : Result A) → ((a : A) × (r ≡ ok a)) ⊎ ((e : Exception) × (r ≡ raised e))
Result-cases (ok a) = inl (a, refl)
Result-cases (raised e) = inr (e, refl)

-- `[f(x) for x in xs]`, where `f` may raise.
unfoldable pub map_each : {A B : Type 0} → (A → Result B) → List A → Result (List B)
map_each f [] = ok []
map_each f (x ∷ xs) = f x >>= λ y. map_each f xs >>= λ ys. ok (y ∷ ys)

-- `OverflowError`
abbrev pub overflow_error : Exception
overflow_error = plain_failure "OverflowError"

-- A field that is tested against `None` before it is used.
abbrev pub found {ℓ} : {A : Type ℓ} → Option A → String → Result A
found none message = raised (tool_policy message)
found (some a) message = ok a
