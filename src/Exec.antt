-- ===== src/Exec.antt =====
-- Methods that change an object and may raise. What was assigned before an exception stays
-- assigned, so the state comes back beside the exception too.
use proofbid.Prelude.{Bool, Option, String, false, none, some, true, text_eq}
use proofbid.Errors.{Exception, Result, ok, raised, tool_policy}

abbrev pub Exec : Type 0 → Type 0 → Type 0
Exec S A = S → Result A × S

module _ {S A : Type 0} where
  abbrev pub pure : A → Exec S A
  pure a s = (ok a, s)

  abbrev pub throw : Exception → Exec S A
  throw e s = (raised e, s)

  abbrev pub lift : Result A → Exec S A
  lift r s = (r, s)

  abbrev pub gets : (S → A) → Exec S A
  gets f s = (ok (f s), s)

module _ {S : Type 0} where
  abbrev pub modify : (S → S) → Exec S (Unit {0})
  modify f s = (ok tt, f s)

  -- `self._require(condition, message)`
  abbrev pub require : Bool → String → Exec S (Unit {0})
  require true message s = (ok tt, s)
  require false message s = (raised (tool_policy message), s)

  -- `if condition: …`
  abbrev pub when : Bool → Exec S (Unit {0}) → Exec S (Unit {0})
  when true m s = m s
  when false m s = (ok tt, s)

  -- A field that is tested against `None` before it is used.
  abbrev pub present : {A : Type 0} → Option A → String → Exec S A
  present none message s = (raised (tool_policy message), s)
  present (some a) message s = (ok a, s)

module _ {S A B : Type 0} where
  abbrev pub resume : Result A → (A → Exec S B) → Exec S B
  resume (ok a) f s = f a s
  resume (raised e) f s = (raised e, s)

  infixl 5 ◌>>=◌ ◌>>◌
  abbrev pub ◌>>=◌ : Exec S A → (A → Exec S B) → Exec S B
  ◌>>=◌ m f s = resume (m s).0 f (m s).1

  abbrev pub ◌>>◌ : Exec S A → Exec S B → Exec S B
  m >> n = m >>= λ _. n
