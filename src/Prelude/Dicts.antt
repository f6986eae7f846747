-- ===== src/Prelude/Dicts.antt =====
-- `dict`: entries in the order in which their keys first came.
use mathlib.Core.List.{List, [], ◌∷◌, map}
use mathlib.Core.Option.{Option, none, some}
use mathlib.Core.Path.{◌≡◌, refl}
use native.Mathlib.Omega.{arith}
use proofbid.Prelude.Tests.{Eq, ◌==◌, if◌then◌else◌}

abbrev pub Dict : Type 0 → Type 0 → Type 0
Dict K V = List (K × V)

abbrev pub values : {K V : Type 0} → Dict K V → List V
values d = map (λ e. e.1) d

module _ {K V : Type 0} ⦃e : Eq K⦄ where
  -- `d.get(k)`
  unfoldable pub get_key : K → Dict K V → Option V
  get_key k [] = none
  get_key k ((j, v) ∷ d) = if j == k then some v else get_key k d

  -- `d[k] = v`
  unfoldable pub put_key : K → V → Dict K V → Dict K V
  put_key k v [] = (k, v) ∷ []
  put_key k v ((j, u) ∷ d) =
      let rest = put_key k v d in if j == k then (j, v) ∷ d else (j, u) ∷ rest

  -- `d.setdefault(k, v)`
  unfoldable pub set_default : K → V → Dict K V → Dict K V
  set_default k v [] = (k, v) ∷ []
  set_default k v ((j, u) ∷ d) =
      let rest = set_default k v d in if j == k then (j, u) ∷ d else (j, u) ∷ rest

  -- What is stored under a key comes back, and nothing else changes.
  pub get_key-put_key :
      (j k : K) (v : V) (d : Dict K V)
      → get_key j (put_key k v d) ≡ (if k == j then some v else get_key j d)
  unfolding get_key put_key
  get_key-put_key j k v [] = refl
  get_key-put_key j k v ((i, u) ∷ d) =
      ground (arith, get_key-put_key j k v d, e.eqb_iff i k, e.eqb_iff i j, e.eqb_iff k j)
