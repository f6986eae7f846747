-- ===== src/Prelude/Lists.antt =====
-- Lists as the program uses them: lengths, tests over all elements, and the key order of a `dict`.
use Prim.Native.Nat.{ℕ, suc, ◌+◌}
use mathlib.Core.Path.{◌≡◌, refl, sym, ap}
use mathlib.Core.Logic.{◌↔◌, ◌⊎◌, inl, inr}
use mathlib.Core.Bool.{Bool, true, false, not, ◌&&◌, ◌||◌}
use mathlib.Core.List.{List, [], ◌∷◌, ◌++◌, map, Memᴰ}
use mathlib.Core.Option.{Option, none, some}
use native.Mathlib.Omega.{arith}
use proofbid.Prelude.Tests.{Eq, ◌==◌, eqb_refl, eqb→eq, if◌then◌else◌, Bool-cases, Option-cases}

module _ {ℓ} {A : Type ℓ} where
  abbrev pub length : List A → ℕ
  length [] = 0
  length (_ ∷ xs) = suc (length xs)

  pub length-append : (xs ys : List A) → length (xs ++ ys) ≡ length xs + length ys
  length-append [] ys = omega arith
  length-append (x ∷ xs) ys = omega (arith, length-append xs ys)

  -- `bool(xs)`
  abbrev pub nonempty : List A → Bool
  nonempty [] = false
  nonempty (_ ∷ _) = true

  -- `all(p(x) for x in xs)` and `any(p(x) for x in xs)`
  abbrev pub all : (A → Bool) → List A → Bool
  all p [] = true
  all p (x ∷ xs) = p x && all p xs

  abbrev pub any : (A → Bool) → List A → Bool
  any p [] = false
  any p (x ∷ xs) = p x || any p xs

  -- The value that a `dict` keeps for a key: the last of those that are put there.
  unfoldable pub find_last : (A → Bool) → List A → Option A
  find_last p [] = none
  find_last p (x ∷ xs) = elim (find_last p xs) [
    | some later ↦ some later
    | none ↦ if p x then some x else none
  ]

  pub find_last-mem :
      (p : A → Bool) (xs : List A) {y : A} → find_last p xs ≡ some y → Memᴰ y xs × (p y ≡ true)
  unfolding find_last
  find_last-mem p [] h = cc
  find_last-mem p (x ∷ xs) {y} h = elim (Option-cases (find_last p xs)) [
    | inl e ↦
        let hit : (p x ≡ true) × (x ≡ y) = ground arith in (Memᴰ.head (sym hit.1), ground arith)
    | inr (z, e) ↦
        let (m, t) = find_last-mem p xs e in
        let same : z ≡ y = ground arith in (Memᴰ.tail (rw (← same) m), rw (← same) t)
  ]

  abbrev pub is_some : Option A → Bool
  is_some none = false
  is_some (some _) = true

  -- `[x for x in xs if p(x)]`
  abbrev pub select : (A → Bool) → List A → List A
  select p [] = []
  select p (x ∷ xs) = let rest = select p xs in if p x then x ∷ rest else rest

  abbrev pub All {κ} : (A → Type κ) → List A → Type κ
  All P [] = Unit
  All P (x ∷ xs) = P x × All P xs

  pub any-append : (p : A → Bool) (xs ys : List A) → any p (xs ++ ys) ≡ (any p xs || any p ys)
  any-append p [] ys = refl
  any-append p (x ∷ xs) ys = ground (arith, any-append p xs ys)

  pub all-append : (p : A → Bool) (xs ys : List A) → all p (xs ++ ys) ≡ (all p xs && all p ys)
  all-append p [] ys = refl
  all-append p (x ∷ xs) ys = ground (arith, all-append p xs ys)

  pub all-mem : (p : A → Bool) {a : A} {xs : List A} → all p xs ≡ true → Memᴰ a xs → p a ≡ true
  all-mem p h (Memᴰ.head e) = ground arith
  all-mem p h (Memᴰ.tail m) = all-mem p (ground arith) m

  pub any-mem : (p : A → Bool) {a : A} {xs : List A} → Memᴰ a xs → p a ≡ true → any p xs ≡ true
  any-mem p (Memᴰ.head e) h = ground arith
  any-mem p (Memᴰ.tail m) h = ground (arith, any-mem p m h)

  pub mem_of_any :
      (p : A → Bool) (xs : List A) → any p xs ≡ true → (a : A) × Memᴰ a xs × (p a ≡ true)
  mem_of_any p [] h = cc
  mem_of_any p (x ∷ xs) h = elim (Bool-cases (p x)) [
    | inl here ↦ (x, Memᴰ.head refl, here)
    | inr no_hit ↦ let (a, m, e) = mem_of_any p xs (ground arith) in (a, Memᴰ.tail m, e)
  ]

  pub mem_of_nonempty : (xs : List A) → nonempty xs ≡ true → (a : A) × Memᴰ a xs
  mem_of_nonempty [] h = cc
  mem_of_nonempty (x ∷ xs) h = (x, Memᴰ.head refl)

  pub mem-append_left : {a : A} {xs : List A} (ys : List A) → Memᴰ a xs → Memᴰ a (xs ++ ys)
  mem-append_left ys (Memᴰ.head e) = Memᴰ.head e
  mem-append_left ys (Memᴰ.tail m) = Memᴰ.tail (mem-append_left ys m)

  pub mem-append_right : {a : A} (xs : List A) {ys : List A} → Memᴰ a ys → Memᴰ a (xs ++ ys)
  mem-append_right [] m = m
  mem-append_right (x ∷ xs) m = Memᴰ.tail (mem-append_right xs m)

  pub select-eq-nil : (p : A → Bool) (xs : List A) → any p xs ≡ false → select p xs ≡ []
  select-eq-nil p [] h = refl
  select-eq-nil p (x ∷ xs) h = ground (arith, select-eq-nil p xs)

  pub nonempty-append : (xs ys : List A) → nonempty (xs ++ ys) ≡ (nonempty xs || nonempty ys)
  nonempty-append [] ys = refl
  nonempty-append (x ∷ xs) ys = refl

  pub any-select : (p q : A → Bool) (xs : List A) → any p (select q xs) ≡ any (λ x. q x && p x) xs
  any-select p q [] = refl
  any-select p q (x ∷ xs) = ground (arith, any-select p q xs)

-- `[y for x in xs for y in f(x)]`, and the present values among `f(x)`.
abbrev pub flat_map {ℓ κ} : {A : Type ℓ} {B : Type κ} → (A → List B) → List A → List B
flat_map f [] = []
flat_map f (x ∷ xs) = f x ++ flat_map f xs

abbrev cons_some {ℓ} : {A : Type ℓ} → Option A → List A → List A
cons_some none xs = xs
cons_some (some x) xs = x ∷ xs

abbrev pub filter_map {ℓ κ} : {A : Type ℓ} {B : Type κ} → (A → Option B) → List A → List B
filter_map f [] = []
filter_map f (x ∷ xs) = cons_some (f x) (filter_map f xs)

pub all-flat_map {ℓ κ} :
    {A : Type ℓ} {B : Type κ} (p : B → Bool) (f : A → List B) (xs : List A)
    → all p (flat_map f xs) ≡ all (λ x. all p (f x)) xs
all-flat_map p f [] = refl
all-flat_map p f (x ∷ xs) = rw all-append (rw (all-flat_map p f xs) refl)

pub all-congr {ℓ} :
    {A : Type ℓ} (p q : A → Bool) (xs : List A) → ((x : A) → p x ≡ q x) → all p xs ≡ all q xs
all-congr p q [] h = refl
all-congr p q (x ∷ xs) h = rw (h x) (rw (all-congr p q xs h) refl)

mem-cons_some {ℓ} :
    {A : Type ℓ} (o : Option A) {y : A} {ys : List A}
    → Memᴰ y (cons_some o ys)
    → (o ≡ some y) ⊎ Memᴰ y ys
mem-cons_some none m = inr m
mem-cons_some (some x) (Memᴰ.head e) = inl (ground arith)
mem-cons_some (some x) (Memᴰ.tail m) = inr m

mem-cons_some_tail {ℓ} :
    {A : Type ℓ} (o : Option A) {y : A} {ys : List A} → Memᴰ y ys → Memᴰ y (cons_some o ys)
mem-cons_some_tail none m = m
mem-cons_some_tail (some x) m = Memᴰ.tail m

-- An element of `filter_map f xs` comes from an element of `xs`.
pub mem-filter_map {ℓ κ} :
    {A : Type ℓ} {B : Type κ} (f : A → Option B) (xs : List A) {y : B}
    → Memᴰ y (filter_map f xs)
    → (x : A) × Memᴰ x xs × (f x ≡ some y)
mem-filter_map f [] m = elim m [ ]
mem-filter_map f (x ∷ xs) m = elim (mem-cons_some (f x) m) [
  | inl e ↦ (x, Memᴰ.head refl, e)
  | inr m' ↦ let (z, mz, e) = mem-filter_map f xs m' in (z, Memᴰ.tail mz, e)
]

pub mem-filter_map_intro {ℓ κ} :
    {A : Type ℓ} {B : Type κ} (f : A → Option B) {x : A} {xs : List A} {y : B}
    → Memᴰ x xs
    → f x ≡ some y
    → Memᴰ y (filter_map f xs)
mem-filter_map_intro f {y} (Memᴰ.head {xs = xs} p) e = rw (← p) (rw e (Memᴰ.head refl))
mem-filter_map_intro f (Memᴰ.tail {x = x} m) e =
    mem-cons_some_tail (f x) (mem-filter_map_intro f m e)

pub nonempty-map-select {ℓ κ} :
    {A : Type ℓ} {B : Type κ} (f : A → B) (p : A → Bool) (xs : List A)
    → nonempty (map f (select p xs)) ≡ any p xs
nonempty-map-select f p [] = refl
nonempty-map-select f p (x ∷ xs) = ground (arith, nonempty-map-select f p xs)

module _ {ℓ} {A : Type ℓ} ⦃e : Eq A⦄ where
  -- `a in xs`
  abbrev pub contains : List A → A → Bool
  contains [] a = false
  contains (x ∷ xs) a = x == a || contains xs a

  -- `len(set(xs)) == len(xs)`
  abbrev pub is_unique : List A → Bool
  is_unique [] = true
  is_unique (x ∷ xs) = not (contains xs x) && is_unique xs

  -- `set(xs) <= set(ys)`
  abbrev pub is_subset : List A → List A → Bool
  is_subset xs ys = all (contains ys) xs

  -- `set(xs) == set(ys)`
  abbrev pub same_set : List A → List A → Bool
  same_set xs ys = is_subset xs ys && is_subset ys xs

  without : A → List A → List A
  without a [] = []
  without a (x ∷ xs) = let rest = without a xs in if x == a then rest else x ∷ rest

  -- `tuple(dict.fromkeys(xs))`: the distinct elements, in the order of their first occurrence.
  unfoldable pub from_keys : List A → List A
  unfolding without
  from_keys [] = []
  from_keys (x ∷ xs) = x ∷ without x (from_keys xs)

  pub contains_of_mem : {a : A} {xs : List A} → Memᴰ a xs → contains xs a ≡ true
  contains_of_mem {a} (Memᴰ.head {x = x} p) = rw (← p) (ground (arith, eqb_refl a))
  contains_of_mem (Memᴰ.tail m) = ground (arith, contains_of_mem m)

  pub mem_of_contains : (a : A) (xs : List A) → contains xs a ≡ true → Memᴰ a xs
  mem_of_contains a [] h = cc
  mem_of_contains a (x ∷ xs) h = elim (Bool-cases (x == a)) [
    | inl here ↦ Memᴰ.head (sym (eqb→eq x a here))
    | inr other ↦ Memᴰ.tail (mem_of_contains a xs (ground arith))
  ]

  contains-without :
      (a b : A) (xs : List A) → contains (without a xs) b ≡ (contains xs b && not (a == b))
  unfolding without
  contains-without a b [] = refl
  contains-without a b (x ∷ xs) =
      ground (arith, e.eqb_iff a b, e.eqb_iff x b, e.eqb_iff x a, contains-without a b xs)

  pub contains-from_keys : (xs : List A) (b : A) → contains (from_keys xs) b ≡ contains xs b
  unfolding from_keys
  contains-from_keys [] b = refl
  contains-from_keys (x ∷ xs) b =
      ground (arith, contains-without x b (from_keys xs), contains-from_keys xs b)

  is_unique-without : (a : A) (xs : List A) → is_unique xs ≡ true → is_unique (without a xs) ≡ true
  unfolding without
  is_unique-without a [] h = refl
  is_unique-without a (x ∷ xs) h = ground (arith, is_unique-without a xs, contains-without a x xs)

  pub is_unique-from_keys : (xs : List A) → is_unique (from_keys xs) ≡ true
  unfolding from_keys
  is_unique-from_keys [] = refl
  is_unique-from_keys (x ∷ xs) = ground (
    arith,
    contains-without x x (from_keys xs),
    is_unique-without x (from_keys xs) (is_unique-from_keys xs),
    eqb_refl x,
  )

  pub nonempty-from_keys : (xs : List A) → nonempty (from_keys xs) ≡ nonempty xs
  unfolding from_keys
  nonempty-from_keys [] = refl
  nonempty-from_keys (x ∷ xs) = refl

  abbrev pub list_beq : List A → List A → Bool
  list_beq [] [] = true
  list_beq [] (y ∷ ys) = false
  list_beq (x ∷ xs) [] = false
  list_beq (x ∷ xs) (y ∷ ys) = x == y && list_beq xs ys

  pub list_beq_iff : (xs ys : List A) → (list_beq xs ys ≡ true) ↔ (xs ≡ ys)
  list_beq_iff [] [] = ground arith
  list_beq_iff [] (y ∷ ys) = ground arith
  list_beq_iff (x ∷ xs) [] = ground arith
  list_beq_iff (x ∷ xs) (y ∷ ys) = ground (arith, e.eqb_iff x y, list_beq_iff xs ys)

  instance abbrev pub list_eq : Eq (List A)
  list_eq = record { eqb = list_beq; eqb_iff = list_beq_iff }

  pub contains-append :
      (xs ys : List A) (a : A) → contains (xs ++ ys) a ≡ (contains xs a || contains ys a)
  contains-append [] ys a = refl
  contains-append (x ∷ xs) ys a = ground (arith, contains-append xs ys a)

pub contains-map-select {ℓ κ} :
    {A : Type ℓ} {B : Type κ} ⦃e : Eq B⦄ (f : A → B) (p : A → Bool) (xs : List A) (b : B)
    → contains (map f (select p xs)) b ≡ any (λ x. p x && (f x == b)) xs
contains-map-select f p [] b = refl
contains-map-select f p (x ∷ xs) b = ground (arith, contains-map-select f p xs b)

pub mem-map {ℓ κ} :
    {A : Type ℓ} {B : Type κ} (f : A → B) {x : A} {xs : List A} → Memᴰ x xs → Memᴰ (f x) (map f xs)
mem-map f (Memᴰ.head p) = Memᴰ.head (ap f p)
mem-map f (Memᴰ.tail m) = Memᴰ.tail (mem-map f m)

module _ {ℓ κ} {A : Type ℓ} {K : Type κ} ⦃e : Eq K⦄ (key : A → K) where
  pub contains-map_of_mem : {x : A} {xs : List A} → Memᴰ x xs → contains (map key xs) (key x) ≡ true
  contains-map_of_mem {x} (Memᴰ.head p) = rw (← p) (ground (arith, eqb_refl (key x)))
  contains-map_of_mem (Memᴰ.tail m) = ground (arith, contains-map_of_mem m)

  find_last-eq-none :
      (k : K) (xs : List A)
      → contains (map key xs) k ≡ false
      → find_last (λ y. key y == k) xs ≡ none
  unfolding find_last
  find_last-eq-none k [] h = refl
  find_last-eq-none k (x ∷ xs) h = ground (arith, find_last-eq-none k xs)

  -- Where the keys are distinct, a key finds the record that has it.
  pub find_last_unique :
      {x : A} {xs : List A}
      → is_unique (map key xs) ≡ true
      → Memᴰ x xs
      → find_last (λ y. key y == key x) xs ≡ some x
  unfolding find_last
  find_last_unique u (Memᴰ.head {x = y} {xs = xs} p) =
      rw p (ground (arith, eqb_refl (key y), find_last-eq-none (key y) xs))
  find_last_unique u (Memᴰ.tail m) = rw (find_last_unique (ground arith) m) refl
