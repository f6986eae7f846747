-- ===== src/Runtime/Order.antt =====
-- What must have run before a tool of a run: the dependencies, followed back to the declaration.
use proofbid.Prelude.{
  Bool, Bool-cases, List, [], any, contains, contains-append, inl, inr, refl, true, ◌++◌, ◌==◌,
  ◌||◌, ◌∷◌, ◌≡◌, any-append, is_subset, append_assoc, eqb→eq, text_eq, nat_eq, list_eq, arith,
  ◌&&◌,
}
use proofbid.Runtime.Tool.{
  RuntimeTool, declare_plan, scan_inputs, extract_requirements, load_bidder_evidence,
  load_product_catalog, build_analysis, validate_domain, render_delivery, retry_render,
  validate_delivery, tool_eq, rules,
}
use proofbid.Runtime.State.{ToolCallReceipt}
use proofbid.Runtime.Policy.{
  is_completed, is_recoverable, completes, completed_tools, required_tools, has_recoverable_render,
  dependencies_satisfied,
}
use proofbid.Runtime.Log.{InOrder, IsLogged, contains-completed_tools}

-- A receipt for the tool, whatever its status.
abbrev pub was_called : List ToolCallReceipt → RuntimeTool → Bool
was_called rs t = any (λ r. r.tool == t) rs

abbrev pub was_completed : List ToolCallReceipt → RuntimeTool → Bool
was_completed rs t = contains (completed_tools rs) t

completed_tools-append :
    (xs ys : List ToolCallReceipt)
    → completed_tools (xs ++ ys) ≡ completed_tools xs ++ completed_tools ys
unfolding completed_tools
completed_tools-append [] ys = refl
completed_tools-append (x ∷ xs) ys = elim (Bool-cases (is_completed x.status)) [
  | inl e ↦ simp (e, completed_tools-append xs ys)
  | inr e ↦ simp (e, completed_tools-append xs ys)
]

was_completed-append :
    (xs ys : List ToolCallReceipt) (t : RuntimeTool)
    → was_completed (xs ++ ys) t ≡ (was_completed xs t || was_completed ys t)
was_completed-append xs ys t =
    rw completed_tools-append (contains-append (completed_tools xs) (completed_tools ys) t)

is_subset-append :
    (ts : List RuntimeTool) (xs ys : List ToolCallReceipt)
    → is_subset ts (completed_tools xs) ≡ true
    → is_subset ts (completed_tools (xs ++ ys)) ≡ true
is_subset-append [] xs ys h = refl
is_subset-append (t ∷ ts) xs ys h =
    ground (arith, was_completed-append xs ys t, is_subset-append ts xs ys)

-- A delivery can be validated once a rendering or its retry has completed.
pub validate_delivery-dependencies :
    (rs : List ToolCallReceipt)
    → dependencies_satisfied rs validate_delivery
      ≡ (was_completed rs render_delivery || was_completed rs retry_render)
unfolding dependencies_satisfied required_tools rules
validate_delivery-dependencies rs = elim (Bool-cases (was_completed rs render_delivery)) [
  | inl e ↦ simp e (ground (arith, e))
  | inr e ↦ simp e (ground (arith, e))
]

-- The tests on dependencies stay true when receipts are added.
dependencies_satisfied-append :
    (xs ys : List ToolCallReceipt) (t : RuntimeTool)
    → dependencies_satisfied xs t ≡ true
    → dependencies_satisfied (xs ++ ys) t ≡ true
unfolding dependencies_satisfied required_tools rules has_recoverable_render
dependencies_satisfied-append xs ys retry_render h =
    ground (arith, any-append (λ r. (r.tool == render_delivery) && is_recoverable r.status) xs ys)
dependencies_satisfied-append xs ys validate_delivery h =
    let e = rw validate_delivery-dependencies at h in
    rw
      (
        validate_delivery-dependencies (xs ++ ys),
        was_completed-append xs ys render_delivery,
        was_completed-append xs ys retry_render,
      )
      (ground arith)
dependencies_satisfied-append xs ys t h = is_subset-append (rules t) xs ys h

any-completes :
    (rs : List ToolCallReceipt) (t : RuntimeTool)
    → any (completes t) rs ≡ true
    → was_called rs t ≡ true
unfolding completes
any-completes [] t e = absurd (ground arith)
any-completes (r ∷ rs) t e = elim (Bool-cases (r.tool == t)) [
  | inl c ↦ simp c
  | inr c ↦ simp c (any-completes rs t (simp c at e))
]

was_called_of_completed :
    (rs : List ToolCallReceipt) (t : RuntimeTool)
    → was_completed rs t ≡ true
    → was_called rs t ≡ true
was_called_of_completed rs t h = any-completes rs t (rw contains-completed_tools at h)

was_called_of_recoverable :
    (rs : List ToolCallReceipt)
    → has_recoverable_render rs ≡ true
    → was_called rs render_delivery ≡ true
unfolding has_recoverable_render
was_called_of_recoverable [] h = absurd (ground arith)
was_called_of_recoverable (r ∷ rs) h = elim (Bool-cases (r.tool == render_delivery)) [
  | inl c ↦ simp c
  | inr c ↦ simp c (was_called_of_recoverable rs (simp c at h))
]

-- Every receipt's tool was the declaration, or has its dependencies among all receipts.
InOrder-dependencies :
    (before rs : List ToolCallReceipt) (t : RuntimeTool)
    → InOrder before rs
    → was_called rs t ≡ true
    → ((t == declare_plan) || dependencies_satisfied (before ++ rs) t) ≡ true
InOrder-dependencies before [] t h e = absurd (ground arith)
InOrder-dependencies before (r ∷ rs) t h e = elim (Bool-cases (r.tool == t)) [
  | inl c ↦
      let named : r.tool ≡ t = eqb→eq r.tool t c in
      let first = rw named at h.0 in
      elim (Bool-cases (t == declare_plan)) [
        | inl d ↦ ground (arith, d)
        | inr d ↦
            ground
              (arith, d, dependencies_satisfied-append before (r ∷ rs) t (ground (arith, d, first)))
      ]
  | inr c ↦
      let later = InOrder-dependencies (before ++ r ∷ []) rs t h.1 (ground (arith, c)) in
      rw append_assoc at later
]

called-dependencies :
    (rs : List ToolCallReceipt) (t : RuntimeTool)
    → IsLogged rs
    → was_called rs t ≡ true
    → ((t == declare_plan) || dependencies_satisfied rs t) ≡ true
called-dependencies rs t h e = InOrder-dependencies [] rs t h.ordered e

-- All the tools that a delivery rests on.
pub record IsFullRoute (rs : List ToolCallReceipt) : Type 0 where
  pub declared : was_completed rs declare_plan ≡ true
  pub scanned : was_completed rs scan_inputs ≡ true
  pub extracted : was_completed rs extract_requirements ≡ true
  pub profiled : was_completed rs load_bidder_evidence ≡ true
  pub cataloged : was_completed rs load_product_catalog ≡ true
  pub analysed : was_completed rs build_analysis ≡ true
  pub validated : was_completed rs validate_domain ≡ true
  pub rendered : (was_completed rs render_delivery || was_completed rs retry_render) ≡ true
  pub delivered : was_completed rs validate_delivery ≡ true

module _ (rs : List ToolCallReceipt) (h : IsLogged rs) where
  needs :
      (t : RuntimeTool)
      → was_completed rs t ≡ true
      → ((t == declare_plan) || dependencies_satisfied rs t) ≡ true
  needs t e = called-dependencies rs t h (was_called_of_completed rs t e)

  -- Both ways to a rendering stand behind a validated analysis.
  validate_domain_of_render :
      (was_completed rs render_delivery || was_completed rs retry_render) ≡ true
      → was_completed rs validate_domain ≡ true
  unfolding dependencies_satisfied required_tools rules
  validate_domain_of_render e = elim (Bool-cases (was_completed rs render_delivery)) [
    | inl c ↦ ground (arith, needs render_delivery c)
    | inr c ↦
        let again = needs retry_render (ground (arith, c)) in
        ground
          (arith, called-dependencies rs render_delivery h (was_called_of_recoverable rs again))
  ]

  pub IsFullRoute-IsLogged : was_completed rs validate_delivery ≡ true → IsFullRoute rs
  unfolding dependencies_satisfied required_tools rules
  IsFullRoute-IsLogged e =
      let rendered = rw validate_delivery-dependencies at (needs validate_delivery e) in
      let validated = validate_domain_of_render rendered in
      let analysed : was_completed rs build_analysis ≡ true =
        ground (arith, needs validate_domain validated) in
      let loaded = needs build_analysis analysed in
      let extracted : was_completed rs extract_requirements ≡ true = ground (arith, loaded) in
      let scanned : was_completed rs scan_inputs ≡ true =
        ground (arith, needs extract_requirements extracted) in
      record {
        declared = ground (arith, needs scan_inputs scanned);
        scanned = scanned;
        extracted = extracted;
        profiled = ground (arith, loaded);
        cataloged = ground (arith, loaded);
        analysed = analysed;
        validated = validated;
        rendered = rendered;
        delivered = e;
      }
