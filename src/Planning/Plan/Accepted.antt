-- ===== src/Planning/Plan/Accepted.antt =====
-- What an execution plan has that the local policy accepts.
use proofbid.Prelude.{
  Bool, Bool-cases, List, Memᴰ, Option-cases, String, [], any, arith, contains, false, flat_map,
  inl, inr, is_unique, length, ltb, nonempty, not, refl, same_set, some, true, ℕ, ◌==◌, ◌<◌, ◌≤◌,
  ◌∷◌, ◌≡◌, eqb→eq, contains-map_of_mem, text_eq, nat_eq, list_eq, ◌+◌, nonempty-append,
}
use proofbid.Errors.{ok}
use proofbid.Planning.Tool.{plan_tool_eq, canonical_tool_order}
use proofbid.Planning.Spec.{TaskSpec}
use proofbid.Planning.Plan.{
  position_from, PlanStep, ExecutionPlan, step_ids, tools, position, not_before, error_if,
  step_errors, expected_ids, graph_errors, plan_errors, validate_execution_plan,
}

-- The step named `a` stands strictly before the step named `b`.
pub record IsBefore (plan : ExecutionPlan) (a b : String) : Type 0 where
  pub first : ℕ
  pub second : ℕ
  pub at_first : position plan a ≡ some first
  pub at_second : position plan b ≡ some second
  pub strictly : first < second

pub record IsAccepted (digest : TaskSpec → String) (plan : ExecutionPlan) (spec : TaskSpec)
    : Type 0 where
  pub bound : plan.task_spec_digest ≡ digest spec
  pub bounded : length plan.steps ≤ spec.max_plan_steps
  pub ids : is_unique (step_ids plan) ≡ true
  pub route : tools plan ≡ canonical_tool_order
  pub graph :
      (s : PlanStep) → Memᴰ s plan.steps → same_set s.depends_on (expected_ids plan s.tool) ≡ true
  pub earlier :
      (s : PlanStep) (d : String)
      → Memᴰ s plan.steps
      → Memᴰ d s.depends_on
      → IsBefore plan d s.step_id

nonempty-error_if : (c : Bool) (code : String) → nonempty (error_if c code) ≡ c
nonempty-error_if true code = refl
nonempty-error_if false code = refl

nonempty-flat_map {ℓ κ} :
    {A : Type ℓ} {B : Type κ} (f : A → List B) (xs : List A)
    → nonempty (flat_map f xs) ≡ any (λ x. nonempty (f x)) xs
nonempty-flat_map f [] = refl
nonempty-flat_map f (x ∷ xs) = rw nonempty-append (rw (nonempty-flat_map f xs) refl)

any-mem {ℓ} :
    {A : Type ℓ} (p : A → Bool) {x : A} {xs : List A} → any p xs ≡ false → Memᴰ x xs → p x ≡ false
any-mem p h (Memᴰ.head e) = rw e (ground arith)
any-mem p h (Memᴰ.tail m) = any-mem p (ground arith) m

validate_execution_plan-errors :
    (digest : TaskSpec → String) (plan : ExecutionPlan) (spec : TaskSpec)
    → validate_execution_plan digest plan spec ≡ ok tt
    → nonempty (plan_errors digest plan spec) ≡ false
unfolding validate_execution_plan
validate_execution_plan-errors digest plan spec h = ground arith

step_errors-before :
    (plan : ExecutionPlan) (s : PlanStep) (d : String)
    → nonempty (step_errors plan s) ≡ false
    → Memᴰ d s.depends_on
    → (contains (step_ids plan) d ≡ true) × (not_before plan d s.step_id ≡ false)
unfolding step_errors
step_errors-before plan s d h m =
    let unknown = λ (i : String). not (contains (step_ids plan) i) in
    elim (Bool-cases (any unknown s.depends_on)) [
      | inl e ↦ absurd (
          ground (
            arith,
            nonempty-append (error_if (contains s.depends_on s.step_id) "PLAN_SELF_DEPENDENCY")
                ("PLAN_UNKNOWN_DEPENDENCY" ∷ []),
            rw e at h,
          ))
      | inr e ↦
          let late = λ (i : String). not_before plan i s.step_id in
          let e' = any-mem unknown e m in
          let k = rw (e, nonempty-append, nonempty-error_if) at h in
          (ground (arith, e'), any-mem late (ground (arith, k)) m)
    ]

is_some-position_from :
    (n : ℕ) (ids : List String) (i : String)
    → contains ids i ≡ true
    → (k : ℕ) × (position_from n ids i ≡ some k)
unfolding position_from
is_some-position_from n [] i h = absurd (ground arith)
is_some-position_from n (j ∷ js) i h = elim (Option-cases (position_from (n + 1) js i)) [
  | inr (k, e) ↦ (k, ground (arith, e))
  | inl e ↦ elim (Bool-cases (contains js i)) [
    | inl c ↦ absurd (ground (arith, e, (is_some-position_from (n + 1) js i c).1))
    | inr c ↦ (n, ground (arith, e, c, h))
  ]
]

IsBefore-not_before :
    (plan : ExecutionPlan) (a b : String)
    → contains (step_ids plan) a ≡ true
    → contains (step_ids plan) b ≡ true
    → not_before plan a b ≡ false
    → IsBefore plan a b
unfolding not_before position
IsBefore-not_before plan a b h k e =
    let (i, f) = is_some-position_from 0 (step_ids plan) a h in
    let (j, g) = is_some-position_from 0 (step_ids plan) b k in
    record { first = i; second = j; at_first = f; at_second = g; strictly = ground (arith, f, g) }

module _ (digest : TaskSpec → String) (plan : ExecutionPlan) (spec : TaskSpec)
    (h : validate_execution_plan digest plan spec ≡ ok tt) where
  parts :
      ((plan.task_spec_digest == digest spec) ≡ true)
      × (ltb spec.max_plan_steps (length plan.steps) ≡ false)
      × (is_unique (step_ids plan) ≡ true)
      × (same_set (tools plan) spec.allowed_tools ≡ true)
      × ((tools plan == canonical_tool_order) ≡ true)
      × (any (λ s. nonempty (step_errors plan s)) plan.steps ≡ false)
      × (nonempty (graph_errors plan spec) ≡ false)
  unfolding plan_errors
  parts =
      let e = validate_execution_plan-errors digest plan spec h in
      let e' = simp (nonempty-append, nonempty-error_if, nonempty-flat_map) at e in ground arith

  graph_of :
      any (λ (s : PlanStep). not (same_set s.depends_on (expected_ids plan s.tool))) plan.steps
      ≡ false
  unfolding graph_errors
  graph_of =
      let (_, _, _, set, _, _, graph) = parts in
      let e = simp nonempty-error_if at graph in ground arith

  -- A plan that the local policy accepts is bound to the digest of its task, keeps the step limit,
  -- has unique step ids and the tools of the canonical order; the dependencies of a step are the steps
  -- of the tools that its tool requires; and each of them stands strictly before it.
  pub validate_execution_plan-IsAccepted : IsAccepted digest plan spec
  validate_execution_plan-IsAccepted =
      let (bound, bounded, ids, set, route, steps, graph) = parts in
      record {
        bound = eqb→eq plan.task_spec_digest (digest spec) bound;
        bounded = ground arith;
        ids = ids;
        route = eqb→eq (tools plan) canonical_tool_order route;
        graph = λ s m. ground (
          arith,
          any-mem (λ (s : PlanStep). not (same_set s.depends_on (expected_ids plan s.tool)))
              graph_of m,
        );
        earlier = λ s d m k.
            let e = any-mem (λ (s : PlanStep). nonempty (step_errors plan s)) steps m in
            let (known, before) = step_errors-before plan s d e k in
            IsBefore-not_before plan d s.step_id known
              (contains-map_of_mem (λ (x : PlanStep). x.step_id) m) before;
      }
