-- ===== src/Planning/Bound.antt =====
-- What an accepted chain of planning evidence binds together.
use mathlib.Core.Path.{subst}
use proofbid.Prelude.{Bool, Option, String, arith, eqb→eq, false, ◌≡◌, ap, sym, ◌∙◌}
use proofbid.Planning.Spec.{TaskSpec, task_spec}
use proofbid.Planning.Receipt.{PlanningResult, planning_result, ProviderReceipt}
use proofbid.Planning.Reading.{
  exact_mapping, read_array, read_count, read_input, read_task_spec, read_text, read_tool,
  schema_checked, taken, task_spec_fields, task_spec_from_dict, execution_plan_from_dict,
}
use proofbid.Planning.Plan.Accepted.{IsAccepted, validate_execution_plan-IsAccepted}
use proofbid.Planning.Plan.{ExecutionPlan, validate_execution_plan}
use proofbid.Planning.Evidence.{
  Digests, is_other_task, reject_if, provider_receipt_from_dict, validate_planning_evidence,
}
use proofbid.Loading.{Json}
use Prim.Native.Char.{code}
use proofbid.Prelude.{text_eq}
use proofbid.Errors.{
  value_error, tool_policy, recoverable_render, failure, plain_failure, http_error, ok, raised,
  plan_validation, Result, each_ok, found,
}

pub record IsBound (digests : Digests) (expected_task_id : Option String) (spec : TaskSpec)
    (result : PlanningResult) : Type 0 where
  pub task : is_other_task expected_task_id spec ≡ false
  pub accepted : IsAccepted digests.of_task result.plan spec
  pub receipt_bound : result.receipt.plan_digest ≡ digests.of_plan result.plan
  pub spec_checked : task_spec spec ≡ ok spec

-- The constructors return what they were given.
task_spec-same : (t u : TaskSpec) → task_spec t ≡ ok u → t ≡ u
unfolding task_spec
task_spec-same t u h = ground arith

task_spec-checked : (t u : TaskSpec) → task_spec t ≡ ok u → task_spec u ≡ ok u
task_spec-checked t u h = let same = task_spec-same t u h in ap task_spec (sym same) ∙ h

planning_result-same :
    (digest : ExecutionPlan → String) (p q : PlanningResult)
    → planning_result digest p ≡ ok q
    → (p ≡ q) × (p.receipt.plan_digest ≡ digest p.plan)
unfolding planning_result
planning_result-same digest p q h =
    (ground arith, eqb→eq p.receipt.plan_digest (digest p.plan) (ground arith))

schema_checked-ok :
    {A : Type 0} (code : String) (m : Result A) {a : A} → schema_checked code m ≡ ok a → m ≡ ok a
unfolding schema_checked
schema_checked-ok code (ok a) h = h
schema_checked-ok code (raised (value_error m)) h = absurd (ground arith)
schema_checked-ok code (raised (tool_policy m)) h = absurd (ground arith)
schema_checked-ok code (raised recoverable_render) h = absurd (ground arith)
schema_checked-ok code (raised (plan_validation cs)) h = absurd (ground arith)
schema_checked-ok code (raised (failure c)) h = absurd (ground arith)
schema_checked-ok code (raised (plain_failure t)) h = absurd (ground arith)
schema_checked-ok code (raised (http_error n d)) h = absurd (ground arith)

reject_if-ok : (b : Bool) (code : String) (x : Unit {0}) → reject_if b code ≡ ok x → b ≡ false
reject_if-ok b code x h = ground arith

-- A task that has been read back keeps its contract.
task_spec_from_dict-checked :
    (payload : Json) (t : TaskSpec) → task_spec_from_dict payload ≡ ok t → task_spec t ≡ ok t
unfolding task_spec_from_dict read_task_spec
task_spec_from_dict-checked payload t h =
    let P = λ (u : TaskSpec). task_spec u ≡ ok u in
    each_ok P (exact_mapping task_spec_fields payload) _
      (λ d _. each_ok P (taken (read_array read_input) "inputs" d) _ (λ inputs _.
        each_ok P (taken read_text "schema_version" d) _ (λ version _.
          each_ok P (taken read_text "task_id" d) _ (λ id _.
            each_ok P (taken read_text "goal" d) _ (λ goal _.
              each_ok P (taken (read_array read_tool) "allowed_tools" d) _ (λ tools _.
                each_ok P (taken (read_array read_text) "required_deliverables" d) _ (λ kept _.
                  each_ok P (taken (read_array read_text) "prohibited_actions" d) _ (λ banned _.
                    each_ok P (taken read_count "max_plan_steps" d) _
                      (λ steps _ u made. task_spec-checked _ u made)))))))))
      t (schema_checked-ok "TASK_SPEC_SCHEMA_INVALID" (read_task_spec payload) h)

module _ (digests : Digests) (expected_task_id : Option String) where
  -- The last step of the chain, once the three manifests have been read.
  IsBound-planning_result :
      (t : TaskSpec) (p : ExecutionPlan) (r : ProviderReceipt) (q : PlanningResult)
      → task_spec t ≡ ok t
      → is_other_task expected_task_id t ≡ false
      → validate_execution_plan digests.of_task p t ≡ ok tt
      → planning_result digests.of_plan (record { plan = p; receipt = r }) ≡ ok q
      → IsBound digests expected_task_id t q
  IsBound-planning_result t p r q kept task accepted made =
      let (same, bound) =
        planning_result-same digests.of_plan (record { plan = p; receipt = r }) q made in
      rw (← same) (record {
        task = task;
        accepted = validate_execution_plan-IsAccepted digests.of_task p t accepted;
        receipt_bound = bound;
        spec_checked = kept;
      })

  last_of :
      (payload : Json) (t : TaskSpec) (p : ExecutionPlan) (r : ProviderReceipt) (q : PlanningResult)
      → task_spec_from_dict payload ≡ ok t
      → is_other_task expected_task_id t ≡ false
      → validate_execution_plan digests.of_task p t ≡ ok tt
      → schema_checked "PROVIDER_RECEIPT_BINDING_INVALID"
          (planning_result digests.of_plan (record { plan = p; receipt = r }))
        ≡ ok q
      → (found : TaskSpec × PlanningResult) → ok (t, q) ≡ ok found
      → IsBound digests expected_task_id found.0 found.1
  last_of payload t p r q read task valid made found last =
      let same : (t, q) ≡ found = ground arith in
      let kept = task_spec_from_dict-checked payload t read in
      let built =
        schema_checked-ok "PROVIDER_RECEIPT_BINDING_INVALID"
          (planning_result digests.of_plan (record { plan = p; receipt = r })) made in
      subst (λ f. IsBound digests expected_task_id f.0 f.1) same
        (IsBound-planning_result t p r q kept task valid built)

  -- Evidence that is accepted, for whatever JSON, holds a task that keeps its contract and has the
  -- expected id, a plan that the local policy accepts for that task, and a receipt of that plan.
  pub validate_planning_evidence-IsBound :
      (task_spec_payload plan_payload receipt_payload : Json) (spec : TaskSpec)
      (result : PlanningResult)
      → validate_planning_evidence digests task_spec_payload plan_payload receipt_payload
          expected_task_id
        ≡ ok (spec, result)
      → IsBound digests expected_task_id spec result
  unfolding validate_planning_evidence
  validate_planning_evidence-IsBound task_spec_payload plan_payload receipt_payload spec result h =
      let P =
        λ (found : TaskSpec × PlanningResult). IsBound digests expected_task_id found.0 found.1 in
      each_ok P (task_spec_from_dict task_spec_payload) _
        (λ t read. each_ok P (execution_plan_from_dict plan_payload) _ (λ p _.
          each_ok P (provider_receipt_from_dict receipt_payload) _ (λ r _.
            each_ok P (reject_if (is_other_task expected_task_id t) "PLANNING_TASK_ID_MISMATCH") _
              (λ x same. each_ok P (validate_execution_plan digests.of_task p t) _ (λ y valid.
                each_ok P
                  (schema_checked "PROVIDER_RECEIPT_BINDING_INVALID"
                    (planning_result digests.of_plan (record { plan = p; receipt = r })))
                  _
                  (λ q made.
                    last_of task_spec_payload t p r q read
                      (reject_if-ok (is_other_task expected_task_id t) "PLANNING_TASK_ID_MISMATCH" x
                        same)
                      valid made))))))
        (spec, result) h
