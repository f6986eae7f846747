-- ===== src/Runtime/Calls.antt =====
-- The two ways a call can go: it is refused and nothing changes, or it leaves one receipt.
use proofbid.Prelude.{
  Option, String, [], arith, inl, inr, length, refl, ◌++◌, ◌+◌, ◌∷◌, ◌≡◌, ◌⊎◌, text_eq, Bool-cases,
  ◌∙◌, ap,
}
use proofbid.Errors.{Exception, recoverable_render, Result, ok, raised, Result-cases}
use proofbid.Exec.{◌>>◌}
use proofbid.Runtime.Tool.{RuntimeTool, runtime_tool}
use proofbid.Runtime.State.{Arguments, ToolResult, ToolCallReceipt, World, TaskRuntime}
use proofbid.Runtime.Execute.{execute}
use proofbid.Runtime.Frame.{execute-SameLog}
use proofbid.Runtime.Keeps.{SameCore, persist-SameCore, render_artifacts-SameCore}
use proofbid.Runtime.Policy.{policy, IsAdmitted, policy-IsAdmitted, retry_of}
use proofbid.Runtime.Invoke.{
  note_call, settle, receipt_of, run_call, invoke, outcome_status, noted, is_render,
}

module _ (w : World) where
  -- The state behind the receipt and its evidence.
  note_call-SameCore :
      (r : ToolCallReceipt) (s : TaskRuntime w) → SameCore w (noted w r s) (note_call w r s).1
  unfolding note_call
  note_call-SameCore r s = persist-SameCore w (noted w r s)

  settle-SameCore :
      (tool : RuntimeTool) (o : Result ToolResult) (s : TaskRuntime w)
      → SameCore w s (settle w tool o s).1
  unfolding settle
  settle-SameCore tool (ok x) s = elim (Bool-cases (is_render tool)) [
    | inl e ↦ ground (arith, e, render_artifacts-SameCore w s)
    | inr e ↦ ground (arith, e)
  ]
  settle-SameCore tool (raised recoverable_render) s = ground arith
  settle-SameCore tool (raised _) s = ground arith

  SameCore-trans : {s t u : TaskRuntime w} → SameCore w s t → SameCore w t u → SameCore w s u
  SameCore-trans a b = record {
    receipts = b.receipts ∙ a.receipts;
    bundle = b.bundle ∙ a.bundle;
    domain_report = b.domain_report ∙ a.domain_report;
    delivery_report = b.delivery_report ∙ a.delivery_report;
    terminal_status = b.terminal_status ∙ a.terminal_status;
  }

  -- Writing the evidence may raise; the call then ends there.
  finish-SameCore :
      (tool : RuntimeTool) (o : Result ToolResult) (r : ToolCallReceipt) (s : TaskRuntime w)
      → SameCore w (noted w r s) ((note_call w r >> settle w tool o) s).1
  finish-SameCore tool o r s =
      let a = note_call-SameCore r s in
      elim (Result-cases (note_call w r s).0) [
        | inl (x, e) ↦ rw e (SameCore-trans a (settle-SameCore tool o (note_call w r s).1))
        | inr (y, e) ↦ rw e a
      ]

  noted-receipts :
      (r : ToolCallReceipt) (s : TaskRuntime w) → (noted w r s).receipts ≡ s.receipts ++ r ∷ []
  unfolding noted
  noted-receipts r s = refl

  -- A call that was admitted: its receipt stands behind the earlier ones, under the next number.
  pub record Leaves (s t : TaskRuntime w) (tool : RuntimeTool) (arguments : Arguments)
      (r : ToolCallReceipt) : Type 0 where
    pub admitted : IsAdmitted s tool
    pub logged : t.receipts ≡ s.receipts ++ r ∷ []
    pub named : r.tool ≡ tool
    pub numbered : r.sequence ≡ length s.receipts + 1
    pub outcome : r.status ≡ outcome_status w (execute w tool arguments s).0
    pub kept : SameCore w (noted w r (execute w tool arguments s).1) t

  run_call_cases :
      (tool : RuntimeTool) (id : Option String) (arguments : Arguments) (s : TaskRuntime w)
      → IsAdmitted s tool
      → ((e : Exception) × (run_call w tool id arguments s ≡ (raised e, s)))
        ⊎ ((r : ToolCallReceipt) × Leaves s (run_call w tool id arguments s).1 tool arguments r)
  unfolding run_call
  run_call_cases tool id arguments s a = elim (Result-cases (retry_of s.receipts tool)) [
    | inr (e, h) ↦ inl (e, ground arith)
    | inl (earlier, h) ↦
        let outcome = (execute w tool arguments s).0 in
        let after = (execute w tool arguments s).1 in
        let r = receipt_of w s tool id arguments earlier outcome in
        let kept : SameCore w (noted w r after) (run_call w tool id arguments s).1 =
          rw h (finish-SameCore tool outcome r after) in
        inr (
          r,
          record {
            admitted = a;
            logged =
                kept.receipts
                ∙ noted-receipts r after
                ∙ ap (λ l. l ++ r ∷ []) (execute-SameLog w tool arguments s).receipts;
            named = unfold receipt_of in refl;
            numbered = unfold receipt_of in refl;
            outcome = unfold receipt_of in refl;
            kept = kept;
          },
        )
  ]

  -- Every call either is refused and changes nothing, or was admitted and leaves one receipt.
  pub invoke_cases :
      (name : String) (id : Option String) (arguments : Arguments) (s : TaskRuntime w)
      → ((e : Exception) × (invoke w name id arguments s ≡ (raised e, s)))
        ⊎ ((tool : RuntimeTool) × (r : ToolCallReceipt) × (runtime_tool name ≡ ok tool)
            × Leaves s (invoke w name id arguments s).1 tool arguments r)
  unfolding invoke
  invoke_cases name id arguments s = elim (Result-cases (runtime_tool name)) [
    | inr (e, h) ↦ inl (e, ground arith)
    | inl (tool, h) ↦ elim (Result-cases (policy s tool id)) [
      | inr (e, h') ↦ inl (e, ground arith)
      | inl (_, h') ↦ elim (run_call_cases tool id arguments s (policy-IsAdmitted s tool id h')) [
        | inl (e, k) ↦ inl (e, ground arith)
        | inr (r, k) ↦ inr (tool, r, h, rw (h, h') k)
      ]
    ]
  ]
