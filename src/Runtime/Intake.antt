-- ===== src/Runtime/Intake.antt =====
-- What a completed scan of the inputs has stored.
use proofbid.Prelude.{
  Bool-cases, List, Memᴰ, String, arith, inl, inr, length, some, ◌==◌, ◌≡◌, text_eq, nat_eq,
  list_eq,
}
use proofbid.Errors.{ok, Result-cases}
use proofbid.Contracts.{DocumentType, SourceDocument}
use proofbid.Pipeline.{documents_by_name, required_inputs}
use proofbid.Pipeline.Inputs.{IsPresent, documents_by_name-IsPresent}
use proofbid.Planning.Spec.{input_eq, build_task_spec, assert_task_inputs_unchanged}
use proofbid.Runtime.State.{ToolResult, World, TaskRuntime}
use proofbid.Runtime.Execute.{scan}

module _ (w : World) where
  pub record IsScanned (s t : TaskRuntime w) : Type 0 where
    pub documents : List SourceDocument
    pub found : w.scan_workspace (length s.receipts) ≡ ok documents
    pub stored : t.documents ≡ some documents
    pub unchanged : assert_task_inputs_unchanged s.task_spec documents ≡ ok tt
    pub complete :
        (name : String) (type : DocumentType)
        → Memᴰ (name, type) required_inputs
        → IsPresent documents name type

  -- A scan that returns has found all required inputs with their types, and the inputs of the task
  -- unchanged; and it stores the documents that it found.
  pub scan-IsScanned :
      (s : TaskRuntime w) (r : ToolResult) → (scan w s).0 ≡ ok r → IsScanned s (scan w s).1
  unfolding scan assert_task_inputs_unchanged
  scan-IsScanned s r h =
      elim (Result-cases (documents_by_name (w.scan_workspace (length s.receipts)))) [
        | inr (x, e) ↦ absurd (ground arith)
        | inl (ds, e) ↦ elim (Result-cases (build_task_spec s.task_spec.task_id ds)) [
          | inr (x, f) ↦ absurd (ground arith)
          | inl (o, f) ↦ elim (Bool-cases (o.inputs == s.task_spec.inputs)) [
            | inr g ↦ absurd (ground arith)
            | inl g ↦
                let (all_found, complete) =
                  documents_by_name-IsPresent (w.scan_workspace (length s.receipts)) ds e in
                record {
                  documents = ds;
                  found = all_found;
                  stored = simp (e, f, g);
                  unchanged = simp (f, g);
                  complete = complete;
                }
          ]
        ]
      ]
