-- ===== src/Runtime/Frame.antt =====
-- What the body of a tool leaves as it was, and what writing the evidence does.
use proofbid.Prelude.{Bool-cases, List, Option, arith, inl, inr, none, some, ◌+◌, ◌≡◌, text_eq}
use proofbid.Contracts.{SourceDocument}
use proofbid.Runtime.Tool.{
  RuntimeTool, declare_plan, scan_inputs, extract_requirements, load_bidder_evidence,
  load_product_catalog, build_analysis, validate_domain, render_delivery, retry_render,
  validate_delivery, finalize_complete, finalize_blocked,
}
use proofbid.Runtime.State.{Arguments, World, TaskRuntime}
use proofbid.Runtime.Evidence.{persist_agent_evidence}
use proofbid.Runtime.Execute.{
  declare, scan, extract, load_bidder, load_products, analyse, validate, render_artifacts, render,
  deliver, conclude, finalize, execute_scanned, execute, produce, strikes, execute_found,
}

module _ (w : World) where
  -- The run of calls so far, and what is fixed for the whole run.
  pub record SameLog (s t : TaskRuntime w) : Type 0 where
    pub receipts : t.receipts ≡ s.receipts

  pub persist-SameLog : (s : TaskRuntime w) → SameLog s (persist_agent_evidence w s).1
  unfolding persist_agent_evidence
  persist-SameLog s = ground arith

  declare-SameLog : (a : Arguments) (s : TaskRuntime w) → SameLog s (declare w a s).1
  unfolding declare
  declare-SameLog a s = ground arith

  scan-SameLog : (s : TaskRuntime w) → SameLog s (scan w s).1
  unfolding scan
  scan-SameLog s = ground arith

  produce-SameLog : (s : TaskRuntime w) → SameLog s (produce w s).1
  unfolding produce render_artifacts
  produce-SameLog s = ground (arith, persist-SameLog s)

  render-SameLog : (t : RuntimeTool) (s : TaskRuntime w) → SameLog s (render w t s).1
  unfolding render
  render-SameLog t s =
      let later = record s { render_attempts = s.render_attempts + 1 } in
      elim (Bool-cases (strikes w t s)) [
        | inl e ↦ ground (arith, e)
        | inr e ↦ ground (arith, e, produce-SameLog later)
      ]

  deliver-SameLog : (s : TaskRuntime w) → SameLog s (deliver w s).1
  unfolding deliver
  deliver-SameLog s = ground arith

  extract-SameLog : (d : List SourceDocument) (s : TaskRuntime w) → SameLog s (extract w d s).1
  unfolding extract
  extract-SameLog d s = ground arith

  load_bidder-SameLog :
      (d : List SourceDocument) (s : TaskRuntime w) → SameLog s (load_bidder w d s).1
  unfolding load_bidder
  load_bidder-SameLog d s = ground arith

  load_products-SameLog :
      (d : List SourceDocument) (s : TaskRuntime w) → SameLog s (load_products w d s).1
  unfolding load_products
  load_products-SameLog d s = ground arith

  analyse-SameLog : (s : TaskRuntime w) → SameLog s (analyse w s).1
  unfolding analyse
  analyse-SameLog s = ground arith

  validate-SameLog : (s : TaskRuntime w) → SameLog s (validate w s).1
  unfolding validate
  validate-SameLog s = ground arith

  finalize-SameLog : (t : RuntimeTool) (s : TaskRuntime w) → SameLog s (finalize w t s).1
  unfolding finalize conclude
  finalize-SameLog t s = ground arith

  execute_scanned-SameLog :
      (t : RuntimeTool) (d : List SourceDocument) (s : TaskRuntime w)
      → SameLog s (execute_scanned w t d s).1
  unfolding execute_scanned
  execute_scanned-SameLog declare_plan d s = ground arith
  execute_scanned-SameLog scan_inputs d s = ground arith
  execute_scanned-SameLog extract_requirements d s = extract-SameLog d s
  execute_scanned-SameLog load_bidder_evidence d s = load_bidder-SameLog d s
  execute_scanned-SameLog load_product_catalog d s = load_products-SameLog d s
  execute_scanned-SameLog build_analysis d s = analyse-SameLog s
  execute_scanned-SameLog validate_domain d s = validate-SameLog s
  execute_scanned-SameLog render_delivery d s = render-SameLog render_delivery s
  execute_scanned-SameLog retry_render d s = render-SameLog retry_render s
  execute_scanned-SameLog validate_delivery d s = deliver-SameLog s
  execute_scanned-SameLog finalize_complete d s = finalize-SameLog finalize_complete s
  execute_scanned-SameLog finalize_blocked d s = finalize-SameLog finalize_blocked s

  execute_found-SameLog :
      (t : RuntimeTool) (o : Option (List SourceDocument)) (s : TaskRuntime w)
      → SameLog s (execute_found w t o s).1
  unfolding execute_found
  execute_found-SameLog t none s = ground arith
  execute_found-SameLog t (some d) s = execute_scanned-SameLog t d s

  pub execute-SameLog :
      (t : RuntimeTool) (a : Arguments) (s : TaskRuntime w) → SameLog s (execute w t a s).1
  unfolding execute
  execute-SameLog declare_plan a s = declare-SameLog a s
  execute-SameLog scan_inputs a s = scan-SameLog s
  execute-SameLog t a s = execute_found-SameLog _ s.documents s

  pub render_artifacts-SameLog : (s : TaskRuntime w) → SameLog s (render_artifacts w s).1
  unfolding render_artifacts
  render_artifacts-SameLog s = ground arith
