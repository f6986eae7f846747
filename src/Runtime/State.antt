-- ===== src/Runtime/State.antt =====
-- agent_runtime_v2.py: the state of `TaskRuntime`, what it writes, and what it calls.
use proofbid.Prelude.{Bool, List, Option, String, none, ℕ, text_eq}
use proofbid.Errors.{Result}
use proofbid.Contracts.{SourceDocument, ExtractionResult, AnalysisBundle, ReadinessDecision}
use proofbid.Readiness.{ValidationReport}
use proofbid.Planning.Spec.{TaskSpec}
use proofbid.Planning.Plan.{ExecutionPlan}
use proofbid.Planning.Receipt.{ProviderReceipt, PlanningResult}
use proofbid.Runtime.Tool.{RuntimeTool}

-- What the model sends with a call. `none` for `selected_tools` is a value that is no array.
pub record Arguments : Type 0 where
  pub selected_tools : Option (List String)
  pub parser_strategy : Option String
  pub failure_policy : Option String

abbrev pub no_arguments : Arguments
no_arguments = record { selected_tools = none; parser_strategy = none; failure_policy = none }

pub data CallStatus : Type 0 where
  completed recoverable_error failed : CallStatus

pub data TerminalStatus : Type 0 where
  completed blocked : TerminalStatus

-- The dictionary that a tool returns to the model.
pub data ToolResult : Type 0 where
  planned : (selected_tool_count : ℕ) → ToolResult
  scanned : (document_count : ℕ) (document_types : List String) → ToolResult
  extracted : (requirement_count evidence_count : ℕ) → ToolResult
  profiled : (fact_count evidence_count : ℕ) → ToolResult
  cataloged : (catalog_item_count : ℕ) → ToolResult
  analysed : (match_count bom_line_count missing_item_count : ℕ) → ToolResult
  domain : (passed ready : Bool) (blocking_reason_codes : List String) → ToolResult
  rendered : (artifact_count render_attempt : ℕ) → ToolResult
  delivered : (finding_count : ℕ) → ToolResult
  finished : (status : TerminalStatus) (readiness : ReadinessDecision) → ToolResult
  errored : (status : CallStatus) (reason_code : String) → ToolResult

-- The wall-clock readings of a receipt are left out. `tool` is the member whose value is stored.
pub record ToolCallReceipt : Type 0 where
  pub sequence : ℕ
  pub tool : RuntimeTool
  pub status : CallStatus
  pub reason_code : String
  pub input_digest : String
  pub result_digest : String
  pub function_call_id : Option String
  pub retry_of : Option ℕ

-- The dictionary whose digest is a receipt's `input_digest`.
pub record ToolInput : Type 0 where
  pub task_spec_digest : String
  pub tool : RuntimeTool
  pub arguments : Arguments
  pub function_call_id : Option String
  pub prior_receipts : List String

pub data TraceDetails : Type 0 where
  planning_started : (task_spec_digest provider_started_at : String) → TraceDetails
  planning_completed : ProviderReceipt → TraceDetails
  tool_call : RuntimeTool → (reason_code : String) → TraceDetails

pub record TraceEvent : Type 0 where
  pub sequence : ℕ
  pub step : String
  pub actor : String
  pub status : String
  pub details : TraceDetails

-- The payload of agent_run.json. A terminal status of `none` is written as "running".
pub record AgentRun : Type 0 where
  pub task_id : String
  pub task_spec_digest : String
  pub status : Option TerminalStatus
  pub parser_strategy : Option String
  pub failure_policy : Option String
  pub selected_tools : List RuntimeTool
  pub tool_call_count : ℕ
  pub tool_receipts_digest : String
  pub provider : ProviderReceipt
  pub readiness : Option ReadinessDecision
  pub high_risk_actions : List (String × String)

-- What a rendering reads: the arguments of `render_bundle` and the files that they name.
pub record RenderInput : Type 0 where
  pub bundle : Option AnalysisBundle
  pub validations : Option ValidationReport
  pub trace : List TraceEvent
  pub planning : PlanningResult
  pub agent_run : Option AgentRun
  pub tool_receipts : List ToolCallReceipt

-- The parts of the program and of the outside that the runtime calls. The number is the count of
-- receipts at the call, since what is on disk may change between calls.
pub record World : Type 1 where
  pub Profile : Type 0
  pub CatalogItem : Type 0
  pub Artifacts : Type 0
  pub fact_count : Profile → ℕ
  pub profile_evidence_count : Profile → ℕ
  pub payload_count : Artifacts → ℕ
  pub package_members : Artifacts → List (String × List ℕ)
  pub scan_workspace : ℕ → Result (List SourceDocument)
  pub extract_requirements : ℕ → SourceDocument → Result ExtractionResult
  pub load_bidder_profile : ℕ → SourceDocument → Result Profile
  pub load_catalog : ℕ → SourceDocument → Result (List CatalogItem)
  pub build_analysis :
      String → ExtractionResult → Profile → List CatalogItem → Result AnalysisBundle
  pub render_bundle : RenderInput → Result Artifacts
  pub validate_artifacts : ℕ → AnalysisBundle → Artifacts → Result ValidationReport
  pub spec_digest : TaskSpec → String
  pub plan_digest : ExecutionPlan → String
  pub input_digest : ToolInput → String
  pub result_digest : ToolResult → String
  pub receipts_digest : List ToolCallReceipt → String

-- `documents` and `by_name` are assigned together: one field holds the documents, and the
-- dictionary is the look-up by path. The last three fields are the files that the runtime writes.
pub record TaskRuntime (w : World) : Type 0 where
  pub task_spec : TaskSpec
  pub planning_result : PlanningResult
  pub inject_render_failure : Bool
  pub require_real_provider_evidence : Bool
  pub trace : List TraceEvent
  pub receipts : List ToolCallReceipt
  pub selected_tools : List RuntimeTool
  pub parser_strategy : Option String
  pub failure_policy : Option String
  pub documents : Option (List SourceDocument)
  pub extraction : Option ExtractionResult
  pub profile : Option w.Profile
  pub catalog : Option (List w.CatalogItem)
  pub bundle : Option AnalysisBundle
  pub domain_report : Option ValidationReport
  pub artifacts : Option w.Artifacts
  pub delivery_report : Option ValidationReport
  pub terminal_status : Option TerminalStatus
  pub render_attempts : ℕ
  pub provider_evidence : ProviderReceipt
  pub saved_planning : PlanningResult
  pub saved_receipts : List ToolCallReceipt
  pub saved_run : Option AgentRun
