-- ===== src/Samples.antt =====
-- A small tender, its plan and its surroundings, on which the theorems are tried.
use proofbid.Prelude.{List, String, [], false, length, none, some, true, ℕ, ◌∷◌}
use proofbid.Decimal.{whole}
use proofbid.Errors.{ok}
use proofbid.Contracts.{
  ReadinessDecision, DocumentType, RequirementCategory, MatchStatus, SourceDocument, EvidenceRef,
  Requirement, ComplianceMatch, AnalysisBundle, document_type_value,
}
use proofbid.Planning.Tool.{PlanTool, canonical_tool_order}
use proofbid.Planning.Spec.{TaskInputRef, TaskSpec, task_spec_schema_version}
use proofbid.Planning.Plan.{ExecutionPlan}
use proofbid.Planning.Receipt.{ProviderReceipt, PlanningResult, provider_receipt_schema_version}
use proofbid.Runtime.Freeze.{Delivery}
use proofbid.Runtime.State.{TerminalStatus, World}

abbrev pub hash_a : String
hash_a = "aaaaaaaaaaaaaaaaaaaaaaaaaaaaaaaaaaaaaaaaaaaaaaaaaaaaaaaaaaaaaaaa"

abbrev pub hash_b : String
hash_b = "bbbbbbbbbbbbbbbbbbbbbbbbbbbbbbbbbbbbbbbbbbbbbbbbbbbbbbbbbbbbbbbb"

abbrev hash_c : String
hash_c = "cccccccccccccccccccccccccccccccccccccccccccccccccccccccccccccccc"

abbrev pub stated : EvidenceRef
stated = record {
  evidence_id = "E1";
  source_document_id = "doc-tender";
  source_path = "tender.md";
  source_hash = hash_a;
  locator = "line 3";
  excerpt = "The bidder must hold a licence";
  extracted_value = none;
  confidence = 100;
}

abbrev pub licence : EvidenceRef
licence = record {
  evidence_id = "E2";
  source_document_id = "doc-bidder";
  source_path = "bidder_profile.json";
  source_hash = hash_b;
  locator = "$.licence";
  excerpt = "licence 42";
  extracted_value = some "42";
  confidence = 100;
}

abbrev pub licensed : Requirement
licensed = record {
  req_id = "R1";
  title = "Licence";
  category = RequirementCategory.qualification;
  mandatory = true;
  text = "The bidder must hold a licence";
  evidence_ids = "E1" ∷ [];
  source_locator = "line 3";
  source_hash = hash_a;
  status = MatchStatus.unknown;
  attributes = [];
}

abbrev pub licensed_match : ComplianceMatch
licensed_match = record {
  match_id = "M1";
  requirement_id = "R1";
  status = MatchStatus.compliant;
  rationale = "The licence is on file";
  candidate_id = none;
  expected = none;
  actual = some "42";
  evidence_ids = "E2" ∷ [];
}

-- The analysis of a complete tender.
abbrev pub complete : AnalysisBundle
complete = record {
  task_id = "T1";
  requirements = licensed ∷ [];
  evidence = stated ∷ licence ∷ [];
  matches = licensed_match ∷ [];
  bom = [];
  deviations = [];
  missing_items = [];
}

-- The same tender without the bidder's licence.
abbrev pub incomplete : AnalysisBundle
incomplete = record complete { matches = []; evidence = stated ∷ [] }

abbrev pub documents : List SourceDocument
documents =
    record {
      document_id = "doc-bidder";
      relative_path = "bidder_profile.json";
      document_type = DocumentType.json;
      source_hash = hash_b;
      size_bytes = 40;
    }
    ∷ record {
      document_id = "doc-catalog";
      relative_path = "catalog.csv";
      document_type = DocumentType.csv;
      source_hash = hash_c;
      size_bytes = 50;
    }
    ∷ record {
      document_id = "doc-tender";
      relative_path = "tender.md";
      document_type = DocumentType.markdown;
      source_hash = hash_a;
      size_bytes = 60;
    }
    ∷ []

abbrev input_of : SourceDocument → TaskInputRef
input_of d = record {
  relative_path = d.relative_path;
  document_type = document_type_value d.document_type;
  source_hash = d.source_hash;
  size_bytes = d.size_bytes;
}

abbrev inputs_of : List SourceDocument → List TaskInputRef
inputs_of [] = []
inputs_of (d ∷ ds) = input_of d ∷ inputs_of ds

abbrev pub spec : TaskSpec
spec = record {
  task_id = "T1";
  goal = "Prepare the package";
  inputs = inputs_of documents;
  allowed_tools = canonical_tool_order;
  required_deliverables = "requirements.json" ∷ [];
  prohibited_actions = "sign documents" ∷ [];
  max_plan_steps = 8;
  schema_version = task_spec_schema_version;
}

abbrev pub plan : ExecutionPlan
plan = record {
  task_spec_digest = "spec-digest";
  steps =
      record {
        step_id = "s1";
        tool = PlanTool.scan_workspace;
        depends_on = [];
        completion_criterion = "done";
      }
      ∷ record {
        step_id = "s2";
        tool = PlanTool.extract_requirements;
        depends_on = "s1" ∷ [];
        completion_criterion = "done";
      }
      ∷ record {
        step_id = "s3";
        tool = PlanTool.load_bidder_profile;
        depends_on = "s1" ∷ [];
        completion_criterion = "done";
      }
      ∷ record {
        step_id = "s4";
        tool = PlanTool.load_catalog;
        depends_on = "s1" ∷ [];
        completion_criterion = "done";
      }
      ∷ record {
        step_id = "s5";
        tool = PlanTool.build_analysis;
        depends_on = "s4" ∷ "s2" ∷ "s3" ∷ [];
        completion_criterion = "done";
      }
      ∷ record {
        step_id = "s6";
        tool = PlanTool.validate_bundle;
        depends_on = "s5" ∷ [];
        completion_criterion = "done";
      }
      ∷ record {
        step_id = "s7";
        tool = PlanTool.render_bundle;
        depends_on = "s6" ∷ [];
        completion_criterion = "done";
      }
      ∷ record {
        step_id = "s8";
        tool = PlanTool.validate_artifacts;
        depends_on = "s7" ∷ [];
        completion_criterion = "done";
      }
      ∷ [];
  summary = "One run";
  schema_version = "proofbid.execution-plan/v1";
}

abbrev pub receipt : ProviderReceipt
receipt = record {
  provider = "proofbid.scripted-policy";
  configured_model = "deterministic-route-policy";
  model_version = some "1";
  auth_mode = "test";
  adk_version = "local";
  genai_version = "local";
  started_at = "2026-01-01T00:00:00Z";
  duration_ms = whole 0;
  event_count = 1;
  invocation_id = some "local-scripted";
  interaction_id = none;
  finish_reason = some "STOP";
  prompt_tokens = some 1;
  output_tokens = some 1;
  total_tokens = some 2;
  request_digest = hash_a;
  response_digest = hash_b;
  plan_digest = "plan-digest";
  schema_validated = true;
  policy_validated = true;
  schema_version = provider_receipt_schema_version;
}

abbrev pub planning : PlanningResult
planning = record { plan = plan; receipt = receipt }

-- A profile and a catalog item are a unit here, and rendered artifacts are the package's members.
abbrev pub world : World
world = record {
  Profile = Unit {0};
  CatalogItem = Unit {0};
  Artifacts = List (String × List ℕ);
  fact_count = λ p. 1;
  profile_evidence_count = λ p. 1;
  payload_count = λ members. length members;
  package_members = λ members. members;
  scan_workspace = λ moment. ok documents;
  extract_requirements =
      λ moment document. ok (record { requirements = licensed ∷ []; evidence = stated ∷ [] });
  load_bidder_profile = λ moment document. ok tt;
  load_catalog = λ moment document. ok (tt ∷ []);
  build_analysis = λ task_id extraction profile catalog. ok complete;
  render_bundle = λ input. ok (("result.json", []) ∷ []);
  validate_artifacts = λ moment bundle artifacts. ok (record { findings = [] });
  spec_digest = λ s. "spec-digest";
  plan_digest = λ p. "plan-digest";
  input_digest = λ i. "input";
  result_digest = λ r. "result";
  receipts_digest = λ rs. "receipts";
}

-- The decisions on the two analyses.
abbrev pub decision : ReadinessDecision
decision = record {
  ready_for_human_review = true;
  ready_for_submission = true;
  submission_executed = false;
  high_risk_actions_locked = true;
  blocking_reason_codes = [];
}

abbrev pub refusal : ReadinessDecision
refusal = record {
  ready_for_human_review = false;
  ready_for_submission = false;
  submission_executed = false;
  high_risk_actions_locked = true;
  blocking_reason_codes = "MANDATORY_REQUIREMENT_RESOLVED" ∷ "MANDATORY_UNKNOWN_DECLARED" ∷ [];
}

-- What the freeze of a run on the complete tender returns.
abbrev pub delivery : Delivery world
delivery = record {
  task_id = "T1";
  status = TerminalStatus.completed;
  readiness = decision;
  requirement_count = 1;
  evidence_count = 2;
  bom_line_count = 0;
  subtotal = whole 0;
  missing_item_count = 0;
  render_attempts = 1;
  tool_call_count = 10;
  artifacts = ("result.json", []) ∷ [];
  provider = receipt;
}
