-- ===== src/Examples/Tasks.antt =====
-- The theorems on tasks, applied to a store in memory and two deployments.
use proofbid.Tasks.Worker.{execute_task}
use proofbid.Tasks.Store.{Bytes}
use proofbid.Tasks.Serving.{IsServed, get_bundle, get_bundle_iff}
use proofbid.Tasks.Service.{Service, Site, create_task}
use proofbid.Tasks.Quota.{consume_all, consume_all-granted, demo_quota, least, remaining}
use proofbid.Tasks.Memory.{TaskFiles, memory_store}
use proofbid.Tasks.Fixtures.{Deployment, Output}
use proofbid.Prelude.{
  Bool, Dict, String, [], false, leb, list_eq, nat_eq, none, text_eq, true, ◌-◌, ◌↔◌, ◌∷◌, ◌≡◌,
}
use proofbid.Contracts.{AnalysisBundle}
use proofbid.Errors.{Result, ok, raised, tool_policy}
use proofbid.Tasks.Value.{flag, text, TaskState}

abbrev id : String
id = "task-0123456789abcdef0123"

abbrev no_analysis : AnalysisBundle
no_analysis = record {
  task_id = id;
  requirements = [];
  evidence = [];
  matches = [];
  bom = [];
  deviations = [];
  missing_items = [];
}

abbrev output : Output
output = record {
  result =
      ("status", text "completed")
      ∷ ("artifact_integrity_passed", flag true)
      ∷ ("artifacts", text "paths")
      ∷ [];
  files = ("result.json", []) ∷ ("proofbid_bundle.zip", 80 ∷ 75 ∷ []) ∷ [];
}

abbrev deployment : Deployment
deployment = record {
  allowed_fixtures = none;
  has_workspace = λ workspace. true;
  run_google_tool_agent_pipeline = λ workspace inject task_id. raised (tool_policy "no plan");
  run_scripted_agent_pipeline = λ workspace inject task_id. ok output;
  read_summary = λ files. ok (record { analysis = no_analysis; findings = []; rows = [] });
  type_name = λ e. "Exception";
  started_at = "2026-01-01T00:00:00";
  finished_at = "2026-01-01T00:00:09";
}

abbrev site : Site
site = record {
  enabled_fixtures = "complete_tender" ∷ [];
  cloud_backend = false;
  execute_cloud_run_job = λ task_id fixture_id. ok "execution-1";
  type_name = λ e. "Exception";
  build_version = "dev";
  created_at = "2026-01-01T00:00:00";
  accepted_at = "2026-01-01T00:00:00";
  updated_at = "2026-01-01T00:00:01";
  today = 7;
}

abbrev service : Service memory_store
service = record { quota = demo_quota 1 6; files = []; background_tasks = [] }

-- The service after a task was created, and after it was run.
abbrev created : Result String × Service memory_store
created = create_task memory_store site id "complete_tender" service

abbrev run : Bool → Result TaskState × Dict String TaskFiles
run google = execute_task memory_store deployment id "complete_tender" google false created.1.files

abbrev served : Bool → Result Bytes
served google = get_bundle memory_store id (record created.1 { files = (run google).1 })

consume_all-granted_example :
    ((consume_all 7 5 (demo_quota 3 6)).0 ≡ least 5 (remaining 7 (demo_quota 3 6)))
    × (remaining 7 (consume_all 7 5 (demo_quota 3 6)).1 ≡ remaining 7 (demo_quota 3 6) - 5)
    × (leb (remaining 7 (demo_quota 3 6)) 3 ≡ true)
consume_all-granted_example = consume_all-granted 7 5 (demo_quota 3 6)

get_bundle_iff_example :
    (served false ≡ ok (80 ∷ 75 ∷ []))
    ↔ IsServed memory_store id (record created.1 { files = (run false).1 }) (80 ∷ 75 ∷ [])
get_bundle_iff_example =
    get_bundle_iff memory_store id (record created.1 { files = (run false).1 }) (80 ∷ 75 ∷ [])
