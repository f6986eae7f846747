-- ===== src/Tasks/Worker.antt =====
-- task_worker.py: the run of a task, from "running" to the end of its delivery. Events go to a log
-- and are left out.
use proofbid.Tasks.Store.{Bytes, TaskStore, validate_task_id}
use proofbid.Tasks.Fixtures.{Deployment, Output, Summary, fixture_workspace}
use proofbid.Regex.{◌then◌}
use proofbid.Readiness.{ValidationFinding}
use proofbid.Prelude.{
  Bool, List, Option, String, [], false, get_key, if◌then◌else◌, length, list_eq, map, nat_eq, none,
  not, select, some, sorted, text_eq, true, ◌==◌, ◌∷◌,
}
use proofbid.Contracts.{AnalysisBundle, ComplianceMatch, is_compliant}
use proofbid.Errors.{Exception, Result, ok, raised, plain_failure, reason_code}
use proofbid.Exec.{Exec, pure, lift, throw, ◌>>=◌, ◌>>◌}
use proofbid.Tasks.Value.{
  flag, text, texts, receipts, evidence, validations, EvidenceSummary, TaskState, ValidationSummary,
  Value, with_entries,
}

-- `**public_result`: the result without its artifacts.
unfoldable pub public_result : TaskState → TaskState
public_result result = select (λ e. not (e.0 == "artifacts")) result

unfoldable pub evidence_summary : AnalysisBundle → EvidenceSummary
evidence_summary b = record {
  requirement_count = length b.requirements;
  evidence_count = length b.evidence;
  matched_count = length (select (λ (m : ComplianceMatch). is_compliant m.status) b.matches);
  missing_items = b.missing_items;
}

unfoldable pub validation_summary : List ValidationFinding → ValidationSummary
validation_summary findings = record {
  passed_count = length (select (λ f. f.passed) findings);
  failed = map (λ f. (f.code, f.severity)) (select (λ f. not f.passed) findings);
}

abbrev pub running_state : Deployment → String → String → TaskState → TaskState
running_state w task_id fixture_id prior =
    with_entries
      (("task_id", text task_id)
        ∷ ("fixture_id", text fixture_id)
        ∷ ("status", text "running")
        ∷ ("current_step", text "agent_routing")
        ∷ ("updated_at", text w.started_at)
        ∷ [])
      prior

abbrev pub terminal_state : Deployment → TaskState → Output → Value → Summary → TaskState
terminal_state w running output status summary =
    with_entries
      (("status", status)
        ∷ ("current_step", text "delivery_ready")
        ∷ ("bundle_ready", flag true)
        ∷ ("tool_receipts", receipts summary.rows)
        ∷ ("evidence_summary", evidence (evidence_summary summary.analysis))
        ∷ ("validation_summary", validations (validation_summary summary.findings))
        ∷ ("artifacts", texts (sorted (map (λ e. e.0) output.files)))
        ∷ ("updated_at", text w.finished_at)
        ∷ [])
      (with_entries (public_result output.result) running)

abbrev pub failed_state : Deployment → TaskState → Exception → TaskState
failed_state w running e =
    with_entries
      (("status", text "failed")
        ∷ ("current_step", text "failed_closed")
        ∷ ("bundle_ready", flag false)
        ∷ ("reason_code", text (reason_code e "TASK_EXECUTION_FAILED"))
        ∷ ("error_type", text (w.type_name e))
        ∷ ("updated_at", text w.finished_at)
        ∷ [])
      running

-- `result["status"]`
abbrev pub status_of : TaskState → Result Value
status_of result = elim (get_key "status" result) [
  | none ↦ raised (plain_failure "KeyError")
  | some v ↦ ok v
]

unfoldable pub or_empty_state : Option TaskState → TaskState
or_empty_state none = []
or_empty_state (some s) = s

-- A call that changes the store's files, as a step on them.
abbrev stored_as : {S : Type 0} → Result S → S → Result (Unit {0}) × S
stored_as (ok g) f = (ok tt, g)
stored_as (raised e) f = (raised e, f)

module _ (T : TaskStore) where
  abbrev pub change : (T.Files → Result T.Files) → Exec T.Files (Unit {0})
  change op f = stored_as (op f) f

  unfoldable pub put_all : String → List (String × Bytes) → Exec T.Files (Unit {0})
  put_all task_id [] = pure tt
  put_all task_id ((name, bytes) ∷ files) =
      change (T.put_artifact task_id name bytes) >> put_all task_id files

module _ (T : TaskStore) (w : Deployment) where
  unfoldable pub pipeline : Bool → Bool → String → String → Result Output
  pipeline google inject task_id workspace =
      if google
      then w.run_google_tool_agent_pipeline workspace inject task_id
      else w.run_scripted_agent_pipeline workspace inject task_id

  -- What the `try` of `execute_task` does.
  unfoldable pub produce : Bool → Bool → String → String → TaskState → Exec T.Files TaskState
  unfolding pipeline
  produce google inject task_id fixture_id running = do
    workspace ← lift (fixture_workspace w fixture_id)
    output ← lift (pipeline google inject task_id workspace)
    put_all T task_id output.files
    summary ← lift (w.read_summary output.files)
    status ← lift (status_of output.result)
    let terminal = terminal_state w running output status summary
    change T (T.write_state task_id terminal)
    pure terminal

  -- Its `except Exception`, which raises again.
  unfoldable pub rescue :
      String → TaskState → Result TaskState × T.Files → Result TaskState × T.Files
  rescue task_id running (ok s, f) = (ok s, f)
  rescue task_id running (raised e, f) =
      (change T (T.write_state task_id (failed_state w running e)) >> throw e) f

  unfoldable pub execute_task : String → String → Bool → Bool → Exec T.Files TaskState
  unfolding or_empty_state
  execute_task task_id fixture_id google inject = do
    lift (validate_task_id task_id)
    prior ← (λ f. (T.read_state task_id f, f))
    let running = running_state w task_id fixture_id (or_empty_state prior)
    change T (T.write_state task_id running)
    (λ f. rescue task_id running (produce google inject task_id fixture_id running f))
