-- ===== src/Tasks/Service.antt =====
-- service.py: a task is accepted and dispatched, its state is served, and its bundle is served once
-- it may be. A request that is refused raises an `HTTPException`. URLs and the web pages of the
-- service are left out; a local task waits in a queue of the background tasks.
use proofbid.Tasks.Store.{TaskStore}
use proofbid.Tasks.Quota.{DemoQuota, consume}
use proofbid.Regex.{◌then◌}
use proofbid.Prelude.{
  Bool, List, String, [], contains, false, if◌then◌else◌, list_eq, nat_eq, text_eq, ℕ, ◌++◌, ◌∷◌,
}
use proofbid.Errors.{Exception, Result, ok, raised, http_error}
use proofbid.Exec.{Exec, pure, throw, modify, ◌>>◌}
use proofbid.Tasks.Value.{null, flag, text, TaskState, with_entries}

-- What the service is given: the fixtures that it has enabled at its start, the kind of its store,
-- and the cloud's dispatch.
pub record Site : Type 0 where
  pub enabled_fixtures : List String
  pub cloud_backend : Bool
  pub execute_cloud_run_job : String → String → Result String
  pub type_name : Exception → String
  pub build_version : String
  pub created_at : String
  pub accepted_at : String
  pub updated_at : String
  pub today : ℕ

pub record Service (T : TaskStore) : Type 0 where
  pub quota : DemoQuota
  pub files : T.Files
  pub background_tasks : List (String × String)

abbrev pub accepted_state : Site → String → String → TaskState
accepted_state w task_id fixture_id =
    with_entries
      (("task_id", text task_id)
        ∷ ("fixture_id", text fixture_id)
        ∷ ("status", text "accepted")
        ∷ ("current_step", text "event_received")
        ∷ ("bundle_ready", flag false)
        ∷ ("cloud_execution_id", null)
        ∷ ("build_version", text w.build_version)
        ∷ ("created_at", text w.created_at)
        ∷ ("updated_at", text w.accepted_at)
        ∷ [])
      []

abbrev pub trigger_failed_state : Site → TaskState → Exception → TaskState
trigger_failed_state w accepted e =
    with_entries
      (("status", text "failed")
        ∷ ("current_step", text "job_trigger_failed")
        ∷ ("reason_code", text "CLOUD_JOB_TRIGGER_FAILED")
        ∷ ("error_type", text (w.type_name e))
        ∷ ("updated_at", text w.updated_at)
        ∷ [])
      accepted

abbrev pub cloud_queued_state : Site → TaskState → String → TaskState
cloud_queued_state w accepted execution_id =
    with_entries
      (("status", text "queued")
        ∷ ("current_step", text "cloud_job_queued")
        ∷ ("cloud_execution_id", text execution_id)
        ∷ ("updated_at", text w.updated_at)
        ∷ [])
      accepted

abbrev pub local_queued_state : TaskState → TaskState
local_queued_state accepted =
    with_entries (("status", text "queued") ∷ ("current_step", text "local_worker_queued") ∷ [])
      accepted

module _ (T : TaskStore) (w : Site) where
  -- A write of the store, on the files of the service.
  abbrev pub write_with : T.Files → Result T.Files → Exec (Service T) (Unit {0})
  write_with old (ok g) s = (ok tt, record s { files = g })
  write_with old (raised e) s = (raised e, s)

  abbrev pub save : String → TaskState → Exec (Service T) (Unit {0})
  save task_id state s = write_with s.files (T.write_state task_id state s.files) s

  -- `if not quota.consume(): raise …`
  unfoldable pub take_quota : Exec (Service T) (Unit {0})
  take_quota s =
      let (granted, quota) = consume w.today s.quota in
      let result : Result (Unit {0}) =
        if granted then ok tt else raised (http_error 429 "Daily demo quota exceeded") in
      (result, record s { quota = quota })

  unfoldable pub check_fixture : String → Exec (Service T) (Unit {0})
  check_fixture fixture_id s =
      let result : Result (Unit {0}) =
        if contains w.enabled_fixtures fixture_id
        then ok tt
        else raised (http_error 422 "Unknown or disabled fixture_id") in
      (result, s)

  -- The dispatch to the cloud, after `execute_cloud_run_job` has answered.
  unfoldable pub dispatched : String → TaskState → Result String → Exec (Service T) String
  dispatched task_id accepted (ok execution_id) =
      save task_id (cloud_queued_state w accepted execution_id) >> pure task_id
  dispatched task_id accepted (raised e) =
      save task_id (trigger_failed_state w accepted e)
      >> throw (http_error 503 "Cloud task dispatch failed")

  unfoldable pub queue_locally : String → String → TaskState → Exec (Service T) String
  queue_locally task_id fixture_id accepted = do
    save task_id (local_queued_state accepted)
    modify (λ s. record s { background_tasks = s.background_tasks ++ (task_id, fixture_id) ∷ [] })
    pure task_id

  unfoldable pub dispatch : String → String → TaskState → Exec (Service T) String
  dispatch task_id fixture_id accepted =
      if w.cloud_backend
      then dispatched task_id accepted (w.execute_cloud_run_job task_id fixture_id)
      else queue_locally task_id fixture_id accepted

  -- `create_task`; the id is the one that `new_task_id` makes.
  unfoldable pub create_task : String → String → Exec (Service T) String
  create_task task_id fixture_id = do
    check_fixture fixture_id
    take_quota
    save task_id (accepted_state w task_id fixture_id)
    dispatch task_id fixture_id (accepted_state w task_id fixture_id)
