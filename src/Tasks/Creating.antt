-- ===== src/Tasks/Creating.antt =====
-- service.py, `create_task`: what a request leaves, for every store that keeps the laws.
use proofbid.Exec.{Exec}
use proofbid.Tasks.Store.{IsStore, TaskStore, is_task_id}
use proofbid.Tasks.Service.{Service, Site}
use proofbid.Tasks.Quota.{consume}
use proofbid.Prelude.{
  String, [], contains, false, get_key, list_eq, nat_eq, some, text_eq, true, ◌++◌, ◌∷◌, ◌≡◌, ℕ,
}
use proofbid.Errors.{Exception, Result, ok, raised, http_error}
use proofbid.Tasks.Value.{flag, text, TaskState}

-- The state of a task after its dispatch, and after a dispatch that failed.
pub record IsQueued (s : TaskState) : Type 0 where
  pub status : get_key "status" s ≡ some (text "queued")
  pub unready : get_key "bundle_ready" s ≡ some (flag false)

pub record IsUndispatched (s : TaskState) : Type 0 where
  pub status : get_key "status" s ≡ some (text "failed")
  pub unready : get_key "bundle_ready" s ≡ some (flag false)
  pub reason : get_key "reason_code" s ≡ some (text "CLOUD_JOB_TRIGGER_FAILED")

module _ (T : TaskStore) (laws : IsStore T) (w : Site) (task_id fixture_id : String) where
  -- The request was granted and the task waits for its run.
  pub record IsCreated (s s' : Service T) : Type 0 where
    pub enabled : contains w.enabled_fixtures fixture_id ≡ true
    pub granted : (consume w.today s.quota).0 ≡ true
    pub counted : s'.quota ≡ (consume w.today s.quota).1
    pub state : TaskState
    pub kept : T.read_state task_id s'.files ≡ ok (some state)
    pub queued : IsQueued state
    pub local :
        w.cloud_backend ≡ false
        → s'.background_tasks ≡ s.background_tasks ++ (task_id, fixture_id) ∷ []

  -- The request was refused: the fixture is not enabled, the quota of the day is used up, or the
  -- cloud's dispatch raised, after which the task is recorded as failed.
  pub data IsRefused (s s' : Service T) : ℕ → Type 0 where
    disabled : contains w.enabled_fixtures fixture_id ≡ false → s' ≡ s → IsRefused s s' 422
    exhausted :
        (consume w.today s.quota).0 ≡ false
        → s'.files ≡ s.files
        → s'.background_tasks ≡ s.background_tasks
        → IsRefused s s' 429
    undispatched :
        (state : TaskState) (e : Exception)
        → w.execute_cloud_run_job task_id fixture_id ≡ raised e
        → T.read_state task_id s'.files ≡ ok (some state)
        → IsUndispatched state
        → s'.background_tasks ≡ s.background_tasks
        → IsRefused s s' 503

  -- The answer to a request, and what it leaves.
  abbrev pub IsAnswered : Service T → Result String × Service T → Type 0
  IsAnswered s (ok id, s') = (id ≡ task_id) × IsCreated s s'
  IsAnswered s (raised e, s') =
      (n : ℕ) × (detail : String) × (e ≡ http_error n detail) × IsRefused s s' n

  module _ (valid : is_task_id task_id ≡ true) where
    module _ (s : Service T) (enabled : contains w.enabled_fixtures fixture_id ≡ true)
        (granted : (consume w.today s.quota).0 ≡ true) (accepted : TaskState)
        (unready : get_key "bundle_ready" accepted ≡ some (flag false)) where
      -- The service once the request has been counted and the task accepted.
      abbrev counted_with : T.Files → Service T
      counted_with g = record s { quota = (consume w.today s.quota).1; files = g }
