-- ===== src/Tasks/Ending.antt =====
-- task_worker.py: how a run of a task ends, for every store that keeps the laws.
use proofbid.Tasks.Store.{IsStore, TaskStore, is_task_id}
use proofbid.Tasks.Fixtures.{Deployment}
use proofbid.Prelude.{
  String, false, get_key, list_eq, nat_eq, some, text_eq, true, ◌≡◌, ◌≢◌, Bool, ap,
}
use proofbid.Errors.{Exception, Result, ok, raised, reason_code}
use proofbid.Exec.{resume, Exec, ◌>>=◌, resume}
use proofbid.Tasks.Value.{flag, text, TaskState, Value}

-- The state after a delivery.
pub record IsDelivered (s : TaskState) : Type 0 where
  pub step : get_key "current_step" s ≡ some (text "delivery_ready")
  pub ready : get_key "bundle_ready" s ≡ some (flag true)

-- The state after an exception.
pub record IsFailed (e : Exception) (s : TaskState) : Type 0 where
  pub status : get_key "status" s ≡ some (text "failed")
  pub step : get_key "current_step" s ≡ some (text "failed_closed")
  pub unready : get_key "bundle_ready" s ≡ some (flag false)
  pub reason : get_key "reason_code" s ≡ some (text (reason_code e "TASK_EXECUTION_FAILED"))

-- A step that is known to raise, and one that is known to succeed, before what follows.
pub failed_step :
    {S A B : Type 0} (P : Result B × S → Type 0) (m : Exec S A) (k : A → Exec S B) (f g : S)
    (e : Exception)
    → m f ≡ (raised e, g)
    → P (raised e, g)
    → P ((m >>= k) f)
failed_step P m k f g e made p =
    let same : (m >>= k) f ≡ (raised e, g) = ap (λ x. resume x.0 k x.1) made in rw same p

pub known_step :
    {S A B : Type 0} (P : Result B × S → Type 0) (m : Exec S A) (k : A → Exec S B) (f g : S) (a : A)
    → m f ≡ (ok a, g)
    → P (k a g)
    → P ((m >>= k) f)
known_step P m k f g a made p =
    let same : (m >>= k) f ≡ k a g = ap (λ x. resume x.0 k x.1) made in rw same p

module _ (T : TaskStore) (laws : IsStore T) (task_id : String) where
  -- Only the files of the task have changed.
  pub record Spares (f g : T.Files) : Type 0 where
    pub states : (u : String) → u ≢ task_id → T.read_state u g ≡ T.read_state u f
    pub artifacts : (u n : String) → u ≢ task_id → T.artifact_bytes u n g ≡ T.artifact_bytes u n f

  -- What the store holds once a run has ended.
  abbrev pub IsEnded : Result TaskState → T.Files → Type 0
  IsEnded (ok s) g = (T.read_state task_id g ≡ ok (some s)) × IsDelivered s
  IsEnded (raised e) g = (s : TaskState) × (T.read_state task_id g ≡ ok (some s)) × IsFailed e s

  module _ (valid : is_task_id task_id ≡ true) where
    module _ (w : Deployment) (google inject : Bool) (fixture_id : String) where
      -- The `try` ends with a delivery that the store has, or with an exception.
      abbrev Tried : T.Files → Result TaskState × T.Files → Type 0
      Tried f (ok s, g) = (T.read_state task_id g ≡ ok (some s)) × IsDelivered s × Spares f g
      Tried f (raised e, g) = Spares f g

      abbrev Ends : T.Files → Result TaskState × T.Files → Type 0
      Ends f x = IsEnded x.0 x.1 × Spares f x.1
