-- ===== src/Tasks/Serving.antt =====
-- service.py: `get_task` and `get_bundle`, and what a run of a task makes of them.
use proofbid.Tasks.Fixtures.{Deployment}
use proofbid.Tasks.Value.{TaskState, Value, has_status, is_set, is_text}
use proofbid.Tasks.Store.{Bytes, TaskStore, IsStore}
use proofbid.Tasks.Service.{Service}
use proofbid.Prelude.{
  Bool, Option, String, false, get_key, list_eq, nat_eq, none, some, text_eq, true, ℕ, ◌&&◌, ◌||◌,
  ◌⊎◌, inl, inr, Bool-cases, eqb→eq, ◌≡◌, arith, refl, ◌↔◌,
}
use proofbid.Errors.{Exception, Result, ok, raised, http_error, ◌>>=◌, ◌>>◌, and_then-ok}

-- `if not condition: raise HTTPException(status_code, detail)`
abbrev ensure : Bool → ℕ → String → Result (Unit {0})
ensure true status_code detail = ok tt
ensure false status_code detail = raised (http_error status_code detail)

abbrev not_found : {A : Type 0} → Result A
not_found = raised (http_error 404 "Task not found")

-- A `ValueError` of the reading, or a missing state, is "not found".
unfoldable pub known_state : Result (Option TaskState) → Result TaskState
known_state (ok none) = not_found
known_state (ok (some s)) = ok s
known_state (raised (Exception.value_error message)) = not_found
known_state (raised e) = raised e

bundle_of : Result (Option Bytes) → Result Bytes
bundle_of (ok none) = raised (http_error 404 "Bundle artifact not found")
bundle_of (ok (some bytes)) = ok bytes
bundle_of (raised e) = raised e

unfoldable pub is_finished : TaskState → Bool
is_finished s = has_status "completed" s || has_status "blocked" s

-- The status of a state is one of two texts.
abbrev pub HasEnded : TaskState → Type 0
HasEnded s =
    (get_key "status" s ≡ some (Value.text "completed"))
    ⊎ (get_key "status" s ≡ some (Value.text "blocked"))

is_text-some : (s : String) (o : Option Value) → is_text s o ≡ true → o ≡ some (Value.text s)
is_text-some s none h = absurd (ground arith)
is_text-some s (some (Value.text t)) h = rw (eqb→eq t s h) refl
is_text-some s (some Value.null) h = absurd (ground arith)
is_text-some s (some (Value.flag b)) h = absurd (ground arith)
is_text-some s (some (Value.texts ts)) h = absurd (ground arith)
is_text-some s (some (Value.receipts rs)) h = absurd (ground arith)
is_text-some s (some (Value.evidence e)) h = absurd (ground arith)
is_text-some s (some (Value.validations v)) h = absurd (ground arith)
is_text-some s (some (Value.opaque j b)) h = absurd (ground arith)

is_finished-HasEnded : (s : TaskState) → is_finished s ≡ true → HasEnded s
unfolding is_finished has_status
is_finished-HasEnded s h = elim (Bool-cases (is_text "completed" (get_key "status" s))) [
  | inl e ↦ inl (is_text-some "completed" (get_key "status" s) e)
  | inr e ↦ inr (is_text-some "blocked" (get_key "status" s) (ground (arith, e)))
]

HasEnded-is_finished : (s : TaskState) → HasEnded s → is_finished s ≡ true
unfolding is_finished has_status
HasEnded-is_finished s (inl e) = rw e refl
HasEnded-is_finished s (inr e) = rw e refl

ensure-ok : (b : Bool) (n : ℕ) (d : String) (u : Unit {0}) → ensure b n d ≡ ok u → b ≡ true
ensure-ok true n d u h = refl
ensure-ok false n d u h = absurd (ground arith)

known_state-ok :
    (r : Result (Option TaskState)) (s : TaskState) → known_state r ≡ ok s → r ≡ ok (some s)
unfolding known_state
known_state-ok (ok none) s h = absurd (ground arith)
known_state-ok (ok (some t)) s h = ground arith
known_state-ok (raised (Exception.value_error message)) s h = absurd (ground arith)
known_state-ok (raised e) s h = absurd (ground arith)

bundle_of-ok :
    (r : Result (Option Bytes)) (bytes : Bytes) → bundle_of r ≡ ok bytes → r ≡ ok (some bytes)
unfolding bundle_of
bundle_of-ok (ok none) b h = absurd (ground arith)
bundle_of-ok (ok (some c)) b h = ground arith
bundle_of-ok (raised e) b h = absurd (ground arith)

module _ (T : TaskStore) where
  -- `get_task`; `_public_state` only adds two URLs.
  unfoldable pub get_task : String → Service T → Result TaskState
  get_task task_id s = known_state (T.read_state task_id s.files)

  unfoldable pub get_bundle : String → Service T → Result Bytes
  unfolding bundle_of
  get_bundle task_id s = do
    state ← get_task task_id s
    ensure (is_finished state) 409 "Delivery is not ready"
    ensure
        (is_set (get_key "bundle_ready" state)
          && is_set (get_key "artifact_integrity_passed" state))
        409 "Delivery validation has not passed"
    bundle_of (T.artifact_bytes task_id "proofbid_bundle.zip" s.files)

  -- The bundle of a task that the service may hand out: its state is completed or blocked, its
  -- bundle is ready, and its artifacts have passed their integrity check.
  pub record IsServed (task_id : String) (s : Service T) (bytes : Bytes) : Type 0 where
    pub state : TaskState
    pub recorded : T.read_state task_id s.files ≡ ok (some state)
    pub finished : HasEnded state
    pub ready : is_set (get_key "bundle_ready" state) ≡ true
    pub intact : is_set (get_key "artifact_integrity_passed" state) ≡ true
    pub kept : T.artifact_bytes task_id "proofbid_bundle.zip" s.files ≡ ok (some bytes)

  get_bundle-IsServed :
      (task_id : String) (s : Service T) (bytes : Bytes)
      → get_bundle task_id s ≡ ok bytes
      → IsServed task_id s bytes
  unfolding get_bundle get_task
  get_bundle-IsServed task_id s bytes h =
      let (state, known, h1) = and_then-ok (get_task task_id s) _ h in
      let (u, first, h2) =
        and_then-ok (ensure (is_finished state) 409 "Delivery is not ready") _ h1 in
      let (v, second, h3) =
        and_then-ok
          (ensure
            (is_set (get_key "bundle_ready" state)
              && is_set (get_key "artifact_integrity_passed" state))
            409 "Delivery validation has not passed")
          _ h2 in
      let released = ensure-ok _ 409 "Delivery validation has not passed" v second in
      record {
        state = state;
        recorded = known_state-ok _ state known;
        finished = is_finished-HasEnded state (ensure-ok _ 409 "Delivery is not ready" u first);
        ready = ground arith;
        intact = ground arith;
        kept = bundle_of-ok _ bytes h3;
      }

  IsServed-get_bundle :
      (task_id : String) (s : Service T) (bytes : Bytes)
      → IsServed task_id s bytes
      → get_bundle task_id s ≡ ok bytes
  unfolding get_bundle get_task known_state bundle_of
  IsServed-get_bundle task_id s bytes i =
      simp (i.recorded, HasEnded-is_finished i.state i.finished, i.ready, i.intact, i.kept) refl

  -- A request for a bundle is answered with bytes exactly when they are the bundle of a task whose
  -- state is completed or blocked, whose bundle is ready and whose artifacts have passed their
  -- integrity check.
  pub get_bundle_iff :
      (task_id : String) (s : Service T) (bytes : Bytes)
      → (get_bundle task_id s ≡ ok bytes) ↔ IsServed task_id s bytes
  get_bundle_iff task_id s bytes =
      (get_bundle-IsServed task_id s bytes, IsServed-get_bundle task_id s bytes)

  pub refused_of_unfinished :
      (task_id : String) (s : Service T) (state : TaskState)
      → T.read_state task_id s.files ≡ ok (some state)
      → is_finished state ≡ false
      → get_bundle task_id s ≡ raised (http_error 409 "Delivery is not ready")
  unfolding get_bundle get_task known_state
  refused_of_unfinished task_id s state kept open_still = simp (kept, open_still) refl

  module _ (laws : IsStore T) (w : Deployment) (google inject : Bool)
      (task_id fixture_id : String) where
    -- The result of a run of a task, in a service whose files are those behind the run.
    abbrev pub RunShows : Service T → Result TaskState × T.Files → Type 0
    RunShows s (ok state, g) = get_task task_id (record s { files = g }) ≡ ok state
    RunShows s (raised e, g) =
        get_bundle task_id (record s { files = g })
        ≡ raised (http_error 409 "Delivery is not ready")
