-- ===== src/Tasks/Store.antt =====
-- task_store.py: the interface of a task store, with what its callers rely on, and the ids of tasks.
-- The files of a task are its state and its artifacts by name.
use proofbid.Tasks.Value.{TaskState}
use proofbid.Regex.{take_text, ◌then◌}
use proofbid.Prelude.{
  Bool, List, Option, String, [], all, between, codes, if◌then◌else◌, length, list_eq, nat_eq, not,
  occurs, some, suc, text_eq, zero, ℕ, ◌&&◌, ◌==◌, ◌||◌, ◌∷◌, false, true, ◌≡◌, ◌≢◌,
}
use Prim.Native.Char.{code}
use proofbid.Errors.{Result, ok, raised, value_error, refuse}

abbrev pub Bytes : Type 0
Bytes = List ℕ

skip : ℕ → List ℕ → List ℕ
skip zero cs = cs
skip (suc n) [] = []
skip (suc n) (c ∷ cs) = skip n cs

-- `TASK_ID_RE`
unfoldable pub is_task_id : String → Bool
unfolding skip
is_task_id s =
    let cs = codes s in
    length cs == 25
    && codes (take_text 5 s) == codes "task-"
    && all (λ n. between 48 57 n || between 97 102 n) (skip 5 cs)

unfoldable pub validate_task_id : String → Result (Unit {0})
validate_task_id task_id = refuse (not (is_task_id task_id)) "Invalid task id"

-- `Path(name).name`, for a name without a trailing slash or dot: what stands behind the last slash.
unfoldable pub base_name : String → String
base_name String.[] = String.[]
base_name (String.◌∷◌ c s) =
    let rest = base_name s in if occurs "/" s || code c == b'/' then rest else String.◌∷◌ c s

-- `TaskStore`: what the service and the worker call. `Files` is what the store keeps.
pub record TaskStore : Type 1 where
  pub Files : Type 0
  pub write_state : String → TaskState → Files → Result Files
  pub read_state : String → Files → Result (Option TaskState)
  pub put_artifact : String → String → Bytes → Files → Result Files
  pub artifact_bytes : String → String → Files → Result (Option Bytes)

-- What a write leaves behind: it succeeds on a valid id, and only what it names is changed.
pub record Writes (T : TaskStore) (f g : T.Files) (task_id : String) (state : TaskState)
    : Type 0 where
  pub kept : T.read_state task_id g ≡ ok (some state)
  pub others : (u : String) → u ≢ task_id → T.read_state u g ≡ T.read_state u f
  pub artifacts : (u name : String) → T.artifact_bytes u name g ≡ T.artifact_bytes u name f

pub record Puts (T : TaskStore) (f g : T.Files) (task_id name : String) (bytes : Bytes)
    : Type 0 where
  pub kept : T.artifact_bytes task_id name g ≡ ok (some bytes)
  pub others :
      (n : String)
      → base_name n ≢ base_name name
      → T.artifact_bytes task_id n g ≡ T.artifact_bytes task_id n f
  pub strangers : (u n : String) → u ≢ task_id → T.artifact_bytes u n g ≡ T.artifact_bytes u n f
  pub states : (u : String) → T.read_state u g ≡ T.read_state u f

pub record IsStore (T : TaskStore) : Type 0 where
  pub refuses_state :
      (u : String) (f : T.Files)
      → is_task_id u ≡ false
      → T.read_state u f ≡ raised (value_error "Invalid task id")
  pub readable :
      (u : String) (f : T.Files)
      → is_task_id u ≡ true
      → (o : Option TaskState) × (T.read_state u f ≡ ok o)
  pub writes :
      (u : String) (s : TaskState) (f : T.Files)
      → is_task_id u ≡ true
      → (g : T.Files) × (T.write_state u s f ≡ ok g) × Writes T f g u s
  pub puts :
      (u name : String) (bytes : Bytes) (f : T.Files)
      → is_task_id u ≡ true
      → (g : T.Files) × (T.put_artifact u name bytes f ≡ ok g) × Puts T f g u name bytes
