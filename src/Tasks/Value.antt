-- ===== src/Tasks/Value.antt =====
-- The state of a task: a `dict` of JSON values, as task_worker.py and service.py write it.
use proofbid.Prelude.{
  Bool, Dict, List, Option, String, [], false, get_key, none, nonempty, put_key, some, text_eq,
  true, truthy, ℕ, ◌==◌, ◌∷◌, nat_eq, list_eq,
}
use proofbid.Contracts.{MissingItem}

-- One of the rows under "tool_receipts".
pub record ReceiptRow : Type 0 where
  pub sequence : ℕ
  pub tool : String
  pub status : String
  pub reason_code : String
  pub duration_ms : ℕ
  pub function_call_id : Option String
  pub retry_of : Option ℕ

pub record EvidenceSummary : Type 0 where
  pub requirement_count : ℕ
  pub evidence_count : ℕ
  pub matched_count : ℕ
  pub missing_items : List MissingItem

pub record ValidationSummary : Type 0 where
  pub passed_count : ℕ
  pub failed : List (String × String)

-- A value of the state. `opaque` is one that a task's result brings along: its text and its truth.
pub data Value : Type 0 where
  null : Value
  flag : Bool → Value
  text : String → Value
  texts : List String → Value
  receipts : List ReceiptRow → Value
  evidence : EvidenceSummary → Value
  validations : ValidationSummary → Value
  opaque : (json : String) (truth : Bool) → Value

abbrev pub TaskState : Type 0
TaskState = Dict String Value

-- `{**state, **entries}`
abbrev pub with_entries : List (String × Value) → TaskState → TaskState
with_entries [] s = s
with_entries ((k, v) ∷ es) s = with_entries es (put_key k v s)

-- `bool(value)`, where `.get` gives `None` for a missing key.
unfoldable pub is_set : Option Value → Bool
is_set none = false
is_set (some null) = false
is_set (some (flag b)) = b
is_set (some (text s)) = truthy s
is_set (some (texts ss)) = nonempty ss
is_set (some (receipts rs)) = nonempty rs
is_set (some (evidence e)) = true
is_set (some (validations v)) = true
is_set (some (opaque json truth)) = truth

abbrev pub is_text : String → Option Value → Bool
is_text s (some (text t)) = t == s
is_text s _ = false

-- `state.get("status") == status`
unfoldable pub has_status : String → TaskState → Bool
has_status status s = is_text status (get_key "status" s)
