-- ===== src/Tasks/Fixtures.antt =====
-- task_worker.py: which fixtures a deployment runs. The pipelines and what JSON reads back from
-- their files are parameters.
use proofbid.Tasks.Value.{ReceiptRow, TaskState}
use proofbid.Tasks.Store.{Bytes}
use proofbid.Regex.{◌then◌}
use proofbid.Readiness.{ValidationFinding}
use proofbid.Prelude.{
  Bool, Dict, List, Option, String, [], contains, false, from_keys, get_key, if◌then◌else◌,
  is_subset, list_eq, map, nat_eq, none, nonempty, not, select, some, strip, text_eq, true, truthy,
  ◌==◌, ◌∷◌,
}
use proofbid.Contracts.{AnalysisBundle}
use Prim.Native.Char.{code}
use proofbid.Errors.{Exception, Result, ok, raised, value_error, plain_failure, refuse, ◌>>=◌, ◌>>◌}

-- What result.json and tool_receipts.jsonl say of a delivery.
pub record Summary : Type 0 where
  pub analysis : AnalysisBundle
  pub findings : List ValidationFinding
  pub rows : List ReceiptRow

-- What a pipeline leaves: its result and the files of its output directory.
pub record Output : Type 0 where
  pub result : TaskState
  pub files : Dict String Bytes

pub record Deployment : Type 0 where
  pub allowed_fixtures : Option String
  pub has_workspace : String → Bool
  pub run_google_tool_agent_pipeline : (workspace : String) → Bool → String → Result Output
  pub run_scripted_agent_pipeline : (workspace : String) → Bool → String → Result Output
  pub read_summary : Dict String Bytes → Result Summary
  pub type_name : Exception → String
  pub started_at : String
  pub finished_at : String

-- `FIXTURE_WORKSPACES`
abbrev pub fixture_workspaces : Dict String String
fixture_workspaces =
    ("complete_tender", "complete_tender")
    ∷ ("blocked_missing_authorization", "blocked_missing_authorization")
    ∷ []

-- `raw.split(",")`
unfoldable pub split_commas : String → List String
split_commas String.[] = "" ∷ []
split_commas (String.◌∷◌ c s) = elim (split_commas s) [
  | [] ↦ []
  | part ∷ parts ↦ if code c == b',' then "" ∷ part ∷ parts else String.◌∷◌ c part ∷ parts
]

-- `if bad: raise RuntimeError(…)`
abbrev fail_if : Bool → Result (Unit {0})
fail_if true = raised (plain_failure "RuntimeError")
fail_if false = ok tt

unfoldable pub requested_fixtures : String → List String
requested_fixtures raw = from_keys (select truthy (map strip (split_commas raw)))

unfoldable pub allowed_fixture_ids : Option String → Result (List String)
allowed_fixture_ids none = ok (map (λ e. e.0) fixture_workspaces)
allowed_fixture_ids (some raw) =
    let requested = requested_fixtures raw in
    let known = map (λ (e : String × String). e.0) fixture_workspaces in
    fail_if (not (nonempty requested))
    >> (fail_if (not (is_subset requested known)) >> ok requested)

-- The workspace of an enabled fixture.
workspace_of : Deployment → String → Option String → Result String
workspace_of w fixture_id none = raised (value_error "Unknown fixture id")
workspace_of w fixture_id (some relative) = fail_if (not (w.has_workspace relative)) >> ok relative

unfoldable pub fixture_workspace : Deployment → String → Result String
unfolding workspace_of
fixture_workspace w fixture_id = do
  allowed ← allowed_fixture_ids w.allowed_fixtures
  refuse (not (contains allowed fixture_id)) "Fixture is not enabled for this deployment"
  workspace_of w fixture_id (get_key fixture_id fixture_workspaces)
