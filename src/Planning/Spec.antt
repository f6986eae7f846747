-- ===== src/Planning/Spec.antt =====
-- planning.py: the manifest of a task, its checks, and how it is built from scanned documents.
use proofbid.Prelude.{
  Bool, Eq, List, String, [], all, any, arith, codes, contains, if◌then◌else◌, is_unique, leb,
  length, map, nonempty, not, strip, text_le, true, truthy, ℕ, ◌&&◌, ◌++◌, ◌==◌, ◌||◌, ◌↔◌, ◌∷◌,
  ◌≡◌, text_eq, nat_eq, list_eq,
}
use text.Mathlib.TextEquality.{eq_iff}
use proofbid.Errors.{Result, ok, raised, plan_validation, refuse, ◌>>◌, ◌>>=◌}
use proofbid.Contracts.{SourceDocument, document_type_value, document_types}
use proofbid.Planning.Tool.{PlanTool, plan_tool_eq, canonical_tool_order}

pub record TaskInputRef : Type 0 where
  pub relative_path : String
  pub document_type : String
  pub source_hash : String
  pub size_bytes : ℕ

pub record TaskSpec : Type 0 where
  pub task_id : String
  pub goal : String
  pub inputs : List TaskInputRef
  pub allowed_tools : List PlanTool
  pub required_deliverables : List String
  pub prohibited_actions : List String
  pub max_plan_steps : ℕ
  pub schema_version : String

-- `paths == sorted(paths)`
is_sorted : List String → Bool
is_sorted [] = true
is_sorted (x ∷ []) = true
is_sorted (x ∷ y ∷ xs) = text_le x y && is_sorted (y ∷ xs)

-- A non-blank text of at most `limit` characters.
abbrev pub is_bounded : ℕ → String → Bool
is_bounded limit s = truthy (strip s) && leb (length (codes s)) limit

abbrev pub task_spec_schema_version : String
task_spec_schema_version = "proofbid.task-spec/v1"

-- `TaskSpec(…)` runs `__post_init__`. The checks of Python types hold by the fields' types.
unfoldable pub task_spec : TaskSpec → Result TaskSpec
unfolding is_sorted text_le
task_spec t = do
  let input_paths = map (λ (i : TaskInputRef). i.relative_path) t.inputs
  refuse (not (t.schema_version == task_spec_schema_version)) "Unsupported TaskSpec schema version"
  refuse (not (is_bounded 128 t.task_id)) "TaskSpec.task_id must be non-empty and bounded"
  refuse (not (is_bounded 800 t.goal)) "TaskSpec.goal must be non-empty and bounded"
  refuse (not (nonempty t.inputs)) "TaskSpec requires at least one input"
  refuse (not (is_sorted input_paths) || not (is_unique input_paths))
      "TaskSpec inputs must be unique and sorted by relative path"
  refuse (not (t.allowed_tools == canonical_tool_order))
      "TaskSpec allowed tools must match the canonical tool order"
  refuse (not (t.max_plan_steps == length t.allowed_tools))
      "TaskSpec max_plan_steps must equal the allowed tool count"
  refuse (not (nonempty t.required_deliverables) || not (nonempty t.prohibited_actions))
      "TaskSpec deliverables and prohibited actions are required"
  refuse (not (is_unique t.required_deliverables) || not (is_unique t.prohibited_actions))
      "TaskSpec deliverables/actions must be unique"
  refuse (any (λ s. not (is_bounded 300 s)) (t.required_deliverables ++ t.prohibited_actions))
      "TaskSpec deliverables/actions must be bounded strings"
  ok t

-- The parts of a text between its slashes.
split_path : List ℕ → List (List ℕ)
split_path [] = [] ∷ []
split_path (c ∷ cs) = elim (split_path cs) [
  | [] ↦ [] ∷ []
  | part ∷ parts ↦ if c == b'/' then [] ∷ part ∷ parts else (c ∷ part) ∷ parts
]

-- A relative POSIX path in normal form that does not climb: the tests on `PurePosixPath`.
is_safe_relative : String → Bool
unfolding split_path
is_safe_relative path =
    path == "."
    || all (λ part. not (contains (codes "" ∷ codes "." ∷ codes ".." ∷ []) part))
        (split_path (codes path))

-- `re.compile(r"^[0-9a-f]{64}$").fullmatch(s)`
unfoldable pub is_digest : String → Bool
is_digest s =
    length (codes s) == 64 && all (λ n. leb 48 n && leb n 57 || leb 97 n && leb n 102) (codes s)

-- `TaskInputRef(…)` runs `__post_init__`. A size is a natural number by its type.
unfoldable pub task_input_ref : TaskInputRef → Result TaskInputRef
unfolding is_safe_relative
task_input_ref i = do
  refuse (not (is_safe_relative i.relative_path))
      "TaskInputRef.relative_path must be a safe relative path"
  refuse (not (is_digest i.source_hash))
      "TaskInputRef.source_hash must be a lowercase SHA-256 digest"
  refuse (not (contains document_types i.document_type))
      "TaskInputRef.document_type is not registered"
  ok i

input_ref_of : SourceDocument → TaskInputRef
input_ref_of document = record {
  relative_path = document.relative_path;
  document_type = document_type_value document.document_type;
  source_hash = document.source_hash;
  size_bytes = document.size_bytes;
}

input_refs : List SourceDocument → Result (List TaskInputRef)
unfolding input_ref_of
input_refs [] = ok []
input_refs (d ∷ ds) = do i ← task_input_ref (input_ref_of d); is ← input_refs ds; ok (i ∷ is)

-- One step of the stable `sorted(…, key=lambda item: item.relative_path)`.
insert_by_path : TaskInputRef → List TaskInputRef → List TaskInputRef
insert_by_path i [] = i ∷ []
insert_by_path i (j ∷ js) =
    let rest = insert_by_path i js in
    if text_le i.relative_path j.relative_path then i ∷ j ∷ js else j ∷ rest

sort_by_path : List TaskInputRef → List TaskInputRef
unfolding insert_by_path text_le
sort_by_path [] = []
sort_by_path (i ∷ is) = insert_by_path i (sort_by_path is)

abbrev deliverables : List String
deliverables =
    "requirements.json" ∷ "evidence.json" ∷ "result.json" ∷ "proofbid.xlsx" ∷ "proofbid_report.docx"
    ∷ "trace.jsonl" ∷ "manifest.json" ∷ "proofbid_bundle.zip" ∷ "task_spec.json"
    ∷ "execution_plan.json" ∷ "planner_receipt.json" ∷ []

abbrev prohibited : List String
prohibited =
    "freeze pricing" ∷ "sign documents" ∷ "send or submit a bid"
    ∷ "access paths outside the bounded workspace"
    ∷ "execute shell, arbitrary SQL, arbitrary network, or unregistered tools"
    ∷ "invent evidence or replace missing facts" ∷ []

unfoldable pub build_task_spec : String → List SourceDocument → Result TaskSpec
unfolding input_refs sort_by_path
build_task_spec task_id documents = do
  refs ← input_refs documents
  task_spec (record {
    task_id = task_id;
    goal =
        "Generate a traceable tender preparation package from the bounded input manifest. Preserve unknowns and require deterministic validation before delivery.";
    inputs = sort_by_path refs;
    allowed_tools = canonical_tool_order;
    required_deliverables = deliverables;
    prohibited_actions = prohibited;
    max_plan_steps = length canonical_tool_order;
    schema_version = task_spec_schema_version;
  })

abbrev pub same_input : TaskInputRef → TaskInputRef → Bool
same_input i j =
    i.relative_path == j.relative_path
    && i.document_type == j.document_type
    && i.source_hash == j.source_hash
    && i.size_bytes == j.size_bytes

pub same_input_iff : (i j : TaskInputRef) → (same_input i j ≡ true) ↔ (i ≡ j)
same_input_iff i j = ground (
  arith,
  eq_iff i.relative_path j.relative_path,
  eq_iff i.document_type j.document_type,
  eq_iff i.source_hash j.source_hash,
)

instance abbrev pub input_eq : Eq TaskInputRef
input_eq = record { eqb = same_input; eqb_iff = same_input_iff }

unfoldable pub assert_task_inputs_unchanged : TaskSpec → List SourceDocument → Result (Unit {0})
assert_task_inputs_unchanged spec documents = do
  observed ← build_task_spec spec.task_id documents
  if observed.inputs == spec.inputs
      then ok tt
      else raised (plan_validation ("TASK_INPUT_DRIFT" ∷ []))
