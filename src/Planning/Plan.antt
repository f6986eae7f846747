-- ===== src/Planning/Plan.antt =====
-- planning.py: execution plans, and the local policy that a proposed plan is checked against.
-- `digest` stands for the SHA-256 of the canonical JSON of a manifest, and is a parameter.
pub mod Accepted
use proofbid.Prelude.{
  Bool, List, Option, String, [], any, contains, codes, all, ◌||◌, false, filter_map, flat_map,
  from_keys, if◌then◌else◌, is_unique, leb, length, ltb, map, none, nonempty, not, same_set, some,
  true, ℕ, ◌&&◌, ◌++◌, ◌+◌, ◌==◌, ◌∷◌, text_eq, nat_eq, list_eq,
}
use proofbid.Errors.{Result, ok, raised, plan_validation, refuse, ◌>>◌}
use proofbid.Planning.Tool.{PlanTool, plan_tool_eq, required_dependencies, canonical_tool_order}
use proofbid.Planning.Spec.{TaskSpec, is_bounded, is_digest}

pub record PlanStep : Type 0 where
  pub step_id : String
  pub tool : PlanTool
  pub depends_on : List String
  pub completion_criterion : String

pub record ExecutionPlan : Type 0 where
  pub task_spec_digest : String
  pub steps : List PlanStep
  pub summary : String
  pub schema_version : String

-- `re.compile(r"^[a-z][a-z0-9_]{0,63}$").fullmatch(s)`, on the characters of the text.
is_step_id : List ℕ → Bool
is_step_id [] = false
is_step_id (c ∷ cs) =
    leb 97 c
    && leb c 122
    && leb (length cs) 63
    && all (λ n. leb 97 n && leb n 122 || leb 48 n && leb n 57 || n == 95) cs

-- `PlanStep(…)` and `ExecutionPlan(…)` run `__post_init__`.
unfoldable pub plan_step : PlanStep → Result PlanStep
unfolding is_step_id
plan_step s = do
  refuse (not (is_step_id (codes s.step_id))) "Invalid plan step id"
  refuse (not (is_unique s.depends_on)) "Plan step has duplicate dependencies"
  refuse (any (λ d. not (is_step_id (codes d))) s.depends_on)
      "Plan step has an invalid dependency id"
  refuse (not (is_bounded 400 s.completion_criterion))
      "Plan step completion criterion must be non-empty and bounded"
  ok s

abbrev pub execution_plan_schema_version : String
execution_plan_schema_version = "proofbid.execution-plan/v1"

unfoldable pub execution_plan : ExecutionPlan → Result ExecutionPlan
execution_plan p = do
  refuse (not (p.schema_version == execution_plan_schema_version))
      "Unsupported ExecutionPlan schema version"
  refuse (not (is_digest p.task_spec_digest))
      "ExecutionPlan.task_spec_digest must be a SHA-256 digest"
  refuse (not (nonempty p.steps)) "ExecutionPlan requires at least one step"
  refuse (not (is_bounded 600 p.summary)) "ExecutionPlan.summary must be non-empty and bounded"
  ok p

abbrev pub step_ids : ExecutionPlan → List String
step_ids plan = map (λ s. s.step_id) plan.steps

abbrev pub tools : ExecutionPlan → List PlanTool
tools plan = map (λ s. s.tool) plan.steps

-- `position[step_id]`, where `position` is built from `enumerate(plan.steps)`: the last step of
-- that id decides. Only ids of the plan are looked up.
position_from : ℕ → List String → String → Option ℕ
position_from index [] i = none
position_from index (j ∷ js) i = elim (position_from (index + 1) js i) [
  | some later ↦ some later
  | none ↦ if j == i then some index else none
]

unfoldable pub position : ExecutionPlan → String → Option ℕ
unfolding position_from
position plan = position_from 0 (step_ids plan)

-- `position[a] >= position[b]`
unfoldable pub not_before : ExecutionPlan → String → String → Bool
unfolding position
not_before plan a b = elim (position plan a) [
  | none ↦ false
  | some i ↦ elim (position plan b) [ none ↦ false | some j ↦ leb j i ]
]

-- `errors.append(code)` under a condition
abbrev pub error_if : Bool → String → List String
error_if true code = code ∷ []
error_if false code = []

unfoldable pub step_errors : ExecutionPlan → PlanStep → List String
step_errors plan step =
    error_if (contains step.depends_on step.step_id) "PLAN_SELF_DEPENDENCY"
    ++ (let unknown = any (λ d. not (contains (step_ids plan) d)) step.depends_on in
        if unknown
        then "PLAN_UNKNOWN_DEPENDENCY" ∷ []
        else error_if (any (λ d. not_before plan d step.step_id) step.depends_on)
            "PLAN_NOT_TOPOLOGICAL")

-- `step_id_by_tool[tool]`: the id of the last step with that tool.
unfoldable pub step_id_by_tool : List PlanStep → PlanTool → Option String
step_id_by_tool [] tool = none
step_id_by_tool (step ∷ steps) tool = elim (step_id_by_tool steps tool) [
  | some later ↦ some later
  | none ↦ if step.tool == tool then some step.step_id else none
]

unfoldable pub expected_ids : ExecutionPlan → PlanTool → List String
expected_ids plan tool = filter_map (step_id_by_tool plan.steps) (required_dependencies tool)

unfoldable pub graph_errors : ExecutionPlan → TaskSpec → List String
graph_errors plan spec =
    error_if
      (same_set (tools plan) spec.allowed_tools
        && any (λ s. not (same_set s.depends_on (expected_ids plan s.tool))) plan.steps)
      "PLAN_DEPENDENCY_GRAPH_MISMATCH"

unfoldable pub plan_errors : (TaskSpec → String) → ExecutionPlan → TaskSpec → List String
plan_errors digest plan spec =
    error_if (not (plan.task_spec_digest == digest spec)) "TASK_SPEC_DIGEST_MISMATCH"
    ++ error_if (ltb spec.max_plan_steps (length plan.steps)) "PLAN_STEP_LIMIT_EXCEEDED"
    ++ error_if (not (is_unique (step_ids plan))) "PLAN_STEP_IDS_NOT_UNIQUE"
    ++ error_if (not (is_unique (tools plan))) "PLAN_TOOLS_NOT_UNIQUE"
    ++ error_if (not (same_set (tools plan) spec.allowed_tools)) "PLAN_TOOL_SET_MISMATCH"
    ++ error_if (not (tools plan == canonical_tool_order)) "PLAN_TOOL_ORDER_MISMATCH"
    ++ flat_map (step_errors plan) plan.steps
    ++ graph_errors plan spec

unfoldable pub validate_execution_plan :
    (TaskSpec → String) → ExecutionPlan → TaskSpec → Result (Unit {0})
validate_execution_plan digest plan spec =
    let errors = plan_errors digest plan spec in
    if nonempty errors then raised (plan_validation (from_keys errors)) else ok tt
