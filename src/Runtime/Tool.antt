-- ===== src/Runtime/Tool.antt =====
-- agent_runtime_v2.py: the tools of the runtime and the order that is required of them.
use proofbid.Prelude.{
  Eq, List, Option, String, [], arith, if◌then◌else◌, none, refl, some, true, ℕ, ◌==◌, ◌↔◌, ◌∷◌,
  ◌≡◌, text_eq, nat_eq, list_eq,
}
use proofbid.Errors.{Result, ok, raised, value_error}

pub data RuntimeTool : Type 0 where
  declare_plan scan_inputs extract_requirements load_bidder_evidence : RuntimeTool
  load_product_catalog build_analysis validate_domain render_delivery : RuntimeTool
  retry_render validate_delivery finalize_complete finalize_blocked : RuntimeTool

abbrev pub tool_rank : RuntimeTool → ℕ
tool_rank declare_plan = 0
tool_rank scan_inputs = 1
tool_rank extract_requirements = 2
tool_rank load_bidder_evidence = 3
tool_rank load_product_catalog = 4
tool_rank build_analysis = 5
tool_rank validate_domain = 6
tool_rank render_delivery = 7
tool_rank retry_render = 8
tool_rank validate_delivery = 9
tool_rank finalize_complete = 10
tool_rank finalize_blocked = 11

pub tool_rank_iff : (t u : RuntimeTool) → ((tool_rank t == tool_rank u) ≡ true) ↔ (t ≡ u)
tool_rank_iff t u = ground arith

instance abbrev pub tool_eq : Eq RuntimeTool
tool_eq = record { eqb = λ t u. tool_rank t == tool_rank u; eqb_iff = tool_rank_iff }

-- `.value`
abbrev pub tool_value : RuntimeTool → String
tool_value declare_plan = "declare_execution_plan"
tool_value scan_inputs = "scan_inputs"
tool_value extract_requirements = "extract_requirements"
tool_value load_bidder_evidence = "load_bidder_evidence"
tool_value load_product_catalog = "load_product_catalog"
tool_value build_analysis = "build_analysis"
tool_value validate_domain = "validate_domain"
tool_value render_delivery = "render_delivery"
tool_value retry_render = "retry_render"
tool_value validate_delivery = "validate_delivery"
tool_value finalize_complete = "finalize_complete"
tool_value finalize_blocked = "finalize_blocked"

-- The members but `DECLARE_PLAN`, in the order of the class: `_declared_tools`.
abbrev pub declared_tools : List RuntimeTool
declared_tools =
    scan_inputs ∷ extract_requirements ∷ load_bidder_evidence ∷ load_product_catalog
    ∷ build_analysis ∷ validate_domain ∷ render_delivery ∷ retry_render ∷ validate_delivery
    ∷ finalize_complete ∷ finalize_blocked ∷ []

tool_named_among : List RuntimeTool → String → Option RuntimeTool
tool_named_among [] name = none
tool_named_among (t ∷ ts) name = if tool_value t == name then some t else tool_named_among ts name

-- `RuntimeTool(name)`, a `ValueError` where no member has that value.
unfoldable pub runtime_tool : String → Result RuntimeTool
unfolding tool_named_among
runtime_tool name = elim (tool_named_among (declare_plan ∷ declared_tools) name) [
  | some t ↦ ok t
  | none ↦ raised (value_error "not a valid RuntimeTool")
]

abbrev pub core_route : List RuntimeTool
core_route =
    scan_inputs ∷ extract_requirements ∷ load_bidder_evidence ∷ load_product_catalog
    ∷ build_analysis ∷ validate_domain ∷ render_delivery ∷ validate_delivery ∷ []

-- `rules` of `_dependencies_satisfied`, with `set()` for a tool that has no rule.
unfoldable pub rules : RuntimeTool → List RuntimeTool
rules declare_plan = []
rules scan_inputs = declare_plan ∷ []
rules extract_requirements = scan_inputs ∷ []
rules load_bidder_evidence = scan_inputs ∷ []
rules load_product_catalog = scan_inputs ∷ []
rules build_analysis = extract_requirements ∷ load_bidder_evidence ∷ load_product_catalog ∷ []
rules validate_domain = build_analysis ∷ []
rules render_delivery = validate_domain ∷ []
rules retry_render = validate_domain ∷ []
rules validate_delivery = render_delivery ∷ []
rules finalize_complete = validate_delivery ∷ []
rules finalize_blocked = validate_delivery ∷ []

runtime_tool-tool_value : (t : RuntimeTool) → runtime_tool (tool_value t) ≡ ok t
unfolding runtime_tool
runtime_tool-tool_value declare_plan = refl
runtime_tool-tool_value _ = refl
