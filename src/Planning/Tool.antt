-- ===== src/Planning/Tool.antt =====
-- planning.py: the tool vocabulary of plans and the dependencies between tools.
-- The registered tools, in the order of `CANONICAL_TOOL_ORDER`.

use proofbid.Prelude.{
  Eq, List, [], arith, true, ℕ, ◌==◌, ◌↔◌, ◌∷◌, ◌≡◌, text_eq, nat_eq, list_eq, String,
}

pub data PlanTool : Type 0 where
  scan_workspace extract_requirements load_bidder_profile load_catalog : PlanTool
  build_analysis validate_bundle render_bundle validate_artifacts : PlanTool

-- `tool.value`
unfoldable pub plan_tool_value : PlanTool → String
plan_tool_value scan_workspace = "proofbid.scan_workspace"
plan_tool_value extract_requirements = "proofbid.extract_requirements"
plan_tool_value load_bidder_profile = "proofbid.load_bidder_profile"
plan_tool_value load_catalog = "proofbid.load_catalog"
plan_tool_value build_analysis = "proofbid.build_analysis"
plan_tool_value validate_bundle = "proofbid.validate_bundle"
plan_tool_value render_bundle = "proofbid.render_bundle"
plan_tool_value validate_artifacts = "proofbid.validate_artifacts"

abbrev pub tool_rank : PlanTool → ℕ
tool_rank scan_workspace = 0
tool_rank extract_requirements = 1
tool_rank load_bidder_profile = 2
tool_rank load_catalog = 3
tool_rank build_analysis = 4
tool_rank validate_bundle = 5
tool_rank render_bundle = 6
tool_rank validate_artifacts = 7

pub tool_rank_iff : (t u : PlanTool) → ((tool_rank t == tool_rank u) ≡ true) ↔ (t ≡ u)
tool_rank_iff t u = ground arith

instance abbrev pub plan_tool_eq : Eq PlanTool
plan_tool_eq = record { eqb = λ t u. tool_rank t == tool_rank u; eqb_iff = tool_rank_iff }

unfoldable pub required_dependencies : PlanTool → List PlanTool
required_dependencies scan_workspace = []
required_dependencies extract_requirements = scan_workspace ∷ []
required_dependencies load_bidder_profile = scan_workspace ∷ []
required_dependencies load_catalog = scan_workspace ∷ []
required_dependencies build_analysis =
    extract_requirements ∷ load_bidder_profile ∷ load_catalog ∷ []
required_dependencies validate_bundle = build_analysis ∷ []
required_dependencies render_bundle = validate_bundle ∷ []
required_dependencies validate_artifacts = render_bundle ∷ []

abbrev pub canonical_tool_order : List PlanTool
canonical_tool_order =
    scan_workspace ∷ extract_requirements ∷ load_bidder_profile ∷ load_catalog ∷ build_analysis
    ∷ validate_bundle ∷ render_bundle ∷ validate_artifacts ∷ []
