-- ===== src/Mcp/Permissions.antt =====
-- `ToolPolicies` and `validateToolPermission`, with `checkFeature` of mcp/server/context.js.
use url_shortner_system_desi.Common.{
  String, Bool, true, false, Option, none, some, List, [], ◌∷◌, Action, str_eq, find, concat,
  if◌then◌else◌, pure, ◌>>=◌,
}
use url_shortner_system_desi.State.{Role, is_admin, World}
use url_shortner_system_desi.Plans.{has_feature}

pub data RiskLevel : Type 0 where
  read write destructive : RiskLevel

pub record ToolPolicy : Type 0 where
  pub tool : String
  pub risk : RiskLevel
  pub required_feature : Option String

abbrev policy : String → RiskLevel → Option String → ToolPolicy
policy tool risk feature = record { tool = tool; risk = risk; required_feature = feature }

unfoldable pub tool_policies : List ToolPolicy
tool_policies =
    policy "search_knowledge_base" read none
    ∷ policy "create_short_link" write (some "api_access")
    ∷ policy "get_url_details" read none
    ∷ policy "list_links" read none
    ∷ policy "update_link_status" write (some "api_access")
    ∷ policy "deactivate_link" destructive (some "api_access")
    ∷ policy "check_link_health" read none
    ∷ policy "get_link_analytics" read none
    ∷ policy "get_top_performing_links" read none
    ∷ policy "export_link_csv_data" read (some "analytics_export")
    ∷ policy "generate_qr_code" write (some "qr_code_allowed")
    ∷ policy "audit_campaign_performance" read none
    ∷ policy "audit_link_hygiene" read none
    ∷ []

-- the part of `UserContext` that decides
pub record UserContext : Type 0 where
  pub user_id : String
  pub role : Role
  pub plan_key : String

pub record Permission : Type 0 where
  pub allowed : Bool
  pub reason : Option String
  pub risk_level : RiskLevel

unfoldable pub check_feature : UserContext → String → Action World Bool
unfolding has_feature
check_feature context key =
    if is_admin context.role then pure true else has_feature context.user_id key

abbrev pub upgrade_reason : String → String → String
upgrade_reason plan_key feature = concat (
    "Your current subscription plan (" ∷ plan_key ∷ ") does not include '" ∷ feature
    ∷ "'. Upgrade to use this capability." ∷ [])

abbrev pub permit : RiskLevel → Permission
permit risk = record { allowed = true; reason = none; risk_level = risk }

abbrev pub refuse : UserContext → RiskLevel → String → Permission
refuse context risk feature = record {
  allowed = false;
  reason = some (upgrade_reason context.plan_key feature);
  risk_level = risk;
}

unfoldable pub demand_feature : UserContext → RiskLevel → Option String → Action World Permission
unfolding check_feature
demand_feature context risk none = pure (permit risk)
demand_feature context risk (some feature) = do
  has ← check_feature context feature
  pure (if has then permit risk else refuse context risk feature)

unfoldable pub apply_policy : UserContext → Option ToolPolicy → Action World Permission
unfolding demand_feature
apply_policy context none = pure (permit read)
apply_policy context (some p) =
    if is_admin context.role
    then pure (permit p.risk)
    else demand_feature context p.risk p.required_feature

unfoldable pub validate_tool_permission : UserContext → String → Action World Permission
unfolding apply_policy tool_policies
validate_tool_permission context name =
    apply_policy context (find (λ (p : ToolPolicy). str_eq p.tool name) tool_policies)
