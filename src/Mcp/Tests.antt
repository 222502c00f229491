-- ===== src/Mcp/Tests.antt =====
-- The permissions of tools at concrete inputs.
use url_shortner_system_desi.Common.{some}
use url_shortner_system_desi.State.{World, user}
use url_shortner_system_desi.Links.Samples.{world}
use url_shortner_system_desi.Plans.{has_feature}
use url_shortner_system_desi.Mcp.Permissions.{UserContext, ToolPolicy, read}

abbrev ann_context : UserContext
ann_context = record { user_id = "ann"; role = user; plan_key = "pro" }

abbrev export_policy : ToolPolicy
export_policy = record {
  tool = "export_link_csv_data";
  risk = read;
  required_feature = some "analytics_export";
}

abbrev after : World
after = (has_feature "ann" "analytics_export" world).1
