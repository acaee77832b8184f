-- ===== src/Registry.antt =====
-- noble/registry.py: the allowlist of tools. A tool's timeout is in microseconds.
mod Schemas
pub mod Selection
use noble_cascade.Authorization.{second}
use noble_cascade.Config.{RuntimeConfig}
use noble_cascade.Errors.{Result, err, fault, invalid_input, ok, tool_unknown}
use noble_cascade.Models.{
  TargetKind, ToolDefinition, full_implementation, low, medium, process_local, read_local,
  requires_approval, target_kind_value,
}
use noble_cascade.Prelude.{
  Bool, List, Option, String, [], false, if◌then◌else◌, min, none, not, some, ◌*◌, ◌==◌, ◌||◌, ◌∷◌,
}
use noble_cascade.Registry.Schemas.{input_schema_value, output_schema_value}

unfoldable pub static_code_scan : RuntimeConfig → ToolDefinition
static_code_scan config = record {
  name = "static-code-scan";
  version = "1.0.0";
  description = "Offline bounded Python AST inspection (SQL execute candidates only)";
  action = "static-analysis";
  risk_tier = low;
  input_schema = input_schema_value;
  output_schema = output_schema_value;
  required_permissions = "scan" ∷ [];
  requires_approval = false;
  allowed_target_kinds = TargetKind.path ∷ TargetKind.local_workspace ∷ [];
  network_required = false;
  network_destinations = [];
  sandbox = process_local;
  timeout_seconds = config.limits.timeout_seconds * second;
  rate_limit_per_minute = min 10 config.limits.rate_per_minute;
  side_effects = read_local;
  evidence_behavior = "bounded source snippet + provenance, no unrestricted stdout";
  status = full_implementation;
}

unfoldable pub fixture_sql_verify : RuntimeConfig → ToolDefinition
unfolding static_code_scan
fixture_sql_verify config = record (static_code_scan config) {
  name = "fixture-sql-verify";
  description = "Controlled reproduction for the unmodified synthetic SQL fixture only";
  action = "local-unit-test-verification";
  risk_tier = medium;
  required_permissions = "verify" ∷ [];
}

-- the values of `_tools`, in the order of insertion
unfoldable pub tools : RuntimeConfig → List ToolDefinition
tools config = static_code_scan config ∷ fixture_sql_verify config ∷ []

unfoldable pub find_tool : String → List ToolDefinition → Option ToolDefinition
find_tool name [] = none
find_tool name (tool ∷ rest) = if tool.name == name then some tool else find_tool name rest

-- ToolRegistry.get
unfoldable pub get_tool : RuntimeConfig → String → Result ToolDefinition
unfolding find_tool tools
get_tool config name = elim (find_tool name (tools config)) [
  | none ↦ err (fault tool_unknown "tool is not registered")
  | some tool ↦ ok tool
]

-- ToolRegistry.list: the two names in their order as texts
unfoldable pub list_tools : RuntimeConfig → List ToolDefinition
list_tools config = fixture_sql_verify config ∷ static_code_scan config ∷ []

-- kind in kinds
unfoldable pub has_kind : List TargetKind → TargetKind → Bool
unfolding target_kind_value
has_kind [] kind = false
has_kind (k ∷ ks) kind = target_kind_value k == target_kind_value kind || has_kind ks kind

-- ToolRegistry.validate_selection
unfoldable pub validate_selection :
    RuntimeConfig → String → String → TargetKind → Result ToolDefinition
validate_selection config name action target_kind = elim (get_tool config name) [
  | err e ↦ err e
  | ok tool ↦
      if not (tool.action == action)
      then err (fault invalid_input "selected tool does not implement the requested action")
      else if not (has_kind tool.allowed_target_kinds target_kind)
      then err (fault invalid_input "selected tool does not support this target type")
      else ok tool
]
