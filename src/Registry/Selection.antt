-- ===== src/Registry/Selection.antt =====
-- What a selected tool can be.
use mathlib.Core.Path.{subst}
use noble_cascade.Config.{RuntimeConfig}
use noble_cascade.Errors.{Result-cases, ok}
use noble_cascade.Models.{TargetKind, ToolDefinition, process_local, rank, read_local}
use noble_cascade.Prelude.{
  Bool-cases, String, [], ap, arith, eq_iff, false, inl, inr, refl, true, ◌==◌, ◌∙◌, ◌≡◌, ◌≤◌,
}
use noble_cascade.Registry.{
  find_tool, fixture_sql_verify, get_tool, has_kind, static_code_scan, tools, validate_selection,
}

-- A tool that the local process boundary is enough for.
pub record Harmless (tool : ToolDefinition) : Type 0 where
  pub network_required : tool.network_required ≡ false
  pub network_destinations : tool.network_destinations ≡ []
  pub sandbox : tool.sandbox ≡ process_local
  pub side_effects : tool.side_effects ≡ read_local
  pub risk_tier : rank tool.risk_tier ≤ 1
  pub rate_limit_per_minute : tool.rate_limit_per_minute ≤ 10

static_code_scan-Harmless : (config : RuntimeConfig) → Harmless (static_code_scan config)
unfolding static_code_scan rank
static_code_scan-Harmless config = record {
  network_required = refl;
  network_destinations = refl;
  sandbox = refl;
  side_effects = refl;
  risk_tier = omega arith;
  rate_limit_per_minute = omega arith;
}

fixture_sql_verify-Harmless : (config : RuntimeConfig) → Harmless (fixture_sql_verify config)
unfolding fixture_sql_verify static_code_scan rank
fixture_sql_verify-Harmless config = record {
  network_required = refl;
  network_destinations = refl;
  sandbox = refl;
  side_effects = refl;
  risk_tier = omega arith;
  rate_limit_per_minute = omega arith;
}

get_tool-Harmless :
    (config : RuntimeConfig) (name : String) (tool : ToolDefinition)
    → get_tool config name ≡ ok tool
    → Harmless tool × (tool.name ≡ name)
unfolding get_tool find_tool tools
get_tool-Harmless config name tool h =
    let one = static_code_scan config in
    let two = fixture_sql_verify config in
    elim (Bool-cases (one.name == name)) [
      | inl first ↦
          let same : one ≡ tool = ground arith in
          (
            subst Harmless same (static_code_scan-Harmless config),
            subst (λ (t : ToolDefinition). t.name ≡ name) same ((eq_iff one.name name).0 first),
          )
      | inr other ↦ elim (Bool-cases (two.name == name)) [
        | inr neither ↦ absurd (ground arith)
        | inl later ↦
            let same : two ≡ tool = ground arith in
            (
              subst Harmless same (fixture_sql_verify-Harmless config),
              subst (λ (t : ToolDefinition). t.name ≡ name) same ((eq_iff two.name name).0 later),
            )
      ]
    ]

-- A selected tool is registered under the name, implements the action, supports the kind of the
-- target, and is harmless: offline, read-only, in the process boundary, of tier LOW or MEDIUM, and
-- limited to ten calls a minute.
pub validate_selection-Harmless :
    (config : RuntimeConfig) (name action : String) (kind : TargetKind) (tool : ToolDefinition)
    → validate_selection config name action kind ≡ ok tool
    → Harmless tool
      × (tool.name ≡ name)
      × (tool.action ≡ action)
      × (has_kind tool.allowed_target_kinds kind ≡ true)
unfolding validate_selection
validate_selection-Harmless config name action kind tool h =
    elim (Result-cases (get_tool config name)) [
      | inr (e, bad) ↦ absurd (ground arith)
      | inl (found, good) ↦
          let same : found ≡ tool = ground arith in
          let (harmless, named) = get_tool-Harmless config name tool (good ∙ ap ok same) in
          (harmless, named, (eq_iff tool.action action).0 (ground arith), ground arith)
    ]
