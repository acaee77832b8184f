-- ===== src/Tests/Control.antt =====
-- Concrete runs of the configuration, the registry, the kernel, the simulation and the engine.
use noble_cascade.Authorization.{is_identity, is_identity_code}
use noble_cascade.Config.{
  RuntimeConfig, equals_one, equals_text, exceeds_ceilings, is_false, join_path, limit_keys,
  limits_from, limits_of, load, load_limits, load_mapping, positive_int, positive_ints,
}
use noble_cascade.Config.Ceilings.{WithinCeilings, load-WithinCeilings}
use noble_cascade.Engine.{outcome_for_error, state_for_error}
use noble_cascade.Engine.Failures.{errors_end_runs}
use noble_cascade.Errors.{NobleError, Result, make, ok, rate_limited}
use noble_cascade.Kernel.{KernelDecision, is_hex, is_request_id, validate_request}
use noble_cascade.Kernel.Requests.{WellFormed, validate_request-WellFormed}
use noble_cascade.Models.{
  Json, RiskAssessment, SecurityRequest, TargetKind, approved, bool, completed, end, field,
  get_field, get_key, inconclusive, is_object, is_true, object, rank, scope_decision_value,
  state_value, str, success_no_findings, success_with_findings, target_kind_value, tier_value,
}
use noble_cascade.Prelude.{
  [], all, any, contains, ends_with, false, none, refl, some, starts_with, true, ◌∷◌, ◌≡◌, ◌≢◌,
}
use noble_cascade.Registry.{
  find_tool, get_tool, has_kind, static_code_scan, tools, validate_selection,
}
use noble_cascade.Registry.Selection.{Harmless, validate_selection-Harmless}
use noble_cascade.Risk.{
  assess, base_score, critical_actions, is_exposed, low_actions, raw_score, tier_of, wants_network,
  wants_write,
}
use noble_cascade.Scope.{
  Lookups, ScopeEngine, evaluate, evaluate_at, evaluate_kind, evaluate_path, forbidden_match,
  in_window, within,
}
use noble_cascade.Scope.Listed.{InScope, Listed}
use noble_cascade.Simulate.{SimulationResult, simulate, simulated_request, tool_verdict, verdict}
use noble_cascade.Simulate.Verdict.{ToolPasses, simulate_sound}
use noble_cascade.StateMachine.{has_state, is_terminal, terminal_states, transition}
use noble_cascade.Tests.Data.{clean_slate, os, scan, workspace}
use noble_cascade.World.{World, moment_of, new_id, utcnow}

abbrev pub same_paths : Lookups
same_paths = record {
  realpath = λ s. s;
  commonpath = λ a b. some a;
  ip_address = λ s. none;
  ip_network = λ s. none;
}

abbrev config_file : Json
config_file = object (
    field "version" (Json.int 1) (
      field "network_enabled" (bool false) (
        field "state_directory" (str ".noble") (
          field "limits"
            (object (
              field "max_output_bytes" (Json.int 1000) (
                field "max_input_bytes" (Json.int 1000) (
                  field "max_file_bytes" (Json.int 1000) (
                    field "max_files" (Json.int 100) (
                      field "max_observations" (Json.int 50) (
                        field "timeout_seconds" (Json.int 20) (
                          field "cpu_seconds" (Json.int 10) (
                            field "memory_mb" (Json.int 256) (
                              field "global_concurrency" (Json.int 2)
                                (field "rate_per_minute" (Json.int 30) end)))))))))))
            end))))

abbrev pub config : RuntimeConfig
config = record {
  workspace_root = "/work";
  state_directory = "/work/.noble";
  network_enabled = false;
  limits = record {
    max_output_bytes = 1000;
    max_input_bytes = 1000;
    max_file_bytes = 1000;
    max_files = 100;
    max_observations = 50;
    timeout_seconds = 20;
    cpu_seconds = 10;
    memory_mb = 256;
    global_concurrency = 2;
    rate_per_minute = 30;
  };
}

load-WithinCeilings_example : WithinCeilings config.limits × (config.network_enabled ≡ false)
unfolding load load_mapping load_limits limits_of limits_from positive_ints positive_int limit_keys
    exceeds_ceilings equals_one is_false equals_text join_path get_key get_field is_object ends_with
    starts_with
load-WithinCeilings_example = load-WithinCeilings same_paths "/work" config_file config refl

validate_selection-Harmless_example :
    Harmless (static_code_scan config)
    × ((static_code_scan config).name ≡ "static-code-scan")
    × ((static_code_scan config).action ≡ "static-analysis")
    × (has_kind (static_code_scan config).allowed_target_kinds TargetKind.path ≡ true)
unfolding validate_selection get_tool find_tool tools has_kind target_kind_value static_code_scan
validate_selection-Harmless_example =
    validate_selection-Harmless config "static-code-scan" "static-analysis" TargetKind.path
      (static_code_scan config) refl

abbrev pub well_formed : SecurityRequest
well_formed = record scan { request_id = "req-0123456789abcdef0123456789abcdef" }

abbrev accepted : KernelDecision
accepted = record {
  subsystem = "REQUEST";
  decision = "VALID";
  allowed = true;
  reason = "request structure and principal validated";
  policy = "kernel/request-validation";
  rule = "request.schema.principal_binding";
  details = ("request_id", "req-0123456789abcdef0123456789abcdef") ∷ [];
}

validate_request-WellFormed_example : WellFormed "alice" well_formed × (accepted.allowed ≡ true)
unfolding validate_request is_request_id is_identity is_identity_code is_object is_hex starts_with
    all
validate_request-WellFormed_example = validate_request-WellFormed "alice" well_formed accepted refl

abbrev pub local_policy : ScopeEngine
local_policy = record {
  name = "local";
  allowed_domains = [];
  allowed_repositories = [];
  allowed_ip_ranges = [];
  allowed_endpoints = [];
  allowed_actions = "static-analysis" ∷ [];
  forbidden_targets = [];
  forbidden_actions = [];
  valid_from = none;
  valid_until = none;
  allowed_roots = "/work/src" ∷ [];
}

abbrev simulated : Result SimulationResult × World
simulated =
    simulate os same_paths local_policy config workspace "./src" "static-analysis"
      (some "static-code-scan") clean_slate

abbrev answer : SimulationResult
answer = record {
  target = "/work/src";
  action = "static-analysis";
  tool = "static-code-scan";
  scope_decision = "ALLOW";
  scope_rule = "directory";
  scope_reason = "path is under root";
  risk_tier = "LOW";
  risk_score = 10;
  approval_required = false;
  execution = "ALLOWED";
  execution_reason = "All preconditions satisfied (would proceed to authorization check)";
  policy = "local";
}

simulate_sound_example :
    (simulated.1.store ≡ clean_slate.store)
    × (answer.execution ≡ "ALLOWED"
        → InScope local_policy workspace "static-analysis" 1000
          × Listed same_paths local_policy workspace TargetKind.path
          × (risk : RiskAssessment) × ("LOW" ≡ tier_value risk.tier)
          × ToolPasses config risk workspace "static-analysis" (some "static-code-scan"))
unfolding simulate evaluate moment_of utcnow new_id evaluate_at in_window contains any
    forbidden_match evaluate_kind evaluate_path within assess raw_score base_score is_exposed
    wants_network wants_write low_actions critical_actions tier_of is_true get_key get_field verdict
    tool_verdict get_tool find_tool tools has_kind target_kind_value static_code_scan rank
    tier_value scope_decision_value simulated_request
simulate_sound_example =
    simulate_sound os same_paths local_policy config workspace "./src" "static-analysis"
      (some "static-code-scan") clean_slate simulated.1 {r = answer} refl

abbrev too_fast : NobleError
too_fast = make rate_limited "rate or concurrency limit exceeded" []

errors_end_runs_example :
    (transition approved (state_for_error too_fast) ≡ ok (state_for_error too_fast))
    × (is_terminal (state_for_error too_fast) ≡ true)
    × (state_for_error too_fast ≢ completed)
    × (outcome_for_error too_fast ≢ success_with_findings)
    × (outcome_for_error too_fast ≢ success_no_findings)
    × (outcome_for_error too_fast ≢ inconclusive)
unfolding is_terminal has_state terminal_states state_value
errors_end_runs_example = errors_end_runs too_fast approved refl
