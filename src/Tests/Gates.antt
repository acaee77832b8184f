-- ===== src/Tests/Gates.antt =====
-- A run of the engine's gates.
use noble_cascade.Approvals.{
  ensure, ensure_found, ensure_token, is_approver, is_valid_for, scope_digest,
}
use noble_cascade.Audit.{emit, event_of}
use noble_cascade.Authorization.{
  capabilities_of, check, check_given, check_grant, is_identity, is_identity_code, is_subset,
  permits, role_capabilities,
}
use noble_cascade.Engine.{
  Cleared, Run, Setting, accepts, approval_gate, authorization_gate, begin, decided_stage,
  ensure_or_ask, enter, identity_refusal, note, obs, reserve_id, risk_gate, run_gates, scope_gate,
  scope_refusal, shape_refusal, snapshot_stage, target_stage, validate_gate,
}
use noble_cascade.Engine.Frame.{Frame}
use noble_cascade.Engine.Safety.{Entitled, run_gates_sound}
use noble_cascade.Errors.{Result, ok}
use noble_cascade.Execution.{Host}
use noble_cascade.Kernel.{is_hex, is_request_id}
use noble_cascade.Models.{
  Json, SecurityRequest, active_at, allowed, approval_value, array, bool, end, field, get_field,
  get_key, is_object, is_true, nil, object, rank, requires_approval, same_approval_state,
  scope_decision_value, state_value, str, tier_value,
}
use noble_cascade.Outputs.{Files, Sources}
use noble_cascade.Platform.{fingerprint}
use noble_cascade.Prelude.{
  [], all, any, concat, contains, false, keep, none, refl, some, starts_with, true, ◌∷◌, ◌≡◌,
}
use noble_cascade.Registry.{find_tool, get_tool, static_code_scan, tools}
use noble_cascade.Risk.{
  assess, base_score, critical_actions, high_actions, is_exposed, low_actions, medium_actions,
  raise_to_floor, raw_score, tier_of, wants_network, wants_write,
}
use noble_cascade.Scope.{
  evaluate, evaluate_at, evaluate_kind, evaluate_path, forbidden_match, in_window, scope_of,
  snapshot, within,
}
use noble_cascade.StateMachine.{
  allowed_transitions, can_transition, has_state, is_terminal, terminal_states, validate_transition,
}
use noble_cascade.Store.{
  append_audit, delete_rows, find_row, get_approval, get_grant, insert_row, is_taken,
  put_observability, replace_row, reserve_request,
}
use noble_cascade.Tests.Control.{config, local_policy, same_paths, well_formed}
use noble_cascade.Tests.Data.{agreed, operator_grant, os, workspace, world_with}
use noble_cascade.Trust.{redact_sensitive}
use noble_cascade.World.{World, moment_of, new_id, utcnow}

abbrev pub all_there : Files
all_there = record { exists = λ p. true; resolve_strict = λ p. some p; digest = λ p. some "other" }

abbrev pub worker_host : Host
worker_host = record {
  worker_present = true;
  samefile = λ a b. some true;
  payload_size = λ p. 100;
  spawn = λ p. some (record {
    took_input = true;
    killed = true;
    timed_out = false;
    truncated = false;
    exited_0 = true;
    out = some "{}";
    errors = some "";
    duration_seconds = "0.1";
  });
}

-- a worker that found nothing
abbrev no_findings : Json
no_findings = object (
    field "request_id" (str well_formed.request_id) (
      field "target" (str "/work/src") (
        field "tool" (str "static-code-scan") (
          field "version" (str "1.0.0") (
            field "observations" (array nil) (
              field "complete" (bool true) (
                field "warnings" (array nil) (
                  field "provenance" (object (field "scanner" (str "local-ast-sql-v1") end))
                    end))))))))

abbrev no_sources : Sources
no_sources = record {
  loads = λ s. some no_findings;
  resolve = λ p. p;
  resolve_under = λ r p. concat r (concat "/" p);
  commonpath = λ a b. some a;
  is_file = λ p. false;
  size = λ p. none;
  lines = λ p. none;
  sql_calls = λ ls. none;
  format_calls = λ ls. [];
  unsafe_rows = 2;
  parameterized_rows = 0;
  files = all_there;
}

abbrev pub setting : Setting
setting = record {
  os = os;
  io = same_paths;
  scope = local_policy;
  config = config;
  actor_identity = "alice";
  conforms = λ schema value. true;
  host = worker_host;
  sources = no_sources;
  release_fails = λ lease_id. false;
  fingerprint = record {
    policy_version = "1";
    policy_hash = "p";
    configuration_hash = "c";
    worker_image_digest = "w";
  };
  computed_digest = "d";
  runtime_version = "3.12";
}

-- what the gates hand on for the scan
abbrev pub cleared : Cleared
cleared = record {
  definition = static_code_scan config;
  target = workspace;
  scoped = scope_of local_policy workspace "static-analysis";
  auth = record {
    grant_id = "grant-1";
    principal = "alice";
    role = "operator";
    capability = "scan";
    checked_at = 1013;
  };
  risk = assess well_formed workspace;
  approval = none;
}

-- a HIGH request, the policy and the grant that allow it, and an approval that is stored
abbrev pub probing : SecurityRequest
probing = record well_formed { action = "poc-execution"; approval_token = some "approval-1" }

abbrev pub probe_setting : Setting
probe_setting = record setting {
  scope = record local_policy { allowed_actions = "poc-execution" ∷ [] };
}

abbrev pub approved_world : World
approved_world = world_with (record operator_grant { action = "poc-execution" } ∷ []) (agreed ∷ [])

abbrev pub started : Run
started = begin probe_setting probing [] approved_world

abbrev gates_run : Result Cleared × Run
gates_run = run_gates probe_setting probing (ok workspace) started

abbrev probe_cleared : Cleared
probe_cleared = record {
  definition = static_code_scan config;
  target = workspace;
  scoped = scope_of (probe_setting.scope) workspace "poc-execution";
  auth = record {
    grant_id = "grant-1";
    principal = "alice";
    role = "operator";
    capability = "scan";
    checked_at = 1013;
  };
  risk = assess probing workspace;
  approval = some agreed;
}

it_passes : gates_run ≡ (ok probe_cleared, gates_run.1)
unfolding run_gates validate_gate scope_gate authorization_gate risk_gate approval_gate target_stage
    decided_stage snapshot_stage enter note obs ensure_or_ask identity_refusal shape_refusal
    reserve_id reserve_request is_taken get_tool find_tool tools static_code_scan accepts
    is_request_id is_identity is_identity_code is_hex is_object all starts_with validate_transition
    is_terminal can_transition has_state allowed_transitions terminal_states state_value
    put_observability replace_row delete_rows keep emit append_audit insert_row find_row new_id
    utcnow event_of evaluate snapshot evaluate_at in_window contains any forbidden_match
    evaluate_kind evaluate_path within allowed scope_refusal scope_decision_value scope_of moment_of
    redact_sensitive check check_given check_grant permits active_at is_subset capabilities_of
    role_capabilities get_grant assess raw_score base_score is_exposed wants_network wants_write
    low_actions critical_actions tier_of is_true get_key get_field raise_to_floor rank ensure
    requires_approval tier_value begin ensure_token ensure_found is_valid_for scope_digest
    get_approval high_actions medium_actions approval_value same_approval_state is_approver
    fingerprint
it_passes = refl

run_gates_sound_example :
    Frame started gates_run.1
    × (ok workspace ≡ ok workspace)
    × Entitled probe_setting probing started gates_run.1 probe_cleared
unfolding begin
run_gates_sound_example =
    run_gates_sound probe_setting probing (ok workspace) started gates_run.1 {c = probe_cleared}
      it_passes
