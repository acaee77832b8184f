-- ===== src/Tests/Runs.antt =====
-- A whole run of the engine.
-- the worker's output, with one candidate
use noble_cascade.Approvals.{ensure, ensure_found, ensure_token, is_valid_for, scope_digest}
use noble_cascade.Audit.{emit, event_of}
use noble_cascade.Authorization.{
  capabilities_of, check, check_given, check_grant, has_low_code, is_identity, is_identity_code,
  is_subset, permits, role_capabilities,
}
use noble_cascade.Engine.{
  Run, Setting, accepts, approval_gate, ask_and_raise, audit_as, authorization_gate, begin,
  blocking_classes, chain_of, collect, complete_stage, context_of, context_stage, decided_stage,
  ensure_or_ask, enter, execute_stage, final_outcome, finally_stage, find_outcome, fixture_refused,
  gather, guarded, handle, identity_refusal, is_closed, is_instance_of_any, is_internal,
  is_persistence, issues_of, last_event, lease_stage, ledger_stage, note, obs, observation_stage,
  outcome_for_error, outcome_table, output_stage, persist_or_fail, persist_stage,
  precondition_refusal, record_evidence, release_stage, report_fields, report_stage, reserve_id,
  result_of, risk_gate, run_body, run_gates, run_request, run_tool, scope_gate, scope_refusal,
  select_stage, shape_refusal, snapshot_stage, stamp_stage, state_for_error, store_stage,
  take_lease, target_stage, tool_run_of, validate_gate, wants_approval, worker_stage, write_ledger,
}
use noble_cascade.Engine.Closing.{Unreleased}
use noble_cascade.Engine.Whole.{
  Answered, Ends, run_request-Ends, run_request_entitled, run_request_records, run_request_releases,
  the_run,
}
use noble_cascade.Errors.{
  Result, base, class_name, code_of, code_value, err, is_instance, make, mro, ok, py_name,
  retryable_of,
}
use noble_cascade.Execution.{
  binding_refusal, boundary_refusal, judge, launch, payload_of, requested_files, run_command,
  workspace_refusal,
}
use noble_cascade.Kernel.{is_hex, is_request_id}
use noble_cascade.Ledger.{chain_dict}
use noble_cascade.Models.{
  ExecutionResult, Json, active_at, approval_value, array, bool, completed, cons, covers, end,
  evidence_status_value, field, fields_at, finding_state_value, flag_at, get_field, get_key,
  is_object, is_true, items_at, merge, nil, null, number_at, object, outcome_value, rank,
  requires_approval, scope_decision_value, set_field, state_value, str, target_kind_value, text_at,
  text_items, texts_of, tier_value, truthy,
}
use noble_cascade.Outputs.{
  Sources, add_test, build_evidence, fixture_count_refusal, fixture_is_exact, fixture_refusal,
  has_line, name_refusal, names_text, observation_of, observation_refusal, observations_of,
  observations_refusal, output_of, output_refusal, outside, place_refusal, provenance_refusal,
  reproduction_at, reproduction_text, same_reproduction, scan_refusal, source_evidence,
  source_provenance, source_refusal, source_text, test_evidence, test_provenance, validate,
  validate_document, verify_fixture,
}
use noble_cascade.Prelude.{
  Bool, Has, [], all, any, arith, concat, contains, count_code, decimal, ends_with, false,
  get_elem?, has_part, inl, inr, insert_text, keep, length, lower, lstrip, none, refl, rstrip,
  same_codes, some, sort_texts, split_on, starts_with, text_le, true, ◌∷◌, ◌≡◌, ◌⊎◌,
}
use noble_cascade.Reasoning.{
  confidence_of, evaluate_observation, evidence_refusal, false_positive_of, finding_of,
  finding_provenance_of, is_foreign, reproduced, reproduction_of, safe_text, severity_of,
  source_checked, source_of,
}
use noble_cascade.Registry.{
  find_tool, fixture_sql_verify, get_tool, has_kind, static_code_scan, tools, validate_selection,
}
use noble_cascade.Risk.{
  assess, base_score, critical_actions, high_actions, is_exposed, low_actions, medium_actions,
  raise_to_floor, raw_score, tier_of, wants_network, wants_write,
}
use noble_cascade.Scope.{
  evaluate, evaluate_at, evaluate_kind, evaluate_path, forbidden_match, in_window, scope_of,
  snapshot, within,
}
use noble_cascade.Signing.{
  analysis_dict, confidence_dict, digest_json, evidence_payload, finding_payload, hash_evidence,
  hash_finding, hash_report, provenance_dict, severity_dict,
}
use noble_cascade.StateMachine.{
  allowed_transitions, can_transition, has_state, is_terminal, terminal_states, validate_transition,
}
use noble_cascade.Store.{
  LeaseRow, acquire_lease, append_audit, delete_rows, find_row, get_approval, get_grant, get_result,
  insert_row, is_local_call, is_principal_call, is_taken, last_hash, live_leases, over_limit,
  put_evidence, put_finding, put_ledger, put_observability, put_result, put_worker, recent_calls,
  release_lease, replace_row, reserve_request,
}
use noble_cascade.Tests.Control.{well_formed}
use noble_cascade.Tests.Data.{with_agreed, workspace}
use noble_cascade.Tests.Gates.{all_there, setting}
use noble_cascade.Trust.{is_control, prefix, quarantine, redact_sensitive, strip_controls}
use noble_cascade.Workers.{
  create_worker, find_worker, lifecycle_value, persist, set_worker, text_fields, worker_dict,
}
use noble_cascade.World.{World, moment_of, new_id, utcnow}

abbrev one_candidate : Json
one_candidate = object (
    field "request_id" (str well_formed.request_id) (
      field "target" (str "/work/src") (
        field "tool" (str "static-code-scan") (
          field "version" (str "1.0.0") (
            field "observations"
              (array (
                cons
                  (object (
                    field "title" (str "Interpolated SQL") (
                      field "category" (str "sql-injection") (
                        field "cwe" (str "CWE-89") (
                          field "file" (str "src/app.py") (
                            field "line" (Json.int 2) (
                              field "snippet" (str "db.execute(f'{x}')") (
                                field "description" (str "a query") (
                                  field "impact" (str "unknown") (
                                    field "remediation" (str "bind it") (
                                      field "verified" (bool false)
                                        (field "reproduction" null end))))))))))))
                  nil))
              (field "complete" (bool true) (
                field "warnings" (array nil) (
                  field "provenance" (object (field "scanner" (str "local-ast-sql-v1") end))
                    end))))))))

abbrev pub one_file : Sources
one_file = record {
  loads = λ s. some one_candidate;
  resolve = λ p. p;
  resolve_under = λ r p. concat r (concat "/" p);
  commonpath = λ a b. some a;
  is_file = λ p. false;
  size = λ p. some 40;
  lines = λ p. some ("import db" ∷ "db.execute(f'{x}')" ∷ []);
  sql_calls = λ ls. some (2 ∷ []);
  format_calls = λ ls. [];
  unsafe_rows = 2;
  parameterized_rows = 0;
  files = all_there;
}

abbrev pub scanning : Setting
scanning = record setting { sources = one_file }

-- a lease of another request
abbrev other_lease : LeaseRow
other_lease = record {
  lease_id = "lease-of-bob";
  principal = "bob";
  tool = "static-code-scan";
  target = "/work/docs";
  expires_at = 100000;
}

abbrev busy : World
busy = record with_agreed {
  store = record (with_agreed.store) { active_leases = other_lease ∷ [] };
}

abbrev scanned : Result ExecutionResult × Run
scanned = the_run scanning well_formed (ok workspace) [] busy

-- the same run, where the database refuses to delete its lease
abbrev stuck : Setting
stuck = record scanning { release_fails = λ lease_id. true }

abbrev stuck_run : Result ExecutionResult × Run
stuck_run = the_run stuck well_formed (ok workspace) [] busy

abbrev own_lease : LeaseRow
own_lease = elim (get_elem? stuck_run.1.world.store.active_leases 1) [
  | none ↦ other_lease
  | some l ↦ l
]

answer_in : Result ExecutionResult → ExecutionResult → ExecutionResult
answer_in (ok result) other = result
answer_in (err e) other = other

returns : Result ExecutionResult → Bool
returns (ok result) = true
returns (err e) = false

returned :
    (x : Result ExecutionResult) (other : ExecutionResult)
    → returns x ≡ true
    → x ≡ ok (answer_in x other)
unfolding returns answer_in
returned (ok result) other h = refl
returned (err e) other h = absurd (ground (arith, h))

answer : ExecutionResult
answer = answer_in scanned.0 (result_of scanning well_formed scanned.1)

scan_completes :
    (scanned.1.state ≡ completed)
    × (returns scanned.0 ≡ true)
    × (scanned.1.request_reserved ≡ true)
    × (length scanned.1.world.store.active_leases ≡ 1)
    × Has own_lease stuck_run.1.world.store.active_leases
    × (stuck_run.1.lease_id ≡ some own_lease.lease_id)
    × (stuck_run.1.error ≡ some "lease_cleanup_failed")
unfolding accepts acquire_lease active_at add_test allowed_transitions analysis_dict append_audit
    approval_gate approval_value ask_and_raise assess audit_as authorization_gate base base_score
    binding_refusal blocking_classes boundary_refusal build_evidence can_transition capabilities_of
    chain_dict chain_of check check_given check_grant class_name code_of code_value collect
    complete_stage confidence_dict confidence_of contains context_of context_stage count_code covers
    create_worker critical_actions decided_stage decimal digest_json emit ends_with ensure
    ensure_found ensure_or_ask ensure_token enter evaluate evaluate_at evaluate_kind
    evaluate_observation evaluate_path event_of evidence_payload evidence_refusal
    evidence_status_value execute_stage false_positive_of fields_at final_outcome finally_stage
    find_outcome find_tool finding_of finding_payload finding_provenance_of finding_state_value
    fixture_count_refusal fixture_is_exact fixture_refusal verify_fixture fixture_refused
    fixture_sql_verify flag_at forbidden_match gather get_approval get_field get_grant get_key
    get_tool guarded handle has_kind has_line has_low_code has_part has_state hash_evidence
    hash_finding hash_report high_actions identity_refusal in_window insert_text is_closed
    is_control is_exposed is_foreign is_hex is_identity is_identity_code is_instance
    is_instance_of_any is_internal is_local_call is_object is_persistence is_principal_call
    is_request_id is_subset is_taken is_terminal is_true is_valid_for issues_of items_at judge
    last_event last_hash launch lease_stage ledger_stage lifecycle_value live_leases low_actions
    lower lstrip make medium_actions merge moment_of mro name_refusal names_text new_id note
    number_at obs observation_of observation_refusal observation_stage observations_of
    observations_refusal outcome_for_error outcome_table outcome_value output_of output_refusal
    output_stage outside over_limit payload_of permits persist persist_or_fail persist_stage
    place_refusal precondition_refusal prefix provenance_dict provenance_refusal put_evidence
    put_finding put_ledger put_observability put_result put_worker py_name quarantine raise_to_floor
    rank raw_score recent_calls record_evidence redact_sensitive release_lease release_stage
    report_fields report_stage reproduced reproduction_at reproduction_of reproduction_text
    requested_files requires_approval reserve_id reserve_request result_of retryable_of risk_gate
    role_capabilities rstrip run_body run_command run_gates run_request run_tool safe_text
    same_codes same_reproduction scan_refusal scope_decision_value scope_digest scope_gate scope_of
    scope_refusal select_stage set_field set_worker severity_dict severity_of shape_refusal snapshot
    snapshot_stage sort_texts source_checked source_evidence source_of source_provenance
    source_refusal source_text split_on stamp_stage starts_with state_for_error state_value
    static_code_scan store_stage strip_controls take_lease target_kind_value target_stage
    terminal_states test_evidence test_provenance text_at text_fields text_items text_le texts_of
    tier_of tier_value tool_run_of tools truthy utcnow validate validate_document validate_gate
    validate_selection validate_transition wants_approval wants_network wants_write within
    worker_dict worker_stage workspace_refusal write_ledger begin returns insert_row find_row
    delete_rows replace_row keep all any find_worker
scan_completes = (refl, refl, refl, refl, inr (inl refl), refl, refl)

scan_returns : scanned.0 ≡ ok answer
unfolding answer
scan_returns = returned scanned.0 (result_of scanning well_formed scanned.1) scan_completes.1

run_request_releases_example :
    Has own_lease busy.store.active_leases ⊎ Unreleased stuck own_lease stuck_run.1
run_request_releases_example =
    run_request_releases stuck well_formed (ok workspace) [] busy own_lease scan_completes.4

run_request_records_example :
    (get_result well_formed.request_id scanned.1.world.store ≡ some answer)
    ⊎ (answer.error ≡ some "audit_failure")
run_request_records_example =
    run_request_records scanning well_formed (ok workspace) [] busy answer scan_returns
      scan_completes.2

run_request-Ends_example : Ends scanning well_formed (ok workspace) [] busy scanned
run_request-Ends_example = run_request-Ends scanning well_formed (ok workspace) [] busy

run_request_entitled_example : Answered scanning well_formed (ok workspace) [] busy scanned.1
run_request_entitled_example = run_request_entitled scanning well_formed (ok workspace) [] busy
