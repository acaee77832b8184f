-- ===== src/Tests/Findings.antt =====
-- Runs of the output validator, of the reasoning, of the ledger and of the worker registry.
use noble_cascade.Engine.{context_of}
use noble_cascade.Errors.{Result, builtin, err, ok, runtime_error}
use noble_cascade.Execution.{
  CommandResult, ExecutionContext, ToolInvocation, binding_refusal, boundary_refusal, judge, launch,
  payload_of, requested_files, run_command, workspace_refusal,
}
use noble_cascade.Execution.Launched.{Launched, run_command_sound}
use noble_cascade.Ledger.{LedgerChain, chain_dict, chain_of_dict}
use noble_cascade.Ledger.Corruption.{Found, detect_corruption_lem, verify_checkpoint_lem}
use noble_cascade.Ledger.Integrity.{
  compute_ledger_checkpoint, detect_corruption, first_broken, verify_checkpoint, write_checkpoint,
}
use noble_cascade.Ledger.Trip.{chain_of_dict-chain_dict}
use noble_cascade.Models.{
  Evidence, Finding, ToolDefinition, covers, end, field, fields_at, flag_at, get_field, get_key,
  is_true, items_at, merge, number_at, set_field, str, text_at, texts_of,
}
use noble_cascade.Outputs.{
  Gathering, Observation, ValidatedToolOutput, add_test, build_evidence, fixture_count_refusal,
  has_line, name_refusal, names_text, observation_of, observation_refusal, observations_of,
  observations_refusal, output_of, output_refusal, outside, place_refusal, provenance_refusal,
  reproduction_at, scan_refusal, source_evidence, source_refusal, test_evidence, test_provenance,
  validate, validate_document,
}
use noble_cascade.Outputs.Passed.{Passed, validate_sound}
use noble_cascade.Platform.{Platform}
use noble_cascade.Prelude.{
  List, [], any, ap, arith, concat, decimal, false, has_part, inl, len, length, none, refl,
  same_codes, some, split_on, starts_with, suc, true, zero, ℕ, ◌↔◌, ◌∙◌, ◌∷◌, ◌≡◌, ◌≤◌,
}
use noble_cascade.Reasoning.{
  Assessed, evaluate_observation, evidence_refusal, finding_of, is_foreign, reproduced,
  source_checked, source_of,
}
use noble_cascade.Reasoning.Proof.{
  Grounded, build_evidence-accepted, evaluate_observation_sound, handed_on,
}
use noble_cascade.Registry.{static_code_scan}
use noble_cascade.Risk.{assess}
use noble_cascade.Scope.{scope_of}
use noble_cascade.Store.{AuditRow, Store, find_row, genesis, update_row, verify_audit, verify_from}
use noble_cascade.Tests.Control.{config, well_formed}
use noble_cascade.Tests.Data.{os, tally, with_agreed}
use noble_cascade.Tests.Gates.{cleared, worker_host}
use noble_cascade.Tests.Runs.{one_file, scanning}
use noble_cascade.Trust.{prefix}
use noble_cascade.Workers.{
  Crew, WorkerIdentity, activate, assert_can_execute, find_worker, is_active, retire, retired,
  store_worker,
}
use noble_cascade.Workers.Retired.{
  Withdraws, WorkerCall, after_calls, creates, destroys, never_active_again, retires,
}
use noble_cascade.World.{World, new_id, utcnow}
use text.Mathlib.TextPositions.{len-append}

abbrev scan_tool : ToolDefinition
scan_tool = static_code_scan config

abbrev scan_context : ExecutionContext
scan_context = context_of scanning well_formed cleared scan_tool [] 2000

abbrev candidate_seen : Observation
candidate_seen = record {
  title = "Interpolated SQL";
  category = "sql-injection";
  cwe = "CWE-89";
  file = "src/app.py";
  line = 2;
  snippet = "db.execute(f'{x}')";
  description = "a query";
  impact = "unknown";
  remediation = "bind it";
  verified = false;
  reproduction = none;
}

abbrev scan_result : ValidatedToolOutput
scan_result = record {
  observations = candidate_seen ∷ [];
  complete = true;
  warnings = [];
  provenance = field "scanner" (str "local-ast-sql-v1") end;
}

it_validates :
    validate one_file (λ schema value. true) config.limits scan_tool scan_context "{}"
    ≡ ok scan_result
unfolding validate validate_document output_of output_refusal provenance_refusal
    observations_refusal fixture_count_refusal observation_refusal name_refusal place_refusal
    source_refusal scan_refusal outside has_line names_text observations_of observation_of
    reproduction_at text_at flag_at number_at items_at fields_at texts_of get_key get_field
    context_of static_code_scan starts_with prefix same_codes split_on has_part
it_validates = refl

validate_sound_example : Passed one_file config.limits scan_tool scan_context "{}" scan_result
validate_sound_example =
    validate_sound one_file (λ schema value. true) config.limits scan_tool scan_context "{}"
      scan_result it_validates

abbrev scan_gathering : Gathering
scan_gathering = record {
  context = scan_context;
  definition = scan_tool;
  execution_id = "lease-1";
  tool_provenance = scan_result.provenance;
}

-- a verified observation, with its two records
abbrev verified_seen : Observation
verified_seen = record candidate_seen {
  verified = true;
  reproduction = some (record { unsafe_rows = 2; parameterized_rows = 0; synthetic = true });
}

abbrev gathered : Result (List Evidence) × World
gathered = build_evidence os scan_gathering verified_seen with_agreed

abbrev evidence_in : Result (List Evidence) → List Evidence
evidence_in (ok es) = es
evidence_in (err e) = []

it_builds : gathered ≡ (ok (evidence_in gathered.0), gathered.1)
unfolding build_evidence add_test new_id utcnow
it_builds = refl

build_evidence-accepted_example :
    evidence_refusal os (handed_on scan_gathering verified_seen (evidence_in gathered.0) "grant-1")
    ≡ none
unfolding get_field
build_evidence-accepted_example =
    build_evidence-accepted os scan_gathering verified_seen "grant-1" (evidence_in gathered.0)
      with_agreed gathered.1 refl it_builds

abbrev handed : Assessed
handed = handed_on scan_gathering verified_seen (evidence_in gathered.0) "grant-1"

abbrev assessed_run : Result Finding × World
assessed_run = evaluate_observation os handed with_agreed

it_assesses : assessed_run ≡ (
  ok (finding_of os handed (concat "finding" (concat "-" (os.hex with_agreed.draws))) 1000),
  assessed_run.1,
)
unfolding evaluate_observation evidence_refusal source_checked source_of reproduced is_foreign any
    build_evidence add_test new_id utcnow source_evidence test_evidence test_provenance merge
    set_field get_field is_true context_of
it_assesses = refl

evaluate_observation_sound_example :
    Grounded os handed
      (finding_of os handed (concat "finding" (concat "-" (os.hex with_agreed.draws))) 1000)
evaluate_observation_sound_example =
    evaluate_observation_sound os handed with_agreed assessed_run.1
      (finding_of os handed (concat "finding" (concat "-" (os.hex with_agreed.draws))) 1000)
      it_assesses

abbrev one_name : Platform
one_name = record os { hex = λ n. "a" }

abbrev old_worker : WorkerIdentity
old_worker = record {
  worker_id = "worker-b";
  image_digest = "d";
  runtime_version = "3.12";
  tool_versions = [];
  creation_time = 1;
  destruction_time = none;
  lifecycle = activate;
}

abbrev crew : Crew
crew = record { world = with_agreed; workers = old_worker ∷ [] }

abbrev later_calls : List WorkerCall
later_calls = creates "3.12" "d" [] none ∷ destroys "worker-a" ∷ retires "worker-b" ∷ []

abbrev retirement : Result WorkerIdentity × Crew
retirement = retire one_name "worker-b" crew

it_retires : Withdraws one_name "worker-b" crew retirement.1
unfolding retire find_worker find_row store_worker update_row
it_retires = (record old_worker { lifecycle = retired }, inl refl)

never_active_again_example :
    (is_active "worker-b" (after_calls one_name later_calls retirement.1) ≡ false)
    × (assert_can_execute "worker-b" (after_calls one_name later_calls retirement.1)
        ≡ err (builtin runtime_error))
never_active_again_example =
    never_active_again one_name "worker-b" later_calls crew retirement.1 it_retires λ n le. refl

-- a moment's text has as many letters as the moment has seconds
abbrev dated : Platform
dated = record os { isoformat = tally }

len-tally : (n : ℕ) → len (tally n) ≡ n
len-tally zero = refl
len-tally (suc n) = len-append "a" (tally n) ∙ ground (arith, len-tally n)

abbrev linked : LedgerChain
linked = record {
  request_id = well_formed.request_id;
  execution_id = "lease-1";
  worker_id = "worker-1";
  tool_run_id = "toolrun-1";
  evidence_ids = "ev-1" ∷ "ev-2" ∷ [];
  finding_ids = "finding-1" ∷ [];
  report_id = none;
  audit_event_ids = "audit-1" ∷ [];
  policy_version = "1";
  policy_hash = "p";
  configuration_hash = "c";
  worker_image_digest = "w";
  created_at = 7;
}

chain_of_dict-chain_dict_example :
    chain_of_dict dated (λ s. some (len s)) (chain_dict dated linked) with_agreed
    ≡ (ok linked, with_agreed)
chain_of_dict-chain_dict_example =
    chain_of_dict-chain_dict dated (λ s. some (len s)) linked with_agreed λ t. ap some (len-tally t)

-- an event whose text was changed after it was logged
abbrev changed_event : AuditRow
changed_event = record {
  sequence = 7;
  event_id = "audit-1";
  content = "changed";
  prev_hash = genesis;
  event_hash = "digest of the old text";
}

abbrev broken_log : Store
broken_log = record (with_agreed.store) { audit_events = changed_event ∷ [] }

it_is_broken : detect_corruption os broken_log ≡ record {
  corrupted = true;
  first_corrupted_sequence = some 7;
  valid_prefix = 0;
  message = "corruption at sequence 7";
}
unfolding detect_corruption verify_audit verify_from first_broken decimal
it_is_broken = refl

detect_corruption_lem_example :
    Found os.sha256 broken_log.audit_events (detect_corruption os broken_log)
detect_corruption_lem_example = detect_corruption_lem os broken_log

verify_checkpoint_lem_example :
    (verify_checkpoint os with_agreed.store
        (write_checkpoint os broken_log [])
        (some (compute_ledger_checkpoint os broken_log).checkpoint_hash)
      ≡ true)
    ↔ ((1 ≤ length with_agreed.store.audit_events) × (0 ≤ length with_agreed.store.ledger))
unfolding compute_ledger_checkpoint
verify_checkpoint_lem_example = verify_checkpoint_lem os broken_log with_agreed.store [] refl

abbrev scan_call : ToolInvocation
scan_call = record {
  invocation_id = "lease-1";
  definition = scan_tool;
  context = scan_context;
  parameters = well_formed.parameters;
}

abbrev scan_output : CommandResult
scan_output = record { stdout = "{}"; stderr = ""; duration_seconds = "0.1" }

abbrev command_run : Result CommandResult × World
command_run = run_command os (λ schema value. true) worker_host config scan_call with_agreed

it_runs : command_run ≡ (ok scan_output, command_run.1)
unfolding run_command binding_refusal boundary_refusal workspace_refusal launch payload_of
    requested_files judge utcnow covers context_of static_code_scan prefix get_key get_field
    scope_of assess
it_runs = refl

run_command_sound_example :
    Launched
      (λ schema value. true)
      worker_host
      config
      scan_call
      (os.clock with_agreed.readings)
      scan_output
run_command_sound_example =
    run_command_sound os (λ schema value. true) worker_host config scan_call with_agreed
      command_run.1 scan_output it_runs
