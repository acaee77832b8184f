-- ===== src/Engine/Finish.antt =====
-- The `finally` block of NobleEngine.run in noble/engine.py, and the whole of `run`.
use noble_cascade.Engine.Handlers.{guarded}
use noble_cascade.Engine.Steps.{Run, Setting, audit_as, doing, obs, on_world}
use noble_cascade.Errors.{
  Exec, Raised, Result, builtin, err, integrity_error, ok, operational_error, os_error, pure, ◌>>=◌,
  ◌>>◌,
}
use noble_cascade.Ledger.{LedgerChain, chain_dict}
use noble_cascade.Models.{
  ExecutionResult, ExecutionState, SecurityRequest, Target, created, end, failed, field,
  internal_error, outcome_value, state_value, str,
}
use noble_cascade.Prelude.{
  Bool, List, Option, String, [], code, false, given, if◌then◌else◌, none, some, true, ℕ, ◌++◌,
  ◌==◌, ◌∷◌,
}
use noble_cascade.Store.{genesis, put_ledger, put_result, release_lease}
use noble_cascade.Trust.{prefix, redact_sensitive}
use noble_cascade.Workers.{WorkerIdentity}
use noble_cascade.World.{World, new_id, on_store, utcnow}

-- isinstance(exc, (OSError, sqlite3.Error))
unfoldable pub is_persistence : Raised → Bool
is_persistence (builtin os_error) = true
is_persistence (builtin integrity_error) = true
is_persistence (builtin operational_error) = true
is_persistence _ = false

abbrev pub is_failed : ExecutionState → Bool
is_failed failed = true
is_failed _ = false

-- the lease could not be released
abbrev pub lease_lost : Run → Run
lease_lost r = record r {
  states = if is_failed r.state then r.states else r.states ++ state_value failed ∷ [];
  state = failed;
  outcome = internal_error;
  error = some "lease_cleanup_failed";
}

-- `finally`: the lease
unfoldable pub release_stage : Setting → Exec Run (Unit {0})
unfolding release_lease is_persistence
release_stage g r = elim r.lease_id [
  | none ↦ (ok tt, r)
  | some lease_id ↦
      let (x, r') = on_world (on_store (release_lease (g.release_fails lease_id) lease_id)) r in
      elim x [
        | ok _ ↦ (ok tt, r')
        | err e ↦ if is_persistence e then (ok tt, lease_lost r') else (err e, r')
      ]
]

-- `finally`: the three assignments after the lease
unfoldable pub stamp_stage : Setting → Exec Run (Unit {0})
unfolding utcnow
stamp_stage g = do
  doing (λ r. record r { state_history = r.states })
  finished_at ← on_world (utcnow g.os)
  doing (λ r. record r { finished_at = some finished_at })

-- the texts of the fields of `result`, and the result itself
unfoldable pub result_of : Setting → SecurityRequest → Run → ExecutionResult
result_of g request r = record {
  request_id = request.request_id;
  state = r.state;
  outcome = r.outcome;
  target = r.canonical_target;
  action = request.action;
  tool = request.tool;
  execution_id = r.execution_id;
  evidence_ids = r.evidence_ids;
  finding_ids = r.finding_ids;
  audit_event_ids = r.audit_event_ids;
  state_history = r.state_history;
  error = r.error;
  validation = r.validation;
  risk = r.risk;
  approval = r.approval;
  finished_at = r.finished_at;
  worker_id = r.worker_id;
  tool_run_id = r.tool_run_id;
  report_id = r.report_id;
  policy_version = g.fingerprint.policy_version;
  policy_hash = g.fingerprint.policy_hash;
  configuration_hash = g.fingerprint.configuration_hash;
  worker_image_digest = g.fingerprint.worker_image_digest;
  finding_hashes = r.finding_hashes;
  evidence_hashes = r.evidence_hashes;
  report_hash = r.report_hash;
}

-- text or default
abbrev pub text_else : String → String → String
text_else s default = if s == "" then default else s

-- result.tool_run_id or new_id("toolrun")
unfoldable pub tool_run_of : Setting → Option String → Exec World String
unfolding new_id
tool_run_of g tool_run_id = elim (given tool_run_id) [
  | none ↦ new_id g.os "toolrun"
  | some id ↦ pure id
]

unfoldable pub chain_of : Setting → SecurityRequest → Run → String → String → ℕ → LedgerChain
chain_of g request r execution_id tool_run_id created_at = record {
  request_id = request.request_id;
  execution_id = execution_id;
  worker_id = elim (given r.worker_id) [ none ↦ "worker-unknown" | some id ↦ id ];
  tool_run_id = tool_run_id;
  evidence_ids = r.evidence_ids;
  finding_ids = r.finding_ids;
  report_id = r.report_id;
  audit_event_ids = r.audit_event_ids;
  policy_version = text_else g.fingerprint.policy_version "unknown";
  policy_hash = text_else g.fingerprint.policy_hash genesis;
  configuration_hash = text_else g.fingerprint.configuration_hash genesis;
  worker_image_digest = text_else g.fingerprint.worker_image_digest genesis;
  created_at = created_at;
}

-- the body of the inner `try` block, where `result` is that of the run `before`
unfoldable pub write_ledger : Setting → SecurityRequest → Run → String → Exec Run (Unit {0})
unfolding obs tool_run_of utcnow chain_of chain_dict put_ledger
write_ledger g request before execution_id = do
  tool_run_id ← on_world (tool_run_of g before.tool_run_id)
  created_at ← on_world (utcnow g.os)
  on_world (
      on_store (
        put_ledger execution_id
          (chain_dict g.os (chain_of g request before execution_id tool_run_id created_at))))
  doing
      (obs g request "REPORT" "ledger chain recorded" (field "execution_id" (str execution_id) end))

-- the ledger, of a run that has an execution; its handler drops whatever is raised
unfoldable pub ledger_stage : Setting → SecurityRequest → Exec Run (Unit {0})
unfolding write_ledger
ledger_stage g request r = elim (given r.execution_id) [
  | none ↦ (ok tt, r)
  | some execution_id ↦ (ok tt, (write_ledger g request r execution_id r).1)
]

-- the result's row, if the request was reserved
unfoldable pub store_stage : Setting → SecurityRequest → Exec Run (Unit {0})
unfolding put_result result_of
store_stage g request r =
    if r.request_reserved
    then on_world (on_store (put_result (result_of g request r))) r
    else (ok tt, r)

-- the inner `try` block of `finally`
unfoldable pub persist_stage : Setting → SecurityRequest → Exec Run (Unit {0})
unfolding audit_as outcome_value ledger_stage store_stage
persist_stage g request = do
  (λ r.
      audit_as g request "FINISHED"
        (elim r.error [ none ↦ "execution complete" | some code ↦ code ]) (outcome_value r.outcome)
        r)
  doing (λ r. record r { audit_event_ids = r.event_ids })
  ledger_stage g request
  store_stage g request

-- persistence failed
abbrev pub audit_lost : Run → Run
audit_lost r = record r { state = failed; outcome = internal_error; error = some "audit_failure" }

unfoldable pub persist_or_fail : Setting → SecurityRequest → Exec Run (Unit {0})
unfolding persist_stage is_persistence
persist_or_fail g request r =
    let (x, r') = persist_stage g request r in
    elim x [
      | ok _ ↦ (ok tt, r')
      | err e ↦ if is_persistence e then (ok tt, audit_lost r') else (err e, r')
    ]

-- the `finally` block
unfoldable pub finally_stage : Setting → SecurityRequest → Exec Run (Unit {0})
unfolding release_stage stamp_stage persist_or_fail
finally_stage g request = do release_stage g; stamp_stage g; persist_or_fail g request

-- The variables before the `try` block. The time `started_at` is left out.
unfoldable pub begin : Setting → SecurityRequest → List WorkerIdentity → World → Run
unfolding redact_sensitive prefix
begin g request workers world = record {
  world = world;
  state = created;
  states = state_value created ∷ [];
  event_ids = [];
  risk_tier = "UNKNOWN";
  approval_state = "NOT_REQUIRED";
  canonical_target = redact_sensitive g.os (prefix 2048 request.target);
  request_reserved = false;
  risk = none;
  approval = none;
  workers = workers;
  lease_id = none;
  execution_id = none;
  worker_id = none;
  tool_run_id = none;
  outcome = internal_error;
  error = none;
  validation = none;
  evidence_ids = [];
  finding_ids = [];
  evidence_hashes = none;
  finding_hashes = none;
  report_id = none;
  report_hash = none;
  state_history = state_value created ∷ [];
  finished_at = none;
  audit_event_ids = [];
}

-- NobleEngine.run: an exception that no handler takes leaves it after the `finally` block
unfoldable pub run_request :
    Setting → SecurityRequest → Result Target → Run → Result ExecutionResult × Run
unfolding guarded finally_stage result_of
run_request g request normalized r =
    let (x, r1) = guarded g request normalized r in
    let (y, r2) = finally_stage g request r1 in
    elim y [
      | err e ↦ (err e, r2)
      | ok _ ↦ elim x [ err e ↦ (err e, r2) | ok _ ↦ (ok (result_of g request r2), r2) ]
    ]
