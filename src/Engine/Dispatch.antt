-- ===== src/Engine/Dispatch.antt =====
-- NobleEngine.run of noble/engine.py from the state APPROVED to the end of the tool: preconditions,
-- worker, lease, and the call of the runner.
use noble_cascade.Engine.Clearance.{Cleared}
use noble_cascade.Engine.Gates.{tool_name}
use noble_cascade.Engine.Steps.{Run, Setting, audit_as, doing, enter, note, obs, on_crew, on_world}
use noble_cascade.Errors.{
  Exec, Raised, err, invalid_input, lift, network_denied, ok, or_else, pure, refusal, refuse,
  sandbox_failure, ◌>>=◌, ◌>>◌,
}
use noble_cascade.Execution.{CommandResult, ExecutionContext, is_process_local, run_command}
use noble_cascade.Models.{
  SecurityRequest, SideEffectClass, Target, ToolDefinition, end, executing, field, get_field,
  get_key, granted, not_required, read_local, str, truthy,
}
use noble_cascade.Outputs.{fixture_is_exact}
use noble_cascade.Prelude.{
  Bool, List, Option, String, [], false, if◌then◌else◌, none, not, some, true, ℕ, ◌+◌, ◌==◌, ◌||◌,
  ◌∷◌,
}
use noble_cascade.Registry.{validate_selection}
use noble_cascade.Store.{LeaseRequest, acquire_lease}
use noble_cascade.Workers.{create_worker}
use noble_cascade.World.{World, new_id, on_store, utcnow}

abbrev pub is_read_local : SideEffectClass → Bool
is_read_local read_local = true
is_read_local _ = false

-- the block for fixture-sql-verify
unfoldable pub fixture_refused : Setting → Target → ToolDefinition → Option Raised
unfolding fixture_is_exact
fixture_refused g target selected =
    if not (selected.name == "fixture-sql-verify")
    then none
    else (elim (fixture_is_exact g.sources.files target.canonical g.config.workspace_root) [
      | none ↦ refusal invalid_input "fixture verifier requires an existing local fixture"
      | some exact ↦
          if exact
          then none
          else refusal invalid_input "fixture verifier only accepts the unmodified local fixture"
    ])

-- the guards between the selection and PRECONDITIONS_PASSED
unfoldable pub precondition_refusal :
    Setting → SecurityRequest → Target → ToolDefinition → Option Raised
unfolding fixture_refused truthy get_key get_field
precondition_refusal g request target selected =
    if selected.network_required || truthy (get_key request.parameters "network")
    then refusal network_denied "network-capable execution is unavailable"
    else if not (is_read_local selected.side_effects)
    then refusal sandbox_failure "only read-only local tools can use the process boundary"
    else if not (is_process_local selected.sandbox)
    then refusal sandbox_failure "required isolation backend is not available"
    else or_else (fixture_refused g target selected) (
        if g.sources.files.exists target.canonical
        then none
        else refusal invalid_input "local target does not exist")

-- APPROVED: the selection and its preconditions
unfoldable pub select_stage : Setting → SecurityRequest → Target → Exec Run ToolDefinition
unfolding note validate_selection precondition_refusal
select_stage g request target = do
  selected ← lift (validate_selection g.config (tool_name request) request.action target.kind)
  refuse (precondition_refusal g request target selected)
  note g request "PRECONDITIONS_PASSED" "read-only offline tool selected"
  pure selected

-- the worker's identity; `create_worker` raises nothing, so the handler around it is never entered
unfoldable pub worker_stage : Setting → SecurityRequest → ToolDefinition → Exec Run (Unit {0})
unfolding obs create_worker new_id
worker_stage g request selected = do
  worker ← on_crew (
      create_worker g.os g.runtime_version g.computed_digest
        ((selected.name, selected.version) ∷ []) (some g.fingerprint.worker_image_digest))
  doing (λ r. record r { worker_id = some worker.worker_id })
  tool_run_id ← on_world (new_id g.os "toolrun")
  doing (λ r. record r { tool_run_id = some tool_run_id })
  doing (
      obs g request "WORKER" "worker activated"
        (field "worker_id" (str worker.worker_id) (field "tool_run_id" (str tool_run_id) end)))

abbrev pub lease_request :
    Setting → SecurityRequest → Target → ToolDefinition → String → LeaseRequest
lease_request g request target selected lease_id = record {
  lease_id = lease_id;
  principal = request.requester;
  tool = selected.name;
  target = target.canonical;
  per_minute = selected.rate_limit_per_minute;
  global_per_minute = g.config.limits.rate_per_minute;
  max_concurrent = g.config.limits.global_concurrency;
  timeout = selected.timeout_seconds;
}

-- self.store.acquire_lease, at the time that it reads
unfoldable pub take_lease : Setting → LeaseRequest → Exec World (Unit {0})
unfolding utcnow acquire_lease
take_lease g q = do now ← utcnow g.os; on_store (acquire_lease q now)

-- the lease
unfoldable pub lease_stage : Setting → SecurityRequest → Target → ToolDefinition → Exec Run String
lease_stage g request target selected = do
  lease_id ← on_world (new_id g.os "lease")
  doing (λ r. record r { lease_id = some lease_id })
  on_world (take_lease g (lease_request g request target selected lease_id))
  pure lease_id

-- event_ids[-1]; the engine has written events by then
unfoldable pub last_event : List String → String
last_event [] = ""
last_event (x ∷ []) = x
last_event (x ∷ y ∷ rest) = last_event (y ∷ rest)

unfoldable pub context_of :
    Setting → SecurityRequest → Cleared → ToolDefinition → List String → ℕ → ExecutionContext
unfolding last_event
context_of g request c selected event_ids now = record {
  request_id = request.request_id;
  operator_id = request.requester;
  target = c.target;
  scope = c.scoped;
  authorization = c.auth;
  approval_state = elim c.approval [ none ↦ not_required | some _ ↦ granted ];
  risk = c.risk;
  deadline = now + selected.timeout_seconds;
  sandbox_id = "process-local-rlimit";
  network_policy = [];
  credential_policy = "no credentials supplied";
  audit_context = last_event event_ids;
  workspace_root = g.config.workspace_root;
  parameters = request.parameters;
}

-- the context, with the deadline from the clock
unfoldable pub context_stage :
    Setting → SecurityRequest → Cleared → ToolDefinition → Exec Run ExecutionContext
unfolding context_of utcnow
context_stage g request c selected r =
    let (now, w) = utcnow g.os r.world in
    elim now [
      | err e ↦ (err e, record r { world = w })
      | ok t ↦ (ok (context_of g request c selected r.event_ids t), record r { world = w })
    ]

-- what a run of the tool leaves for the stages after it
pub record Finished : Type 0 where
  pub selected : ToolDefinition
  pub lease : String
  pub context : ExecutionContext
  pub command : CommandResult

-- EXECUTING
unfoldable pub execute_stage :
    Setting → SecurityRequest → Cleared → ToolDefinition → String → Exec Run Finished
unfolding obs enter audit_as context_stage run_command
execute_stage g request c selected lease_id = do
  doing (λ r. record r { execution_id = some lease_id })
  enter g request executing
  audit_as g request "EXECUTING" "rate/concurrency lease acquired" "started"
  doing (obs g request "TOOL" "execution started" (field "execution_id" (str lease_id) end))
  context ← context_stage g request c selected
  doing (
      obs g request "SANDBOX" "worker invocation" (field "sandbox_id" (str context.sandbox_id) end))
  command ← on_world (
      run_command g.os g.conforms g.host g.config (record {
        invocation_id = lease_id;
        definition = selected;
        context = context;
        parameters = request.parameters;
      }))
  pure (record { selected = selected; lease = lease_id; context = context; command = command })

-- from APPROVED to the end of the tool
unfoldable pub run_tool : Setting → SecurityRequest → Cleared → Exec Run Finished
unfolding select_stage worker_stage lease_stage execute_stage
run_tool g request c = do
  selected ← select_stage g request c.target
  worker_stage g request selected
  lease_id ← lease_stage g request c.target selected
  execute_stage g request c selected lease_id
