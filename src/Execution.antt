-- ===== src/Execution.antt =====
-- CommandRunner of noble/execution.py: what is checked before a worker starts, what the worker is
-- told, and how its end is judged. The process itself is an argument.
pub mod Network
pub mod Launched
use noble_cascade.Config.{RuntimeConfig}
use noble_cascade.Errors.{
  Exec, Raised, Result, builtin, err, fault, invalid_input, invalid_output, lift, ok, os_error,
  raise_if, refusal, refuse, sandbox_failure, tool_execution_failed, tool_timeout, tool_unavailable,
  ◌>>=◌, ◌>>◌,
}
use noble_cascade.Models.{
  ApprovalState, Authorization, Json, RiskAssessment, SandboxRequirement, Scope, Target,
  ToolDefinition, covers, get_field, get_key, process_local,
}
use noble_cascade.Platform.{Platform}
use noble_cascade.Prelude.{
  Bool, List, Option, String, [], codes, false, if◌then◌else◌, is_nil, leb, ltb, min, none, not,
  some, true, ℕ, ◌&&◌, ◌*◌, ◌+◌, ◌-◌, ◌==◌, ◌||◌, ◌∷◌,
}
use noble_cascade.Trust.{prefix}
use noble_cascade.World.{World, utcnow}

pub record ExecutionContext : Type 0 where
  pub request_id : String
  pub operator_id : String
  pub target : Target
  pub scope : Scope
  pub authorization : Authorization
  pub approval_state : ApprovalState
  pub risk : RiskAssessment
  pub deadline : ℕ
  pub sandbox_id : String
  pub network_policy : List String
  pub credential_policy : String
  pub audit_context : String
  pub workspace_root : String
  pub parameters : Json

pub record ToolInvocation : Type 0 where
  pub invocation_id : String
  pub definition : ToolDefinition
  pub context : ExecutionContext
  pub parameters : Json

-- the dict `payload`
pub record Payload : Type 0 where
  pub request_id : String
  pub tool : String
  pub target : String
  pub workspace_root : String
  pub max_files : ℕ
  pub max_file_bytes : ℕ
  pub max_observations : ℕ

-- What the loop over the pipes has found out about the child: whether it took its input, whether it
-- could be killed, the two limits, the exit code, and the texts, where they are UTF-8. A duration is
-- kept as its text.
pub record Process : Type 0 where
  pub took_input : Bool
  pub killed : Bool
  pub timed_out : Bool
  pub truncated : Bool
  pub exited_0 : Bool
  pub out : Option String
  pub errors : Option String
  pub duration_seconds : String

pub record Host : Type 0 where
  -- WORKER_PATH.is_file()
  pub worker_present : Bool
  -- os.path.samefile; none where it raises OSError
  pub samefile : String → String → Option Bool
  -- len(json.dumps(payload, separators=(",", ":")).encode("utf-8"))
  pub payload_size : Payload → ℕ
  -- subprocess.Popen and the loop over its pipes; none where it does not start
  pub spawn : Payload → Option Process

-- `argv` and the constant flags are left out
pub record CommandResult : Type 0 where
  pub stdout : String
  pub stderr : String
  pub duration_seconds : String

-- the guards before the clock is read
unfoldable pub binding_refusal : ToolDefinition → ExecutionContext → Option Raised
unfolding covers
binding_refusal definition context =
    if not (covers context.scope context.target)
      || not (context.authorization.principal == context.operator_id)
    then refusal sandbox_failure "worker context has no bound scope or principal"
    else if not (definition.action == context.risk.action)
    then refusal sandbox_failure "worker tool/action binding changed"
    else none

abbrev pub is_process_local : SandboxRequirement → Bool
is_process_local process_local = true
is_process_local _ = false

-- the guard on the worker's file and the workspace
unfoldable pub workspace_refusal : Host → RuntimeConfig → ExecutionContext → Option Raised
workspace_refusal host config context =
    let refused = refusal sandbox_failure "trusted worker or workspace is unavailable" in
    if not host.worker_present
    then refused
    else (elim (host.samefile context.workspace_root config.workspace_root) [
      | none ↦ some (builtin os_error)
      | some same ↦ if same then none else refused
    ])

-- the guards after the deadline
unfoldable pub boundary_refusal :
    (Json → Json → Bool) → Host → RuntimeConfig → ToolInvocation → Option Raised
unfolding workspace_refusal
boundary_refusal conforms host config invocation =
    let definition = invocation.definition in
    let context = invocation.context in
    if not (conforms definition.input_schema invocation.parameters)
    then refusal invalid_input "worker parameters are not registered and schema-valid"
    else if not (is_process_local definition.sandbox)
    then refusal sandbox_failure "required sandbox is unavailable; tool refused"
    else if definition.network_required || not (is_nil context.network_policy)
    then refusal sandbox_failure "network-capable tools require independently verified isolation"
    else if not (definition.name == "static-code-scan" || definition.name == "fixture-sql-verify")
    then refusal tool_unavailable "no trusted built-in worker for selected tool"
    else workspace_refusal host config context

-- the digits before the point of a float's text
unfoldable whole_part : ℕ → List ℕ → ℕ
whole_part n [] = n
whole_part n (c ∷ cs) =
    let rest = whole_part (n * 10 + (c - b'0')) cs in if leb b'0' c && leb c b'9' then rest else n

-- int(parameters.get("max_files", default)), after the schema of both tools has admitted the value: an
-- integer from 1 to 1000, or a float such as 5.0 that is one
unfoldable pub requested_files : Json → ℕ → ℕ
unfolding get_key get_field whole_part
requested_files parameters default = elim (get_key parameters "max_files") [
  | some (Json.int n) ↦ n
  | some (Json.float text) ↦ whole_part 0 (codes text)
  | _ ↦ default
]

unfoldable pub payload_of : RuntimeConfig → ToolInvocation → Payload
unfolding requested_files
payload_of config invocation = record {
  request_id = invocation.context.request_id;
  tool = invocation.definition.name;
  target = invocation.context.target.canonical;
  workspace_root = config.workspace_root;
  max_files =
      min (requested_files invocation.parameters config.limits.max_files) config.limits.max_files;
  max_file_bytes = config.limits.max_file_bytes;
  max_observations = config.limits.max_observations;
}

-- the end of `run`, from the process on
unfoldable pub judge : Process → Result CommandResult
unfolding prefix
judge process =
    if not process.killed
    then err (fault tool_timeout "trusted worker could not be terminated")
    else if not process.took_input
    then err (fault tool_execution_failed "trusted worker exited before accepting its input")
    else if process.timed_out
    then err (fault tool_timeout "trusted tool exceeded wall-time limit")
    else if process.truncated
    then err (fault invalid_output "trusted tool exceeded output size limit")
    else if not process.exited_0
    then err (fault tool_execution_failed "trusted built-in tool refused input or failed")
    else elim process.out [
      | none ↦ err (fault invalid_output "tool output encoding is not UTF-8")
      | some out ↦ elim process.errors [
        | none ↦ err (fault invalid_output "tool output encoding is not UTF-8")
        | some errors ↦ ok (record {
          stdout = out;
          stderr = prefix 2048 errors;
          duration_seconds = process.duration_seconds;
        })
      ]
    ]

-- the payload, the process and its end
unfoldable pub launch : Host → RuntimeConfig → ToolInvocation → Result CommandResult
unfolding payload_of judge
launch host config invocation =
    let payload = payload_of config invocation in
    if ltb config.limits.max_input_bytes (host.payload_size payload)
    then err (fault invalid_input "worker payload exceeds input limit")
    else elim (host.spawn payload) [
      | none ↦ err (fault tool_unavailable "trusted worker process could not start")
      | some process ↦ judge process
    ]

-- CommandRunner.run
unfoldable pub run_command :
    Platform
    → (Json → Json → Bool)
    → Host
    → RuntimeConfig
    → ToolInvocation
    → Exec World CommandResult
unfolding binding_refusal boundary_refusal launch utcnow
run_command os conforms host config invocation = do
  refuse (binding_refusal invocation.definition invocation.context)
  now ← utcnow os
  raise_if (leb invocation.context.deadline now)
      (fault tool_timeout "worker deadline has already passed")
  refuse (boundary_refusal conforms host config invocation)
  lift (launch host config invocation)
