-- ===== src/Execution/Launched.antt =====
-- What CommandRunner.run of noble/execution.py has checked when it answers with a result.
-- a worker that ran to its end
use noble_cascade.Config.{RuntimeConfig}
use noble_cascade.Errors.{ok}
use noble_cascade.Execution.{
  CommandResult, ExecutionContext, Host, Process, ToolInvocation, binding_refusal, boundary_refusal,
  is_process_local, judge, launch, payload_of, run_command, workspace_refusal,
}
use noble_cascade.Models.{Json, ToolDefinition, covers}
use noble_cascade.Platform.{Platform}
use noble_cascade.Prelude.{
  Bool, Bool-cases, Option-cases, ap, arith, eq_iff, false, inl, inr, is_nil, leb, none, some, true,
  ℕ, ◌<◌, ◌∙◌, ◌≡◌, ◌≤◌,
}
use noble_cascade.World.{World, utcnow}

pub record Launched (conforms : Json → Json → Bool) (host : Host) (config : RuntimeConfig)
    (invocation : ToolInvocation) (now : ℕ) (result : CommandResult) : Type 0 where
  pub covered : covers invocation.context.scope invocation.context.target ≡ true
  pub principal : invocation.context.authorization.principal ≡ invocation.context.operator_id
  pub action : invocation.definition.action ≡ invocation.context.risk.action
  pub in_time : now < invocation.context.deadline
  pub parameters : conforms invocation.definition.input_schema invocation.parameters ≡ true
  pub sandboxed : is_process_local invocation.definition.sandbox ≡ true
  pub offline : invocation.definition.network_required ≡ false
  pub isolated : is_nil invocation.context.network_policy ≡ true
  pub workspace : host.samefile invocation.context.workspace_root config.workspace_root ≡ some true
  pub small : host.payload_size (payload_of config invocation) ≤ config.limits.max_input_bytes
  pub few : (payload_of config invocation).max_files ≤ config.limits.max_files
  pub process : Process
  pub started : host.spawn (payload_of config invocation) ≡ some process
  pub finished : (process.timed_out ≡ false) × (process.exited_0 ≡ true)
  pub output : process.out ≡ some result.stdout

binding_refusal-none :
    (d : ToolDefinition) (c : ExecutionContext)
    → binding_refusal d c ≡ none
    → (covers c.scope c.target ≡ true)
      × (c.authorization.principal ≡ c.operator_id)
      × (d.action ≡ c.risk.action)
unfolding binding_refusal
binding_refusal-none d c h = (
  ground (arith, h),
  ground (arith, h, eq_iff c.authorization.principal c.operator_id),
  ground (arith, h, eq_iff d.action c.risk.action),
)

workspace_refusal-none :
    (host : Host) (config : RuntimeConfig) (c : ExecutionContext)
    → workspace_refusal host config c ≡ none
    → host.samefile c.workspace_root config.workspace_root ≡ some true
unfolding workspace_refusal
workspace_refusal-none host config c h =
    elim (Option-cases (host.samefile c.workspace_root config.workspace_root)) [
      | inl e ↦ absurd (ground (arith, h, e))
      | inr (same, e) ↦ e ∙ ap some (ground (arith, h, e))
    ]

-- the guards after the deadline
boundary_refusal-none :
    (conforms : Json → Json → Bool) (host : Host) (config : RuntimeConfig) (i : ToolInvocation)
    → boundary_refusal conforms host config i ≡ none
    → (conforms i.definition.input_schema i.parameters ≡ true)
      × (is_process_local i.definition.sandbox ≡ true)
      × (i.definition.network_required ≡ false)
      × (is_nil i.context.network_policy ≡ true)
      × (host.samefile i.context.workspace_root config.workspace_root ≡ some true)
unfolding boundary_refusal
boundary_refusal-none conforms host config i h = (
  ground (arith, h),
  ground (arith, h),
  ground (arith, h),
  ground (arith, h),
  workspace_refusal-none host config i.context (ground (arith, h)),
)

judge-ok :
    (p : Process) (r : CommandResult)
    → judge p ≡ ok r
    → (p.timed_out ≡ false) × (p.exited_0 ≡ true) × (p.out ≡ some r.stdout)
unfolding judge
judge-ok p r h = elim (Option-cases p.out) [
  | inl e ↦ absurd (ground (arith, h, e))
  | inr (out, e) ↦ elim (Option-cases p.errors) [
    | inl f ↦ absurd (ground (arith, h, e, f))
    | inr (errors, f) ↦ (ground (arith, h, e, f), ground (arith, h, e, f), ground (arith, h, e, f))
  ]
]

launch-ok :
    (host : Host) (config : RuntimeConfig) (i : ToolInvocation) (r : CommandResult)
    → launch host config i ≡ ok r
    → (host.payload_size (payload_of config i) ≤ config.limits.max_input_bytes)
      × ((p : Process) × (host.spawn (payload_of config i) ≡ some p) × (judge p ≡ ok r))
unfolding launch
launch-ok host config i r h = elim (Option-cases (host.spawn (payload_of config i))) [
  | inl e ↦ absurd (ground (arith, h, e))
  | inr (p, e) ↦ (ground (arith, h, e), (p, e, ground (arith, h, e)))
]

few_files :
    (config : RuntimeConfig) (i : ToolInvocation)
    → (payload_of config i).max_files ≤ config.limits.max_files
unfolding payload_of
few_files config i = omega arith

-- The runner answers with a result only for an invocation whose scope covers the target, whose grant is
-- the operator's, whose tool does the assessed action, before its deadline, with parameters that fit the
-- schema, for an offline tool in a local process and the configured workspace. The payload is within
-- its limit and asks for no more files than the limit, and the result is the output of a process that
-- was started with it, ended in time and exited with 0.
pub run_command_sound :
    (os : Platform) (conforms : Json → Json → Bool) (host : Host) (config : RuntimeConfig)
    (i : ToolInvocation) (w w' : World) (r : CommandResult)
    → run_command os conforms host config i w ≡ (ok r, w')
    → Launched conforms host config i (os.clock w.readings) r
unfolding run_command utcnow
run_command_sound os conforms host config i w w' r h =
    elim (Option-cases (binding_refusal i.definition i.context)) [
      | inr (x, e) ↦ absurd (ground (arith, h, e))
      | inl bound ↦ elim (Bool-cases (leb i.context.deadline (os.clock w.readings))) [
        | inl late ↦ absurd (ground (arith, h, bound, late))
        | inr early ↦ elim (Option-cases (boundary_refusal conforms host config i)) [
          | inr (x, e) ↦ absurd (ground (arith, h, bound, early, e))
          | inl inside ↦
              let launched : launch host config i ≡ ok r =
                ground (arith, h, bound, early, inside) in
              let (small, (p, started, judged)) = launch-ok host config i r launched in
              let (timely, exited, out) = judge-ok p r judged in
              let (covered, principal, action) =
                binding_refusal-none i.definition i.context bound in
              let (fits, sandboxed, offline, isolated, workspace) =
                boundary_refusal-none conforms host config i inside in
              record {
                covered = covered;
                principal = principal;
                action = action;
                in_time = ground (arith, early);
                parameters = fits;
                sandboxed = sandboxed;
                offline = offline;
                isolated = isolated;
                workspace = workspace;
                small = small;
                few = few_files config i;
                process = p;
                started = started;
                finished = (timely, exited);
                output = out;
              }
        ]
      ]
    ]
