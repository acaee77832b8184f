-- ===== src/Engine/Steps.antt =====
-- The state of NobleEngine.run, and the three closures that change it: `obs`, `transition` and
-- `audit`.
use noble_cascade.Audit.{Entry, emit}
use noble_cascade.Config.{RuntimeConfig}
use noble_cascade.Errors.{Exec, err, ok}
use noble_cascade.Execution.{Host}
use noble_cascade.Ledger.{optional_text}
use noble_cascade.Models.{
  Approval, ExecutionState, Fields, Json, Outcome, RiskAssessment, SecurityRequest,
  ValidationResult, end, field, object, state_value, str,
}
use noble_cascade.Outputs.{Sources}
use noble_cascade.Platform.{Platform}
use noble_cascade.Prelude.{
  Bool, List, Option, String, [], concat, given, none, some, ℕ, ◌++◌, ◌+◌, ◌∷◌,
}
use noble_cascade.Scope.{Lookups, ScopeEngine, decision}
use noble_cascade.StateMachine.{validate_transition}
use noble_cascade.Store.{Keyed, put_observability}
use noble_cascade.Workers.{Crew, WorkerIdentity}
use noble_cascade.World.{World, new_id, utcnow}

-- the dict `fingerprint` of `run`
pub record PolicyFingerprint : Type 0 where
  pub policy_version : String
  pub policy_hash : String
  pub configuration_hash : String
  pub worker_image_digest : String

-- what a run reads: the platform, the policy, the configuration, the local actor, the JSON schema
-- validator, the process boundary, the files, and the versions
pub record Setting : Type 0 where
  pub os : Platform
  pub io : Lookups
  pub scope : ScopeEngine
  pub config : RuntimeConfig
  pub actor_identity : String
  -- not list(Draft7Validator(schema).iter_errors(value))
  pub conforms : Json → Json → Bool
  pub host : Host
  pub sources : Sources
  -- sqlite3.OperationalError from the DELETE of release_lease, for a lease
  pub release_fails : String → Bool
  -- compute_policy_fingerprint, or the dict of its handler
  pub fingerprint : PolicyFingerprint
  -- compute_worker_digest()
  pub computed_digest : String
  -- sys.version.split()[0]
  pub runtime_version : String

-- the local variables of `run` and the fields of `result` that it assigns
pub record Run : Type 0 where
  pub world : World
  pub state : ExecutionState
  pub states : List String
  pub event_ids : List String
  pub risk_tier : String
  pub approval_state : String
  pub canonical_target : String
  pub request_reserved : Bool
  pub risk : Option RiskAssessment
  pub approval : Option Approval
  pub workers : List WorkerIdentity
  pub lease_id : Option String
  pub execution_id : Option String
  pub worker_id : Option String
  pub tool_run_id : Option String
  pub outcome : Outcome
  pub error : Option String
  pub validation : Option ValidationResult
  pub evidence_ids : List String
  pub finding_ids : List String
  pub evidence_hashes : Option (List (String × String))
  pub finding_hashes : Option (List (String × String))
  pub report_id : Option String
  pub report_hash : Option String
  pub state_history : List String
  pub finished_at : Option ℕ
  pub audit_event_ids : List String

-- a call of a component
abbrev pub on_world : {A : Type 0} → Exec World A → Exec Run A
on_world m r = let (x, w) = m r.world in (x, record r { world = w })

-- a call of the registry of workers
abbrev pub on_crew : {A : Type 0} → Exec Crew A → Exec Run A
on_crew m r =
    let (x, c) = m (record { world = r.world; workers = r.workers }) in
    (x, record r { world = c.world; workers = c.workers })

-- obs, with the attributes of the event; an exception of the sink is dropped
unfoldable pub obs : Setting → SecurityRequest → String → String → Fields → Run → Run
unfolding put_observability new_id utcnow
obs g request category message attributes r =
    let event_id = concat "obs" (concat "-" (g.os.hex r.world.draws)) in
    let row : Keyed Fields = record {
      key = event_id;
      value = field "event_id" (str event_id) (
          field "category" (str category) (
            field "timestamp" (str (g.os.isoformat (g.os.clock r.world.readings))) (
              field "request_id" (str request.request_id) (
                field "execution_id" (optional_text r.lease_id)
                  (field "message" (str message) (field "attributes" (object attributes) end))))));
    } in
    record r {
      world = record {
        store = (put_observability row r.world.store).1;
        draws = r.world.draws + 1;
        readings = r.world.readings + 1;
      };
    }

-- a step that only changes the state
abbrev pub doing : (Run → Run) → Exec Run (Unit {0})
doing f r = (ok tt, f r)

-- `transition` of `run`
unfoldable pub enter : Setting → SecurityRequest → ExecutionState → Exec Run (Unit {0})
unfolding obs validate_transition
enter g request s r = elim (validate_transition r.state s) [
  | err e ↦ (err e, r)
  | ok _ ↦
      let moved = record r { state = s; states = r.states ++ state_value s ∷ [] } in
      (
        ok tt,
        obs g request "POLICY" (concat "state transition -> " (state_value s))
            (field "from_state" (str (state_value r.state))
              (field "to_state" (str (state_value s)) end))
            moved,
      )
]

abbrev pub run_entry : Setting → SecurityRequest → String → String → String → Run → Entry
run_entry g request decision reason outcome r = record {
  request_id = request.request_id;
  operator = request.requester;
  action = request.action;
  target = r.canonical_target;
  policy = g.scope.name;
  decision = decision;
  risk = r.risk_tier;
  approval = r.approval_state;
  tool = elim (given request.tool) [ none ↦ "none" | some name ↦ name ];
  execution = elim (given r.execution_id) [
    | none ↦ state_value r.state
    | some execution_id ↦ concat execution_id (concat ":" (state_value r.state))
  ];
  result = outcome;
  reason = reason;
}

-- `audit` of `run`
unfoldable pub audit_as : Setting → SecurityRequest → String → String → String → Exec Run (Unit {0})
unfolding obs
audit_as g request decision reason outcome r =
    let (x, w) = emit g.os (run_entry g request decision reason outcome r) r.world in
    elim x [
      | err e ↦ (err e, record r { world = w })
      | ok event ↦ (
        ok tt,
        obs g request "SECURITY" (concat "audit " (concat decision (concat ": " reason)))
            (field "decision" (str decision) (field "outcome" (str outcome) end))
            (record r { world = w; event_ids = r.event_ids ++ event.event_id ∷ [] }),
      )
    ]

-- `audit` with the default outcome
unfoldable pub note : Setting → SecurityRequest → String → String → Exec Run (Unit {0})
unfolding audit_as
note g request decision reason = audit_as g request decision reason "pending"
