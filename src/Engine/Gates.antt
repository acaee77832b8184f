-- ===== src/Engine/Gates.antt =====
-- The gates of NobleEngine.run, from the request to the state APPROVED. The result of
-- normalize_target is an argument.
use noble_cascade.Authorization.{check, is_identity}
use noble_cascade.Engine.Steps.{Run, Setting, doing, enter, note, obs, on_world}
use noble_cascade.Errors.{
  Exec, Raised, Result, authorization_denied, err, fault, invalid_input, lift, ok, pure, raise_if,
  scope_denied, scope_unknown, ◌>>=◌, ◌>>◌,
}
use noble_cascade.Kernel.{is_request_id}
use noble_cascade.Models.{
  Authorization, Json, PolicyDecision, RiskAssessment, Scope, SecurityRequest, Target,
  ToolDefinition, allowed, authorization_check, end, field, is_object, risk_assessment, scope_check,
  scope_decision_value, str, tier_value, validating,
}
use noble_cascade.Prelude.{
  Bool, Option, String, concat, given, if◌then◌else◌, is_some, none, not, some, true, ◌+◌, ◌==◌,
  ◌||◌,
}
use noble_cascade.Registry.{get_tool}
use noble_cascade.Risk.{assess, raise_to_floor}
use noble_cascade.Scope.{evaluate, snapshot}
use noble_cascade.Store.{is_taken, reserve_request}
use noble_cascade.Trust.{redact_sensitive}
use noble_cascade.World.{World}

-- self.store.reserve_request; the clock is read only for a new row
unfoldable pub reserve_id : Setting → SecurityRequest → Exec World Bool
unfolding reserve_request
reserve_id g request w =
    let (x, s) = reserve_request request.request_id (g.os.clock w.readings) w.store in
    let taken = is_taken request.request_id w.store in
    (x, record w { store = s; readings = if taken then w.readings else w.readings + 1 })

-- the parameters conform to the schema of the tool
unfoldable pub accepts : Setting → SecurityRequest → ToolDefinition → Bool
accepts g request definition = g.conforms definition.input_schema request.parameters

-- the refusals before the reservation
unfoldable pub identity_refusal : Setting → SecurityRequest → Option Raised
unfolding is_request_id is_identity
identity_refusal g request =
    if not (is_request_id request.request_id)
    then some (fault invalid_input "request ID has an invalid format")
    else if not (is_identity request.requester)
    then some (fault invalid_input "requester identity has an invalid format")
    else if not (request.requester == g.actor_identity)
    then some (fault authorization_denied "requester must match the local OS actor identity")
    else none

-- the refusals between the reservation and the registry
unfoldable pub shape_refusal : SecurityRequest → Option Raised
unfolding is_object
shape_refusal request =
    if request.action == "" || not (is_some (given request.tool))
    then some (fault invalid_input "action and registered tool are required")
    else if not (is_object request.parameters)
    then some (fault invalid_input "tool parameters must be an object")
    else none

abbrev pub check_none : Option Raised → Exec Run (Unit {0})
check_none none r = (ok tt, r)
check_none (some e) r = (err e, r)

-- the name of the tool
abbrev pub tool_name : SecurityRequest → String
tool_name request = elim request.tool [ none ↦ "" | some name ↦ name ]

-- VALIDATING
unfoldable pub validate_gate : Setting → SecurityRequest → Exec Run ToolDefinition
unfolding obs enter note identity_refusal shape_refusal reserve_id get_tool accepts
validate_gate g request = do
  doing (
      obs g request "REQUEST" "request received" (
        field "request_id" (str request.request_id)
          (field "action" (str request.action) (field "target" (str request.target) end))))
  enter g request validating
  check_none (identity_refusal g request)
  reserved ← on_world (reserve_id g request)
  raise_if (not reserved) (fault invalid_input "duplicate request ID is not accepted")
  doing (λ r. record r { request_reserved = true })
  check_none (shape_refusal request)
  definition ← lift (get_tool g.config (tool_name request))
  raise_if (not (accepts g request definition))
      (fault invalid_input "tool parameters violate declared input schema")
  note g request "REQUESTED" "request validated"
  doing (obs g request "POLICY" "request validated" end)
  pure definition

-- what a denied scope raises
unfoldable pub scope_refusal : PolicyDecision → Option Raised
unfolding allowed scope_decision_value
scope_refusal d =
    if allowed d
    then none
    else if scope_decision_value d.decision == "UNKNOWN"
    then some (fault scope_unknown "target does not match the authorized scope")
    else some (fault scope_denied "action or target was denied by scope policy")

-- SCOPE_CHECK, the snapshot
unfoldable pub snapshot_stage : Setting → SecurityRequest → Target → Exec Run (Target × Scope)
unfolding snapshot
snapshot_stage g request target = do
  scoped ← on_world (snapshot g.os g.io g.scope target request.action)
  pure (target, scoped)

-- SCOPE_CHECK, after the decision
unfoldable pub decided_stage :
    Setting → SecurityRequest → Target → PolicyDecision → Exec Run (Target × Scope)
unfolding obs note scope_refusal snapshot_stage
decided_stage g request target d = do
  note g request (scope_decision_value d.decision) d.reason
  doing (
      obs g request "POLICY"
        (concat "scope " (concat (scope_decision_value d.decision) (concat ": " d.reason)))
        (field "rule" (str d.rule) end))
  check_none (scope_refusal d)
  snapshot_stage g request target

-- SCOPE_CHECK, on the normalized target
unfoldable pub target_stage : Setting → SecurityRequest → Target → Exec Run (Target × Scope)
unfolding evaluate decided_stage
target_stage g request target = do
  doing (λ r. record r { canonical_target = redact_sensitive g.os target.canonical })
  raise_if (not (redact_sensitive g.os target.canonical == target.canonical)) (
      fault invalid_input
        "target contains a credential-shaped value; rename or use a safe directory")
  d ← on_world (evaluate g.os g.io g.scope target request.action none)
  decided_stage g request target d

-- SCOPE_CHECK
unfoldable pub scope_gate : Setting → SecurityRequest → Result Target → Exec Run (Target × Scope)
unfolding obs enter target_stage
scope_gate g request normalized = do
  enter g request scope_check
  target ← lift normalized
  target_stage g request target

-- AUTHORIZATION_CHECK
unfoldable pub authorization_gate :
    Setting → SecurityRequest → Target → ToolDefinition → Exec Run Authorization
unfolding obs enter note check
authorization_gate g request target definition = do
  enter g request authorization_check
  auth ← on_world (check g.os request target definition.required_permissions none)
  note g request "AUTHORIZED"
      (concat "grant " (concat auth.grant_id " permits the required capability"))
  doing (obs g request "AUTH" "authorization granted" (field "grant_id" (str auth.grant_id) end))
  pure auth

-- RISK_ASSESSMENT
unfoldable pub risk_gate :
    Setting → SecurityRequest → Target → ToolDefinition → Exec Run RiskAssessment
unfolding obs enter note assess raise_to_floor
risk_gate g request target definition = do
  enter g request risk_assessment
  let risk = raise_to_floor definition.risk_tier (assess request target)
  doing (λ r. record r { risk = some risk; risk_tier = tier_value risk.tier })
  note g request "CLASSIFIED" (concat "risk tier " (tier_value risk.tier))
  doing (
      obs g request "POLICY" (concat "risk classified " (tier_value risk.tier))
        (field "score" (Json.int risk.score) end))
  pure risk
