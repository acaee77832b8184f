-- ===== src/Engine/Safety.antt =====
-- What stands behind every run that gets to the state APPROVED.
use mathlib.Core.Path.{subst}
use noble_cascade.Authorization.Check.{Permits}
use noble_cascade.Engine.Approved.{ApprovedIfNeeded, ApprovedIfNeeded-Frame, approval_gate_sound}
use noble_cascade.Engine.Assured.{risk_gate_sound, validate_gate_sound}
use noble_cascade.Engine.Clearance.{Cleared, approval_gate, run_gates}
use noble_cascade.Engine.Frame.{Frame, Frame-refl, Frame-trans, Read, Read-wider, then_ok}
use noble_cascade.Engine.Gates.{authorization_gate, risk_gate, scope_gate, tool_name, validate_gate}
use noble_cascade.Engine.Passed.{InPolicy, InPolicy-wider, scope_gate_sound}
use noble_cascade.Engine.Permitted.{authorization_gate_sound, get_grant-Frame}
use noble_cascade.Engine.Steps.{Run, Setting}
use noble_cascade.Errors.{Exec, Result, err, ok, pure, ◌>>=◌}
use noble_cascade.Models.{
  Approval, Authorization, AuthorizationGrant, RiskAssessment, Scope, SecurityRequest, Target,
  ToolDefinition,
}
use noble_cascade.Prelude.{Option, ap, some, ◌≡◌, ◌≤◌}
use noble_cascade.Registry.{get_tool}
use noble_cascade.Risk.{assess, raise_to_floor}
use noble_cascade.Store.{get_grant}

-- Everything that the gates promise together, about the database that the run started with and the
-- readings of the clock that it has made.
pub record Entitled (g : Setting) (request : SecurityRequest) (r r' : Run) (c : Cleared)
    : Type 0 where
  pub actor : request.requester ≡ g.actor_identity
  pub registered : get_tool g.config (tool_name request) ≡ ok c.definition
  pub policy : InPolicy g request c.target r r'
  pub grant : AuthorizationGrant
  pub named : request.authorization_grant ≡ some c.auth.grant_id
  pub stored : get_grant c.auth.grant_id r.world.store ≡ some grant
  pub permitted : Permits grant request c.target c.definition.required_permissions c.auth.checked_at
  pub checked : Read g r r' c.auth.checked_at
  pub risk : raise_to_floor c.definition.risk_tier (assess request c.target) ≡ c.risk
  pub approved : ApprovedIfNeeded g request c.risk c.scoped r r' c.approval

passed : {a b : Cleared} → ok a ≡ ok b → a ≡ b
passed {a} {b} h = ap (λ (x : Result Cleared). elim x [ ok y ↦ y | err _ ↦ a ]) h

abbrev cleared_of :
    ToolDefinition → Target × Scope → Authorization → RiskAssessment → Option Approval → Cleared
cleared_of d p auth risk found = record {
  definition = d;
  target = p.0;
  scoped = p.1;
  auth = auth;
  risk = risk;
  approval = found;
}

-- the five gates, each with the run that it left
assembled :
    (g : Setting) (request : SecurityRequest) (normalized : Result Target)
    (r r1 r2 r3 r4 r5 r' : Run) (d : ToolDefinition) (p : Target × Scope) (auth : Authorization)
    (risk : RiskAssessment) (found : Option Approval) (c : Cleared)
    → validate_gate g request r ≡ (ok d, r1)
    → scope_gate g request normalized r1 ≡ (ok p, r2)
    → authorization_gate g request p.0 d r2 ≡ (ok auth, r3)
    → risk_gate g request p.0 d r3 ≡ (ok risk, r4)
    → approval_gate g request risk p.1 r4 ≡ (ok found, r5)
    → ◌≡◌ {A = Result Cleared × Run} (ok (cleared_of d p auth risk found), r5) (ok c, r')
    → Frame r r' × (normalized ≡ ok c.target) × Entitled g request r r' c
assembled g request normalized r r1 r2 r3 r4 r5 r' d p auth risk found c e1 e2 e3 e4 e5 h5 =
    let (f1, registered, actor) = validate_gate_sound g request r r1 e1 in
    let (f2, parsed, policy) = scope_gate_sound g request normalized r1 r2 e2 in
    let (f3, grant, named, stored, permitted, checked) =
      authorization_gate_sound g request p.0 d r2 r3 e3 in
    let (f4, raised) = risk_gate_sound g request p.0 d r3 r4 e4 in
    let (f5, approved_if) = approval_gate_sound g request risk p.1 r4 r5 e5 in
    let cleared = cleared_of d p auth risk found in
    let same : cleared ≡ c = passed (ap (λ (x : Result Cleared × Run). x.0) h5) in
    let end_state : r5 ≡ r' = ap (λ (x : Result _ × Run). x.1) h5 in
    let before2 = Frame-trans f1 f2 in
    let before4 = Frame-trans before2 (Frame-trans f3 f4) in
    let last = subst (Frame r4) end_state f5 in
    let after3 = Frame-trans f4 last in
    let entitled : Entitled g request r r' cleared = record {
      actor = actor;
      registered = registered;
      policy = InPolicy-wider g request p.0 f1.readings (Frame-trans f3 after3).readings policy;
      grant = grant;
      named = named;
      stored = get_grant-Frame before2 auth.grant_id stored;
      permitted = permitted;
      checked = Read-wider g auth.checked_at before2.readings after3.readings checked;
      risk = raised;
      approved =
          ApprovedIfNeeded-Frame g request risk p.1 before4
            (subst (λ (x : Run). r5.world.readings ≤ x.world.readings) end_state
              (Frame-refl r5).readings)
            found approved_if;
    } in
    (
      Frame-trans before4 last,
      subst (λ (x : Cleared). normalized ≡ ok x.target) same parsed,
      subst (Entitled g request r r') same entitled,
    )

-- When the gates let a request pass, then against the database as it was when the run began: the
-- requester is the local actor, the tool is registered, the policy lists the normalized target and
-- allows the action, the grant that the request names is stored and permits the request on the target
-- with the tool's permissions, and if the risk, raised to the tool's floor, is HIGH or CRITICAL, an
-- approval by somebody else, valid for this request, scope and tier, is stored under its token. The
-- policy, the grant and the approval are each in force at a moment that the gates read from the clock.
-- The grants and the approvals are left alone.
pub run_gates_sound :
    (g : Setting) (request : SecurityRequest) (normalized : Result Target) (r r' : Run)
    {c : Cleared}
    → run_gates g request normalized r ≡ (ok c, r')
    → Frame r r' × (normalized ≡ ok c.target) × Entitled g request r r' c
unfolding run_gates
run_gates_sound g request normalized r r' {c} h =
    let k5 : ToolDefinition
        → Target × Scope
        → Authorization
        → RiskAssessment
        → Option Approval
        → Exec Run Cleared =
      λ d p auth risk found. pure (cleared_of d p auth risk found) in
    let k4 : ToolDefinition → Target × Scope → Authorization → RiskAssessment → Exec Run Cleared =
      λ d p auth risk. approval_gate g request risk p.1 >>= k5 d p auth risk in
    let k3 : ToolDefinition → Target × Scope → Authorization → Exec Run Cleared =
      λ d p auth. risk_gate g request p.0 d >>= k4 d p auth in
    let k2 : ToolDefinition → Target × Scope → Exec Run Cleared =
      λ d p. authorization_gate g request p.0 d >>= k3 d p in
    let k1 : ToolDefinition → Exec Run Cleared = λ d. scope_gate g request normalized >>= k2 d in
    let (d, r1, e1, h1) = then_ok (validate_gate g request) k1 r r' c h in
    let (p, r2, e2, h2) = then_ok (scope_gate g request normalized) (k2 d) r1 r' c h1 in
    let (auth, r3, e3, h3) = then_ok (authorization_gate g request p.0 d) (k3 d p) r2 r' c h2 in
    let (risk, r4, e4, h4) = then_ok (risk_gate g request p.0 d) (k4 d p auth) r3 r' c h3 in
    let (found, r5, e5, h5) =
      then_ok (approval_gate g request risk p.1) (k5 d p auth risk) r4 r' c h4 in
    assembled g request normalized r r1 r2 r3 r4 r5 r' d p auth risk found c e1 e2 e3 e4 e5 h5
