-- ===== src/Engine/Clearance.antt =====
-- The last gate of NobleEngine.run before a tool is selected, and the gates in their order.
use noble_cascade.Approvals.{ensure, request_approval}
use noble_cascade.Engine.Gates.{authorization_gate, risk_gate, scope_gate, validate_gate}
use noble_cascade.Engine.Steps.{Run, Setting, doing, enter, note, obs, on_world}
use noble_cascade.Errors.{
  Exec, Raised, Result, approval_required, builtin, err, is_instance, noble, ok, pure, raise, ◌>>=◌,
  ◌>>◌,
}
use noble_cascade.Models.{
  Approval, Authorization, RiskAssessment, Scope, SecurityRequest, Target, ToolDefinition,
  approval_value, approved, end, field, str, waiting_for_approval,
}
use noble_cascade.Prelude.{Bool, Option, String, false, if◌then◌else◌, none, some}

-- except ApprovalRequired
unfoldable pub wants_approval : Raised → Bool
unfolding is_instance
wants_approval (noble e) = is_instance e.cls approval_required
wants_approval (builtin e) = false

-- the handler of ApprovalRequired: an approval is requested and the exception raised again
unfoldable pub ask_and_raise :
    Setting → SecurityRequest → RiskAssessment → Scope → Raised → Exec Run (Option Approval)
unfolding obs note request_approval
ask_and_raise g request risk scoped e = do
  pending_approval ← on_world (request_approval g.os request risk scoped 1800 none)
  doing (λ r. record r {
    approval = some pending_approval;
    approval_state = approval_value pending_approval.state;
  })
  note g request "APPROVAL_PENDING" "awaiting a distinct authorized approver"
  doing (
      obs g request "AUTH" "approval required"
        (field "approval_id" (str pending_approval.approval_id) end))
  raise e

-- the `try` around approvals.ensure
unfoldable pub ensure_or_ask :
    Setting → SecurityRequest → RiskAssessment → Scope → Exec Run (Option Approval)
unfolding ensure wants_approval ask_and_raise
ensure_or_ask g request risk scoped r =
    let (x, r') = on_world (ensure g.os request risk scoped none) r in
    elim x [
      | ok approval ↦ (ok approval, r')
      | err e ↦ (if wants_approval e then ask_and_raise g request risk scoped e else raise e) r'
    ]

-- approval.state.value if approval else ApprovalState.NOT_REQUIRED.value
abbrev pub state_text : Option Approval → String
state_text none = "NOT_REQUIRED"
state_text (some a) = approval_value a.state

-- WAITING_FOR_APPROVAL
unfoldable pub approval_gate :
    Setting → SecurityRequest → RiskAssessment → Scope → Exec Run (Option Approval)
unfolding enter note ensure_or_ask
approval_gate g request risk scoped = do
  enter g request waiting_for_approval
  found ← ensure_or_ask g request risk scoped
  doing (λ r. record r { approval = found; approval_state = state_text found })
  note g request "APPROVAL_CHECKED" "approval satisfied or not required"
  enter g request approved
  pure found

-- what the gates hand on to the rest of `run`
pub record Cleared : Type 0 where
  pub definition : ToolDefinition
  pub target : Target
  pub scoped : Scope
  pub auth : Authorization
  pub risk : RiskAssessment
  pub approval : Option Approval

-- the `try` block of `run`, up to the state APPROVED
unfoldable pub run_gates : Setting → SecurityRequest → Result Target → Exec Run Cleared
unfolding validate_gate scope_gate authorization_gate risk_gate approval_gate
run_gates g request normalized = do
  definition ← validate_gate g request
  pair ← scope_gate g request normalized
  auth ← authorization_gate g request pair.0 definition
  assessed ← risk_gate g request pair.0 definition
  found ← approval_gate g request assessed pair.1
  pure (record {
    definition = definition;
    target = pair.0;
    scoped = pair.1;
    auth = auth;
    risk = assessed;
    approval = found;
  })
