-- ===== src/Approvals/Ensure.antt =====
-- ApprovalManager.ensure of noble/approvals.py.
use noble_cascade.Approvals.Decisions.{is_approver}
use noble_cascade.Approvals.Requests.{scope_digest}
use noble_cascade.Errors.{
  Exec, approval_expired, approval_invalid, approval_required, fault, pure, raise, raise_if, ◌>>=◌,
  ◌>>◌,
}
use noble_cascade.Models.{
  Approval, RiskAssessment, Scope, SecurityRequest, granted, requires_approval, same_approval_state,
  tier_value,
}
use noble_cascade.Platform.{Platform, fingerprint}
use noble_cascade.Prelude.{
  Bool, Option, String, given, if◌then◌else◌, ltb, none, not, some, ℕ, ◌==◌, ◌||◌,
}
use noble_cascade.Store.{get_approval}
use noble_cascade.World.{World, from_store, moment_of}

-- the last condition of `ensure`, negated
unfoldable pub is_valid_for : Platform → Approval → SecurityRequest → RiskAssessment → Scope → Bool
is_valid_for os approval request risk scope = not (
    not (same_approval_state approval.state granted)
    || is_approver approval.approver request.requester
    || not (approval.request_fingerprint == fingerprint os request)
    || not (approval.scope_digest == scope_digest os scope)
    || not (approval.risk_tier == tier_value risk.tier)
    || not (approval.requester == request.requester))

-- `ensure` on the approval that the database has under the token
unfoldable pub ensure_found :
    Platform
    → SecurityRequest
    → RiskAssessment
    → Scope
    → Option ℕ
    → Option Approval
    → Exec World (Option Approval)
unfolding moment_of
ensure_found os request risk scope now none = raise (fault approval_invalid "unknown approval ID")
ensure_found os request risk scope now (some approval) = do
  moment ← moment_of os now
  raise_if (ltb approval.expires_at moment) (fault approval_expired "approval has expired")
  raise_if (not (is_valid_for os approval request risk scope))
      (fault approval_invalid "approval is rejected, revoked, forged or does not match request")
  pure (some approval)

-- `ensure` on the token of the request
unfoldable pub ensure_token :
    Platform
    → SecurityRequest
    → RiskAssessment
    → Scope
    → Option ℕ
    → Option String
    → Exec World (Option Approval)
unfolding ensure_found
ensure_token os request risk scope now none =
    raise (fault approval_required "explicit human approval required for HIGH/CRITICAL action")
ensure_token os request risk scope now (some token) = do
  found ← from_store (get_approval token)
  ensure_found os request risk scope now found

-- ApprovalManager.ensure
unfoldable pub ensure :
    Platform → SecurityRequest → RiskAssessment → Scope → Option ℕ → Exec World (Option Approval)
unfolding ensure_token
ensure os request risk scope now =
    if not (requires_approval risk)
    then pure none
    else ensure_token os request risk scope now (given request.approval_token)
