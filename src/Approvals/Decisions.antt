-- ===== src/Approvals/Decisions.antt =====
-- ApprovalManager.decide and revoke of noble/approvals.py.
use noble_cascade.Audit.{Entry, emit}
use noble_cascade.Errors.{
  Exec, approval_expired, approval_invalid, authorization_denied, fault, pure, raise, raise_if,
  self_approval_denied, ◌>>=◌, ◌>>◌,
}
use noble_cascade.Models.{
  Approval, AuthorizationGrant, active_at, expired, granted, pending, rejected, revoked,
  same_approval_state,
}
use noble_cascade.Platform.{Platform}
use noble_cascade.Prelude.{
  Bool, Option, String, contains, false, if◌then◌else◌, ltb, none, not, some, true, ℕ, ◌==◌, ◌||◌,
}
use noble_cascade.Store.{get_approval, get_grant, update_approval}
use noble_cascade.Trust.{prefix}
use noble_cascade.World.{World, from_store, moment_of, on_store}

-- the keyword arguments of ApprovalManager.decide
pub record Decision : Type 0 where
  pub approval_id : String
  pub approver : String
  pub approver_grant_id : String
  pub approve : Bool
  pub reason : String
  pub now : Option ℕ

-- the condition of `decide` on the grant of the approver
unfoldable pub may_approve : AuthorizationGrant → Approval → String → ℕ → Bool
may_approve grant approval approver moment = not (
    not (grant.principal == approver)
    || not (grant.role == "approver")
    || not (grant.capability == "approve")
    || not (grant.action == approval.action)
    || not (contains grant.privileges "approve")
    || not (active_at grant moment)
    || not (grant.target_pattern == approval.target))

abbrev pub decision_entry : Decision → Approval → Entry
decision_entry d approval = record {
  request_id = approval.approval_id;
  operator = d.approver;
  action = approval.action;
  target = approval.target;
  policy = "approval-state-machine";
  decision = "APPROVAL_DECISION_REQUESTED";
  risk = approval.risk_tier;
  approval = approval.approval_id;
  tool = "none";
  execution = "none";
  result = if d.approve then "approve" else "reject";
  reason = d.reason;
}

abbrev pub revocation_entry : String → Approval → Entry
revocation_entry approver approval = record {
  request_id = approval.approval_id;
  operator = approver;
  action = approval.action;
  target = approval.target;
  policy = "approval-state-machine";
  decision = "APPROVAL_REVOCATION_REQUESTED";
  risk = approval.risk_tier;
  approval = approval.approval_id;
  tool = "none";
  execution = "none";
  result = "revoke";
  reason = "original approver revoked approval";
}

unfoldable pub lacks_grant : Option AuthorizationGrant → Approval → String → ℕ → Bool
unfolding may_approve
lacks_grant none approval approver moment = true
lacks_grant (some grant) approval approver moment = not (may_approve grant approval approver moment)

-- the fields that `decide` assigns
unfoldable pub decided : Approval → Decision → ℕ → Approval
decided approval d moment = record approval {
  state = if d.approve then granted else rejected;
  approver = some d.approver;
  decided_at = some moment;
  reason = prefix 200 d.reason;
}

-- the end of `decide`: the event is written before the swap
unfoldable pub commit_decision : Platform → Decision → Approval → Exec World Approval
commit_decision os d approval = do
  emit os (decision_entry d approval)
  swapped ← on_store (update_approval approval pending)
  raise_if (not swapped) (fault approval_invalid "approval changed during decision")
  pure approval

-- `decide` after the approval is found pending and not expired
unfoldable pub decide_live : Platform → Decision → Approval → ℕ → Exec World Approval
unfolding commit_decision
decide_live os d approval moment = do
  raise_if (d.approver == approval.requester || d.approver == "")
      (fault self_approval_denied "requester cannot approve their own action")
  found ← from_store (get_grant d.approver_grant_id)
  raise_if (lacks_grant found approval d.approver moment)
      (fault authorization_denied "approver lacks an active target-bound approval grant")
  commit_decision os d (decided approval d moment)

-- `decide` on the stored approval; an expired one is marked so, and the mark stays
unfoldable pub decide_found : Platform → Decision → Approval → ℕ → Exec World Approval
unfolding decide_live
decide_found os d approval moment =
    if not (same_approval_state approval.state pending)
    then raise (fault approval_invalid "approval is not pending")
    else if ltb approval.expires_at moment
    then on_store (update_approval (record approval { state = expired }) pending)
      >> raise (fault approval_expired "approval expired before decision")
    else decide_live os d approval moment

-- ApprovalManager.decide
unfoldable pub decide : Platform → Decision → Exec World Approval
unfolding decide_found moment_of
decide os d w = elim (get_approval d.approval_id w.store) [
  | none ↦ raise (fault approval_invalid "unknown approval") w
  | some approval ↦ (moment_of os d.now >>= decide_found os d approval) w
]

-- the end of `revoke`
unfoldable pub commit_revocation : Platform → String → Approval → Exec World Approval
commit_revocation os approver approval = do
  emit os (revocation_entry approver approval)
  swapped ← on_store (update_approval approval granted)
  raise_if (not swapped) (fault approval_invalid "approval changed during revocation")
  pure approval

-- the fields that `revoke` assigns
unfoldable pub revocation_of : Approval → ℕ → Approval
revocation_of approval moment = record approval { state = revoked; decided_at = some moment }

-- approval.approver == text
unfoldable pub is_approver : Option String → String → Bool
is_approver none s = false
is_approver (some a) s = a == s

-- ApprovalManager.revoke
unfoldable pub revoke : Platform → String → String → Option ℕ → Exec World Approval
unfolding commit_revocation moment_of
revoke os approval_id approver now w = elim (get_approval approval_id w.store) [
  | none ↦ raise (fault approval_invalid "approval is not currently approved") w
  | some approval ↦
      if not (same_approval_state approval.state granted)
      then raise (fault approval_invalid "approval is not currently approved") w
      else if not (is_approver approval.approver approver)
      then raise (fault authorization_denied "only the original approver can revoke this approval")
          w
      else (moment_of os now >>= λ moment.
            commit_revocation os approver (revocation_of approval moment))
          w
]
