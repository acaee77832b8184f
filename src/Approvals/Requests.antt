-- ===== src/Approvals/Requests.antt =====
-- `_scope_digest` and ApprovalManager.request of noble/approvals.py.
use noble_cascade.Audit.{Entry, emit}
use noble_cascade.Authorization.{second}
use noble_cascade.Errors.{
  Exec, approval_invalid, builtin, fault, index_error, pure, raise, ◌>>=◌, ◌>>◌,
}
use noble_cascade.Models.{
  Approval, RiskAssessment, Scope, SecurityRequest, pending, requires_approval, tier_value,
}
use noble_cascade.Platform.{Platform, fingerprint}
use noble_cascade.Prelude.{
  List, Option, String, [], concat, if◌then◌else◌, leb, none, not, some, ℕ, ◌&&◌, ◌*◌, ◌++◌, ◌+◌,
  ◌∷◌,
}
use noble_cascade.Store.{put_approval}
use noble_cascade.World.{World, moment_of, new_id, on_store}

unfoldable pub join_from : String → List String → String
join_from x [] = x
join_from x (y ∷ ys) = concat x (concat "|" (join_from y ys))

-- "|".join(texts)
unfoldable pub join : List String → String
unfolding join_from
join [] = ""
join (x ∷ xs) = join_from x xs

abbrev pub iso_or_empty : Platform → Option ℕ → String
iso_or_empty os none = ""
iso_or_empty os (some moment) = os.isoformat moment

-- _scope_digest
unfoldable pub scope_digest : Platform → Scope → String
scope_digest os scope = os.sha256 (
    join (
      scope.policy_name ∷ scope.allowed_targets
      ++ scope.allowed_actions
      ++ scope.denied_targets
      ++ scope.denied_actions
      ++ iso_or_empty os scope.valid_from
        ∷ iso_or_empty os scope.valid_until
        ∷ scope.network_destinations))

abbrev pub request_entry : SecurityRequest → Scope → RiskAssessment → String → String → Entry
request_entry request scope risk first approval_id = record {
  request_id = request.request_id;
  operator = request.requester;
  action = request.action;
  target = first;
  policy = scope.policy_name;
  decision = "APPROVAL_REQUESTED";
  risk = tier_value risk.tier;
  approval = approval_id;
  tool = "none";
  execution = "none";
  result = "pending";
  reason = "request-bound high-risk approval created";
}

-- the approval that `request` builds, where scope.allowed_targets[0] is `first`
unfoldable pub approval_of :
    Platform → SecurityRequest → RiskAssessment → Scope → ℕ → String → ℕ → String → Approval
approval_of os request risk scope valid_for_seconds first moment approval_id = record {
  approval_id = approval_id;
  request_fingerprint = fingerprint os request;
  action = request.action;
  target = first;
  risk_tier = tier_value risk.tier;
  requester = request.requester;
  scope_digest = scope_digest os scope;
  state = pending;
  requested_at = moment;
  expires_at = moment + valid_for_seconds * second;
  approver = none;
  decided_at = none;
  reason = "";
}

-- the end of `request`: the event is written before the approval
unfoldable pub commit_request :
    Platform → SecurityRequest → RiskAssessment → Scope → Approval → Exec World Approval
commit_request os request risk scope approval = do
  emit os (request_entry request scope risk approval.target approval.approval_id)
  on_store (put_approval approval)
  pure approval

-- `request` after its guards, on the targets that the scope allows
unfoldable pub request_first :
    Platform
    → SecurityRequest
    → RiskAssessment
    → Scope
    → ℕ
    → Option ℕ
    → List String
    → Exec World Approval
unfolding moment_of new_id
request_first os request risk scope valid_for_seconds now [] =
    (moment_of os now >> new_id os "approval") >> raise (builtin index_error)
request_first os request risk scope valid_for_seconds now (first ∷ _) = do
  moment ← moment_of os now
  approval_id ← new_id os "approval"
  commit_request os request risk scope
      (approval_of os request risk scope valid_for_seconds first moment approval_id)

-- ApprovalManager.request; a negative lifetime is refused as 0 is
unfoldable pub request_approval :
    Platform → SecurityRequest → RiskAssessment → Scope → ℕ → Option ℕ → Exec World Approval
unfolding request_first
request_approval os request risk scope valid_for_seconds now =
    if not (requires_approval risk)
    then raise (fault approval_invalid "only HIGH and CRITICAL actions require human approval")
    else if not (leb 1 valid_for_seconds && leb valid_for_seconds 3600)
    then raise (fault approval_invalid "approval lifetime must be between 1 and 3600 seconds")
    else request_first os request risk scope valid_for_seconds now scope.allowed_targets
