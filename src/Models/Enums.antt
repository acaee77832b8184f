-- ===== src/Models/Enums.antt =====
-- The enumerations of noble/models.py. Each is a `str` enumeration, so its members are compared by
-- their values, and a function `…_value` gives the value of a member.
use noble_cascade.Prelude.{Bool, String, false, true, ℕ}

pub data TargetKind : Type 0 where
  repository host url path ip cidr local_workspace : TargetKind

unfoldable pub target_kind_value : TargetKind → String
target_kind_value repository = "repository"
target_kind_value host = "host"
target_kind_value url = "url"
target_kind_value path = "path"
target_kind_value ip = "ip"
target_kind_value cidr = "cidr"
target_kind_value local_workspace = "local-workspace"

pub data ScopeDecision : Type 0 where
  allow deny unknown : ScopeDecision

unfoldable pub scope_decision_value : ScopeDecision → String
scope_decision_value allow = "ALLOW"
scope_decision_value deny = "DENY"
scope_decision_value unknown = "UNKNOWN"

pub data RiskTier : Type 0 where
  low medium high critical : RiskTier

unfoldable pub tier_value : RiskTier → String
tier_value low = "LOW"
tier_value medium = "MEDIUM"
tier_value high = "HIGH"
tier_value critical = "CRITICAL"

-- RiskTier.rank
unfoldable pub rank : RiskTier → ℕ
rank low = 0
rank medium = 1
rank high = 2
rank critical = 3

pub data ApprovalState : Type 0 where
  not_required required pending granted rejected expired revoked : ApprovalState

unfoldable pub approval_value : ApprovalState → String
approval_value not_required = "NOT_REQUIRED"
approval_value required = "REQUIRED"
approval_value pending = "PENDING"
approval_value granted = "APPROVED"
approval_value rejected = "REJECTED"
approval_value expired = "EXPIRED"
approval_value revoked = "REVOKED"

-- a is b
unfoldable pub same_approval_state : ApprovalState → ApprovalState → Bool
same_approval_state not_required not_required = true
same_approval_state required required = true
same_approval_state pending pending = true
same_approval_state granted granted = true
same_approval_state rejected rejected = true
same_approval_state expired expired = true
same_approval_state revoked revoked = true
same_approval_state _ _ = false

pub data ExecutionState : Type 0 where
  created validating scope_check authorization_check risk_assessment : ExecutionState
  waiting_for_approval approved planned dispatched running executing : ExecutionState
  collecting_evidence validating_result reporting : ExecutionState
  completed blocked failed timed_out cancelled : ExecutionState

unfoldable pub state_value : ExecutionState → String
state_value created = "CREATED"
state_value validating = "VALIDATING"
state_value scope_check = "SCOPE_CHECK"
state_value authorization_check = "AUTHORIZATION_CHECK"
state_value risk_assessment = "RISK_ASSESSMENT"
state_value waiting_for_approval = "WAITING_FOR_APPROVAL"
state_value approved = "APPROVED"
state_value planned = "PLANNED"
state_value dispatched = "DISPATCHED"
state_value running = "RUNNING"
state_value executing = "EXECUTING"
state_value collecting_evidence = "COLLECTING_EVIDENCE"
state_value validating_result = "VALIDATING_RESULT"
state_value reporting = "REPORTING"
state_value completed = "COMPLETED"
state_value blocked = "BLOCKED"
state_value failed = "FAILED"
state_value timed_out = "TIMED_OUT"
state_value cancelled = "CANCELLED"

pub data Outcome : Type 0 where
  success_with_findings success_no_findings blocked_policy denied_authorization : Outcome
  approval_is_required approval_has_expired approval_is_invalid tool_is_unavailable : Outcome
  tool_failed timeout invalid_scope output_invalid inconclusive rate_is_limited : Outcome
  input_invalid sandbox_unavailable network_is_denied internal_error : Outcome

unfoldable pub outcome_value : Outcome → String
outcome_value success_with_findings = "success_with_findings"
outcome_value success_no_findings = "success_no_findings"
outcome_value blocked_policy = "blocked_policy"
outcome_value denied_authorization = "denied_authorization"
outcome_value approval_is_required = "approval_required"
outcome_value approval_has_expired = "approval_expired"
outcome_value approval_is_invalid = "approval_invalid"
outcome_value tool_is_unavailable = "tool_unavailable"
outcome_value tool_failed = "tool_failed"
outcome_value timeout = "timeout"
outcome_value invalid_scope = "invalid_scope"
outcome_value output_invalid = "invalid_output"
outcome_value inconclusive = "inconclusive"
outcome_value rate_is_limited = "rate_limited"
outcome_value input_invalid = "invalid_input"
outcome_value sandbox_unavailable = "sandbox_unavailable"
outcome_value network_is_denied = "network_denied"
outcome_value internal_error = "internal_error"

pub data SideEffectClass : Type 0 where
  no_effect read_local write_workspace network_effect : SideEffectClass

pub data SandboxRequirement : Type 0 where
  no_sandbox process_local container : SandboxRequirement

pub data EvidenceStatus : Type 0 where
  observed suspected supported validated confirmed unresolved refuted : EvidenceStatus

pub data FindingState : Type 0 where
  candidate validated_finding confirmed_finding rejected_finding : FindingState
  inconclusive_finding remediated accepted_risk : FindingState

pub data CapabilityStatus : Type 0 where
  full_implementation local_adapter partial_implementation : CapabilityStatus
  reference_only unavailable experimental : CapabilityStatus

unfoldable pub evidence_status_value : EvidenceStatus → String
evidence_status_value observed = "OBSERVED"
evidence_status_value suspected = "SUSPECTED"
evidence_status_value supported = "SUPPORTED"
evidence_status_value validated = "VALIDATED"
evidence_status_value confirmed = "CONFIRMED"
evidence_status_value unresolved = "INCONCLUSIVE"
evidence_status_value refuted = "REJECTED"

unfoldable pub finding_state_value : FindingState → String
finding_state_value candidate = "candidate"
finding_state_value validated_finding = "validated"
finding_state_value confirmed_finding = "confirmed"
finding_state_value rejected_finding = "rejected"
finding_state_value inconclusive_finding = "inconclusive"
finding_state_value remediated = "remediated"
finding_state_value accepted_risk = "accepted-risk"
