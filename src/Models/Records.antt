-- ===== src/Models/Records.antt =====
-- The records of noble/models.py. A moment is a number of microseconds, a duration too; a field that
-- may be None is an `Option`.
use noble_cascade.Models.Enums.{
  ApprovalState, CapabilityStatus, ExecutionState, Outcome, RiskTier, SandboxRequirement,
  ScopeDecision, SideEffectClass, TargetKind, allow, completed, high, rank, success_no_findings,
  success_with_findings,
}
use noble_cascade.Models.Values.{Fields, Json}
use noble_cascade.Prelude.{Bool, List, Option, String, contains, false, leb, true, ℕ, ◌&&◌}

pub record Target : Type 0 where
  pub raw : String
  pub kind : TargetKind
  pub canonical : String
  pub host : Option String
  pub port : Option ℕ
  pub path : Option String
  pub owner : Option String
  pub name : Option String
  pub environment : String

pub record Scope : Type 0 where
  pub policy_name : String
  pub allowed_targets : List String
  pub denied_targets : List String
  pub allowed_actions : List String
  pub denied_actions : List String
  pub valid_from : Option ℕ
  pub valid_until : Option ℕ
  pub target_classes : List String
  pub network_destinations : List String

-- Scope.covers
unfoldable pub covers : Scope → Target → Bool
unfolding contains
covers s t = contains s.allowed_targets t.canonical

pub record SecurityRequest : Type 0 where
  pub action : String
  pub target : String
  pub requester : String
  pub tool : Option String
  pub purpose : String
  pub parameters : Json
  pub request_id : String
  pub created_at : ℕ
  pub approval_token : Option String
  pub authorization_grant : Option String

pub record AuthorizationGrant : Type 0 where
  pub grant_id : String
  pub principal : String
  pub role : String
  pub capability : String
  pub target_pattern : String
  pub purpose : String
  pub privileges : List String
  pub valid_from : ℕ
  pub valid_until : ℕ
  pub granted_by : String
  pub action : String

-- AuthorizationGrant.active_at
unfoldable pub active_at : AuthorizationGrant → ℕ → Bool
active_at g moment = leb g.valid_from moment && leb moment g.valid_until

pub record Authorization : Type 0 where
  pub grant_id : String
  pub principal : String
  pub role : String
  pub capability : String
  pub checked_at : ℕ

-- a value of `factors: dict[str, str | int | bool]`
pub data Factor : Type 0 where
  text : String → Factor
  number : ℕ → Factor
  flag : Bool → Factor

pub record RiskAssessment : Type 0 where
  pub action : String
  pub tier : RiskTier
  pub score : ℕ
  pub factors : List (String × Factor)
  pub rationale : String

-- RiskAssessment.requires_approval
unfoldable pub requires_approval : RiskAssessment → Bool
unfolding rank
requires_approval r = leb (rank high) (rank r.tier)

pub record Approval : Type 0 where
  pub approval_id : String
  pub request_fingerprint : String
  pub action : String
  pub target : String
  pub risk_tier : String
  pub requester : String
  pub scope_digest : String
  pub state : ApprovalState
  pub requested_at : ℕ
  pub expires_at : ℕ
  pub approver : Option String
  pub decided_at : Option ℕ
  pub reason : String

pub record ToolDefinition : Type 0 where
  pub name : String
  pub version : String
  pub description : String
  pub action : String
  pub risk_tier : RiskTier
  pub input_schema : Json
  pub output_schema : Json
  pub required_permissions : List String
  pub requires_approval : Bool
  pub allowed_target_kinds : List TargetKind
  pub network_required : Bool
  pub network_destinations : List String
  pub sandbox : SandboxRequirement
  pub timeout_seconds : ℕ
  pub rate_limit_per_minute : ℕ
  pub side_effects : SideEffectClass
  pub evidence_behavior : String
  pub status : CapabilityStatus

pub record AuditEvent : Type 0 where
  pub event_id : String
  pub timestamp : ℕ
  pub request_id : String
  pub operator : String
  pub action : String
  pub target : String
  pub policy : String
  pub decision : String
  pub risk : String
  pub approval : String
  pub tool : String
  pub execution : String
  pub result : String
  pub reason : String
  pub data_classification : String

pub record PolicyDecision : Type 0 where
  pub decision : ScopeDecision
  pub rule : String
  pub reason : String

-- PolicyDecision.allowed
unfoldable pub allowed : PolicyDecision → Bool
allowed d = elim d.decision [ allow ↦ true | _ ↦ false ]

pub record Evidence : Type 0 where
  pub evidence_id : String
  pub request_id : String
  pub execution_id : String
  pub tool : String
  pub tool_version : String
  pub target : String
  pub category : String
  pub content : String
  pub content_hash : String
  pub trust_level : String
  pub recorded_at : ℕ
  pub provenance : Fields

pub record ValidationResult : Type 0 where
  pub valid : Bool
  pub issues : List String

-- The moment `started_at` is left out, and of the error the code stays; `run` sets all four texts of
-- the policy.
pub record ExecutionResult : Type 0 where
  pub request_id : String
  pub state : ExecutionState
  pub outcome : Outcome
  pub target : String
  pub action : String
  pub tool : Option String
  pub execution_id : Option String
  pub evidence_ids : List String
  pub finding_ids : List String
  pub audit_event_ids : List String
  pub state_history : List String
  pub error : Option String
  pub validation : Option ValidationResult
  pub risk : Option RiskAssessment
  pub approval : Option Approval
  pub finished_at : Option ℕ
  pub worker_id : Option String
  pub tool_run_id : Option String
  pub report_id : Option String
  pub policy_version : String
  pub policy_hash : String
  pub configuration_hash : String
  pub worker_image_digest : String
  pub finding_hashes : Option (List (String × String))
  pub evidence_hashes : Option (List (String × String))
  pub report_hash : Option String

-- ExecutionResult.succeeded
unfoldable pub succeeded : ExecutionResult → Bool
succeeded r = elim r.state [
  | completed ↦ elim r.outcome [
    | success_with_findings ↦ true
    | success_no_findings ↦ true
    | _ ↦ false
  ]
  | _ ↦ false
]
