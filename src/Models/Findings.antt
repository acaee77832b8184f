-- ===== src/Models/Findings.antt =====
-- The records of a finding, in noble/models.py.
use noble_cascade.Models.Enums.{EvidenceStatus, FindingState, RiskTier}
use noble_cascade.Prelude.{Bool, List, Option, String, ℕ}

pub record SeverityAssessment : Type 0 where
  pub vector : String
  pub tier : RiskTier
  pub impact : ℕ
  pub exploitability : ℕ
  pub exposure : ℕ
  pub rationale : String

pub record ConfidenceAssessment : Type 0 where
  pub score : ℕ
  pub level : String
  pub evidence_count : ℕ
  pub contradictions : ℕ
  pub rationale : String

pub record FalsePositiveAnalysis : Type 0 where
  pub claim : String
  pub supporting : List String
  pub missing : List String
  pub benign_explanations : List String
  pub contradictory : List String
  pub validation_steps : List String
  pub verdict : EvidenceStatus
  pub notes : String

-- `execution_id`, which nothing sets, is left out.
pub record Reproduction : Type 0 where
  pub steps : List String
  pub non_destructive : Bool
  pub controlled : Bool
  pub result : String

-- the provenance that a finding gets, an entry for each key
pub record FindingProvenance : Type 0 where
  pub source : String
  pub tool : String
  pub tool_version : String
  pub operator : String
  pub grant_id : String
  pub request_id : String
  pub classification : String
  pub false_positive_analysis : FalsePositiveAnalysis
  pub assessed_at : ℕ

-- `created_at` is left out.
pub record Finding : Type 0 where
  pub finding_id : String
  pub title : String
  pub category : String
  pub target : String
  pub description : String
  pub evidence_ids : List String
  pub confidence : ConfidenceAssessment
  pub severity : SeverityAssessment
  pub impact : String
  pub affected_component : String
  pub reproduction : Option Reproduction
  pub remediation : String
  pub references : List String
  pub state : FindingState
  pub status : EvidenceStatus
  pub provenance : FindingProvenance
  pub cwe : String
