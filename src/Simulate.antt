-- ===== src/Simulate.antt =====
-- noble/simulate.py: what would happen to a request, from the normalized target on.
pub mod Verdict
use noble_cascade.Config.{RuntimeConfig}
use noble_cascade.Errors.{Exec, err, ok, pure, ◌>>=◌, ◌>>◌}
use noble_cascade.Models.{
  PolicyDecision, RiskAssessment, SecurityRequest, Target, allow, deny, end, high, object, rank,
  scope_decision_value, target_kind_value, tier_value, unknown,
}
use noble_cascade.Platform.{Platform}
use noble_cascade.Prelude.{
  Bool, Option, String, concat, given, if◌then◌else◌, leb, none, not, some, ℕ, ◌==◌,
}
use noble_cascade.Registry.{get_tool, has_kind}
use noble_cascade.Risk.{assess}
use noble_cascade.Scope.{Lookups, ScopeEngine, evaluate}
use noble_cascade.World.{World, new_id, utcnow}

pub record SimulationResult : Type 0 where
  pub target : String
  pub action : String
  pub tool : String
  pub scope_decision : String
  pub scope_rule : String
  pub scope_reason : String
  pub risk_tier : String
  pub risk_score : ℕ
  pub approval_required : Bool
  pub execution : String
  pub execution_reason : String
  pub policy : String

-- the `try` block: the checks of the named tool
unfoldable pub tool_verdict :
    RuntimeConfig → RiskAssessment → Target → String → String → String × String
tool_verdict config risk target action tool = elim (get_tool config tool) [
  | err e ↦ ("BLOCKED", "Tool check failed: ToolUnknown: [tool_unknown] tool is not registered")
  | ok definition ↦
      if not (definition.action == action)
      then ("BLOCKED", concat "Tool " (concat tool (concat " does not implement action " action)))
      else if not (has_kind definition.allowed_target_kinds target.kind)
      then (
        "BLOCKED",
        concat "Tool "
            (concat tool (concat " does not support target kind " (target_kind_value target.kind))),
      )
      else if definition.network_required
      then ("BLOCKED", "Network-capable tools require isolation (unavailable)")
      else if leb (rank high) (rank risk.tier)
      then ("BLOCKED", "HIGH risk requires distinct approval (no HIGH tools registered)")
      else ("ALLOWED", "All preconditions satisfied (would proceed to authorization check)")
]

-- the values of `execution` and `reason` after the tool checks
unfoldable pub verdict :
    RuntimeConfig
    → PolicyDecision
    → RiskAssessment
    → Target
    → String
    → Option String
    → String × String
unfolding tool_verdict
verdict config d risk target action tool = elim d.decision [
  | deny ↦ ("BLOCKED", concat "Scope DENY: " d.reason)
  | unknown ↦ ("BLOCKED", concat "Scope UNKNOWN (deny-by-default): " d.reason)
  | allow ↦ elim (given tool) [
    | none ↦ ("ALLOWED", d.reason)
    | some name ↦ tool_verdict config risk target action name
  ]
]

-- the request that the risk is assessed for
unfoldable pub simulated_request : String → String → Option String → String → ℕ → SecurityRequest
simulated_request action raw_target tool request_id created_at = record {
  action = action;
  target = raw_target;
  requester = "simulator";
  tool = some (elim (given tool) [ none ↦ "unknown" | some name ↦ name ]);
  purpose = "security-research";
  parameters = object end;
  request_id = request_id;
  created_at = created_at;
  approval_token = none;
  authorization_grant = none;
}

-- PolicySimulator.simulate
unfoldable pub simulate :
    Platform
    → Lookups
    → ScopeEngine
    → RuntimeConfig
    → Target
    → String
    → String
    → Option String
    → Exec World SimulationResult
unfolding evaluate new_id utcnow verdict assess
simulate os io engine config target raw_target action tool = do
  d ← evaluate os io engine target action none
  request_id ← new_id os "req"
  created_at ← utcnow os
  let request = simulated_request action raw_target tool request_id created_at
  let risk = assess request target
  let outcome = verdict config d risk target action tool
  pure (record {
    target = target.canonical;
    action = action;
    tool = elim (given tool) [ none ↦ "none" | some name ↦ name ];
    scope_decision = scope_decision_value d.decision;
    scope_rule = d.rule;
    scope_reason = d.reason;
    risk_tier = tier_value risk.tier;
    risk_score = risk.score;
    approval_required = leb (rank high) (rank risk.tier);
    execution = outcome.0;
    execution_reason = outcome.1;
    policy = engine.name;
  })
