-- ===== src/Simulate/Verdict.antt =====
-- When a simulation answers ALLOWED.
use mathlib.Core.Path.{subst}
use noble_cascade.Config.{RuntimeConfig}
use noble_cascade.Errors.{Raised, Result-cases, err, ok}
use noble_cascade.Models.{
  PolicyDecision, RiskAssessment, ScopeDecision, Target, ToolDefinition, allow, allowed, deny, high,
  rank, requires_approval, tier_value, unknown,
}
use noble_cascade.Platform.{Platform}
use noble_cascade.Prelude.{
  Bool, Bool-cases, Option, Option-cases, String, arith, concat, eq_iff, false, given, inl, inr,
  leb, none, not, refl, some, sym, true, ◌&&◌, ◌+◌, ◌==◌, ◌∙◌, ◌≡◌,
}
use noble_cascade.Registry.{get_tool, has_kind, validate_selection}
use noble_cascade.Risk.{assess}
use noble_cascade.Scope.{Lookups, ScopeEngine, evaluate, evaluate_at}
use noble_cascade.Scope.Allowed.{evaluate_at_sound}
use noble_cascade.Scope.Listed.{InScope, Listed}
use noble_cascade.Simulate.{SimulationResult, simulate, simulated_request, tool_verdict, verdict}
use noble_cascade.World.{World, moment_of, utcnow}

-- The tool that the simulation was asked about, if any, can be selected and needs no approval.
abbrev pub ToolPasses : RuntimeConfig → RiskAssessment → Target → String → Option String → Type 0
ToolPasses config risk target action none = Unit
ToolPasses config risk target action (some name) =
    (tool : ToolDefinition) × (validate_selection config name action target.kind ≡ ok tool)
    × (requires_approval risk ≡ false)

-- the two answers differ
abbrev says_allowed : String × String → Bool
says_allowed v = v.0 == "ALLOWED"

-- the conditions of the answer ALLOWED for a tool that was found
abbrev passes : RiskAssessment → Target → String → ToolDefinition → Bool
passes risk target action tool =
    tool.action == action
    && has_kind tool.allowed_target_kinds target.kind
    && not tool.network_required
    && not (leb (rank high) (rank risk.tier))

tool_verdict-blocked :
    (config : RuntimeConfig) (risk : RiskAssessment) (target : Target) (action name : String)
    (tool : ToolDefinition)
    → get_tool config name ≡ ok tool
    → passes risk target action tool ≡ false
    → (tool_verdict config risk target action name).0 ≡ "BLOCKED"
unfolding tool_verdict
tool_verdict-blocked config risk target action name tool found h =
    rw (tool_verdict, found) (ground arith)

tool_verdict-unknown :
    (config : RuntimeConfig) (risk : RiskAssessment) (target : Target) (action name : String)
    (e : Raised)
    → get_tool config name ≡ err e
    → (tool_verdict config risk target action name).0 ≡ "BLOCKED"
unfolding tool_verdict
tool_verdict-unknown config risk target action name e bad = rw (tool_verdict, bad) refl

blocked : (s : String) → s ≡ "BLOCKED" → (s == "ALLOWED") ≡ false
blocked s e = rw e refl

passes-ToolPasses :
    (config : RuntimeConfig) (risk : RiskAssessment) (target : Target) (action name : String)
    (tool : ToolDefinition)
    → get_tool config name ≡ ok tool
    → passes risk target action tool ≡ true
    → ToolPasses config risk target action (some name)
unfolding validate_selection requires_approval
passes-ToolPasses config risk target action name tool found h =
    (tool, rw (validate_selection, found) (ground arith), ground arith)

tool_verdict_sound :
    (config : RuntimeConfig) (risk : RiskAssessment) (target : Target) (action name : String)
    → says_allowed (tool_verdict config risk target action name) ≡ true
    → ToolPasses config risk target action (some name)
tool_verdict_sound config risk target action name h = elim (Result-cases (get_tool config name)) [
  | inr (e, bad) ↦
      absurd (cc (blocked _ (tool_verdict-unknown config risk target action name e bad), h))
  | inl (tool, found) ↦ elim (Bool-cases (passes risk target action tool)) [
    | inl good ↦ passes-ToolPasses config risk target action name tool found good
    | inr bad ↦
        absurd
          (cc (blocked _ (tool_verdict-blocked config risk target action name tool found bad), h))
  ]
]

verdict_sound :
    (config : RuntimeConfig) (d : PolicyDecision) (risk : RiskAssessment) (target : Target)
    (action : String) (tool : Option String) (x : ScopeDecision)
    → d.decision ≡ x
    → says_allowed (verdict config d risk target action tool) ≡ true
    → (x ≡ allow) × ToolPasses config risk target action (given tool)
unfolding verdict
verdict_sound config d risk target action tool allow e h = elim (Option-cases (given tool)) [
  | inl unnamed ↦ (refl, subst (ToolPasses config risk target action) (sym unnamed) tt)
  | inr (name, named) ↦ (
    refl,
    subst (ToolPasses config risk target action) (sym named)
        (tool_verdict_sound config risk target action name (ground arith)),
  )
]
verdict_sound config d risk target action tool deny e h =
    let never : false ≡ true = rw (verdict, e) at h in absurd (ground arith)
verdict_sound config d risk target action tool unknown e h =
    let never : false ≡ true = rw (verdict, e) at h in absurd (ground arith)

allow-allowed : (d : PolicyDecision) → d.decision ≡ allow → allowed d ≡ true
unfolding allowed
allow-allowed d e = ground arith

-- A simulation that answers ALLOWED has found every condition of the scope policy satisfied at the
-- moment of its check and the target listed; and the tool that it was asked about, if any, can be
-- selected for the action and the target, at a risk that needs no approval. It leaves the database
-- alone, whatever it answers.
pub simulate_sound :
    (os : Platform) (io : Lookups) (engine : ScopeEngine) (config : RuntimeConfig) (target : Target)
    (raw_target action : String) (tool : Option String) (w w' : World) {r : SimulationResult}
    → simulate os io engine config target raw_target action tool w ≡ (ok r, w')
    → (w'.store ≡ w.store)
      × (r.execution ≡ "ALLOWED"
          → InScope engine target action (os.clock w.readings)
            × Listed io engine target target.kind
            × (risk : RiskAssessment) × (r.risk_tier ≡ tier_value risk.tier)
            × ToolPasses config risk target action (given tool))
unfolding simulate evaluate moment_of utcnow
simulate_sound os io engine config target raw_target action tool w w' {r} h = (
  ground arith,
  λ e.
      let d = evaluate_at io engine target action (os.clock w.readings) in
      let request =
        simulated_request action raw_target tool (concat "req" (concat "-" (os.hex w.draws)))
          (os.clock (w.readings + 1)) in
      let risk = assess request target in
      let v = verdict config d risk target action tool in
      let same : v.0 ≡ r.execution = ground arith in
      let answer : says_allowed v ≡ true = (eq_iff v.0 "ALLOWED").1 (same ∙ e) in
      let (allows, passes_too) =
        verdict_sound config d risk target action tool d.decision refl answer in
      let let_through : allowed d ≡ true = allow-allowed d allows in
      let (within_policy, listed) =
        evaluate_at_sound io engine target action (os.clock w.readings) let_through in
      (within_policy, listed, risk, ground arith, passes_too),
)
