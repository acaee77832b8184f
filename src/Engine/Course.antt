-- ===== src/Engine/Course.antt =====
-- The gates of NobleEngine.run (noble/engine.py), as steps that keep a run underway.
use noble_cascade.Authorization.{check}
use noble_cascade.Engine.Gates.{
  authorization_gate, check_none, decided_stage, risk_gate, scope_gate, scope_refusal,
  snapshot_stage, target_stage,
}
use noble_cascade.Engine.Steps.{Run, Setting, doing, enter, on_world}
use noble_cascade.Engine.Underway.{
  Keeps-check_none, Keeps-doing, Keeps-enter, Keeps-note, Keeps-obs, Keeps-world, Same, Steady,
  Tied-moved, Underway, Underway-Steady,
}
use noble_cascade.Engine.Undisturbed.{check-Same, evaluate-Same, snapshot-Same}
use noble_cascade.Errors.{Exec, Result, lift}
use noble_cascade.Errors.Keeps.{
  Keeps, Keeps-bind, Keeps-lift, Keeps-pure, Keeps-raise_if, Keeps-then,
}
use noble_cascade.Models.{
  ExecutionState, PolicyDecision, SecurityRequest, Target, ToolDefinition, authorization_check,
  risk_assessment, scope_check, tier_value,
}
use noble_cascade.Prelude.{Option, String, false, none, refl, some, ◌≡◌}
use noble_cascade.Risk.{assess, raise_to_floor}
use noble_cascade.Scope.{evaluate, snapshot}
use noble_cascade.StateMachine.{is_terminal}
use noble_cascade.Store.{Store}
use noble_cascade.Trust.{redact_sensitive}
use noble_cascade.World.{World}

module _ (s0 : Store) (rid : String) (j : Option String) where
  abbrev On : Run → Type 0
  On = Underway s0 rid j

  abbrev on_steady : (r r' : Run) → Steady r r' → On r → On r'
  on_steady = Underway-Steady s0 rid j

  pub on_enter :
      (g : Setting) (request : SecurityRequest) (s : ExecutionState)
      → is_terminal s ≡ false
      → Keeps On (enter g request s)
  on_enter g request s live =
      Keeps-enter On on_steady g request s
        λ r u. record { live = live; tied = Tied-moved s0 rid j s r u.tied }

  on_world_call :
      {A : Type 0} (m : Exec World A) → ((w : World) → Same w (m w).1) → Keeps On (on_world m)
  on_world_call = Keeps-world On on_steady

  snapshot_stage-On :
      (g : Setting) (request : SecurityRequest) (target : Target)
      → Keeps On (snapshot_stage g request target)
  unfolding snapshot_stage
  snapshot_stage-On g request target =
      let m = snapshot g.os g.io g.scope target request.action in
      Keeps-bind On (on_world m) _
        (on_world_call m (snapshot-Same g.os g.io g.scope target request.action))
        λ scoped. Keeps-pure On (target, scoped)

  decided_stage-On :
      (g : Setting) (request : SecurityRequest) (target : Target) (d : PolicyDecision)
      → Keeps On (decided_stage g request target d)
  unfolding decided_stage
  decided_stage-On g request target d = Keeps-then On _ _ (Keeps-note On on_steady g request _ _) (
      Keeps-then On _ _ (Keeps-obs On on_steady g request _ _ _) (
        Keeps-then On (check_none (scope_refusal d)) _
          (Keeps-check_none On on_steady (scope_refusal d)) (snapshot_stage-On g request target)))

  target_stage-On :
      (g : Setting) (request : SecurityRequest) (target : Target)
      → Keeps On (target_stage g request target)
  unfolding target_stage
  target_stage-On g request target =
      let named =
        λ (r : Run). record r { canonical_target = redact_sensitive g.os target.canonical } in
      let m = evaluate g.os g.io g.scope target request.action none in
      Keeps-then On (doing named) _ (Keeps-doing On on_steady named (λ r. refl)) (
        Keeps-then On _ _ (Keeps-raise_if On _ _) (
          Keeps-bind On (on_world m) _
            (on_world_call m (evaluate-Same g.os g.io g.scope target request.action none))
            λ d. decided_stage-On g request target d))

  pub scope_gate-On :
      (g : Setting) (request : SecurityRequest) (normalized : Result Target)
      → Keeps On (scope_gate g request normalized)
  unfolding scope_gate
  scope_gate-On g request normalized =
      Keeps-then On (enter g request scope_check) _ (on_enter g request scope_check refl) (
        Keeps-bind On (lift normalized) _ (Keeps-lift On normalized)
          λ target. target_stage-On g request target)

  pub authorization_gate-On :
      (g : Setting) (request : SecurityRequest) (target : Target) (d : ToolDefinition)
      → Keeps On (authorization_gate g request target d)
  unfolding authorization_gate
  authorization_gate-On g request target d =
      Keeps-then On (enter g request authorization_check) _
        (on_enter g request authorization_check refl)
        (Keeps-bind On (on_world (check g.os request target d.required_permissions none)) _
          (Keeps-world On on_steady (check g.os request target d.required_permissions none)
            (check-Same g.os request target d.required_permissions none))
          λ auth.
            Keeps-then On _ _ (Keeps-note On on_steady g request _ _)
              (Keeps-then On _ _ (Keeps-obs On on_steady g request _ _ _) (Keeps-pure On auth)))

  pub risk_gate-On :
      (g : Setting) (request : SecurityRequest) (target : Target) (d : ToolDefinition)
      → Keeps On (risk_gate g request target d)
  unfolding risk_gate
  risk_gate-On g request target d =
      let risk = raise_to_floor d.risk_tier (assess request target) in
      let set = λ (r : Run). record r { risk = some risk; risk_tier = tier_value risk.tier } in
      Keeps-then On (enter g request risk_assessment) _ (on_enter g request risk_assessment refl) (
        Keeps-then On (doing set) _ (Keeps-doing On on_steady set (λ r. refl)) (
          Keeps-then On _ _ (Keeps-note On on_steady g request _ _)
            (Keeps-then On _ _ (Keeps-obs On on_steady g request _ _ _) (Keeps-pure On risk))))
