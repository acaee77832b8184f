-- ===== src/Scope/Allowed.antt =====
-- What the scope engine lets pass.
use noble_cascade.Errors.{ok}
use noble_cascade.Models.{Scope, Target, allowed, covers}
use noble_cascade.Platform.{Platform}
use noble_cascade.Prelude.{
  String, [], any, any-none, arith, contains, eq_refl, false, none-any, refl, true, ℕ, ◌∷◌, ◌≡◌,
}
use noble_cascade.Scope.Engine.{
  ScopeEngine, evaluate, evaluate_at, evaluate_kind, scope_of, snapshot,
}
use noble_cascade.Scope.Listed.{InScope, Listed, evaluate_kind-Listed}
use noble_cascade.Scope.Networks.{Lookups}
use noble_cascade.Scope.Patterns.{forbidden_match}
use noble_cascade.World.{World, moment_of}

-- The engine denies by default: it allows a target only if every condition of the policy holds and
-- an entry of the allowlist of the target's kind covers the target.
pub evaluate_at_sound :
    (io : Lookups) (engine : ScopeEngine) (target : Target) (action : String) (moment : ℕ)
    → allowed (evaluate_at io engine target action moment) ≡ true
    → InScope engine target action moment × Listed io engine target target.kind
unfolding evaluate_at allowed
evaluate_at_sound io engine target action moment h =
    let free : any (λ p. forbidden_match p target) engine.forbidden_targets ≡ false =
      ground arith in
    (
      record {
        window = ground arith;
        action_listed = ground arith;
        action_permitted = ground arith;
        target_permitted =
            λ p. any-none (λ p. forbidden_match p target) engine.forbidden_targets p free;
      },
      evaluate_kind-Listed io engine target target.kind refl (ground arith),
    )

-- Within the conditions of the policy, the allowlist of the target's kind decides.
pub evaluate_at-InScope :
    (io : Lookups) (engine : ScopeEngine) (target : Target) (action : String) (moment : ℕ)
    → InScope engine target action moment
    → evaluate_at io engine target action moment ≡ evaluate_kind io engine target
unfolding evaluate_at
evaluate_at-InScope io engine target action moment k = ground (
  arith,
  k.window,
  k.action_listed,
  k.action_permitted,
  none-any (λ p. forbidden_match p target) engine.forbidden_targets k.target_permitted,
)

-- A scope is snapshotted only for a target and an action that the policy allows at the moment of the
-- check, and it is the scope of that target and that action alone.
pub snapshot_sound :
    (os : Platform) (io : Lookups) (engine : ScopeEngine) (target : Target) (action : String)
    (w w' : World) {scope : Scope}
    → snapshot os io engine target action w ≡ (ok scope, w')
    → InScope engine target action (os.clock w.readings)
      × Listed io engine target target.kind
      × (covers scope target ≡ true)
      × (scope.allowed_targets ≡ target.canonical ∷ [])
      × (scope.allowed_actions ≡ action ∷ [])
      × (w'.store ≡ w.store)
unfolding snapshot evaluate moment_of scope_of covers contains
snapshot_sound os io engine target action w w' {scope} h =
    let (within_policy, listed) =
      evaluate_at_sound io engine target action (os.clock w.readings) (ground arith) in
    (
      within_policy,
      listed,
      ground (arith, eq_refl target.canonical),
      ground arith,
      ground arith,
      ground arith,
    )
