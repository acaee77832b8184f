-- ===== src/Engine/Passed.antt =====
-- What the scope gate has found when it lets a request pass.
use mathlib.Core.Path.{subst, sym}
use noble_cascade.Engine.Frame.{
  Frame, Frame-refl, Frame-trans, Read, Read-wider, enter-Frame, note-Frame, obs-Frame, on_world_ok,
  then_ok,
}
use noble_cascade.Engine.Gates.{
  check_none, decided_stage, scope_gate, scope_refusal, snapshot_stage, target_stage,
}
use noble_cascade.Engine.Steps.{Run, Setting, doing, enter, note, obs, on_world}
use noble_cascade.Errors.{
  Exec, Raised, Result, fault, invalid_input, is_ok, lift, ok, pure, raise_if, ◌>>=◌, ◌>>◌,
}
use noble_cascade.Models.{
  PolicyDecision, Scope, SecurityRequest, Target, end, field, scope_check, scope_decision_value,
  str,
}
use noble_cascade.Prelude.{
  Option, ap, arith, concat, none, not, refl, some, ℕ, ◌+◌, ◌==◌, ◌∙◌, ◌≡◌, ◌≤◌,
}
use noble_cascade.Scope.{evaluate, snapshot}
use noble_cascade.Scope.Allowed.{snapshot_sound}
use noble_cascade.Scope.Listed.{InScope, Listed}
use noble_cascade.Store.{Store}
use noble_cascade.Trust.{redact_sensitive}
use noble_cascade.World.{World, moment_of, utcnow}

-- The policy holds for the target and the action at a moment that was read between the two runs, and
-- lists the target.
pub record InPolicy (g : Setting) (request : SecurityRequest) (target : Target) (r r' : Run)
    : Type 0 where
  pub moment : ℕ
  pub read : Read g r r' moment
  pub within_policy : InScope g.scope target request.action moment
  pub listed : Listed g.io g.scope target target.kind

pub InPolicy-wider :
    (g : Setting) (request : SecurityRequest) (target : Target) {a b c d : Run}
    → a.world.readings ≤ b.world.readings
    → c.world.readings ≤ d.world.readings
    → InPolicy g request target b c
    → InPolicy g request target a d
InPolicy-wider g request target p q k = record {
  moment = k.moment;
  read = Read-wider g k.moment p q k.read;
  within_policy = k.within_policy;
  listed = k.listed;
}

snapshot_reads :
    (g : Setting) (request : SecurityRequest) (target : Target) (w w' : World) {scoped : Scope}
    → snapshot g.os g.io g.scope target request.action w ≡ (ok scoped, w')
    → w'.readings ≡ w.readings + 1
unfolding snapshot evaluate moment_of utcnow
snapshot_reads g request target w w' h = ground (arith, h)

snapshot_stage_sound :
    (g : Setting) (request : SecurityRequest) (target : Target) (r r' : Run) {pair : Target × Scope}
    → snapshot_stage g request target r ≡ (ok pair, r')
    → Frame r r' × (pair.0 ≡ target) × InPolicy g request target r r'
unfolding snapshot_stage
snapshot_stage_sound g request target r r' {pair} h =
    let m = snapshot g.os g.io g.scope target request.action in
    let (scoped, r1, taken, h1) = then_ok (on_world m) (λ s. pure (target, s)) r r' pair h in
    let (within_policy, listed, _, _, _, kept) =
      snapshot_sound g.os g.io g.scope target request.action r.world r1.world
        (on_world_ok m r r1 scoped taken) in
    let same : r1 ≡ r' = ap (λ (x : Result _ × Run). x.1) h1 in
    let counted =
      snapshot_reads g request target r.world r1.world (on_world_ok m r r1 scoped taken) in
    let there : Frame r r1 = record {
      grants = ap (λ (s : Store). s.grants) kept;
      approvals = ap (λ (s : Store). s.approvals) kept;
      readings = omega (arith, counted);
    } in
    (
      subst (Frame r) same there,
      ground arith,
      record {
        moment = g.os.clock r.world.readings;
        read = record {
          reading = r.world.readings;
          after = omega arith;
          before = omega (arith, counted, ap (λ (x : Run). x.world.readings) same);
          same = refl;
        };
        within_policy = within_policy;
        listed = listed;
      },
    )

pub check_none_ok :
    (o : Option Raised) (r r' : Run) → check_none o r ≡ (ok tt, r') → (o ≡ none) × (r ≡ r')
check_none_ok none r r' h = (refl, ap (λ (x : Result _ × Run). x.1) h)
check_none_ok (some e) r r' h =
    absurd (ground (arith, ap (λ (x : Result (Unit {0}) × Run). is_ok x.0) h))

evaluate_store :
    (g : Setting) (request : SecurityRequest) (target : Target) (w w' : World) (d : PolicyDecision)
    → evaluate g.os g.io g.scope target request.action none w ≡ (ok d, w')
    → (w'.store ≡ w.store) × (w'.readings ≡ w.readings + 1)
unfolding evaluate moment_of utcnow
evaluate_store g request target w w' d h = (
  sym (ap (λ (x : Result _ × World). x.1.store) h),
  sym (ap (λ (x : Result _ × World). x.1.readings) h),
)

decided_stage_sound :
    (g : Setting) (request : SecurityRequest) (target : Target) (d : PolicyDecision) (r r' : Run)
    {pair : Target × Scope}
    → decided_stage g request target d r ≡ (ok pair, r')
    → Frame r r' × (pair.0 ≡ target) × InPolicy g request target r r'
unfolding decided_stage
decided_stage_sound g request target d r r' {pair} h =
    let text = scope_decision_value d.decision in
    let message = concat "scope " (concat text (concat ": " d.reason)) in
    let rule = field "rule" (str d.rule) end in
    let last : Exec Run (Target × Scope) =
      check_none (scope_refusal d) >> snapshot_stage g request target in
    let (_, r1, noted, h1) =
      then_ok (note g request text d.reason)
        (λ _. doing (obs g request "POLICY" message rule) >> last) r r' pair h in
    let r2 = obs g request "POLICY" message rule r1 in
    let (_, r3, checked, h3) =
      then_ok (check_none (scope_refusal d)) (λ _. snapshot_stage g request target) r2 r' pair h1 in
    let same = (check_none_ok (scope_refusal d) r2 r3 checked).1 in
    let (kept, named, policy) = snapshot_stage_sound g request target r3 r' h3 in
    let first = note-Frame g request text d.reason r r1 noted in
    let seen = subst (Frame r1) same (obs-Frame g request "POLICY" message rule r1) in
    let before = Frame-trans first seen in
    (
      Frame-trans before kept,
      named,
      InPolicy-wider g request target before.readings (Frame-refl r').readings policy,
    )

target_stage_sound :
    (g : Setting) (request : SecurityRequest) (target : Target) (r r' : Run) {pair : Target × Scope}
    → target_stage g request target r ≡ (ok pair, r')
    → Frame r r' × (pair.0 ≡ target) × InPolicy g request target r r'
unfolding target_stage
target_stage_sound g request target r r' {pair} h =
    let r1 = record r { canonical_target = redact_sensitive g.os target.canonical } in
    let m = evaluate g.os g.io g.scope target request.action none in
    let shaped = not (redact_sensitive g.os target.canonical == target.canonical) in
    let refusal =
      fault invalid_input
        "target contains a credential-shaped value; rename or use a safe directory" in
    let (_, r2, clean, h2) =
      then_ok (raise_if shaped refusal) (λ _. on_world m >>= decided_stage g request target) r1 r'
        pair h in
    let (d, r3, evaluated, h3) =
      then_ok (on_world m) (decided_stage g request target) r2 r' pair h2 in
    let same : r1 ≡ r2 = ap (λ (x : Result _ × Run). x.1) clean in
    let (kept, named, policy) = decided_stage_sound g request target d r3 r' h3 in
    let (stores, counted) =
      evaluate_store g request target r2.world r3.world d (on_world_ok m r2 r3 d evaluated) in
    let there : Frame r2 r3 = record {
      grants = ap (λ (s : Store). s.grants) stores;
      approvals = ap (λ (s : Store). s.approvals) stores;
      readings = omega (arith, counted);
    } in
    let begin : Frame r r2 =
      subst (Frame r) same (record { grants = refl; approvals = refl; readings = omega arith }) in
    let before = Frame-trans begin there in
    (
      Frame-trans before kept,
      named,
      InPolicy-wider g request target before.readings (Frame-refl r').readings policy,
    )

pub scope_gate_sound :
    (g : Setting) (request : SecurityRequest) (normalized : Result Target) (r r' : Run)
    {pair : Target × Scope}
    → scope_gate g request normalized r ≡ (ok pair, r')
    → Frame r r' × (normalized ≡ ok pair.0) × InPolicy g request pair.0 r r'
unfolding scope_gate
scope_gate_sound g request normalized r r' {pair} h =
    let (_, r1, entered, h1) =
      then_ok (enter g request scope_check) (λ _. lift normalized >>= target_stage g request) r r'
        pair h in
    let (target, r2, parsed, h2) =
      then_ok (lift normalized) (target_stage g request) r1 r' pair h1 in
    let same : r1 ≡ r2 = ap (λ (x : Result _ × Run). x.1) parsed in
    let (kept, named, policy) = target_stage_sound g request target r2 r' h2 in
    let first = subst (Frame r) same (enter-Frame g request scope_check r r1 entered) in
    (
      Frame-trans first kept,
      ap (λ (x : Result Target × Run). x.0) parsed ∙ ap ok (sym named),
      subst (λ (t : Target). InPolicy g request t r r') (sym named)
          (InPolicy-wider g request target first.readings (Frame-refl r').readings policy),
    )
