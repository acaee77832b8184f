-- ===== src/Engine/Undisturbed.antt =====
-- What the components that a run of noble/engine.py calls leave alone: the leases and the results.
use noble_cascade.Approvals.{
  approval_of, commit_request, ensure, request_approval, request_entry, request_first,
}
use noble_cascade.Audit.{emit}
use noble_cascade.Authorization.{check}
use noble_cascade.Config.{RuntimeConfig}
use noble_cascade.Engine.Gates.{reserve_id}
use noble_cascade.Engine.Steps.{Setting}
use noble_cascade.Engine.Underway.{Same, Same-refl, Same-trans, emit-Same}
use noble_cascade.Errors.{Exec, builtin, index_error, raise, ◌>>◌}
use noble_cascade.Errors.Keeps.{Keeps, Keeps-bind, Keeps-if, Keeps-pure, Keeps-raise, Keeps-then}
use noble_cascade.Execution.{Host, ToolInvocation, run_command}
use noble_cascade.Models.{
  Approval, Evidence, Finding, Json, RiskAssessment, Scope, SecurityRequest, Target,
  requires_approval,
}
use noble_cascade.Outputs.{Gathering, Observation, add_test, build_evidence}
use noble_cascade.Platform.{Platform}
use noble_cascade.Prelude.{
  Bool, List, Option, String, [], arith, leb, none, not, refl, some, ℕ, ◌&&◌, ◌∷◌,
}
use noble_cascade.Reasoning.{Assessed, evaluate_observation}
use noble_cascade.Scope.{Lookups, ScopeEngine, evaluate, snapshot}
use noble_cascade.Store.{insert_row, put_approval, put_evidence, put_finding}
use noble_cascade.World.{World, moment_of, new_id, on_store, utcnow}

abbrev Leaves : {A : Type 0} → Exec World A → Type 0
Leaves m = (w : World) → Same w (m w).1

pub new_id-Same : (os : Platform) (kind : String) (w : World) → Same w (new_id os kind w).1
unfolding new_id
new_id-Same os kind w = record { leases = refl; requests = refl }

pub utcnow-Same : (os : Platform) (w : World) → Same w (utcnow os w).1
unfolding utcnow
utcnow-Same os w = record { leases = refl; requests = refl }

pub moment_of-Same : (os : Platform) (now : Option ℕ) (w : World) → Same w (moment_of os now w).1
unfolding moment_of
moment_of-Same os none w = utcnow-Same os w
moment_of-Same os (some t) w = Same-refl w

pub evaluate-Same :
    (os : Platform) (io : Lookups) (engine : ScopeEngine) (target : Target) (action : String)
    (now : Option ℕ) (w : World)
    → Same w (evaluate os io engine target action now w).1
unfolding evaluate moment_of
evaluate-Same os io engine target action none w = record { leases = refl; requests = refl }
evaluate-Same os io engine target action (some t) w = Same-refl w

pub snapshot-Same :
    (os : Platform) (io : Lookups) (engine : ScopeEngine) (target : Target) (action : String)
    (w : World)
    → Same w (snapshot os io engine target action w).1
unfolding snapshot evaluate moment_of
snapshot-Same os io engine target action w = record {
  leases = ground arith;
  requests = ground arith;
}

pub check-Same :
    (os : Platform) (request : SecurityRequest) (target : Target) (permissions : List String)
    (now : Option ℕ) (w : World)
    → Same w (check os request target permissions now w).1
unfolding check
check-Same os request target permissions now w = record {
  leases = ground arith;
  requests = ground arith;
}

pub ensure-Same :
    (os : Platform) (request : SecurityRequest) (risk : RiskAssessment) (scoped : Scope)
    (now : Option ℕ) (w : World)
    → Same w (ensure os request risk scoped now w).1
unfolding ensure
ensure-Same os request risk scoped now w = record { leases = ground arith; requests = ground arith }

put_approval-Same : (a : Approval) (w : World) → Same w (on_store (put_approval a) w).1
unfolding put_approval insert_row
put_approval-Same a w = record { leases = ground arith; requests = ground arith }

-- a call that leaves them alone, as one step of a longer call
step_Same : {A : Type 0} (v : World) (m : Exec World A) → Leaves m → Keeps (Same v) m
step_Same v m q = record { after = λ w h. Same-trans v w _ h (q w) }

commit_request-Keeps :
    (os : Platform) (request : SecurityRequest) (risk : RiskAssessment) (scoped : Scope)
    (a : Approval) (v : World)
    → Keeps (Same v) (commit_request os request risk scoped a)
unfolding commit_request
commit_request-Keeps os request risk scoped a v =
    let entry = request_entry request scoped risk a.target a.approval_id in
    Keeps-then (Same v) (emit os entry) _ (step_Same v (emit os entry) (emit-Same os entry)) (
      Keeps-then (Same v) (on_store (put_approval a)) _
        (step_Same v (on_store (put_approval a)) (put_approval-Same a)) (Keeps-pure (Same v) a))

request_first-Keeps :
    (os : Platform) (request : SecurityRequest) (risk : RiskAssessment) (scoped : Scope) (ttl : ℕ)
    (now : Option ℕ) (targets : List String) (v : World)
    → Keeps (Same v) (request_first os request risk scoped ttl now targets)
unfolding request_first commit_request
request_first-Keeps os request risk scoped ttl now [] v =
    let moment = step_Same v (moment_of os now) (moment_of-Same os now) in
    let id = step_Same v (new_id os "approval") (new_id-Same os "approval") in
    Keeps-then (Same v) (moment_of os now >> new_id os "approval") (raise (builtin index_error))
      (Keeps-then (Same v) (moment_of os now) (new_id os "approval") moment id)
      (Keeps-raise (Same v) (builtin index_error))
request_first-Keeps os request risk scoped ttl now (first ∷ _) v =
    Keeps-bind (Same v) (moment_of os now) _
      (step_Same v (moment_of os now) (moment_of-Same os now))
      λ moment.
        Keeps-bind (Same v) (new_id os "approval") _
          (step_Same v (new_id os "approval") (new_id-Same os "approval"))
          λ approval_id.
            commit_request-Keeps os request risk scoped
              (approval_of os request risk scoped ttl first moment approval_id) v

pub request_approval-Same :
    (os : Platform) (request : SecurityRequest) (risk : RiskAssessment) (scoped : Scope) (ttl : ℕ)
    (now : Option ℕ) (w : World)
    → Same w (request_approval os request risk scoped ttl now w).1
unfolding request_approval
request_approval-Same os request risk scoped ttl now w =
    (Keeps-if (Same w) (not (requires_approval risk)) _ _ (Keeps-raise _ _) (
        Keeps-if (Same w) (not (leb 1 ttl && leb ttl 3600)) _ _ (Keeps-raise _ _)
          (request_first-Keeps os request risk scoped ttl now scoped.allowed_targets w))).after
      w (Same-refl w)

pub reserve_id-Same :
    (g : Setting) (request : SecurityRequest) (w : World) → Same w (reserve_id g request w).1
unfolding reserve_id
reserve_id-Same g request w = record { leases = ground arith; requests = ground arith }

pub run_command-Same :
    (os : Platform) (conforms : Json → Json → Bool) (host : Host) (config : RuntimeConfig)
    (invocation : ToolInvocation) (w : World)
    → Same w (run_command os conforms host config invocation w).1
unfolding run_command utcnow
run_command-Same os conforms host config invocation w = record {
  leases = ground arith;
  requests = ground arith;
}

pub build_evidence-Same :
    (os : Platform) (g : Gathering) (seen : Observation) (w : World)
    → Same w (build_evidence os g seen w).1
unfolding build_evidence add_test
build_evidence-Same os g seen w = record { leases = ground arith; requests = ground arith }

pub evaluate_observation-Same :
    (os : Platform) (a : Assessed) (w : World) → Same w (evaluate_observation os a w).1
unfolding evaluate_observation
evaluate_observation-Same os a w = record { leases = ground arith; requests = ground arith }

pub put_evidence-Same : (e : Evidence) (w : World) → Same w (on_store (put_evidence e) w).1
unfolding put_evidence insert_row
put_evidence-Same e w = record { leases = ground arith; requests = ground arith }

pub put_finding-Same :
    (f : Finding) (rid : String) (w : World) → Same w (on_store (put_finding f rid) w).1
unfolding put_finding insert_row
put_finding-Same f rid w = record { leases = ground arith; requests = ground arith }
