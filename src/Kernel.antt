-- ===== src/Kernel.antt =====
-- noble/kernel.py: the decisions of the security kernel, each with its explanation.
pub mod Requests
use noble_cascade.Authorization.{check, is_identity}
use noble_cascade.Errors.{
  Exec, Result, authorization_denied, err, fault, invalid_input, ok, pure, ◌>>=◌, ◌>>◌,
}
use noble_cascade.Models.{
  allowed, Authorization, PolicyDecision, SecurityRequest, Target, is_object, scope_decision_value,
  target_kind_value,
}
use noble_cascade.Platform.{Platform}
use noble_cascade.Prelude.{
  Bool, List, String, [], all, codes, concat, drop, eqb, given, if◌then◌else◌, is_some, leb, length,
  none, not, starts_with, true, ℕ, ◌&&◌, ◌==◌, ◌||◌, ◌∷◌,
}
use noble_cascade.Scope.{Lookups, ScopeEngine, evaluate}
use noble_cascade.World.{World}

-- the values of `details`
pub record KernelDecision : Type 0 where
  pub subsystem : String
  pub decision : String
  pub allowed : Bool
  pub reason : String
  pub policy : String
  pub rule : String
  pub details : List (String × String)

-- a character of [0-9a-f]
unfoldable pub is_hex : ℕ → Bool
is_hex c = leb b'0' c && leb c b'9' || leb b'a' c && leb c b'f'

-- _ID_RE.fullmatch(text)
unfoldable pub is_request_id : String → Bool
unfolding starts_with all is_hex
is_request_id s =
    let cs = codes s in
    starts_with cs (codes "req-") && eqb (length cs) 36 && all is_hex (drop 4 cs)

-- SecurityKernel.validate_request
unfoldable pub validate_request : String → SecurityRequest → Result KernelDecision
unfolding is_request_id is_identity is_object
validate_request actor_identity request =
    if not (is_request_id request.request_id)
    then err (fault invalid_input "request ID has an invalid format")
    else if not (is_identity request.requester)
    then err (fault invalid_input "requester identity has an invalid format")
    else if not (request.requester == actor_identity)
    then err (fault authorization_denied "requester must match the local OS actor identity")
    else if request.action == "" || not (is_some (given request.tool))
    then err (fault invalid_input "action and registered tool are required")
    else if not (is_object request.parameters)
    then err (fault invalid_input "tool parameters must be an object")
    else ok (record {
      subsystem = "REQUEST";
      decision = "VALID";
      allowed = true;
      reason = "request structure and principal validated";
      policy = "kernel/request-validation";
      rule = "request.schema.principal_binding";
      details = ("request_id", request.request_id) ∷ [];
    })

-- SecurityKernel.evaluate_scope
unfoldable pub evaluate_scope :
    Platform
    → Lookups
    → ScopeEngine
    → Target
    → String
    → Exec World (PolicyDecision × KernelDecision)
unfolding evaluate allowed
evaluate_scope os io engine target action = do
  decision ← evaluate os io engine target action none
  pure (
    decision,
    record {
      subsystem = "SCOPE";
      decision = scope_decision_value decision.decision;
      allowed = allowed decision;
      reason = decision.reason;
      policy = engine.name;
      rule = decision.rule;
      details =
          ("target", target.canonical)
          ∷ ("action", action)
          ∷ ("kind", target_kind_value target.kind)
          ∷ [];
    },
  )

-- SecurityKernel.check_authorization
unfoldable pub check_authorization :
    Platform → SecurityRequest → Target → List String → Exec World (Authorization × KernelDecision)
unfolding check
check_authorization os request target required_permissions = do
  auth ← check os request target required_permissions none
  pure (
    auth,
    record {
      subsystem = "AUTH";
      decision = "AUTHORIZED";
      allowed = true;
      reason = concat "grant " (concat auth.grant_id " permits the required capability");
      policy = "local-os-admin";
      rule = "authorization.exact_match";
      details =
          ("grant_id", auth.grant_id)
          ∷ ("principal", auth.principal)
          ∷ ("capability", auth.capability)
          ∷ [];
    },
  )
