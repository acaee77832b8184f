-- ===== src/Engine/Assured.antt =====
-- What the gates around the registry, the risk and the approval have found when they let a request
-- pass.
use mathlib.Core.Path.{subst}
use noble_cascade.Engine.Frame.{
  Frame, Frame-refl, Frame-trans, end_ok, enter-Frame, note-Frame, obs-Frame, then_ok,
}
use noble_cascade.Engine.Gates.{
  accepts, check_none, identity_refusal, reserve_id, risk_gate, shape_refusal, tool_name,
  validate_gate,
}
use noble_cascade.Engine.Passed.{check_none_ok}
use noble_cascade.Engine.Steps.{Run, Setting, doing, enter, note, obs, on_world}
use noble_cascade.Errors.{Exec, Result, fault, invalid_input, lift, ok, pure, raise_if, ◌>>=◌, ◌>>◌}
use noble_cascade.Models.{
  Json, RiskAssessment, SecurityRequest, Target, ToolDefinition, end, field, risk_assessment, str,
  tier_value, validating,
}
use noble_cascade.Prelude.{
  Bool, Bool-cases, String, ap, arith, concat, eq_iff, inl, inr, none, not, refl, some, sym, true,
  ℕ, ◌∙◌, ◌≡◌,
}
use noble_cascade.Registry.{get_tool}
use noble_cascade.Risk.{assess, raise_to_floor}
use noble_cascade.Store.{Store, is_taken, reserve_request}

reserve_request_tables :
    (request_id : String) (now : ℕ) (s : Store)
    → ((reserve_request request_id now s).1.grants ≡ s.grants)
      × ((reserve_request request_id now s).1.approvals ≡ s.approvals)
unfolding reserve_request
reserve_request_tables request_id now s = elim (Bool-cases (is_taken request_id s)) [
  | inl taken ↦ (ground arith, ground arith)
  | inr free ↦ (ground arith, ground arith)
]

reserve_id-Frame :
    (g : Setting) (request : SecurityRequest) (r r' : Run) {b : Bool}
    → on_world (reserve_id g request) r ≡ (ok b, r')
    → Frame r r'
unfolding reserve_id
reserve_id-Frame g request r r' h =
    let (same_grants, same_approvals) =
      reserve_request_tables request.request_id (g.os.clock r.world.readings) r.world.store in
    record {
      grants = sym (ap (λ (x : Result _ × Run). x.1.world.store.grants) h) ∙ same_grants;
      readings = grind (arith, sym (ap (λ (x : Result _ × Run). x.1.world.readings) h));
      approvals = sym (ap (λ (x : Result _ × Run). x.1.world.store.approvals) h) ∙ same_approvals;
    }

abbrev registry_stage : Setting → SecurityRequest → ToolDefinition → Exec Run ToolDefinition
registry_stage g request definition = do
  raise_if (not (accepts g request definition))
      (fault invalid_input "tool parameters violate declared input schema")
  note g request "REQUESTED" "request validated"
  doing (obs g request "POLICY" "request validated" end)
  pure definition

registry_stage_sound :
    (g : Setting) (request : SecurityRequest) (definition d : ToolDefinition) (r r' : Run)
    → registry_stage g request definition r ≡ (ok d, r')
    → Frame r r' × (definition ≡ d)
registry_stage_sound g request definition d r r' h =
    let refusal = fault invalid_input "tool parameters violate declared input schema" in
    let last : Exec Run ToolDefinition =
      doing (obs g request "POLICY" "request validated" end) >> pure definition in
    let (_, r1, fits, h1) =
      then_ok (raise_if (not (accepts g request definition)) refusal)
        (λ _. note g request "REQUESTED" "request validated" >> last) r r' d h in
    let (_, r2, noted, h2) =
      then_ok (note g request "REQUESTED" "request validated") (λ _. last) r1 r' d h1 in
    let (same, ended) = end_ok g request "POLICY" "request validated" end r2 r' definition d h2 in
    let start : r ≡ r1 = ap (λ (x : Result _ × Run). x.1) fits in
    let first = note-Frame g request "REQUESTED" "request validated" r1 r2 noted in
    (Frame-trans (subst (Frame r) start (Frame-refl r)) (Frame-trans first ended), same)

pub risk_gate_sound :
    (g : Setting) (request : SecurityRequest) (target : Target) (d : ToolDefinition) (r r' : Run)
    {risk : RiskAssessment}
    → risk_gate g request target d r ≡ (ok risk, r')
    → Frame r r' × (raise_to_floor d.risk_tier (assess request target) ≡ risk)
unfolding risk_gate
risk_gate_sound g request target d r r' {risk} h =
    let found = raise_to_floor d.risk_tier (assess request target) in
    let tier = tier_value found.tier in
    let score = field "score" (Json.int found.score) end in
    let last : Exec Run RiskAssessment =
      doing (obs g request "POLICY" (concat "risk classified " tier) score) >> pure found in
    let set = λ (x : Run). record x { risk = some found; risk_tier = tier } in
    let (_, r1, entered, h1) =
      then_ok (enter g request risk_assessment)
        (λ _. doing set >> (note g request "CLASSIFIED" (concat "risk tier " tier) >> last)) r r'
        risk h in
    let (_, r3, noted, h3) =
      then_ok (note g request "CLASSIFIED" (concat "risk tier " tier)) (λ _. last) (set r1) r' risk
        h1 in
    let (same, ended) =
      end_ok g request "POLICY" (concat "risk classified " tier) score r3 r' found risk h3 in
    let first = enter-Frame g request risk_assessment r r1 entered in
    let mid : Frame r1 (set r1) = record {
      grants = refl;
      approvals = refl;
      readings = omega arith;
    } in
    let third = note-Frame g request "CLASSIFIED" (concat "risk tier " tier) (set r1) r3 noted in
    (Frame-trans first (Frame-trans mid (Frame-trans third ended)), same)

abbrev shape_stage : Setting → SecurityRequest → Exec Run ToolDefinition
shape_stage g request = do
  check_none (shape_refusal request)
  definition ← lift (get_tool g.config (tool_name request))
  registry_stage g request definition

shape_stage_sound :
    (g : Setting) (request : SecurityRequest) (d : ToolDefinition) (r r' : Run)
    → shape_stage g request r ≡ (ok d, r')
    → Frame r r' × (get_tool g.config (tool_name request) ≡ ok d)
shape_stage_sound g request d r r' h =
    let found = get_tool g.config (tool_name request) in
    let (_, r1, shaped, h1) =
      then_ok (check_none (shape_refusal request)) (λ _. lift found >>= registry_stage g request) r
        r' d h in
    let (definition, r2, known, h2) = then_ok (lift found) (registry_stage g request) r1 r' d h1 in
    let start = (check_none_ok (shape_refusal request) r r1 shaped).1 in
    let again : r1 ≡ r2 = ap (λ (x : Result _ × Run). x.1) known in
    let (kept, same) = registry_stage_sound g request definition d r2 r' h2 in
    (
      Frame-trans (subst (Frame r) (start ∙ again) (Frame-refl r)) kept,
      ap (λ (x : Result ToolDefinition × Run). x.0) known ∙ ap ok same,
    )

identity_refusal-actor :
    (g : Setting) (request : SecurityRequest)
    → identity_refusal g request ≡ none
    → request.requester ≡ g.actor_identity
unfolding identity_refusal
identity_refusal-actor g request h = (eq_iff request.requester g.actor_identity).0 (ground arith)

pub validate_gate_sound :
    (g : Setting) (request : SecurityRequest) (r r' : Run) {d : ToolDefinition}
    → validate_gate g request r ≡ (ok d, r')
    → Frame r r'
      × (get_tool g.config (tool_name request) ≡ ok d)
      × (request.requester ≡ g.actor_identity)
unfolding validate_gate
validate_gate_sound g request r r' {d} h =
    let fs =
      field "request_id" (str request.request_id)
        (field "action" (str request.action) (field "target" (str request.target) end)) in
    let r1 = obs g request "REQUEST" "request received" fs r in
    let duplicate = fault invalid_input "duplicate request ID is not accepted" in
    let set = λ (x : Run). record x { request_reserved = true } in
    let marked : Unit {0} → Exec Run ToolDefinition = λ _. doing set >> shape_stage g request in
    let taken : Bool → Exec Run ToolDefinition =
      λ reserved. raise_if (not reserved) duplicate >>= marked in
    let (_, r2, entered, h2) =
      then_ok (enter g request validating)
        (λ _.
          check_none (identity_refusal g request) >> (on_world (reserve_id g request) >>= taken))
        r1 r' d h in
    let (_, r3, known, h3) =
      then_ok (check_none (identity_refusal g request))
        (λ _. on_world (reserve_id g request) >>= taken) r2 r' d h2 in
    let (reserved, r4, kept_id, h4) = then_ok (on_world (reserve_id g request)) taken r3 r' d h3 in
    let (_, r5, fresh, h5) = then_ok (raise_if (not reserved) duplicate) marked r4 r' d h4 in
    let (nobody, start) = check_none_ok (identity_refusal g request) r2 r3 known in
    let again : r4 ≡ r5 = ap (λ (x : Result _ × Run). x.1) fresh in
    let (kept, found) = shape_stage_sound g request d (set r5) r' h5 in
    let first = obs-Frame g request "REQUEST" "request received" fs r in
    let second_frame = enter-Frame g request validating r1 r2 entered in
    let third = subst (Frame r2) start (Frame-refl r2) in
    let fourth = subst (Frame r3) again (reserve_id-Frame g request r3 r4 kept_id) in
    let fifth : Frame r5 (set r5) = record {
      grants = refl;
      approvals = refl;
      readings = omega arith;
    } in
    (
      Frame-trans first (
          Frame-trans second_frame
            (Frame-trans third (Frame-trans fourth (Frame-trans fifth kept)))),
      found,
      identity_refusal-actor g request nobody,
    )
