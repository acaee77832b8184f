-- ===== src/Approvals/Valid.antt =====
-- What ApprovalManager.ensure lets pass.
use noble_cascade.Approvals.Decisions.{is_approver}
use noble_cascade.Approvals.Ensure.{ensure, ensure_found, ensure_token, is_valid_for}
use noble_cascade.Approvals.Requests.{scope_digest}
use noble_cascade.Errors.{ok}
use noble_cascade.Models.{
  Approval, ApprovalState, RiskAssessment, Scope, SecurityRequest, granted, not_required,
  requires_approval, same_approval_state, tier_value,
}
use noble_cascade.Platform.{Platform, fingerprint}
use noble_cascade.Prelude.{
  Option, Option-cases, String, ap, arith, eq_iff, given, inl, inr, none, refl, some, true, ℕ, ◌+◌,
  ◌↔◌, ◌≡◌, ◌≢◌, ◌≤◌,
}
use noble_cascade.Store.{get_approval}
use noble_cascade.World.{World, moment_of}
use noble_cascade.World.Reading.{moment_at}

-- The approval is granted to this very request under this very scope, by someone else, and lasts.
pub record Valid (os : Platform) (a : Approval) (request : SecurityRequest) (risk : RiskAssessment)
    (scope : Scope) (moment : ℕ) : Type 0 where
  pub state : a.state ≡ granted
  pub requester : a.requester ≡ request.requester
  pub approver : a.approver ≢ some request.requester
  pub request_fingerprint : a.request_fingerprint ≡ fingerprint os request
  pub same_digest : a.scope_digest ≡ scope_digest os scope
  pub risk_tier : a.risk_tier ≡ tier_value risk.tier
  pub running : moment ≤ a.expires_at

pub same_granted : (s : ApprovalState) → same_approval_state s granted ≡ true → s ≡ granted
unfolding same_approval_state
same_granted not_required h = ground arith
same_granted _ h = ground arith

pub is_approver_iff : (o : Option String) (s : String) → (is_approver o s ≡ true) ↔ (o ≡ some s)
unfolding is_approver
is_approver_iff none s = ((λ h. ground arith), λ h. ground arith)
is_approver_iff (some a) s = ((λ h. ap some ((eq_iff a s).0 h)), λ h. ground (arith, eq_iff a s))

is_valid_for-Valid :
    (os : Platform) (a : Approval) (r : SecurityRequest) (risk : RiskAssessment) (scope : Scope)
    (moment : ℕ)
    → is_valid_for os a r risk scope ≡ true
    → moment ≤ a.expires_at
    → Valid os a r risk scope moment
unfolding is_valid_for
is_valid_for-Valid os a r risk scope moment h l = record {
  state = same_granted a.state (ground arith);
  requester = (eq_iff a.requester r.requester).0 (ground arith);
  approver = λ e. ground (arith, (is_approver_iff a.approver r.requester).1 e);
  request_fingerprint = (eq_iff a.request_fingerprint (fingerprint os r)).0 (ground arith);
  same_digest = (eq_iff a.scope_digest (scope_digest os scope)).0 (ground arith);
  risk_tier = (eq_iff a.risk_tier (tier_value risk.tier)).0 (ground arith);
  running = l;
}

is_valid_for_of_Valid :
    (os : Platform) (a : Approval) (r : SecurityRequest) (risk : RiskAssessment) (scope : Scope)
    (moment : ℕ)
    → Valid os a r risk scope moment
    → is_valid_for os a r risk scope ≡ true
unfolding is_valid_for same_approval_state
is_valid_for_of_Valid os a r risk scope moment v = ground (
  arith,
  v.state,
  (eq_iff a.requester r.requester).1 v.requester,
  (is_approver_iff a.approver r.requester).0,
  v.approver,
  (eq_iff a.request_fingerprint (fingerprint os r)).1 v.request_fingerprint,
  (eq_iff a.scope_digest (scope_digest os scope)).1 v.same_digest,
  (eq_iff a.risk_tier (tier_value risk.tier)).1 v.risk_tier,
)

ensure_found_sound :
    (os : Platform) (r : SecurityRequest) (risk : RiskAssessment) (scope : Scope) (now : Option ℕ)
    (found : Option Approval) (w w' : World) {result : Option Approval}
    → ensure_found os r risk scope now found w ≡ (ok result, w')
    → (a : Approval) × (result ≡ some a)
      × (found ≡ some a)
      × Valid os a r risk scope (moment_at os now w)
      × (w'.store ≡ w.store)
unfolding ensure_found moment_of
ensure_found_sound os r risk scope now none w w' h = cc
ensure_found_sound os r risk scope (some now) (some a) w w' h = (
  a,
  ground arith,
  refl,
  is_valid_for-Valid os a r risk scope now (ground arith) (ground arith),
  ground arith,
)
ensure_found_sound os r risk scope none (some a) w w' h = (
  a,
  ground arith,
  refl,
  is_valid_for-Valid os a r risk scope (os.clock w.readings) (ground arith) (ground arith),
  ground arith,
)

ensure_token_sound :
    (os : Platform) (r : SecurityRequest) (risk : RiskAssessment) (scope : Scope) (now : Option ℕ)
    (token : Option String) (w w' : World) {result : Option Approval}
    → ensure_token os r risk scope now token w ≡ (ok result, w')
    → (a : Approval) × (k : String) × (result ≡ some a)
      × (token ≡ some k)
      × (get_approval k w.store ≡ some a)
      × Valid os a r risk scope (moment_at os now w)
      × (w'.store ≡ w.store)
unfolding ensure_token
ensure_token_sound os r risk scope now none w w' h = cc
ensure_token_sound os r risk scope now (some k) w w' h =
    let (a, shown, found, valid, kept) =
      ensure_found_sound os r risk scope now (get_approval k w.store) w w' h in
    (a, k, shown, refl, found, valid, kept)

-- When `ensure` returns for a request whose tier is HIGH or CRITICAL, it returns the approval that
-- is stored under the request's token, and that approval is granted by another principal than the
-- requester, bound to this request, scope and tier, and not expired. Nothing in the database changes.
pub ensure_sound :
    (os : Platform) (r : SecurityRequest) (risk : RiskAssessment) (scope : Scope) (now : Option ℕ)
    (w w' : World) {result : Option Approval}
    → requires_approval risk ≡ true
    → ensure os r risk scope now w ≡ (ok result, w')
    → (a : Approval) × (k : String) × (result ≡ some a)
      × (given r.approval_token ≡ some k)
      × (get_approval k w.store ≡ some a)
      × Valid os a r risk scope (moment_at os now w)
      × (w'.store ≡ w.store)
unfolding ensure
ensure_sound os r risk scope now w w' n h =
    ensure_token_sound os r risk scope now (given r.approval_token) w w' (ground arith)

-- With no moment given, `ensure` reads the clock once where an approval is required.
pub ensure_reads :
    (os : Platform) (r : SecurityRequest) (risk : RiskAssessment) (scope : Scope) (w w' : World)
    {result : Option Approval}
    → requires_approval risk ≡ true
    → ensure os r risk scope none w ≡ (ok result, w')
    → w'.readings ≡ w.readings + 1
unfolding ensure
ensure_reads os r risk scope w w' n h = elim (Option-cases (given r.approval_token)) [
  | inl e ↦ absurd (unfold ensure_token in ground (arith, n, h, e))
  | inr (k, e) ↦ elim (Option-cases (get_approval k w.store)) [
    | inl f ↦ absurd (unfold ensure_token ensure_found in ground (arith, n, h, e, f))
    | inr (a, f) ↦ unfold ensure_token ensure_found moment_of in ground (arith, n, h, e, f)
  ]
]

-- At a given moment, `ensure` returns every stored approval that is valid then for the request that
-- names it.
pub ensure_complete :
    (os : Platform) (r : SecurityRequest) (risk : RiskAssessment) (scope : Scope) (moment : ℕ)
    (w : World) (a : Approval) (k : String)
    → requires_approval risk ≡ true
    → given r.approval_token ≡ some k
    → get_approval k w.store ≡ some a
    → Valid os a r risk scope moment
    → ensure os r risk scope (some moment) w ≡ (ok (some a), w)
unfolding ensure ensure_token ensure_found moment_of
ensure_complete os r risk scope moment w a k n e f v =
    ground (arith, is_valid_for_of_Valid os a r risk scope moment v, v.running)
