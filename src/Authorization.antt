-- ===== src/Authorization.antt =====
-- noble/authorization.py: grants bound to a principal, a target, an action, a purpose and a time.
pub mod Check
pub mod Issue
use noble_cascade.Audit.{Entry, emit}
use noble_cascade.Errors.{
  Exec, Raised, authorization_denied, fault, invalid_input, pure, raise, raise_if, ◌>>=◌, ◌>>◌,
}
use noble_cascade.Models.{Authorization, AuthorizationGrant, SecurityRequest, Target, active_at}
use noble_cascade.Platform.{Platform}
use noble_cascade.Prelude.{
  Bool, List, Option, String, [], all, any, codes, concat, contains, count_chars, eqb, given,
  if◌then◌else◌, is_nil, is_some, leb, length, ltb, none, not, some, ℕ, ◌&&◌, ◌*◌, ◌+◌, ◌==◌, ◌||◌,
  ◌∷◌,
}
use noble_cascade.Store.{get_grant, put_grant}
use noble_cascade.Trust.{redact_sensitive}
use noble_cascade.World.{World, from_store, moment_of, new_id, on_store}

-- ROLE_CAPABILITIES[role], if the role is there
unfoldable pub role_capabilities : String → Option (List String)
role_capabilities role =
    if role == "operator"
    then some ("scan" ∷ "report" ∷ [])
    else if role == "security-auditor"
    then some ("scan" ∷ "verify" ∷ "report" ∷ [])
    else if role == "approver"
    then some ("approve" ∷ [])
    else none

-- ROLE_CAPABILITIES.get(role, frozenset())
unfoldable pub capabilities_of : String → List String
unfolding role_capabilities
capabilities_of role = elim (role_capabilities role) [ none ↦ [] | some cs ↦ cs ]

-- a character of [A-Za-z0-9._-]
unfoldable pub is_identity_code : ℕ → Bool
is_identity_code c =
    leb b'A' c && leb c b'Z'
    || leb b'a' c && leb c b'z'
    || leb b'0' c && leb c b'9'
    || eqb c b'.'
    || eqb c b'_'
    || eqb c b'-'

-- re.fullmatch(r"[A-Za-z0-9._-]{1,64}", text)
unfoldable pub is_identity : String → Bool
unfolding is_identity_code all
is_identity s =
    let cs = codes s in leb 1 (length cs) && leb (length cs) 64 && all is_identity_code cs

-- set(xs).issubset(set(ys))
unfoldable pub is_subset : List String → List String → Bool
unfolding all contains
is_subset xs ys = all (λ x. contains ys x) xs

-- any(ord(ch) < 32 for ch in text)
unfoldable pub has_low_code : String → Bool
unfolding any
has_low_code s = any (λ c. ltb c 32) (codes s)

abbrev pub second : ℕ
second = 1000000

-- the keyword arguments of Authorizer.issue; a negative lifetime is refused as 0 is
pub record IssueRequest : Type 0 where
  pub issuer : String
  pub principal : String
  pub role : String
  pub capability : String
  pub action : String
  pub target : Target
  pub purpose : String
  pub privileges : List String
  pub valid_for_seconds : ℕ
  pub now : Option ℕ

-- the guards of `issue`, in order; none if all of them pass
unfoldable pub issue_refusal : Platform → IssueRequest → Option Raised
issue_refusal os q =
    let role = role_capabilities q.role in
    let caps = capabilities_of q.role in
    if not (is_identity q.issuer) || not (is_identity q.principal)
    then some (fault invalid_input "issuer and principal must be unambiguous local identities")
    else if not (is_some role) || not (contains caps q.capability)
    then some (fault authorization_denied "role cannot grant the requested capability")
    else if is_nil q.privileges || not (is_subset q.privileges caps)
    then some (fault authorization_denied "requested privileges exceed role capabilities")
    else if not (contains q.privileges q.capability)
    then some (fault authorization_denied "grant privilege list must include its capability")
    else if not (leb 1 q.valid_for_seconds && leb q.valid_for_seconds 86400)
    then some (fault invalid_input "grant lifetime must be between 1 and 86400 seconds")
    else if q.purpose == ""
        || ltb 200 (count_chars q.purpose)
        || q.action == ""
        || ltb 100 (count_chars q.action)
    then some (fault invalid_input "purpose and action must be valid nonempty values")
    else if not (redact_sensitive os q.target.canonical == q.target.canonical)
    then some (fault invalid_input "target contains a credential-shaped value")
    else if not (redact_sensitive os q.purpose == q.purpose) || has_low_code q.purpose
    then some (fault invalid_input "purpose cannot contain credentials or control characters")
    else none

unfoldable pub grant_of : IssueRequest → String → ℕ → AuthorizationGrant
grant_of q grant_id moment = record {
  grant_id = grant_id;
  principal = q.principal;
  role = q.role;
  capability = q.capability;
  target_pattern = q.target.canonical;
  purpose = q.purpose;
  privileges = q.privileges;
  valid_from = moment;
  valid_until = moment + q.valid_for_seconds * second;
  granted_by = q.issuer;
  action = q.action;
}

abbrev pub issue_entry : IssueRequest → String → Entry
issue_entry q grant_id = record {
  request_id = grant_id;
  operator = q.issuer;
  action = q.action;
  target = q.target.canonical;
  policy = "local-os-admin";
  decision = "GRANT_ISSUANCE_REQUESTED";
  risk = "UNKNOWN";
  approval = "NOT_REQUIRED";
  tool = "none";
  execution = "none";
  result = "pending";
  reason = concat "exact-target " (concat q.capability (concat " grant for " q.principal));
}

-- the end of `issue`: the event is written before the grant
unfoldable pub commit_grant :
    Platform → IssueRequest → AuthorizationGrant → Exec World AuthorizationGrant
commit_grant os q grant = do
  emit os (issue_entry q grant.grant_id)
  on_store (put_grant grant)
  pure grant

-- Authorizer.issue
unfoldable pub issue : Platform → IssueRequest → Exec World AuthorizationGrant
unfolding moment_of new_id
issue os q = elim (issue_refusal os q) [
  | some e ↦ raise e
  | none ↦ do
    moment ← moment_of os q.now
    grant_id ← new_id os "grant"
    commit_grant os q (grant_of q grant_id moment)
]

-- the condition of `check` on the grant that was found
unfoldable pub permits : AuthorizationGrant → SecurityRequest → Target → List String → ℕ → Bool
permits grant request target required_permissions moment = not (
    not (grant.principal == request.requester)
    || not (grant.target_pattern == target.canonical)
    || not (grant.purpose == request.purpose)
    || not (grant.action == request.action)
    || not (active_at grant moment)
    || not (contains (capabilities_of grant.role) grant.capability)
    || not (is_subset required_permissions grant.privileges))

-- Authorizer.check, from the grant that the database has
unfoldable pub check_grant :
    Platform
    → SecurityRequest
    → Target
    → List String
    → Option ℕ
    → Option AuthorizationGrant
    → Exec World Authorization
unfolding moment_of
check_grant os request target required_permissions now none =
    raise (fault authorization_denied "authorization grant is unknown")
check_grant os request target required_permissions now (some grant) = do
  moment ← moment_of os now
  raise_if (not (permits grant request target required_permissions moment)) (
      fault authorization_denied
        "grant does not authorize this principal, target, purpose or capability")
  pure (record {
    grant_id = grant.grant_id;
    principal = grant.principal;
    role = grant.role;
    capability = grant.capability;
    checked_at = moment;
  })

-- Authorizer.check, from the grant's identifier
unfoldable pub check_given :
    Platform
    → SecurityRequest
    → Target
    → List String
    → Option ℕ
    → Option String
    → Exec World Authorization
unfolding check_grant
check_given os request target required_permissions now none =
    raise (fault authorization_denied "no authorization grant supplied")
check_given os request target required_permissions now (some grant_id) = do
  found ← from_store (get_grant grant_id)
  check_grant os request target required_permissions now found

-- Authorizer.check
unfoldable pub check :
    Platform → SecurityRequest → Target → List String → Option ℕ → Exec World Authorization
unfolding check_given
check os request target required_permissions now =
    check_given os request target required_permissions now (given request.authorization_grant)
